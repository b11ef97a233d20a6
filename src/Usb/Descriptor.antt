-- ===== src/Usb/Descriptor.antt =====
-- The configuration descriptor (crates/usb-freebsd/src/descriptor.rs): its types, and the loop that
-- reads it.
pub mod Loop
pub mod Rendered
pub mod RoundTrip
use bsdroid.Base.{
  ltb, leb, ◌==◌, if◌then◌else◌, ltb→lt, lt→ltb, le→ltb, ==_iff, ==_refl, Bool-cases, Option-cases,
  same, same_iff,
}
use bsdroid.Base.{
  length, get_or, get_elem?, take, drop, find, All, length-append, length-take, length-drop,
  take-append-drop, take-length_append, drop-length_append, take_all, take-min, take-append-take,
  take-take, drop-drop, find-some, All-append, All-take, All-drop, get_or-All,
}
use bsdroid.Base.{Result, ok, err, then_ok, map_err, IsOk}
use bsdroid.Base.{
  IsByte, IsU16, IsU32, IsU64, usize_max, le_u16, le_u32, from_le_u16, from_le_u32, u16_at, u32_at,
  from_le-le_u16, from_le-le_u32, le-from_le_u16, le-from_le_u32, u32_at-IsU32,
}
use bsdroid.Base.{
  ℕ, zero, suc, ◌+◌, ◌-◌, ◌*◌, ◌/◌, ◌%◌, ◌^◌, ◌≤◌, ◌<◌, min, max, String, ◌≡◌, refl, sym, ap, ◌∙◌,
  ◌≢◌, ◌↔◌, ◌⊎◌, inl, inr, Bool, true, false, not, ◌&&◌, ◌||◌, Option, none, some, List, [], ◌∷◌,
  ◌++◌, map, append_assoc, append-nil, arith,
}

-- The type byte of each descriptor that the loop reads.
abbrev pub type_configuration : ℕ
type_configuration = 0x02

abbrev pub type_interface : ℕ
type_interface = 0x04

abbrev pub type_endpoint : ℕ
type_endpoint = 0x05

pub data DescriptorError : Type 0 where
  too_short : ℕ → ℕ → DescriptorError
  wrong_type : ℕ → ℕ → DescriptorError
  zero_length : ℕ → DescriptorError
  runs_past_end : ℕ → ℕ → ℕ → DescriptorError
  endpoint_without_interface : DescriptorError
  no_mtp_interface : DescriptorError
  incomplete_mtp_endpoints : Bool → Bool → DescriptorError

pub record Endpoint : Type 0 where
  pub address : ℕ
  pub transfer_type : ℕ
  pub max_packet_size : ℕ

-- Bit 7 of the address.
abbrev pub is_in : Endpoint → Bool
is_in e = not (e.address / 0x80 % 2 == 0)

abbrev pub is_bulk : Endpoint → Bool
is_bulk e = e.transfer_type == 0x02

abbrev pub is_interrupt : Endpoint → Bool
is_interrupt e = e.transfer_type == 0x03

pub record Interface : Type 0 where
  pub number : ℕ
  pub alternate_setting : ℕ
  pub class : ℕ
  pub subclass : ℕ
  pub protocol : ℕ
  pub string_index : ℕ
  pub endpoints : List Endpoint

-- The still imaging class.
abbrev pub is_mtp : Interface → Bool
is_mtp i = (i.class == 0x06) && ((i.subclass == 0x01) && (i.protocol == 0x01))

abbrev pub is_vendor_mtp_candidate : Interface → Bool
is_vendor_mtp_candidate i =
    (i.class == 0xff)
    && ((i.subclass == 0xff) && ((i.protocol == 0x00) && not (i.string_index == 0)))

abbrev pub is_adb : Interface → Bool
is_adb i = (i.class == 0xff) && ((i.subclass == 0x42) && (i.protocol == 0x01))

pub record ConfigDescriptor : Type 0 where
  pub total_length : ℕ
  pub num_interfaces : ℕ
  pub configuration_value : ℕ
  pub interfaces : List Interface

abbrev pub add_endpoint : Endpoint → Interface → Interface
add_endpoint ep i = record i { endpoints = i.endpoints ++ ep ∷ [] }

-- `interfaces.last_mut()`: the endpoint goes to the last interface, and there must be one.
unfoldable pub push_endpoint : List Interface → Endpoint → Result DescriptorError (List Interface)
push_endpoint [] ep = err endpoint_without_interface
push_endpoint (i ∷ []) ep = ok (add_endpoint ep i ∷ [])
push_endpoint (i ∷ j ∷ rest) ep = then_ok (push_endpoint (j ∷ rest) ep) λ out. ok (i ∷ out)

-- `buf[pos + 3] & 0x03` is the low two bits.
unfoldable pub endpoint_at : List ℕ → ℕ → Endpoint
endpoint_at buf pos = record {
  address = get_or buf (pos + 2) 0;
  transfer_type = get_or buf (pos + 3) 0 % 4;
  max_packet_size = u16_at buf (pos + 4);
}

unfoldable pub interface_at : List ℕ → ℕ → Interface
interface_at buf pos = record {
  number = get_or buf (pos + 2) 0;
  alternate_setting = get_or buf (pos + 3) 0;
  class = get_or buf (pos + 5) 0;
  subclass = get_or buf (pos + 6) 0;
  protocol = get_or buf (pos + 7) 0;
  string_index = get_or buf (pos + 8) 0;
  endpoints = [];
}

-- The `match` on the type byte of one descriptor: a descriptor of another type is stepped over.
unfoldable pub read_descriptor :
    List ℕ → ℕ → ℕ → List Interface → Result DescriptorError (List Interface)
unfolding interface_at endpoint_at push_endpoint
read_descriptor buf pos len found =
    let kind = get_or buf (suc pos) 0 in
    if kind == type_interface
    then (if ltb len 9 then err (too_short 9 len) else ok (found ++ interface_at buf pos ∷ []))
    else if kind == type_endpoint
    then (if ltb len 7 then err (too_short 7 len) else push_endpoint found (endpoint_at buf pos))
    else ok found

-- One round of the loop at a position where two bytes remain.
unfoldable pub round : List ℕ → ℕ → ℕ → List Interface → Result DescriptorError (List Interface)
unfolding read_descriptor
round buf end pos found =
    let len = get_or buf pos 0 in
    if len == 0
    then err (zero_length pos)
    else if ltb end (pos + len)
    then err (runs_past_end pos len (end - pos))
    else read_descriptor buf pos len found

-- The loop with a count of rounds. A round moves by at least one byte, so `end` rounds reach the end.
unfoldable pub loop : ℕ → List ℕ → ℕ → ℕ → List Interface → Result DescriptorError (List Interface)
unfolding round
loop zero buf end pos found = ok found
loop (suc rounds) buf end pos found =
    if leb (pos + 2) end
    then then_ok (round buf end pos found)
        (λ more. loop rounds buf end (pos + get_or buf pos 0) more)
    else ok found

unfoldable pub parse : List ℕ → Result DescriptorError ConfigDescriptor
unfolding loop
parse buf =
    if ltb (length buf) 9
    then err (too_short 9 (length buf))
    else if not (get_or buf 1 0 == type_configuration)
    then err (wrong_type type_configuration (get_or buf 1 0))
    else (let end = min (length buf) (u16_at buf 2) in
        if get_or buf 0 0 == 0
        then err (zero_length 0)
        else then_ok (loop end buf end (get_or buf 0 0) []) λ found. ok (record {
          total_length = u16_at buf 2;
          num_interfaces = get_or buf 4 0;
          configuration_value = get_or buf 5 0;
          interfaces = found;
        }))
