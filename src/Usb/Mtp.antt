-- ===== src/Usb/Mtp.antt =====
-- The choice of the MTP interface (crates/usb-freebsd/src/descriptor.rs). The name of an interface
-- comes from the device: `name_of` is a parameter. A name is a list of code points.
pub mod Choice
use bsdroid.Base.{
  ltb, leb, ◌==◌, if◌then◌else◌, ltb→lt, lt→ltb, le→ltb, ==_iff, ==_refl, Bool-cases, Option-cases,
  same, same_iff,
}
use bsdroid.Base.{
  length, get_or, get_elem?, take, drop, find, All, length-append, length-take, length-drop,
  take-append-drop, take-length_append, drop-length_append, take_all, take-min, take-append-take,
  take-take, drop-drop, find-some, All-append, All-take, All-drop, get_or-All,
}
use bsdroid.Base.{Result, ok, err, then_ok, map_err, IsOk, Result-cases}
use bsdroid.Base.{
  IsByte, IsU16, IsU32, IsU64, usize_max, le_u16, le_u32, from_le_u16, from_le_u32, u16_at, u32_at,
  from_le-le_u16, from_le-le_u32, le-from_le_u16, le-from_le_u32, u32_at-IsU32,
}
use bsdroid.Base.{
  ℕ, zero, suc, ◌+◌, ◌-◌, ◌*◌, ◌/◌, ◌%◌, ◌^◌, ◌≤◌, ◌<◌, min, max, String, ◌≡◌, refl, sym, ap, ◌∙◌,
  subst, ◌≢◌, ◌↔◌, ◌⊎◌, inl, inr, Bool, true, false, not, ◌&&◌, ◌||◌, Option, none, some, List, [],
  ◌∷◌, ◌++◌, map, append_assoc, append-nil, arith,
}
use bsdroid.Usb.Descriptor.{
  DescriptorError, Endpoint, Interface, ConfigDescriptor, no_mtp_interface,
  incomplete_mtp_endpoints, is_in, is_bulk, is_interrupt, is_mtp, is_vendor_mtp_candidate,
}

pub record MtpInterface : Type 0 where
  pub interface_number : ℕ
  pub alternate_setting : ℕ
  pub class : ℕ
  pub subclass : ℕ
  pub protocol : ℕ
  pub bulk_in : ℕ
  pub bulk_out : ℕ
  pub interrupt_in : Option ℕ
  pub max_packet_size : ℕ

abbrev pub is_bulk_in : Endpoint → Bool
is_bulk_in e = is_bulk e && is_in e

abbrev pub is_bulk_out : Endpoint → Bool
is_bulk_out e = is_bulk e && not (is_in e)

abbrev pub is_interrupt_in : Endpoint → Bool
is_interrupt_in e = is_interrupt e && is_in e

-- The value that `from_interface` returns for its two bulk endpoints.
unfoldable pub of_endpoints : Interface → Endpoint → Endpoint → MtpInterface
of_endpoints iface i o = record {
  interface_number = iface.number;
  alternate_setting = iface.alternate_setting;
  class = iface.class;
  subclass = iface.subclass;
  protocol = iface.protocol;
  bulk_in = i.address;
  bulk_out = o.address;
  interrupt_in = elim (find is_interrupt_in iface.endpoints) [
    | none ↦ none
    | some e ↦ some e.address
  ];
  max_packet_size = i.max_packet_size;
}

-- The `match` on the pair of endpoints.
unfoldable pub with_bulk :
    Interface → Option Endpoint → Option Endpoint → Result DescriptorError MtpInterface
unfolding of_endpoints
with_bulk iface (some i) (some o) = ok (of_endpoints iface i o)
with_bulk iface (some i) none = err (incomplete_mtp_endpoints true false)
with_bulk iface none (some o) = err (incomplete_mtp_endpoints false true)
with_bulk iface none none = err (incomplete_mtp_endpoints false false)

unfoldable pub from_interface : Interface → Result DescriptorError MtpInterface
unfolding with_bulk
from_interface iface =
    with_bulk iface (find is_bulk_in iface.endpoints) (find is_bulk_out iface.endpoints)

unfoldable pub find_mtp : ConfigDescriptor → Result DescriptorError MtpInterface
unfolding from_interface
find_mtp cfg = elim (find is_mtp cfg.interfaces) [
  | none ↦ err no_mtp_interface
  | some i ↦ from_interface i
]

-- The code points with the property `White_Space`, which `str::trim` removes at both ends.
abbrev pub is_whitespace : ℕ → Bool
is_whitespace c =
    (leb 0x09 c && leb c 0x0d)
    || (c == 0x20)
    || (c == 0x85)
    || (c == 0xa0)
    || (c == 0x1680)
    || (leb 0x2000 c && leb c 0x200a)
    || (c == 0x2028)
    || (c == 0x2029)
    || (c == 0x202f)
    || (c == 0x205f)
    || (c == 0x3000)

abbrev pub trim_start : List ℕ → List ℕ
trim_start [] = []
trim_start (c ∷ cs) = if is_whitespace c then trim_start cs else c ∷ cs

-- The text without the whitespace at its end: a part is dropped when nothing but whitespace follows.
abbrev pub trim_end : List ℕ → List ℕ
trim_end [] = []
trim_end (c ∷ cs) =
    let rest = trim_end cs in
    elim rest [ [] ↦ if is_whitespace c then [] else c ∷ [] | d ∷ ds ↦ c ∷ d ∷ ds ]

unfoldable pub trim : List ℕ → List ℕ
trim s = trim_end (trim_start s)

abbrev pub vendor_mtp_name : List ℕ
vendor_mtp_name = b'M' ∷ b'T' ∷ b'P' ∷ []

-- `if let Some(name) = name_of(..) { if name.trim() == VENDOR_MTP_NAME { .. } }`.
unfoldable pub is_named_mtp : Option (List ℕ) → Bool
unfolding trim
is_named_mtp none = false
is_named_mtp (some name) = same (trim name) vendor_mtp_name

-- The loop over the vendor candidates.
unfoldable pub find_vendor :
    (ℕ → Option (List ℕ)) → List Interface → Result DescriptorError MtpInterface
unfolding from_interface is_named_mtp
find_vendor name_of [] = err no_mtp_interface
find_vendor name_of (i ∷ is) =
    let rest = find_vendor name_of is in
    if is_vendor_mtp_candidate i && is_named_mtp (name_of i.string_index)
    then from_interface i
    else rest

unfoldable pub find_with_names :
    ConfigDescriptor → (ℕ → Option (List ℕ)) → Result DescriptorError MtpInterface
unfolding from_interface find_vendor
find_with_names cfg name_of = elim (find is_mtp cfg.interfaces) [
  | some i ↦ from_interface i
  | none ↦ find_vendor name_of cfg.interfaces
]
