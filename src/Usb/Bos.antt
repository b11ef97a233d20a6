-- ===== src/Usb/Bos.antt =====
-- The list of a device's capabilities, from its BOS descriptor
-- (crates/usb-freebsd/src/descriptor.rs).
pub mod Speeds
use bsdroid.Base.{
  ltb, leb, ◌==◌, if◌then◌else◌, ltb→lt, lt→ltb, le→ltb, ==_iff, ==_refl, Bool-cases, Option-cases,
  same, same_iff,
}
use bsdroid.Base.{
  length, get_or, get_elem?, take, drop, find, All, length-append, length-take, length-drop,
  take-append-drop, take-length_append, drop-length_append, take_all, take-min, take-append-take,
  take-take, drop-drop, find-some, All-append, All-take, All-drop, get_or-All,
}
use bsdroid.Base.{Result, ok, err, then_ok, map_err, IsOk, Result-cases}
use bsdroid.Base.{
  IsByte, IsU16, IsU32, IsU64, usize_max, le_u16, le_u32, from_le_u16, from_le_u32, u16_at, u32_at,
  from_le-le_u16, from_le-le_u32, le-from_le_u16, le-from_le_u32, u32_at-IsU32,
}
use bsdroid.Base.{
  ℕ, zero, suc, ◌+◌, ◌-◌, ◌*◌, ◌/◌, ◌%◌, ◌^◌, ◌≤◌, ◌<◌, min, max, String, ◌≡◌, refl, sym, ap, ◌∙◌,
  subst, ◌≢◌, ◌↔◌, ◌⊎◌, inl, inr, Bool, true, false, not, ◌&&◌, ◌||◌, Option, none, some, List, [],
  ◌∷◌, ◌++◌, map, append_assoc, append-nil, arith,
}
use bsdroid.Usb.Descriptor.{DescriptorError, too_short, wrong_type, zero_length, runs_past_end}

abbrev pub type_bos : ℕ
type_bos = 0x0f

abbrev pub type_device_capability : ℕ
type_device_capability = 0x10

abbrev pub capability_super_speed : ℕ
capability_super_speed = 0x03

abbrev pub capability_super_speed_plus : ℕ
capability_super_speed_plus = 0x0a

pub record DeviceCapabilities : Type 0 where
  pub super_speed : Bool
  pub super_speed_plus : Bool
  pub speeds_supported : Option ℕ

-- The two `match`es on one capability of `len` bytes.
unfoldable pub note_capability : List ℕ → ℕ → ℕ → DeviceCapabilities → DeviceCapabilities
note_capability buf pos len out =
    let kind = get_or buf (pos + 2) 0 in
    if get_or buf (pos + 1) 0 == type_device_capability
    then (if kind == capability_super_speed
        then record out {
          super_speed = true;
          speeds_supported =
              if leb 6 len then some (u16_at buf (pos + 4)) else out.speeds_supported;
        }
        else if kind == capability_super_speed_plus
        then record out { super_speed_plus = true }
        else out)
    else out

-- The loop with a count of rounds. A round moves by at least one byte, so `end` rounds reach the end.
unfoldable pub loop :
    ℕ → List ℕ → ℕ → ℕ → DeviceCapabilities → Result DescriptorError DeviceCapabilities
unfolding note_capability
loop zero buf end pos out = ok out
loop (suc rounds) buf end pos out =
    let len = get_or buf pos 0 in
    let rest = loop rounds buf end (pos + len) (note_capability buf pos len out) in
    if leb (pos + 3) end
    then (if len == 0
        then err (zero_length pos)
        else if ltb end (pos + len)
        then err (runs_past_end pos len (end - pos))
        else rest)
    else ok out

abbrev pub no_capabilities : DeviceCapabilities
no_capabilities = record { super_speed = false; super_speed_plus = false; speeds_supported = none }

unfoldable pub parse : List ℕ → Result DescriptorError DeviceCapabilities
unfolding loop
parse buf =
    if ltb (length buf) 5
    then err (too_short 5 (length buf))
    else if not (get_or buf 1 0 == type_bos)
    then err (wrong_type type_bos (get_or buf 1 0))
    else (let end = min (length buf) (u16_at buf 2) in
        if get_or buf 0 0 == 0
        then err (zero_length 0)
        else loop end buf end (get_or buf 0 0) no_capabilities)

-- `s & SPEED_BIT_SUPER != 0`: bit 3.
abbrev pub has_super_bit : Option ℕ → Bool
has_super_bit none = false
has_super_bit (some s) = not (s / 0x0008 % 2 == 0)

unfoldable pub supports_faster_than_high : DeviceCapabilities → Bool
supports_faster_than_high c =
    if c.super_speed_plus || c.super_speed then true else has_super_bit c.speeds_supported
