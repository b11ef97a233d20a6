-- ===== src/Usb/Device.antt =====
-- The tables of crates/usb-freebsd/src/device.rs: the status of a transfer, the speed of the link,
-- and the timeout that the library takes. The wire values stand in crates/usb-freebsd/src/sys.rs.
pub mod Tables
use bsdroid.Base.{
  ltb, leb, ◌==◌, if◌then◌else◌, ltb→lt, lt→ltb, le→ltb, ==_iff, ==_refl, Bool-cases, Option-cases,
  same, same_iff,
}
use bsdroid.Base.{
  length, get_or, get_elem?, take, drop, find, All, length-append, length-take, length-drop,
  take-append-drop, take-length_append, drop-length_append, take_all, take-min, take-append-take,
  take-take, drop-drop, find-some, All-append, All-take, All-drop, get_or-All,
}
use bsdroid.Base.{Result, ok, err, then_ok, map_err, IsOk, Result-cases}
use bsdroid.Base.{
  IsByte, IsU16, IsU32, IsU64, usize_max, le_u16, le_u32, from_le_u16, from_le_u32, u16_at, u32_at,
  from_le-le_u16, from_le-le_u32, le-from_le_u16, le-from_le_u32, u32_at-IsU32,
}
use bsdroid.Base.{
  ℕ, zero, suc, ◌+◌, ◌-◌, ◌*◌, ◌/◌, ◌%◌, ◌^◌, ◌≤◌, ◌<◌, min, max, String, ◌≡◌, refl, sym, ap, ◌∙◌,
  subst, ◌≢◌, ◌↔◌, ◌⊎◌, inl, inr, Bool, true, false, not, ◌&&◌, ◌||◌, Option, none, some, List, [],
  ◌∷◌, ◌++◌, map, append_assoc, append-nil, arith,
}
use bsdroid.Usb.Descriptor.{DescriptorError}

pub data TransferStatus : Type 0 where
  completed : TransferStatus
  error : TransferStatus
  timed_out : TransferStatus
  cancelled : TransferStatus
  stall : TransferStatus
  no_device : TransferStatus
  overflow : TransferStatus
  other : ℕ → TransferStatus

unfoldable pub status_from_wire : ℕ → TransferStatus
status_from_wire v =
    if v == 0
    then completed
    else if v == 3
    then error
    else if v == 4
    then timed_out
    else if v == 5
    then cancelled
    else if v == 6
    then stall
    else if v == 7
    then no_device
    else if v == 8
    then overflow
    else other v

unfoldable pub is_ok : TransferStatus → Bool
is_ok completed = true
is_ok s = false

pub data LinkSpeed : Type 0 where
  unknown : LinkSpeed
  low : LinkSpeed
  full : LinkSpeed
  high : LinkSpeed
  variable : LinkSpeed
  super : LinkSpeed
  super_plus : LinkSpeed
  other_speed : ℕ → LinkSpeed

unfoldable pub speed_from_wire : ℕ → LinkSpeed
speed_from_wire v =
    if v == 0
    then unknown
    else if v == 1
    then low
    else if v == 2
    then full
    else if v == 3
    then high
    else if v == 4
    then variable
    else if v == 5
    then super
    else if v == 6
    then super_plus
    else other_speed v

unfoldable pub bits_per_second : LinkSpeed → Option ℕ
bits_per_second low = some 1_500_000
bits_per_second full = some 12_000_000
bits_per_second high = some 480_000_000
bits_per_second super = some 5_000_000_000
bits_per_second super_plus = some 10_000_000_000
bits_per_second unknown = none
bits_per_second variable = none
bits_per_second (other_speed v) = none

unfoldable pub practical_bytes_per_second : LinkSpeed → Option ℕ
practical_bytes_per_second low = some 150_000
practical_bytes_per_second full = some 1_000_000
practical_bytes_per_second high = some 42_000_000
practical_bytes_per_second super = some 400_000_000
practical_bytes_per_second super_plus = some 900_000_000
practical_bytes_per_second unknown = none
practical_bytes_per_second variable = none
practical_bytes_per_second (other_speed v) = none

-- The codes of `libusb20` are kept as they are.
pub data UsbError : Type 0 where
  no_backend : UsbError
  open_failed : ℕ → UsbError
  control : ℕ → UsbError
  endpoint_open : ℕ → ℕ → UsbError
  transfer : ℕ → TransferStatus → UsbError
  short_write : ℕ → ℕ → UsbError
  detach : ℕ → ℕ → UsbError
  reset_failed : ℕ → UsbError
  descriptor : DescriptorError → UsbError
  timeout_too_large : ℕ → UsbError

-- A duration in whole milliseconds, as `as_millis` gives it.
unfoldable pub timeout_millis : ℕ → Result UsbError ℕ
timeout_millis ms =
    if ltb 0xffff_ffff ms then err (timeout_too_large ms) else ok (max 1 (ms % 2 ^ 32))
