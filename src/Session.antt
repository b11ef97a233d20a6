-- ===== src/Session.antt =====
-- One MTP session over two bulk endpoints (crates/mtp-session/src/lib.rs): its faults, its
-- outcomes, what it needs of a transport, and its state. A time is in milliseconds.
pub mod Setup
pub mod Env
pub mod Answer
pub mod Send
pub mod Life
pub mod Frame
pub mod Script
mod Examples
use bsdroid.Base.{
  ltb, leb, ◌==◌, if◌then◌else◌, ltb→lt, lt→ltb, le→ltb, ==_iff, ==_refl, Bool-cases, Option-cases,
  same, same_iff,
}
use bsdroid.Base.{
  length, get_or, get_elem?, take, drop, find, All, length-append, length-take, length-drop,
  take-append-drop, take-length_append, drop-length_append, take_all, take-min, take-append-take,
  take-take, drop-drop, find-some, All-append, All-take, All-drop, get_or-All,
}
use bsdroid.Base.{Result, ok, err, then_ok, map_err, IsOk, Result-cases}
use bsdroid.Base.{
  IsByte, IsU16, IsU32, IsU64, usize_max, le_u16, le_u32, from_le_u16, from_le_u32, u16_at, u32_at,
  from_le-le_u16, from_le-le_u32, le-from_le_u16, le-from_le_u32, u32_at-IsU32,
}
use bsdroid.Base.{
  ℕ, zero, suc, ◌+◌, ◌-◌, ◌*◌, ◌/◌, ◌%◌, ◌^◌, ◌≤◌, ◌<◌, min, max, String, ◌≡◌, refl, sym, ap, ◌∙◌,
  subst, ◌≢◌, ◌↔◌, ◌⊎◌, inl, inr, Bool, true, false, not, ◌&&◌, ◌||◌, Option, none, some, List, [],
  ◌∷◌, ◌++◌, map, append_assoc, append-nil, arith,
}
use bsdroid.Base.Action.{Action}
use bsdroid.Ptp.Error.{ParseError, PayloadTooLarge}
use bsdroid.Ptp.Header.{ContainerType}
use bsdroid.Ptp.Reader.{parse_u32_array}
use bsdroid.Usb.Bos.{DeviceCapabilities}
use bsdroid.Usb.Device.{LinkSpeed, UsbError}
use Setup.{Config}

-- The code of `std::io::Error`.
abbrev pub IoError : Type 0
IoError = ℕ

-- The last constructor is the model's own: the count of interrupted reads that it follows ran out.
pub data SessionError : Type 0 where
  usb : String → UsbError → SessionError
  parse : String → ParseError → SessionError
  unexpected : String → ContainerType → ContainerType → SessionError
  too_large : String → ℕ → ℕ → SessionError
  incomplete : String → ℕ → ℕ → SessionError
  write_failed : String → IoError → SessionError
  short_read : String → ℕ → ℕ → Option IoError → SessionError
  build : String → PayloadTooLarge → SessionError
  interrupted_too_often : String → SessionError

-- `resp::OK` and `resp::SESSION_ALREADY_OPEN`.
abbrev pub resp_ok : ℕ
resp_ok = 0x2001

abbrev pub session_already_open : ℕ
session_already_open = 0x201e

-- The time that an operation took is left out.
pub record Outcome : Type 0 where
  pub response_code : ℕ
  pub data_bytes : List ℕ
  pub response_params : List ℕ
  pub reads : ℕ

abbrev pub is_success : Outcome → Bool
is_success o = o.response_code == resp_ok

-- An empty payload is an empty list.
unfoldable pub as_u32_array : Outcome → Result ParseError (List ℕ)
unfolding parse_u32_array
as_u32_array o = elim o.data_bytes [ [] ↦ ok [] | b ∷ bs ↦ parse_u32_array (b ∷ bs) ]

pub record StreamOutcome : Type 0 where
  pub response_code : ℕ
  pub response_params : List ℕ
  pub bytes : ℕ
  pub reads : ℕ

pub record SessionOpen : Type 0 where
  pub outcome : Outcome
  pub repaired : Bool
  pub close_response : Option ℕ
  pub dropped : ℕ
  pub wedged : Bool

-- The trait `Transport` over a device of any state. A read takes the size of the buffer, and gives the bytes that it put there.
pub record Transport (D : Type 0) : Type 0 where
  pub write : List ℕ → ℕ → D → Result UsbError ℕ × D
  pub read : ℕ → ℕ → D → Result UsbError (List ℕ) × D
  pub clear_stalls : D → D
  pub speed : D → LinkSpeed
  pub capabilities : ℕ → D → Result UsbError DeviceCapabilities × D
  pub reset : D → Result UsbError (Unit {0}) × D

-- `std::io::Write`, as `write_all` uses it.
pub record Sink (W : Type 0) : Type 0 where
  pub write_all : List ℕ → W → Result IoError (Unit {0}) × W

-- The writer of a `Vec<u8>`, which takes every byte.
abbrev pub vec_sink : Sink (List ℕ)
vec_sink = record { write_all = λ bytes w. (ok tt, w ++ bytes) }

-- `std::io::Read`.
pub data ReadOutcome : Type 0 where
  got : List ℕ → ReadOutcome
  interrupted : ReadOutcome
  failed : IoError → ReadOutcome

pub record Source (R : Type 0) : Type 0 where
  pub read_some : ℕ → R → ReadOutcome × R

-- The reader of a `&[u8]`: the bytes that are left.
abbrev pub slice_source : Source (List ℕ)
slice_source = record { read_some = λ want r. (got (take want r), drop want r) }

pub record Session (D : Type 0) : Type 0 where
  pub device : D
  pub transaction : ℕ
  pub config : Config
  pub session_open : Bool

abbrev pub on_device : {D : Type 0} → Session D → D → Session D
on_device s d = record s { device = d }
