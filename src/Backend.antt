-- ===== src/Backend.antt =====
-- The device of one mount (crates/mtpfs/src/backend.rs): its settings, its faults, the bytes that
-- were read in advance, and its state.
pub mod Calls
pub mod Read
pub mod Changes
pub mod Folder
pub mod Start
pub mod Examples
use bsdroid.Base.{
  ltb, leb, ◌==◌, if◌then◌else◌, ltb→lt, lt→ltb, le→ltb, ==_iff, ==_refl, Bool-cases, Option-cases,
  same, same_iff,
}
use bsdroid.Base.{
  length, get_or, get_elem?, take, drop, find, All, length-append, length-take, length-drop,
  take-append-drop, take-length_append, drop-length_append, take_all, take-min, take-append-take,
  take-take, drop-drop, find-some, All-append, All-take, All-drop, get_or-All,
}
use bsdroid.Base.{Result, ok, err, then_ok, map_err, IsOk, Result-cases, map_err-ok}
use bsdroid.Base.{
  IsByte, IsU16, IsU32, IsU64, usize_max, le_u16, le_u32, from_le_u16, from_le_u32, u16_at, u32_at,
  from_le-le_u16, from_le-le_u32, le-from_le_u16, le-from_le_u32, u32_at-IsU32,
}
use bsdroid.Base.{
  ℕ, zero, suc, ◌+◌, ◌-◌, ◌*◌, ◌/◌, ◌%◌, ◌^◌, ◌≤◌, ◌<◌, min, max, String, ◌≡◌, refl, sym, ap, ◌∙◌,
  subst, ◌≢◌, ◌↔◌, ◌⊎◌, inl, inr, Bool, true, false, not, ◌&&◌, ◌||◌, Option, none, some, List, [],
  ◌∷◌, ◌++◌, map, append_assoc, append-nil, arith,
}
use bsdroid.Ptp.Error.{ParseError}
use bsdroid.Ptp.PropList.{PropRecord}
use bsdroid.Ptp.Device.{DeviceInfo}
use bsdroid.Usb.Descriptor.{DescriptorError}
use bsdroid.Usb.Device.{UsbError}
use bsdroid.Session.{SessionError, Session}
use bsdroid.Session.Env.{flag, number}

abbrev pub read_ahead : ℕ
read_ahead = 4 * 1024 * 1024

-- A deadline is in milliseconds.
pub record Settings : Type 0 where
  pub timeout : ℕ
  pub write_chunk : ℕ
  pub debug : Bool
  pub no_proplist : Bool
  pub usb_reset : Bool

abbrev pub default_settings : Settings
default_settings = record {
  timeout = 10_000;
  write_chunk = 512 * 1024;
  debug = false;
  no_proplist = false;
  usb_reset = false;
}

-- A setting that is a number above 0.
abbrev pub above_zero : Option ℕ → ℕ → ℕ
above_zero none default = default
above_zero (some n) default = if n == 0 then default else n

abbrev pub in_millis : Option ℕ → Option ℕ
in_millis none = none
in_millis (some n) = some (n * 1000)

-- `Settings::from_env`: the environment is a function from the name of a variable to its value.
unfoldable pub from_env : (String → Option (List ℕ)) → Settings
unfolding flag number
from_env env = record {
  timeout = above_zero (in_millis (number (env "BSDROID_TIMEOUT"))) 10_000;
  write_chunk = above_zero (number (env "BSDROID_WRITE_CHUNK")) (512 * 1024);
  debug = flag (env "BSDROID_DEBUG");
  no_proplist = flag (env "BSDROID_NO_PROPLIST");
  usb_reset = flag (env "BSDROID_USB_RESET");
}

pub data Error : Type 0 where
  no_device : Error
  usb : UsbError → Error
  parse : ParseError → Error
  descriptor : DescriptorError → Error
  device : String → ℕ → Error
  no_storage : Error
  bad_node : List ℕ → Error
  named_device_not_found : List ℕ → Error
  no_partial_read : Error
  too_large : ℕ → Error
  bad_listing : ℕ → Error
  session : SessionError → Error

-- `worth_another_try`.
unfoldable pub worth_another_try : Error → Bool
worth_another_try (usb e) = true
worth_another_try (session e) = true
worth_another_try no_device = false
worth_another_try (parse e) = false
worth_another_try (descriptor e) = false
worth_another_try (device step code) = false
worth_another_try no_storage = false
worth_another_try (bad_node n) = false
worth_another_try (named_device_not_found n) = false
worth_another_try no_partial_read = false
worth_another_try (too_large n) = false
worth_another_try (bad_listing h) = false

unfoldable pub drop_the_folder : List PropRecord → ℕ → List PropRecord
drop_the_folder [] folder = []
drop_the_folder (r ∷ rs) folder =
    let rest = drop_the_folder rs folder in if r.handle == folder then rest else r ∷ rest

-- The sum stops at the largest `u64`.
unfoldable pub split_final_read : ℕ → ℕ → ℕ → ℕ → ℕ × Bool
split_final_read offset want file_size packet =
    if leb file_size (min (offset + want) usize_max)
      && (not (packet == 0) && (not (want == 0) && (want % packet == 0)))
    then (want - 1, true)
    else (want, false)

pub record ReadCache : Type 0 where
  pub handle : ℕ
  pub start : ℕ
  pub data_bytes : List ℕ

-- `ReadCache::get`.
unfoldable pub cached : ReadCache → ℕ → ℕ → ℕ → Option (List ℕ)
cached c handle offset want =
    if not (c.handle == handle) || ltb offset c.start
    then none
    else (let from = offset - c.start in
        if leb (length c.data_bytes) from
        then none
        else some (take (min (from + want) (length c.data_bytes) - from) (drop from c.data_bytes)))

pub record Mtp (D : Type 0) : Type 0 where
  pub session : Session D
  pub settings : Settings
  pub storage : ℕ
  pub partial_read : ℕ
  pub fast_list : Bool
  pub packet : ℕ
  pub cache : Option ReadCache
  pub info : DeviceInfo
