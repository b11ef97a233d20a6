-- ===== src/Ptp/Device.antt =====
-- The `StorageInfo` and `DeviceInfo` datasets of crates/ptp-proto/src/lib.rs.
pub mod Inside
use bsdroid.Base.{
  ltb, leb, ◌==◌, if◌then◌else◌, ltb→lt, lt→ltb, le→ltb, ==_iff, ==_refl, Bool-cases, Option-cases,
  same, same_iff,
}
use bsdroid.Base.{
  length, get_or, get_elem?, take, drop, find, All, length-append, length-take, length-drop,
  take-append-drop, take-length_append, drop-length_append, take_all, take-min, take-append-take,
  take-take, drop-drop, find-some, All-append, All-take, All-drop, get_or-All,
}
use bsdroid.Base.{Result, ok, err, then_ok, map_err, IsOk}
use bsdroid.Base.{
  IsByte, IsU16, IsU32, IsU64, usize_max, le_u16, le_u32, from_le_u16, from_le_u32, u16_at, u32_at,
  from_le-le_u16, from_le-le_u32, le-from_le_u16, le-from_le_u32, u32_at-IsU32,
}
use bsdroid.Base.{
  ℕ, zero, suc, ◌+◌, ◌-◌, ◌*◌, ◌/◌, ◌%◌, ◌^◌, ◌≤◌, ◌<◌, min, max, String, ◌≡◌, refl, sym, ap, ◌∙◌,
  ◌≢◌, ◌↔◌, ◌⊎◌, inl, inr, Bool, true, false, not, ◌&&◌, ◌||◌, Option, none, some, List, [], ◌∷◌,
  ◌++◌, map, append_assoc, append-nil, arith,
}
use bsdroid.Ptp.Error.{ParseError}
use bsdroid.Ptp.Reader.{
  Parser, pure, or_default, ◌>>=◌, run, read_u16, read_u32, read_u64, read_u16_array, read_string,
}

pub record StorageInfo : Type 0 where
  pub storage_type : ℕ
  pub filesystem_type : ℕ
  pub access_capability : ℕ
  pub max_capacity : ℕ
  pub free_space_in_bytes : ℕ
  pub free_space_in_objects : ℕ
  pub storage_description : List ℕ
  pub volume_identifier : List ℕ

unfoldable pub read_storage_info : Parser StorageInfo
read_storage_info = do
  storage_type ← read_u16 "storage_type"
  filesystem_type ← read_u16 "filesystem_type"
  access_capability ← read_u16 "access_capability"
  max_capacity ← read_u64 "max_capacity"
  free_space_in_bytes ← read_u64 "free_space_in_bytes"
  free_space_in_objects ← read_u32 "free_space_in_objects"
  storage_description ← read_string "storage_description"
  volume_identifier ← read_string "volume_identifier"
  pure (record {
    storage_type = storage_type;
    filesystem_type = filesystem_type;
    access_capability = access_capability;
    max_capacity = max_capacity;
    free_space_in_bytes = free_space_in_bytes;
    free_space_in_objects = free_space_in_objects;
    storage_description = storage_description;
    volume_identifier = volume_identifier;
  })

-- `StorageInfo::parse`.
unfoldable pub parse_storage_info : List ℕ → Result ParseError StorageInfo
parse_storage_info payload = run read_storage_info payload

pub record DeviceInfo : Type 0 where
  pub standard_version : ℕ
  pub vendor_extension_id : ℕ
  pub vendor_extension_version : ℕ
  pub vendor_extension_desc : List ℕ
  pub operations_supported : List ℕ
  pub events_supported : List ℕ
  pub device_properties_supported : List ℕ
  pub capture_formats : List ℕ
  pub image_formats : List ℕ
  pub manufacturer : List ℕ
  pub model : List ℕ
  pub device_version : List ℕ
  pub serial_number : List ℕ

unfoldable pub read_device_info : Parser DeviceInfo
read_device_info = do
  standard_version ← read_u16 "standard_version"
  vendor_extension_id ← read_u32 "vendor_extension_id"
  vendor_extension_version ← read_u16 "vendor_extension_version"
  vendor_extension_desc ← read_string "vendor_extension_desc"
  functional_mode ← read_u16 "functional_mode"
  operations_supported ← read_u16_array "operations_supported"
  events_supported ← read_u16_array "events_supported"
  device_properties_supported ← read_u16_array "device_properties_supported"
  capture_formats ← read_u16_array "capture_formats"
  image_formats ← read_u16_array "image_formats"
  manufacturer ← or_default [] (read_string "manufacturer")
  model ← or_default [] (read_string "model")
  device_version ← or_default [] (read_string "device_version")
  serial_number ← or_default [] (read_string "serial_number")
  pure (record {
    standard_version = standard_version;
    vendor_extension_id = vendor_extension_id;
    vendor_extension_version = vendor_extension_version;
    vendor_extension_desc = vendor_extension_desc;
    operations_supported = operations_supported;
    events_supported = events_supported;
    device_properties_supported = device_properties_supported;
    capture_formats = capture_formats;
    image_formats = image_formats;
    manufacturer = manufacturer;
    model = model;
    device_version = device_version;
    serial_number = serial_number;
  })

-- `DeviceInfo::parse`.
unfoldable pub parse_device_info : List ℕ → Result ParseError DeviceInfo
parse_device_info payload = run read_device_info payload

-- `contains`.
unfoldable pub contains : List ℕ → ℕ → Bool
contains [] code = false
contains (x ∷ xs) code = (x == code) || contains xs code

unfoldable pub supports : DeviceInfo → ℕ → Bool
unfolding contains
supports info code = contains info.operations_supported code

-- The operation codes of `op` that decide what a filesystem can do.
abbrev pub get_partial_object : ℕ
get_partial_object = 0x101b

abbrev pub get_partial_object_64 : ℕ
get_partial_object_64 = 0x95c1

abbrev pub send_object_info : ℕ
send_object_info = 0x100c

abbrev pub send_object : ℕ
send_object = 0x100d

abbrev pub delete_object : ℕ
delete_object = 0x100b

abbrev pub get_object_prop_list : ℕ
get_object_prop_list = 0x9805

unfoldable pub can_read_part : DeviceInfo → Bool
unfolding supports
can_read_part info = supports info get_partial_object || supports info get_partial_object_64

unfoldable pub can_write : DeviceInfo → Bool
unfolding supports
can_write info = supports info send_object_info && supports info send_object

unfoldable pub can_delete : DeviceInfo → Bool
unfolding supports
can_delete info = supports info delete_object

unfoldable pub has_fast_listing : DeviceInfo → Bool
unfolding supports
has_fast_listing info = supports info get_object_prop_list
