-- ===== src/Ptp/Object.antt =====
-- The `ObjectInfo` dataset of crates/ptp-proto/src/lib.rs.
pub mod RoundTrip
use bsdroid.Base.{
  ltb, leb, ◌==◌, if◌then◌else◌, ltb→lt, lt→ltb, le→ltb, ==_iff, ==_refl, Bool-cases, Option-cases,
  same, same_iff,
}
use bsdroid.Base.{
  length, get_or, get_elem?, take, drop, find, All, length-append, length-take, length-drop,
  take-append-drop, take-length_append, drop-length_append, take_all, take-min, take-append-take,
  take-take, drop-drop, find-some, All-append, All-take, All-drop, get_or-All,
}
use bsdroid.Base.{Result, ok, err, then_ok, map_err, IsOk}
use bsdroid.Base.{
  IsByte, IsU16, IsU32, IsU64, usize_max, le_u16, le_u32, from_le_u16, from_le_u32, u16_at, u32_at,
  from_le-le_u16, from_le-le_u32, le-from_le_u16, le-from_le_u32,
}
use bsdroid.Base.{
  ℕ, zero, suc, ◌+◌, ◌-◌, ◌*◌, ◌/◌, ◌%◌, ◌^◌, ◌≤◌, ◌<◌, min, max, String, ◌≡◌, refl, sym, ap, ◌∙◌,
  ◌≢◌, ◌↔◌, ◌⊎◌, inl, inr, Bool, true, false, not, ◌&&◌, ◌||◌, Option, none, some, List, [], ◌∷◌,
  ◌++◌, map, append_assoc, append-nil, arith,
}
use bsdroid.Ptp.Error.{ParseError}
use bsdroid.Ptp.Reader.{Parser, pure, or_default, ◌>>=◌, run, read_u16, read_u32, read_string}
use bsdroid.Ptp.Text.{push_string}

-- `format::ASSOCIATION` and `format::UNDEFINED`.
abbrev pub association : ℕ
association = 0x3001

abbrev pub undefined : ℕ
undefined = 0x3000

pub record ObjectInfo : Type 0 where
  pub storage_id : ℕ
  pub object_format : ℕ
  pub protection_status : ℕ
  pub compressed_size : ℕ
  pub image_pix_width : ℕ
  pub image_pix_height : ℕ
  pub parent_object : ℕ
  pub association_type : ℕ
  pub filename : List ℕ
  pub capture_date : List ℕ
  pub modification_date : List ℕ

unfoldable pub is_folder : ObjectInfo → Bool
is_folder o = o.object_format == association

unfoldable pub build_for_send : ℕ → ℕ → List ℕ → ℕ → Bool → List ℕ
build_for_send storage_id parent name size folder =
    le_u32 storage_id
    ++ (le_u16 (if folder then association else undefined)
        ++ (le_u16 0
            ++ (le_u32 size
                ++ (le_u16 0
                    ++ (le_u32 0
                        ++ (le_u32 0
                            ++ (le_u32 0
                                ++ (le_u32 0
                                    ++ (le_u32 0
                                        ++ (le_u32 0
                                            ++ (le_u32 parent
                                                ++ (le_u16 (if folder then 1 else 0)
                                                    ++ (le_u32 0
                                                        ++ (le_u32 0
                                                            ++ (push_string [] name
                                                            ++ (push_string [] []
                                                            ++ (push_string [] []
                                                            ++ push_string [] [])))))))))))))))))

-- A device can stop after the name: a date that cannot be read is empty.
unfoldable pub read_object_info : Parser ObjectInfo
read_object_info = do
  storage_id ← read_u32 "storage_id"
  object_format ← read_u16 "object_format"
  protection_status ← read_u16 "protection_status"
  compressed_size ← read_u32 "compressed_size"
  thumb_format ← read_u16 "thumb_format"
  thumb_compressed_size ← read_u32 "thumb_compressed_size"
  thumb_pix_width ← read_u32 "thumb_pix_width"
  thumb_pix_height ← read_u32 "thumb_pix_height"
  image_pix_width ← read_u32 "image_pix_width"
  image_pix_height ← read_u32 "image_pix_height"
  image_bit_depth ← read_u32 "image_bit_depth"
  parent_object ← read_u32 "parent_object"
  association_type ← read_u16 "association_type"
  association_desc ← read_u32 "association_desc"
  sequence_number ← read_u32 "sequence_number"
  filename ← read_string "filename"
  capture_date ← or_default [] (read_string "capture_date")
  modification_date ← or_default [] (read_string "modification_date")
  pure (record {
    storage_id = storage_id;
    object_format = object_format;
    protection_status = protection_status;
    compressed_size = compressed_size;
    image_pix_width = image_pix_width;
    image_pix_height = image_pix_height;
    parent_object = parent_object;
    association_type = association_type;
    filename = filename;
    capture_date = capture_date;
    modification_date = modification_date;
  })

-- `ObjectInfo::parse`.
unfoldable pub parse : List ℕ → Result ParseError ObjectInfo
parse payload = run read_object_info payload
