-- ===== src/Ptp/Object/RoundTrip.antt =====
-- The dataset that the host sends for a new object, as a reader of it sees it.
use bsdroid.Base.{if◌then◌else◌}
use bsdroid.Base.{All}
use bsdroid.Base.{ok}
use bsdroid.Base.{IsU16, IsU32, le_u16, le_u32}
use bsdroid.Base.{ℕ, String, ◌≡◌, Bool, true, false, List, [], ◌++◌, append_assoc, arith}
use bsdroid.Ptp.Utf16.{IsChar}
use bsdroid.Ptp.Reader.{Parser, ◌>>=◌, read_u16, read_u32}
use bsdroid.Ptp.Reader.Reads.{
  Reads, Reads-pure, Reads-bind, Reads-end, Reads-or_default, run-Reads, read_u16-Reads,
  read_u32-Reads,
}
use bsdroid.Ptp.Text.{max_units, push_string}
use bsdroid.Ptp.Text.Cut.{fit}
use bsdroid.Ptp.Text.RoundTrip.{push_string-Reads}
use bsdroid.Ptp.Object.{ObjectInfo, association, undefined, build_for_send, read_object_info, parse}

abbrev pub sent_object : ℕ → ℕ → List ℕ → ℕ → Bool → ObjectInfo
sent_object storage_id parent name size folder = record {
  storage_id = storage_id;
  object_format = if folder then association else undefined;
  protection_status = 0;
  compressed_size = size;
  image_pix_width = 0;
  image_pix_height = 0;
  parent_object = parent;
  association_type = if folder then 1 else 0;
  filename = fit max_units name;
  capture_date = [];
  modification_date = [];
}

module _ {B : Type 0} (f : ℕ → Parser B) {b : B} where
  u16_field :
      (v : ℕ) (field : String) (zs : List ℕ)
      → IsU16 v
      → Reads (f v) b zs
      → Reads (read_u16 field >>= f) b (le_u16 v ++ zs)
  u16_field v field zs h k = Reads-bind _ f (le_u16 v) zs (read_u16-Reads v field h) k

  u32_field :
      (v : ℕ) (field : String) (zs : List ℕ)
      → IsU32 v
      → Reads (f v) b zs
      → Reads (read_u32 field >>= f) b (le_u32 v ++ zs)
  u32_field v field zs h k = Reads-bind _ f (le_u32 v) zs (read_u32-Reads v field h) k

choice-IsU16 : (folder : Bool) (a b : ℕ) → IsU16 a → IsU16 b → IsU16 (if folder then a else b)
choice-IsU16 true a b ha hb = ha
choice-IsU16 false a b ha hb = hb

module _ (storage_id parent size : ℕ) (name : List ℕ) (folder : Bool) (hs : IsU32 storage_id)
    (hp : IsU32 parent) (hz : IsU32 size) (hn : All IsChar name) where
  sent-Reads : Reads read_object_info (sent_object storage_id parent name size folder) (
      le_u32 storage_id
      ++ (le_u16 (if folder then association else undefined)
          ++ (le_u16 0
              ++ (le_u32 size
                  ++ (le_u16 0
                      ++ (le_u32 0
                          ++ (le_u32 0
                              ++ (le_u32 0
                                  ++ (le_u32 0
                                      ++ (le_u32 0
                                          ++ (le_u32 0
                                              ++ (le_u32 parent
                                                  ++ (le_u16 (if folder then 1 else 0)
                                                      ++ (le_u32 0
                                                          ++ (le_u32 0
                                                            ++ (push_string [] name
                                                            ++ (push_string [] []
                                                            ++ push_string [] [])))))))))))))))))
  unfolding read_object_info fit
  sent-Reads =
      (u32_field _ storage_id "storage_id" _ hs (
        u16_field _ (if folder then association else undefined) "object_format" _
          (choice-IsU16 folder association undefined (omega arith) (omega arith))
          (u16_field _ 0 "protection_status" _ (omega arith) (
            u32_field _ size "compressed_size" _ hz (
              u16_field _ 0 "thumb_format" _ (omega arith) (
                u32_field _ 0 "thumb_compressed_size" _ (omega arith) (
                  u32_field _ 0 "thumb_pix_width" _ (omega arith) (
                    u32_field _ 0 "thumb_pix_height" _ (omega arith) (
                      u32_field _ 0 "image_pix_width" _ (omega arith) (
                        u32_field _ 0 "image_pix_height" _ (omega arith) (
                          u32_field _ 0 "image_bit_depth" _ (omega arith) (
                            u32_field _ parent "parent_object" _ hp (
                              u16_field _ (if folder then 1 else 0) "association_type" _
                                (choice-IsU16 folder 1 0 (omega arith) (omega arith))
                                (u32_field _ 0 "association_desc" _ (omega arith) (
                                  u32_field _ 0 "sequence_number" _ (omega arith) (
                                    Reads-bind _ _ _ _ (push_string-Reads name "filename" hn) (
                                      Reads-bind _ _ _ _
                                        (Reads-or_default _ [] _
                                          (push_string-Reads [] "capture_date" tt))
                                        (Reads-end _ _ _
                                          (Reads-or_default _ [] _
                                            (push_string-Reads [] "modification_date" tt))
                                          (Reads-pure _)))))))))))))))))))

-- A reader of the dataset that the host sends for a new object finds the storage, the folder, the size and the kind that the caller gave, and the name as far as it fits in 254 UTF-16 units; every other field is zero or empty.
pub parse-build_for_send :
    (storage_id parent size : ℕ) (name : List ℕ) (folder : Bool)
    → IsU32 storage_id
    → IsU32 parent
    → IsU32 size
    → All IsChar name
    → parse (build_for_send storage_id parent name size folder)
      ≡ ok (sent_object storage_id parent name size folder)
unfolding parse build_for_send
parse-build_for_send storage_id parent size name folder hs hp hz hn = simp append_assoc at (
    run-Reads read_object_info _ (push_string [] [])
      (sent-Reads storage_id parent size name folder hs hp hz hn))
