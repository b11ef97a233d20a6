-- ===== src/Ptp/Examples.antt =====
-- Containers, texts and datasets as an Android phone and the host send them
-- (crates/ptp-proto/src/lib.rs).
use bsdroid.Base.{length, find}
use bsdroid.Base.{ok}
use bsdroid.Base.{ℕ, ◌+◌, ◌*◌, ◌≤◌, ◌≡◌, refl, true, none, List, [], ◌∷◌, ◌++◌, arith}
use bsdroid.Ptp.Header.{command, response}
use bsdroid.Ptp.Container.{Container, parse, parameters, build, build_command}
use bsdroid.Ptp.Container.RoundTrip.{parse-build, parse-build_command}
use bsdroid.Ptp.Container.Rebuild.{build-parse}
use bsdroid.Ptp.Utf16.{encode_utf16}
use bsdroid.Ptp.Reader.{
  new, run, read_u32, take_bytes, read_times, read_u16, read_string, read_u32_array,
}
use bsdroid.Ptp.Text.{max_units, push_string}
use bsdroid.Ptp.Text.Cut.{NoRoom}
use bsdroid.Ptp.Text.RoundTrip.{read_string-push_string}
use bsdroid.Ptp.Object
use bsdroid.Ptp.Object.{build_for_send, read_object_info}
use bsdroid.Ptp.Object.RoundTrip.{sent_object, parse-build_for_send}
use bsdroid.Ptp.PropList.{
  PropEntry, number, text, read_prop_list, read_entry, read_value, parse_object_prop_list,
  fold_prop_list,
}
use bsdroid.Ptp.PropList.Bound.{parse_object_prop_list_bound}
use bsdroid.Ptp.PropList.Fold.{
  has_handle, upsert_all, fold_prop_list-upsert_all, summary, find-fold_prop_list, Distinct,
  fold_prop_list-Distinct,
}
use bsdroid.Ptp.Device.{read_storage_info, read_device_info}
use bsdroid.Ptp.Device.Inside.{StaysInside, readers_stay_inside}

-- An answer with one parameter, and the first byte of the next container behind it.
abbrev ok_answer : List ℕ
ok_answer = 16 ∷ 0 ∷ 0 ∷ 0 ∷ 3 ∷ 0 ∷ 1 ∷ 0x20 ∷ 7 ∷ 0 ∷ 0 ∷ 0 ∷ 1 ∷ 0 ∷ 0 ∷ 0 ∷ []

parse-build_example :
    parse (ok_answer ++ 12 ∷ [])
    ≡ ok (record {
      length = 16;
      kind = response;
      code = 0x2001;
      transaction_id = 7;
      payload = 1 ∷ 0 ∷ 0 ∷ 0 ∷ [];
    })
parse-build_example =
    parse-build response 0x2001 7 (1 ∷ 0 ∷ 0 ∷ 0 ∷ []) (12 ∷ []) ok_answer (omega arith)
      (omega arith) (unfold build in refl)

abbrev ok_container : Container
ok_container = record {
  length = 16;
  kind = response;
  code = 0x2001;
  transaction_id = 7;
  payload = 1 ∷ 0 ∷ 0 ∷ 0 ∷ [];
}

build-parse_example :
    (12 ≤ 16) × (16 ≤ 17) × (build response 0x2001 7 (1 ∷ 0 ∷ 0 ∷ 0 ∷ []) ≡ ok ok_answer)
build-parse_example =
    build-parse (ok_answer ++ 12 ∷ []) ok_container (ground arith) (unfold parse in refl)

parse-build_command_example :
    (c : Container) × (parse (build_command 0x1007 3 (65537 ∷ 0 ∷ []) ++ []) ≡ ok c)
    × (c.kind ≡ command)
    × (c.code ≡ 0x1007)
    × (c.transaction_id ≡ 3)
    × (parameters c ≡ 65537 ∷ 0 ∷ [])
parse-build_command_example =
    parse-build_command 0x1007 3 (65537 ∷ 0 ∷ []) [] (omega arith) (omega arith) (ground arith)

-- A camera emoji, which takes two units, and the letter M.
read_string-push_string_example :
    (read : List ℕ) × (lost : List ℕ) × (run
        (read_string "name")
        (push_string [] (0x1_f4f7 ∷ b'M' ∷ []) ++ 1 ∷ [])
      ≡ ok read)
    × (read ++ lost ≡ 0x1_f4f7 ∷ b'M' ∷ [])
    × (length (encode_utf16 read) ≤ max_units)
    × NoRoom max_units read lost
read_string-push_string_example =
    read_string-push_string (0x1_f4f7 ∷ b'M' ∷ []) (1 ∷ []) "name" (ground arith)

parse-build_for_send_example :
    Object.parse (build_for_send 0x1_0001 0 (b'a' ∷ []) 9 true)
    ≡ ok (sent_object 0x1_0001 0 (b'a' ∷ []) 9 true)
parse-build_for_send_example =
    parse-build_for_send 0x1_0001 0 9 (b'a' ∷ []) true (omega arith) (omega arith) (omega arith)
      (ground arith)

readers_stay_inside_example :
    StaysInside (new (1 ∷ 0 ∷ [])) (read_object_info (new (1 ∷ 0 ∷ []))).1
    × StaysInside (new (1 ∷ 0 ∷ [])) (read_device_info (new (1 ∷ 0 ∷ []))).1
    × StaysInside (new (1 ∷ 0 ∷ [])) (read_storage_info (new (1 ∷ 0 ∷ []))).1
    × StaysInside (new (1 ∷ 0 ∷ [])) (read_u32_array "array" (new (1 ∷ 0 ∷ []))).1
    × StaysInside (new (1 ∷ 0 ∷ [])) (read_prop_list (new (1 ∷ 0 ∷ []))).1
readers_stay_inside_example = readers_stay_inside (new (1 ∷ 0 ∷ [])) (omega arith)

-- A list of one element: object 5 has the format 0x3001.
abbrev one_property : List ℕ
one_property = 1 ∷ 0 ∷ 0 ∷ 0 ∷ 5 ∷ 0 ∷ 0 ∷ 0 ∷ 2 ∷ 0xdc ∷ 4 ∷ 0 ∷ 1 ∷ 0x30 ∷ []

parse_object_prop_list_bound_example : 4 + 1 * 9 ≤ 14
unfolding read_prop_list read_u32 take_bytes read_times read_entry read_u16 read_value
parse_object_prop_list_bound_example =
    parse_object_prop_list_bound one_property
      (record { handle = 5; code = 0xdc02; value = number 0x3001 } ∷ [])
      (unfold parse_object_prop_list in refl)

-- The properties of two objects, mixed.
abbrev two_objects : List PropEntry
two_objects =
    record { handle = 5; code = 0xdc02; value = number 0x3001 }
    ∷ record { handle = 6; code = 0xdc07; value = text (b'a' ∷ []) }
    ∷ record { handle = 5; code = 0xdc07; value = text (b'b' ∷ []) }
    ∷ []

find-fold_prop_list_example :
    find (has_handle 5) (fold_prop_list two_objects) ≡ summary 5 none two_objects
find-fold_prop_list_example = find-fold_prop_list 5 two_objects

fold_prop_list-upsert_all_example : fold_prop_list two_objects ≡ upsert_all [] two_objects
fold_prop_list-upsert_all_example = fold_prop_list-upsert_all two_objects

fold_prop_list-Distinct_example : Distinct (fold_prop_list two_objects)
fold_prop_list-Distinct_example = fold_prop_list-Distinct two_objects
