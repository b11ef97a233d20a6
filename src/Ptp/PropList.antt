-- ===== src/Ptp/PropList.antt =====
-- The property list of crates/ptp-proto/src/lib.rs: one request for a whole folder.
pub mod Fold
pub mod Order
pub mod Bound
use bsdroid.Base.{
  ltb, leb, ◌==◌, if◌then◌else◌, ltb→lt, lt→ltb, le→ltb, ==_iff, ==_refl, Bool-cases, Option-cases,
  same, same_iff,
}
use bsdroid.Base.{
  length, get_or, get_elem?, take, drop, find, All, length-append, length-take, length-drop,
  take-append-drop, take-length_append, drop-length_append, take_all, take-min, take-append-take,
  take-take, drop-drop, find-some, All-append, All-take, All-drop, get_or-All,
}
use bsdroid.Base.{Result, ok, err, then_ok, map_err, IsOk}
use bsdroid.Base.{
  IsByte, IsU16, IsU32, IsU64, usize_max, le_u16, le_u32, from_le_u16, from_le_u32, u16_at, u32_at,
  from_le-le_u16, from_le-le_u32, le-from_le_u16, le-from_le_u32, u32_at-IsU32,
}
use bsdroid.Base.{
  ℕ, zero, suc, ◌+◌, ◌-◌, ◌*◌, ◌/◌, ◌%◌, ◌^◌, ◌≤◌, ◌<◌, min, max, String, ◌≡◌, refl, sym, ap, ◌∙◌,
  ◌≢◌, ◌↔◌, ◌⊎◌, inl, inr, Bool, true, false, not, ◌&&◌, ◌||◌, Option, none, some, List, [], ◌∷◌,
  ◌++◌, map, append_assoc, append-nil, arith,
}
use bsdroid.Base.Map
use bsdroid.Base.Map.{Map}
use bsdroid.Ptp.Error.{ParseError, unsupported}
use bsdroid.Ptp.Object.{association}
use bsdroid.Ptp.Reader.{
  Parser, pure, raise, ◌>>=◌, run, take_bytes, read_u8, read_u16, read_u32, read_u64, read_string,
  read_times,
}

-- The codes of `prop`.
abbrev pub storage_id : ℕ
storage_id = 0xdc01

abbrev pub object_format : ℕ
object_format = 0xdc02

abbrev pub object_size : ℕ
object_size = 0xdc04

abbrev pub object_file_name : ℕ
object_file_name = 0xdc07

abbrev pub parent_object : ℕ
parent_object = 0xdc0b

pub data PropValue : Type 0 where
  number : ℕ → PropValue
  text : List ℕ → PropValue
  wide : PropValue

pub record PropEntry : Type 0 where
  pub handle : ℕ
  pub code : ℕ
  pub value : PropValue

pub record PropRecord : Type 0 where
  pub handle : ℕ
  pub name : List ℕ
  pub size : ℕ
  pub format : ℕ
  pub parent : ℕ
  pub storage : ℕ

-- `PropRecord::is_folder`.
unfoldable pub is_folder : PropRecord → Bool
is_folder r = r.format == association

-- The value of an element, in the width that its data type gives. The codes are those of `datatype`.
unfoldable pub read_value : ℕ → Parser PropValue
read_value kind =
    if (kind == 0x0001) || (kind == 0x0002)
    then (do n ← read_u8 "prop_u8"; pure (number n))
    else if (kind == 0x0003) || (kind == 0x0004)
    then (do n ← read_u16 "prop_u16"; pure (number n))
    else if (kind == 0x0005) || (kind == 0x0006)
    then (do n ← read_u32 "prop_u32"; pure (number n))
    else if (kind == 0x0007) || (kind == 0x0008)
    then (do n ← read_u64 "prop_u64"; pure (number n))
    else if (kind == 0x0009) || (kind == 0x000a)
    then (do b ← take_bytes 16 "prop_u128"; pure wide)
    else if kind == 0xffff
    then (do s ← read_string "prop_str"; pure (text s))
    else raise (unsupported "prop_type" kind)

unfoldable pub read_entry : Parser PropEntry
read_entry = do
  handle ← read_u32 "prop_handle"
  code ← read_u16 "prop_code"
  kind ← read_u16 "prop_type"
  value ← read_value kind
  pure (record { handle = handle; code = code; value = value })

unfoldable pub read_prop_list : Parser (List PropEntry)
read_prop_list = do count ← read_u32 "prop_list_count"; read_times count read_entry

unfoldable pub parse_object_prop_list : List ℕ → Result ParseError (List PropEntry)
parse_object_prop_list payload = run read_prop_list payload

-- `PropRecord { handle, ..Default::default() }`.
abbrev pub blank : ℕ → PropRecord
blank handle = record { handle = handle; name = []; size = 0; format = 0; parent = 0; storage = 0 }

-- The assignment that one property makes; `as u16` and `as u32` keep the low bits.
unfoldable pub assign_number : ℕ → ℕ → PropRecord → PropRecord
assign_number code n rec =
    if code == object_size
    then record rec { size = n }
    else if code == object_format
    then record rec { format = n % 2 ^ 16 }
    else if code == parent_object
    then record rec { parent = n % 2 ^ 32 }
    else if code == storage_id
    then record rec { storage = n % 2 ^ 32 }
    else rec

unfoldable pub assign : ℕ → PropValue → PropRecord → PropRecord
unfolding assign_number
assign code (text s) rec = if code == object_file_name then record rec { name = s } else rec
assign code (number n) rec = assign_number code n rec
assign code wide rec = rec

-- `out[at]`, changed in place.
unfoldable pub modify {ℓ} : {A : Type ℓ} → List A → ℕ → (A → A) → List A
modify [] i f = []
modify (x ∷ xs) zero f = f x ∷ xs
modify (x ∷ xs) (suc i) f = x ∷ modify xs i f

-- One round of the loop of `fold_prop_list`: the records so far, and where each handle stands.
unfoldable pub fold_entry : List PropRecord × Map ℕ → PropEntry → List PropRecord × Map ℕ
unfolding modify
fold_entry (out, seen) e = elim (Map.get seen e.handle) [
  | some at ↦ (modify out at (assign e.code e.value), seen)
  | none ↦ (
    modify (out ++ blank e.handle ∷ []) (length out) (assign e.code e.value),
    Map.insert seen e.handle (length out),
  )
]

unfoldable pub fold_loop : List PropRecord × Map ℕ → List PropEntry → List PropRecord
fold_loop s [] = s.0
fold_loop s (e ∷ es) = fold_loop (fold_entry s e) es

unfoldable pub fold_prop_list : List PropEntry → List PropRecord
unfolding fold_loop
fold_prop_list entries = fold_loop ([], []) entries
