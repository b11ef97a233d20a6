-- ===== src/Ptp/Text.antt =====
-- `push_string` of crates/ptp-proto/src/lib.rs: a text as UTF-16 behind its count.
pub mod Cut
pub mod RoundTrip
use bsdroid.Base.{
  ltb, leb, ◌==◌, if◌then◌else◌, ltb→lt, lt→ltb, le→ltb, ==_iff, ==_refl, Bool-cases, Option-cases,
  same, same_iff,
}
use bsdroid.Base.{
  length, get_or, get_elem?, take, drop, find, All, length-append, length-take, length-drop,
  take-append-drop, take-length_append, drop-length_append, take_all, take-min, take-append-take,
  take-take, drop-drop, find-some, All-append, All-take, All-drop, get_or-All,
}
use bsdroid.Base.{Result, ok, err, then_ok, map_err, IsOk}
use bsdroid.Base.{
  IsByte, IsU16, IsU32, IsU64, usize_max, le_u16, le_u32, from_le_u16, from_le_u32, u16_at, u32_at,
  from_le-le_u16, from_le-le_u32, le-from_le_u16, le-from_le_u32,
}
use bsdroid.Base.{
  ℕ, zero, suc, ◌+◌, ◌-◌, ◌*◌, ◌/◌, ◌%◌, ◌^◌, ◌≤◌, ◌<◌, min, max, String, ◌≡◌, refl, sym, ap, ◌∙◌,
  ◌≢◌, ◌↔◌, ◌⊎◌, inl, inr, Bool, true, false, not, ◌&&◌, ◌||◌, Option, none, some, List, [], ◌∷◌,
  ◌++◌, map, append_assoc, append-nil, arith,
}
use bsdroid.Ptp.Utf16.{is_lead, encode_utf16}

-- The loop that appends each unit.
unfoldable pub push_u16s : List ℕ → List ℕ
push_u16s [] = []
push_u16s (u ∷ us) = le_u16 u ++ push_u16s us

-- How many units a text of at most `max` units keeps: a pair is not cut in two.
unfoldable pub cut_length : ℕ → List ℕ → ℕ
cut_length max units =
    let n = min (length units) max in
    if ltb n (length units) && (ltb 0 n && is_lead (get_or units (n - 1) 0)) then n - 1 else n

abbrev pub max_units : ℕ
max_units = 254

unfoldable pub push_string : List ℕ → List ℕ → List ℕ
unfolding push_u16s cut_length
push_string out [] = out ++ 0 ∷ []
push_string out (c ∷ s) =
    let units = encode_utf16 (c ∷ s) in
    let n = cut_length max_units units in
    out ++ ((n + 1) % 256 ∷ (push_u16s (take n units) ++ le_u16 0))
