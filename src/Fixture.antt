-- ===== src/Fixture.antt =====
-- The reader of a capture fixture (crates/hex-fixture/src/lib.rs). The text of the file is the
-- argument: the search for the file is left out. A panic is an error value.
pub mod RoundTrip
mod Examples
use bsdroid.Base.{
  ltb, leb, ◌==◌, if◌then◌else◌, ltb→lt, lt→ltb, le→ltb, ==_iff, ==_refl, Bool-cases, Option-cases,
  same, same_iff,
}
use bsdroid.Base.{
  length, get_or, get_elem?, take, drop, find, All, length-append, length-take, length-drop,
  take-append-drop, take-length_append, drop-length_append, take_all, take-min, take-append-take,
  take-take, drop-drop, find-some, All-append, All-take, All-drop, get_or-All,
}
use bsdroid.Base.{Result, ok, err, then_ok, map_err, IsOk, Result-cases}
use bsdroid.Base.{
  IsByte, IsU16, IsU32, IsU64, usize_max, le_u16, le_u32, from_le_u16, from_le_u32, u16_at, u32_at,
  from_le-le_u16, from_le-le_u32, le-from_le_u16, le-from_le_u32, u32_at-IsU32,
}
use bsdroid.Base.{
  ℕ, zero, suc, ◌+◌, ◌-◌, ◌*◌, ◌/◌, ◌%◌, ◌^◌, ◌≤◌, ◌<◌, min, max, String, ◌≡◌, refl, sym, ap, ◌∙◌,
  subst, ◌≢◌, ◌↔◌, ◌⊎◌, inl, inr, Bool, true, false, not, ◌&&◌, ◌||◌, Option, none, some, List, [],
  ◌∷◌, ◌++◌, map, append_assoc, append-nil, arith,
}
use bsdroid.Usb.Mtp.{is_whitespace}

pub data Panic : Type 0 where
  not_a_digit : ℕ → Panic
  odd_count : ℕ → Panic

abbrev pub newline : ℕ
newline = 10

abbrev pub starts_with_newline : List ℕ → Bool
starts_with_newline [] = false
starts_with_newline (c ∷ cs) = c == newline

abbrev pub cons_line : ℕ → List (List ℕ) → List (List ℕ)
cons_line c [] = (c ∷ []) ∷ []
cons_line c (l ∷ ls) = (c ∷ l) ∷ ls

-- `text.lines()`: a line ends at a newline, with a carriage return before it left out; a text that ends with a newline has no line behind it.
unfoldable pub lines : List ℕ → List (List ℕ)
lines [] = []
lines (c ∷ cs) =
    let rest = lines cs in
    if c == newline
    then [] ∷ rest
    else if (c == 13) && starts_with_newline cs
    then rest
    else cons_line c rest

-- `line.split_once('#')`.
unfoldable pub before_comment : List ℕ → List ℕ
before_comment [] = []
before_comment (c ∷ cs) = let rest = before_comment cs in if c == b'#' then [] else c ∷ rest

abbrev pub is_ascii_hexdigit : ℕ → Bool
is_ascii_hexdigit c =
    (leb b'0' c && leb c b'9') || ((leb b'a' c && leb c b'f') || (leb b'A' c && leb c b'F'))

-- The loop over the characters of one line.
unfoldable pub read_digits : List ℕ → Result Panic (List ℕ)
read_digits [] = ok []
read_digits (c ∷ cs) =
    let rest = read_digits cs in
    if is_whitespace c
    then rest
    else if is_ascii_hexdigit c
    then then_ok rest (λ ds. ok (c ∷ ds))
    else err (not_a_digit c)

-- The loop over the lines.
unfoldable pub read_lines : List (List ℕ) → Result Panic (List ℕ)
unfolding read_digits before_comment
read_lines [] = ok []
read_lines (l ∷ ls) =
    then_ok (read_digits (before_comment l)) λ ds. then_ok (read_lines ls) λ es. ok (ds ++ es)

-- The last case is not reached: every character was checked.
unfoldable pub hex_value : ℕ → ℕ
hex_value b =
    if leb b'0' b && leb b b'9'
    then b - b'0'
    else if leb b'a' b && leb b b'f'
    then b - b'a' + 10
    else if leb b'A' b && leb b b'F'
    then b - b'A' + 10
    else 0

-- `(hi << 4) | lo` for each pair.
unfoldable pub pairs : List ℕ → List ℕ
unfolding hex_value
pairs (a ∷ b ∷ rest) = (hex_value a * 16 + hex_value b) ∷ pairs rest
pairs rest = []

unfoldable pub load : List ℕ → Result Panic (List ℕ)
unfolding lines read_lines pairs
load content =
    then_ok (read_lines (lines content)) λ digits.
      if length digits % 2 == 0 then ok (pairs digits) else err (odd_count (length digits))
