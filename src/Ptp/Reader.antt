-- ===== src/Ptp/Reader.antt =====
-- The cursor `Reader` of crates/ptp-proto/src/lib.rs. A reading function takes the cursor and
-- gives its result and the cursor, which has also moved where the result is an error.
pub mod Reads
pub mod Bounds
pub mod Arrays
use bsdroid.Base.{
  ltb, leb, ◌==◌, if◌then◌else◌, ltb→lt, lt→ltb, le→ltb, ==_iff, ==_refl, Bool-cases, Option-cases,
  same, same_iff,
}
use bsdroid.Base.{
  length, get_or, get_elem?, take, drop, find, All, length-append, length-take, length-drop,
  take-append-drop, take-length_append, drop-length_append, take_all, take-min, take-append-take,
  take-take, drop-drop, find-some, All-append, All-take, All-drop, get_or-All,
}
use bsdroid.Base.{Result, ok, err, then_ok, map_err, IsOk}
use bsdroid.Base.{
  IsByte, IsU16, IsU32, IsU64, usize_max, le_u16, le_u32, from_le_u16, from_le_u32, u16_at, u32_at,
  from_le-le_u16, from_le-le_u32, le-from_le_u16, le-from_le_u32,
}
use bsdroid.Base.{
  ℕ, zero, suc, ◌+◌, ◌-◌, ◌*◌, ◌/◌, ◌%◌, ◌^◌, ◌≤◌, ◌<◌, min, max, String, ◌≡◌, refl, sym, ap, ◌∙◌,
  ◌≢◌, ◌↔◌, ◌⊎◌, inl, inr, Bool, true, false, not, ◌&&◌, ◌||◌, Option, none, some, List, [], ◌∷◌,
  ◌++◌, map, append_assoc, append-nil, arith,
}
use bsdroid.Ptp.Error.{ParseError, truncated, bad_string}
use bsdroid.Ptp.Utf16.{from_utf16}

pub record Reader : Type 0 where
  pub buf : List ℕ
  pub pos : ℕ

abbrev pub Parser {ℓ} : Type ℓ → Type ℓ
Parser A = Reader → Result ParseError A × Reader

module _ {ℓ} {A : Type ℓ} where
  abbrev pub pure : A → Parser A
  pure a r = (ok a, r)

  abbrev pub raise : ParseError → Parser A
  raise e r = (err e, r)

  abbrev pub default_of : A → Result ParseError A → A
  default_of d (ok a) = a
  default_of d (err e) = d

  -- `unwrap_or_default` on the result of a read: the cursor stays where the read left it.
  unfoldable pub or_default : A → Parser A → Parser A
  or_default d p r = (ok (default_of d (p r).0), (p r).1)

module _ {ℓ κ} {A : Type ℓ} {B : Type κ} where
  abbrev pub continue : Result ParseError A → (A → Parser B) → Parser B
  continue (ok a) f r = f a r
  continue (err e) f r = (err e, r)

  infixl 5 ◌>>=◌
  abbrev pub ◌>>=◌ : Parser A → (A → Parser B) → Parser B
  ◌>>=◌ p f r = continue (p r).0 f (p r).1

abbrev pub new : List ℕ → Reader
new buf = record { buf = buf; pos = 0 }

unfoldable pub remaining : Reader → ℕ
remaining r = length r.buf - r.pos

-- `take`: the next `n` bytes.
unfoldable pub take_bytes : ℕ → String → Parser (List ℕ)
unfolding remaining
take_bytes n field r =
    if ltb (remaining r) n
    then (err (truncated field n (remaining r)), r)
    else (ok (take n (drop r.pos r.buf)), record r { pos = r.pos + n })

unfoldable pub read_u8 : String → Parser ℕ
read_u8 field = do b ← take_bytes 1 field; pure (get_or b 0 0)

unfoldable pub read_u16 : String → Parser ℕ
read_u16 field = do b ← take_bytes 2 field; pure (u16_at b 0)

unfoldable pub read_u32 : String → Parser ℕ
read_u32 field = do b ← take_bytes 4 field; pure (u32_at b 0)

unfoldable pub read_u64 : String → Parser ℕ
read_u64 field = do b ← take_bytes 8 field; pure (u32_at b 0 + u32_at b 4 * 2 ^ 32)

-- `chunks_exact(2)`, each chunk read as a `u16`.
unfoldable pub u16_chunks : List ℕ → List ℕ
u16_chunks (a ∷ b ∷ rest) = from_le_u16 a b ∷ u16_chunks rest
u16_chunks rest = []

-- `if units.last() == Some(&0) { units.pop(); }`
unfoldable pub drop_terminator : List ℕ → List ℕ
drop_terminator [] = []
drop_terminator (u ∷ []) = if u == 0 then [] else u ∷ []
drop_terminator (u ∷ v ∷ us) = u ∷ drop_terminator (v ∷ us)

unfoldable pub or_bad_string : String → Option (List ℕ) → Parser (List ℕ)
or_bad_string field none = raise (bad_string field)
or_bad_string field (some s) = pure s

unfoldable pub read_string : String → Parser (List ℕ)
unfolding or_bad_string
read_string field = do
  count ← read_u8 field
  if count == 0 then pure [] else do
    bytes ← take_bytes (count * 2) field
    or_bad_string field (from_utf16 (drop_terminator (u16_chunks bytes)))

-- The loop of `read_array`.
unfoldable pub read_times {ℓ} : {A : Type ℓ} → ℕ → Parser A → Parser (List A)
read_times zero read = pure []
read_times (suc n) read = do x ← read; xs ← read_times n read; pure (x ∷ xs)

-- `checked_mul` fails above `usize::MAX`; the bytes are counted before the first element is read.
unfoldable pub read_array {ℓ} : {A : Type ℓ} → String → ℕ → (String → Parser A) → Parser (List A)
unfolding remaining
read_array field width read = do
  count ← read_u32 field
  λ r.
      if ltb usize_max (count * width)
      then (err (truncated field usize_max (remaining r)), r)
      else if ltb (remaining r) (count * width)
      then (err (truncated field (count * width) (remaining r)), r)
      else read_times count (read field) r

unfoldable pub read_u16_array : String → Parser (List ℕ)
read_u16_array field = read_array field 2 read_u16

unfoldable pub read_u32_array : String → Parser (List ℕ)
read_u32_array field = read_array field 4 read_u32

-- The result alone, as a caller of a parse function sees it.
abbrev pub run {ℓ} : {A : Type ℓ} → Parser A → List ℕ → Result ParseError A
run p buf = (p (new buf)).0

unfoldable pub parse_u32_array : List ℕ → Result ParseError (List ℕ)
parse_u32_array buf = run (read_u32_array "array") buf
