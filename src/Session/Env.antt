-- ===== src/Session/Env.antt =====
-- The switches of the environment (crates/mtp-session/src/lib.rs, module `env`). The value of a
-- variable is an argument, `none` where it is absent.
use bsdroid.Base.{ltb, leb, ◌==◌, if◌then◌else◌, same}
use bsdroid.Base.{
  ℕ, ◌+◌, ◌-◌, ◌*◌, ◌^◌, Bool, true, false, not, ◌&&◌, ◌||◌, Option, none, some, List, [], ◌∷◌,
}
use bsdroid.Usb.Mtp.{trim}

abbrev pub to_ascii_lowercase : List ℕ → List ℕ
to_ascii_lowercase [] = []
to_ascii_lowercase (c ∷ cs) =
    (if leb b'A' c && leb c b'Z' then c + 32 else c) ∷ to_ascii_lowercase cs

abbrev pub off_words : List (List ℕ)
off_words =
    []
    ∷ (b'0' ∷ [])
    ∷ (b'n' ∷ b'o' ∷ [])
    ∷ (b'f' ∷ b'a' ∷ b'l' ∷ b's' ∷ b'e' ∷ [])
    ∷ (b'o' ∷ b'f' ∷ b'f' ∷ [])
    ∷ []

unfoldable pub is_one_of : List ℕ → List (List ℕ) → Bool
is_one_of w [] = false
is_one_of w (x ∷ xs) = same w x || is_one_of w xs

unfoldable pub flag : Option (List ℕ) → Bool
unfolding trim is_one_of
flag none = false
flag (some v) = not (is_one_of (to_ascii_lowercase (trim v)) off_words)

-- `str::parse` of an unsigned number below a limit, and `from_str_radix`: an optional plus sign, then digits, with no overflow.
abbrev pub decimal_digit : ℕ → Option ℕ
decimal_digit c = if leb b'0' c && leb c b'9' then some (c - b'0') else none

unfoldable pub parse_digits : (ℕ → Option ℕ) → ℕ → ℕ → ℕ → List ℕ → Option ℕ
parse_digits digit base limit acc [] = some acc
parse_digits digit base limit acc (c ∷ cs) = elim (digit c) [
  | none ↦ none
  | some d ↦ elim (ltb (acc * base + d) limit) [
    | true ↦ parse_digits digit base limit (acc * base + d) cs
    | false ↦ none
  ]
]

unfoldable pub parse_radix : (ℕ → Option ℕ) → ℕ → ℕ → List ℕ → Option ℕ
unfolding parse_digits
parse_radix digit base limit [] = none
parse_radix digit base limit (c ∷ []) = parse_digits digit base limit 0 (c ∷ [])
parse_radix digit base limit (c ∷ d ∷ cs) =
    if c == b'+'
    then parse_digits digit base limit 0 (d ∷ cs)
    else parse_digits digit base limit 0 (c ∷ d ∷ cs)

unfoldable pub number : Option (List ℕ) → Option ℕ
unfolding parse_radix
number none = none
number (some v) = parse_radix decimal_digit 10 (2 ^ 64) v
