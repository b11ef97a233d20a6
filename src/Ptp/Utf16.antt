-- ===== src/Ptp/Utf16.antt =====
-- `str::encode_utf16` and `String::from_utf16` of Rust's standard library, which
-- crates/ptp-proto/src/lib.rs calls. A text is the list of its code points.
use bsdroid.Base.{ltb, leb, if◌then◌else◌, Bool-cases}
use bsdroid.Base.{All}
use bsdroid.Base.{
  ℕ, ◌+◌, ◌-◌, ◌*◌, ◌/◌, ◌%◌, ◌≤◌, ◌<◌, ◌≡◌, refl, ap, ◌∙◌, ◌⊎◌, inl, inr, Bool, ◌&&◌, Option, none,
  some, List, [], ◌∷◌, ◌++◌, arith,
}

abbrev pub is_lead : ℕ → Bool
is_lead u = leb 0xd800 u && ltb u 0xdc00

abbrev pub is_trail : ℕ → Bool
is_trail u = leb 0xdc00 u && ltb u 0xe000

-- A `char` of Rust: a code point that is no surrogate.
abbrev pub IsChar : ℕ → Type 0
IsChar c = (c < 0xd800) ⊎ ((0xe000 ≤ c) × (c < 0x11_0000))

unfoldable pub char_units : ℕ → List ℕ
char_units c =
    if ltb c 0x1_0000
    then c ∷ []
    else (0xd800 + (c - 0x1_0000) / 0x400) ∷ (0xdc00 + (c - 0x1_0000) % 0x400) ∷ []

unfoldable pub encode_utf16 : List ℕ → List ℕ
encode_utf16 [] = []
encode_utf16 (c ∷ s) = char_units c ++ encode_utf16 s

abbrev pub cons_some : ℕ → Option (List ℕ) → Option (List ℕ)
cons_some c none = none
cons_some c (some s) = some (c ∷ s)

-- `lead` is the first half of a pair that is still open.
unfoldable pub decode_from : Option ℕ → List ℕ → Option (List ℕ)
decode_from none [] = some []
decode_from (some lead) [] = none
decode_from none (u ∷ us) =
    let pair = decode_from (some u) us in
    let plain = cons_some u (decode_from none us) in
    if is_lead u then pair else if is_trail u then none else plain
decode_from (some lead) (u ∷ us) =
    let rest = decode_from none us in
    if is_trail u then cons_some (0x1_0000 + (lead - 0xd800) * 0x400 + (u - 0xdc00)) rest else none

-- An unpaired surrogate gives no text.
unfoldable pub from_utf16 : List ℕ → Option (List ℕ)
unfolding decode_from
from_utf16 us = decode_from none us

decode-char_units :
    (c : ℕ) (us : List ℕ)
    → IsChar c
    → decode_from none (char_units c ++ us) ≡ cons_some c (decode_from none us)
unfolding decode_from char_units
decode-char_units c us h = elim (Bool-cases (ltb c 0x1_0000)) [
  | inl small ↦ ground arith
  | inr wide ↦ ground arith
]

pub from_utf16-encode_utf16 : (s : List ℕ) → All IsChar s → from_utf16 (encode_utf16 s) ≡ some s
unfolding from_utf16 encode_utf16
from_utf16-encode_utf16 [] h = refl
from_utf16-encode_utf16 (c ∷ s) h =
    decode-char_units c (encode_utf16 s) h.0 ∙ ap (cons_some c) (from_utf16-encode_utf16 s h.1)
