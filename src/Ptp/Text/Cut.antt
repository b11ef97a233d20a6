-- ===== src/Ptp/Text/Cut.antt =====
-- Where `push_string` cuts a text that is too long: behind a whole character.
use bsdroid.Base.{ltb, leb, if◌then◌else◌, Bool-cases}
use bsdroid.Base.{length, get_or, take, All, length-append, take_all}
use bsdroid.Base.{
  ℕ, zero, suc, ◌+◌, ◌-◌, ◌/◌, ◌%◌, ◌≤◌, ◌<◌, min, max, ◌≡◌, refl, ap, ◌⊎◌, inl, inr, true, false,
  ◌&&◌, List, [], ◌∷◌, ◌++◌, arith,
}
use bsdroid.Ptp.Utf16.{is_lead, IsChar, char_units, encode_utf16}
use bsdroid.Ptp.Text.{cut_length}

-- The longest part of a text, from its start, that fits in `max` units.
unfoldable pub fit : ℕ → List ℕ → List ℕ
fit max [] = []
fit max (c ∷ s) =
    let w = length (char_units c) in
    let rest = fit (max - w) s in if leb w max then c ∷ rest else []

-- The rest of the text behind that part.
unfoldable pub unfit : ℕ → List ℕ → List ℕ
unfit max [] = []
unfit max (c ∷ s) =
    let w = length (char_units c) in
    let rest = unfit (max - w) s in if leb w max then rest else c ∷ s

pub fit-append-unfit : (max : ℕ) (s : List ℕ) → fit max s ++ unfit max s ≡ s
unfolding fit unfit
fit-append-unfit max [] = refl
fit-append-unfit max (c ∷ s) = elim (Bool-cases (leb (length (char_units c)) max)) [
  | inl e ↦ rw e (ap (λ r. c ∷ r) (fit-append-unfit (max - length (char_units c)) s))
  | inr e ↦ rw e refl
]

pub length-fit : (max : ℕ) (s : List ℕ) → length (encode_utf16 (fit max s)) ≤ max
unfolding fit encode_utf16
length-fit max [] = omega arith
length-fit max (c ∷ s) = ground (
  arith,
  length-fit (max - length (char_units c)) s,
  length-append (char_units c) (encode_utf16 (fit (max - length (char_units c)) s)),
)

pub fit_all : (max : ℕ) (s : List ℕ) → length (encode_utf16 s) ≤ max → fit max s ≡ s
unfolding fit encode_utf16
fit_all max [] h = refl
fit_all max (c ∷ s) h =
    ground (
      arith,
      fit_all (max - length (char_units c)) s,
      length-append (char_units c) (encode_utf16 s),
    )

-- Either the whole text fits, or its next character does not.
abbrev pub NoRoom : ℕ → List ℕ → List ℕ → Type 0
NoRoom max s [] = Unit
NoRoom max s (c ∷ rest) = max < length (encode_utf16 s) + length (char_units c)

NoRoom-cons :
    (max c : ℕ) (s rest : List ℕ)
    → length (char_units c) ≤ max
    → NoRoom (max - length (char_units c)) s rest
    → NoRoom max (c ∷ s) rest
unfolding encode_utf16
NoRoom-cons max c s [] fits h = tt
NoRoom-cons max c s (d ∷ rest) fits h = omega (arith, length-append (char_units c) (encode_utf16 s))

pub fit_longest : (max : ℕ) (s : List ℕ) → NoRoom max (fit max s) (unfit max s)
unfolding fit unfit
fit_longest max [] = tt
fit_longest max (c ∷ s) = elim (Bool-cases (leb (length (char_units c)) max)) [
  | inl e ↦ rw e (
      NoRoom-cons max c _ (unfit (max - length (char_units c)) s) (ground arith)
        (fit_longest (max - length (char_units c)) s))
  | inr e ↦ rw e (unfold encode_utf16 in ground arith)
]

abbrev cut_at : ℕ → List ℕ → ℕ
cut_at n units =
    if ltb n (length units) && (ltb 0 n && is_lead (get_or units (n - 1) 0)) then n - 1 else n

cut_at_step :
    (n u : ℕ) (us : List ℕ)
    → (is_lead u ≡ false) ⊎ (0 < n)
    → cut_at (suc n) (u ∷ us) ≡ suc (cut_at n us)
cut_at_step zero u us (inl h) = ground arith
cut_at_step zero u us (inr h) = absurd (omega arith)
cut_at_step (suc n) u us h =
    let e : suc (suc n) - 1 ≡ suc n = omega arith in
    let e' : suc n - 1 ≡ n = omega arith in rw (e, e') (ground arith)

cut_length_step :
    (max u : ℕ) (us : List ℕ)
    → (is_lead u ≡ false) ⊎ (0 < min (length us) max)
    → cut_length (suc max) (u ∷ us) ≡ suc (cut_length max us)
unfolding cut_length
cut_length_step max u us h =
    let e : min (length (u ∷ us)) (suc max) ≡ suc (min (length us) max) = omega arith in
    rw e (cut_at_step (min (length us) max) u us h)

pub cut_length-le : (max : ℕ) (us : List ℕ) → cut_length max us ≤ length us
unfolding cut_length
cut_length-le max us = ground arith

cut_length-zero : (us : List ℕ) → cut_length 0 us ≡ 0
unfolding cut_length
cut_length-zero us = let e : min (length us) 0 ≡ 0 = omega arith in rw e (ground arith)

-- A character is one unit that is no half, or a pair of halves.
data Shape (c : ℕ) : Type 0 where
  one : char_units c ≡ c ∷ [] → is_lead c ≡ false → Shape c
  two : (hi lo : ℕ) → char_units c ≡ hi ∷ lo ∷ [] → is_lead hi ≡ true → is_lead lo ≡ false → Shape c

char-Shape : (c : ℕ) → IsChar c → Shape c
unfolding char_units
char-Shape c h = elim (Bool-cases (ltb c 0x1_0000)) [
  | inl small ↦ one (rw small) (ground arith)
  | inr wide ↦
      two (0xd800 + (c - 0x1_0000) / 0x400) (0xdc00 + (c - 0x1_0000) % 0x400) (rw wide)
        (ground arith) (ground arith)
]

fit_step :
    (max c : ℕ) (s : List ℕ)
    → length (char_units c) ≤ max
    → fit max (c ∷ s) ≡ c ∷ fit (max - length (char_units c)) s
unfolding fit
fit_step max c s h = ground arith

fit_stop : (max c : ℕ) (s : List ℕ) → max < length (char_units c) → fit max (c ∷ s) ≡ []
unfolding fit
fit_stop max c s h = ground arith

cut-one :
    (max c : ℕ) (us vs : List ℕ)
    → is_lead c ≡ false
    → take (cut_length max us) us ≡ vs
    → take (cut_length (suc max) (c ∷ us)) (c ∷ us) ≡ c ∷ vs
cut-one max c us vs h ih = rw (cut_length_step max c us (inl h)) (ap (λ r. c ∷ r) ih)

cut-two :
    (max hi lo : ℕ) (us vs : List ℕ)
    → is_lead lo ≡ false
    → take (cut_length max us) us ≡ vs
    → take (cut_length (suc (suc max)) (hi ∷ lo ∷ us)) (hi ∷ lo ∷ us) ≡ hi ∷ lo ∷ vs
cut-two max hi lo us vs h ih =
    rw (cut_length_step (suc max) hi (lo ∷ us) (inr (omega arith)))
      (ap (λ r. hi ∷ r) (cut-one max lo us vs h ih))

cut_in_pair : (hi lo : ℕ) (us : List ℕ) → is_lead hi ≡ true → cut_length 1 (hi ∷ lo ∷ us) ≡ 0
unfolding cut_length
cut_in_pair hi lo us h =
    let e : min (length (hi ∷ lo ∷ us)) 1 ≡ 1 = omega arith in rw e (ground arith)

module _ (c : ℕ) (s : List ℕ)
    (ih : (max : ℕ)
      → take (cut_length max (encode_utf16 s)) (encode_utf16 s) ≡ encode_utf16 (fit max s)) where
  cut-fit_one :
      (max : ℕ)
      → char_units c ≡ c ∷ []
      → is_lead c ≡ false
      → take (cut_length max (encode_utf16 (c ∷ s))) (encode_utf16 (c ∷ s))
        ≡ encode_utf16 (fit max (c ∷ s))
  unfolding encode_utf16
  cut-fit_one zero e l = rw (cut_length-zero, fit_stop 0 c s (rw e (omega arith)))
  cut-fit_one (suc max) e l =
      let m : suc max - 1 ≡ max = omega arith in
      rw (fit_step (suc max) c s (rw e (omega arith)), e, m)
        (cut-one max c (encode_utf16 s) _ l (ih max))

  cut-fit_two :
      (max hi lo : ℕ)
      → char_units c ≡ hi ∷ lo ∷ []
      → is_lead hi ≡ true
      → is_lead lo ≡ false
      → take (cut_length max (encode_utf16 (c ∷ s))) (encode_utf16 (c ∷ s))
        ≡ encode_utf16 (fit max (c ∷ s))
  unfolding encode_utf16
  cut-fit_two zero hi lo e l l' = rw (cut_length-zero, fit_stop 0 c s (rw e (omega arith)))
  cut-fit_two (suc zero) hi lo e l l' =
      rw (fit_stop 1 c s (rw e (omega arith)), e, cut_in_pair hi lo (encode_utf16 s) l)
  cut-fit_two (suc (suc max)) hi lo e l l' =
      let m : suc (suc max) - 2 ≡ max = omega arith in
      rw (fit_step (suc (suc max)) c s (rw e (omega arith)), e, m)
        (cut-two max hi lo (encode_utf16 s) _ l' (ih max))

-- What a cut at `max` units keeps is the encoding of the longest part that fits.
pub cut-fit :
    (max : ℕ) (s : List ℕ)
    → All IsChar s
    → take (cut_length max (encode_utf16 s)) (encode_utf16 s) ≡ encode_utf16 (fit max s)
cut-fit max [] h = unfold cut_length fit encode_utf16 in take_all _ [] (omega arith)
cut-fit max (c ∷ s) h = elim (char-Shape c h.0) [
  | one e l ↦ cut-fit_one c s (λ m. cut-fit m s h.1) max e l
  | two hi lo e l l' ↦ cut-fit_two c s (λ m. cut-fit m s h.1) max hi lo e l l'
]
