-- ===== src/Backend/Read/Quirk.antt =====
-- A Samsung stops at a partial read that reaches the end of the file with a last packet that is
-- full. How `split_final_read` (crates/mtpfs/src/backend.rs) keeps out of its way, and what a partial
-- read asks for.
use bsdroid.Base.{leb, ◌==◌, if◌then◌else◌, ==_iff, Bool-cases}
use bsdroid.Base.{IsU32, usize_max}
use bsdroid.Base.{
  ℕ, ◌+◌, ◌-◌, ◌*◌, ◌/◌, ◌%◌, ◌^◌, ◌≤◌, ◌<◌, min, ◌≡◌, refl, sym, ap, ◌∙◌, ◌⊎◌, inl, inr, true,
  false, Option, none, some, List, [], ◌∷◌, arith,
}
use native.Mathlib.Nat.{mod-eq_of_lt}
use bsdroid.Ptp.Device.{get_partial_object, get_partial_object_64}
use bsdroid.Backend.{split_final_read}
use bsdroid.Backend.Read.{partial_params}

-- A partial read that such a device answers.
abbrev pub IsSafe : ℕ → ℕ → ℕ → ℕ → Type 0
IsSafe packet file_size offset want = (offset + want < file_size) ⊎ (0 < want % packet)

mod_small : (packet : ℕ) → 1 < packet → 1 % packet ≡ 1
mod_small packet h = mod-eq_of_lt h

one-IsSafe : (packet file_size offset : ℕ) → 1 < packet → IsSafe packet file_size offset 1
one-IsSafe packet file_size offset h = inr (omega (arith, mod_small packet h))

-- For a read inside the file, the first read is one that the device answers, and it leaves nothing or one byte; where it leaves a byte, it is not empty, and the read of that byte is answered too.
pub split_final_read-IsSafe :
    (offset want file_size packet : ℕ)
    → 1 < packet
    → 0 < want
    → offset + want ≤ file_size
    → file_size ≤ usize_max
    → let (first, short) = split_final_read offset want file_size packet in
      IsSafe packet file_size offset first
      × (((short ≡ false) × (first ≡ want))
          ⊎ ((short ≡ true)
              × (first + 1 ≡ want)
              × (0 < first)
              × IsSafe packet file_size (offset + first) 1))
unfolding split_final_read
split_final_read-IsSafe offset want file_size packet hp hw fits small =
    let packet_is : (packet == 0) ≡ false = ground (arith, hp) in
    let want_is : (want == 0) ≡ false = ground (arith, hw) in
    elim (Bool-cases (leb file_size (min (offset + want) usize_max))) [
      | inr inside ↦
          let before : offset + want < file_size = ground (arith, inside, small) in
          rw inside (inl before, inl (refl, refl))
      | inl end ↦ elim (Bool-cases (want % packet == 0)) [
        | inr part ↦
            let left : 0 < want % packet = ground (arith, part) in
            rw (end, packet_is, want_is, part) (inr left, inl (refl, refl))
        | inl whole ↦
            let none_left = (==_iff (want % packet) 0).0 whole in
            let two : 1 < want = elim (Bool-cases (want == 1)) [
              | inl one ↦
                  let is_one = (==_iff want 1).0 one in
                  absurd (
                    omega (
                      arith,
                      sym (mod_small packet hp) ∙ ap (λ n. n % packet) (sym is_one) ∙ none_left,
                    ))
              | inr other ↦ ground (arith, other, hw)
            ] in
            rw (end, packet_is, want_is, whole)
              (
                inl (omega (arith, fits, hw)),
                inr (
                  refl,
                  omega (arith, hw),
                  omega (arith, two),
                  one-IsSafe packet file_size (offset + (want - 1)) hp,
                ),
              )
      ]
    ]

-- The reads that MTP gives for these parameters, by the operation: the object, the offset and the count.
unfoldable pub asked : ℕ → List ℕ → Option (ℕ × ℕ × ℕ)
asked code params = elim params [
  | [] ↦ none
  | h ∷ ps ↦ elim ps [
    | [] ↦ none
    | lo ∷ qs ↦ elim qs [
      | [] ↦ none
      | n ∷ rs ↦ elim rs [
        | [] ↦ if code == get_partial_object then some (h, lo, n) else none
        | m ∷ ss ↦ if code == get_partial_object_64 then some (h, lo + n * 2 ^ 32, m) else none
      ]
    ]
  ]
]

-- The parameters reach as far as the offset: the older operation has 32 bits for it.
abbrev pub Reaches : ℕ → ℕ → Type 0
Reaches code offset =
    ((code ≡ get_partial_object_64) × (offset ≤ usize_max))
    ⊎ ((code ≡ get_partial_object) × IsU32 offset)

pub Reaches-le :
    (code : ℕ) {offset small : ℕ} → Reaches code offset → small ≤ offset → Reaches code small
Reaches-le code (inl (c, h)) le = inl (c, omega (arith, h, le))
Reaches-le code (inr (c, h)) le = inr (c, omega (arith, h, le))

-- The parameters of a partial read name the object, the offset and the count.
pub asked-partial_params :
    (code handle offset want : ℕ)
    → Reaches code offset
    → IsU32 want
    → asked code (partial_params code handle offset want) ≡ some (handle, offset, want)
unfolding asked partial_params
asked-partial_params code handle offset want (inl (c, h)) hw =
    let joined_offset : offset % 2 ^ 32 + offset / 2 ^ 32 % 2 ^ 32 * 2 ^ 32 ≡ offset =
      omega (arith, h) in
    let count : want % 2 ^ 32 ≡ want = omega (arith, hw) in
    rw c (λ i. some (handle, joined_offset i, count i))
asked-partial_params code handle offset want (inr (c, h)) hw =
    let whole_offset : offset % 2 ^ 32 ≡ offset = omega (arith, h) in
    let count : want % 2 ^ 32 ≡ want = omega (arith, hw) in
    rw c (λ i. some (handle, whole_offset i, count i))
