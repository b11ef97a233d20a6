-- ===== src/Backend/Read/Slices.antt =====
-- Parts of a file, and what the read cache of crates/mtpfs/src/backend.rs gives of them.
use bsdroid.Base.{ltb, leb, ◌==◌, ==_iff, Bool-cases}
use bsdroid.Base.{
  length, take, drop, length-append, length-take, length-drop, take-append-take, take-take,
  drop-drop,
}
use bsdroid.Base.{
  ℕ, zero, suc, ◌+◌, ◌-◌, ◌≤◌, ◌<◌, min, ◌≡◌, refl, sym, ap, ◌∙◌, subst, ◌≢◌, inl, inr, none, some,
  List, [], ◌∷◌, ◌++◌, arith,
}
use bsdroid.Backend.{ReadCache, cached}

-- `n` bytes of a file from an offset on.
abbrev pub slice : List ℕ → ℕ → ℕ → List ℕ
slice file offset n = take n (drop offset file)

pub length-slice :
    (file : List ℕ) (offset n : ℕ) → offset + n ≤ length file → length (slice file offset n) ≡ n
length-slice file offset n h =
    omega (arith, h, length-take n (drop offset file), length-drop offset file)

pub slice_add :
    (file : List ℕ) (o a b : ℕ) → slice file o a ++ slice file (o + a) b ≡ slice file o (a + b)
slice_add file o a b =
    ap (λ x. take a (drop o file) ++ take b x) (sym (drop-drop o a file))
    ∙ take-append-take a b (drop o file)

take_nil {ℓ} : {A : Type ℓ} (n : ℕ) → take {A = A} n [] ≡ []
take_nil zero = refl
take_nil (suc n) = refl

drop-take {ℓ} : {A : Type ℓ} (k m : ℕ) (xs : List A) → drop k (take m xs) ≡ take (m - k) (drop k xs)
drop-take zero m xs = let e : m - 0 ≡ m = omega arith in rw e refl
drop-take (suc k) zero [] = let e : 0 - suc k ≡ 0 = omega arith in rw e refl
drop-take (suc k) zero (x ∷ xs) = let e : 0 - suc k ≡ 0 = omega arith in rw e refl
drop-take (suc k) (suc m) [] = sym (take_nil (suc m - suc k))
drop-take (suc k) (suc m) (x ∷ xs) =
    let e : suc m - suc k ≡ m - k = omega arith in rw e (drop-take k m xs)

pub slice-slice :
    (file : List ℕ) (o m k n : ℕ)
    → k + n ≤ m
    → take n (drop k (slice file o m)) ≡ slice file (o + k) n
slice-slice file o m k n h =
    ap (take n) (drop-take k m (drop o file))
    ∙ take-take n (m - k) (drop k (drop o file)) (omega (arith, h))
    ∙ ap (take n) (drop-drop o k file)

-- These bytes stand in the file at the offset.
pub record IsPart (file : List ℕ) (offset : ℕ) (bytes : List ℕ) : Type 0 where
  pub fits : offset + length bytes ≤ length file
  pub as_file : bytes ≡ slice file offset (length bytes)

pub slice-IsPart :
    (file : List ℕ) (offset n : ℕ)
    → offset + n ≤ length file
    → IsPart file offset (slice file offset n)
slice-IsPart file offset n h =
    let e = length-slice file offset n h in
    record { fits = omega (arith, e, h); as_file = ap (slice file offset) (sym e) }

pub IsPart-take :
    (file : List ℕ) (s k n : ℕ) (xs : List ℕ)
    → k + n ≤ length xs
    → IsPart file s xs
    → IsPart file (s + k) (take n (drop k xs))
IsPart-take file s k n xs h p =
    let e : take n (drop k xs) ≡ slice file (s + k) n =
      ap (λ y. take n (drop k y)) p.as_file ∙ slice-slice file s (length xs) k n h in
    subst (IsPart file (s + k)) (sym e) (slice-IsPart file (s + k) n (omega (arith, h, p.fits)))

pub IsPart-append :
    (file : List ℕ) (o : ℕ) (xs ys : List ℕ)
    → IsPart file o xs
    → IsPart file (o + length xs) ys
    → IsPart file o (xs ++ ys)
IsPart-append file o xs ys p q =
    let n = length-append xs ys in
    record {
      fits = omega (arith, n, p.fits, q.fits);
      as_file =
          ap (λ x. x ++ ys) p.as_file
          ∙ ap (λ y. slice file o (length xs) ++ y) q.as_file
          ∙ slice_add file o (length xs) (length ys)
          ∙ ap (slice file o) (sym n);
    }

none-some : {x : List ℕ} → none ≢ some x
none-some e = absurd cc

some-injective : {x y : List ℕ} → some x ≡ some y → x ≡ y
some-injective e = cc

-- What the cache gives is a part of the file that its bytes came from, at the offset that was asked for, not empty and not longer than was asked for; it gives nothing for another object.
pub cached-IsPart :
    (file : List ℕ) (c : ReadCache) (handle offset want : ℕ) (bytes : List ℕ)
    → 0 < want
    → (c.handle ≡ handle → IsPart file c.start c.data_bytes)
    → cached c handle offset want ≡ some bytes
    → (c.handle ≡ handle) × IsPart file offset bytes × (0 < length bytes) × (length bytes ≤ want)
unfolding cached
cached-IsPart file c handle offset want bytes hw p e = elim (Bool-cases (c.handle == handle)) [
  | inr other ↦ absurd (none-some (rw (cached, other) at e))
  | inl found ↦ elim (Bool-cases (ltb offset c.start)) [
    | inl before ↦ absurd (none-some (rw (cached, found, before) at e))
    | inr behind ↦ elim (Bool-cases (leb (length c.data_bytes) (offset - c.start))) [
      | inl over ↦ absurd (none-some (rw (cached, found, behind, over) at e))
      | inr inside ↦
          let from = offset - c.start in
          let n = min (from + want) (length c.data_bytes) - from in
          let is : take n (drop from c.data_bytes) ≡ bytes =
            some-injective (rw (cached, found, behind, inside) at e) in
          let lt : from < length c.data_bytes = ground (arith, inside) in
          let le : c.start ≤ offset = ground (arith, behind) in
          let at_offset : c.start + from ≡ offset = omega (arith, le) in
          let is_handle = (==_iff c.handle handle).0 found in
          let part =
            IsPart-take file c.start from n c.data_bytes (omega (arith, lt)) (p is_handle) in
          let size : length bytes ≡ n =
            ap length (sym is)
            ∙ omega (
              arith,
              length-take n (drop from c.data_bytes),
              length-drop from c.data_bytes,
              lt,
            ) in
          (
            is_handle,
            subst (λ x. IsPart file x bytes) at_offset
                (subst (IsPart file (c.start + from)) is part),
            omega (arith, size, lt, hw),
            omega (arith, size),
          )
    ]
  ]
]
