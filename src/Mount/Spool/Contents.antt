-- ===== src/Mount/Spool/Contents.antt =====
-- The contents of a file of bytes, as an abstract specification of the spool files of
-- crates/mtpfs/src/main.rs: what a write at an offset and a change of size make of them.
use bsdroid.Base.{length}
use bsdroid.Base.{
  ℕ, zero, suc, ◌+◌, max, ◌≡◌, refl, sym, ap, List, [], ◌∷◌, ◌++◌, append-nil, arith,
}

-- Bytes over the contents from an offset on; a gap is filled with zeros.
unfoldable pub overwrite : List ℕ → ℕ → List ℕ → List ℕ
overwrite [] zero bytes = bytes
overwrite [] (suc o) bytes = 0 ∷ overwrite [] o bytes
overwrite (c ∷ cs) (suc o) bytes = c ∷ overwrite cs o bytes
overwrite (c ∷ cs) zero [] = c ∷ cs
overwrite (c ∷ cs) zero (b ∷ bytes) = b ∷ overwrite cs zero bytes

-- A write: no bytes change nothing.
unfoldable pub patch : List ℕ → ℕ → List ℕ → List ℕ
unfolding overwrite
patch c offset [] = c
patch c offset (b ∷ bytes) = overwrite c offset (b ∷ bytes)

-- The first bytes, and zeros behind them.
unfoldable pub resized : List ℕ → ℕ → List ℕ
resized c zero = []
resized [] (suc n) = 0 ∷ resized [] n
resized (c ∷ cs) (suc n) = c ∷ resized cs n

overwrite_end : (xs ys : List ℕ) → overwrite xs (length xs) ys ≡ xs ++ ys
unfolding overwrite
overwrite_end [] ys = refl
overwrite_end (x ∷ xs) ys = ap (λ r. x ∷ r) (overwrite_end xs ys)

overwrite-overwrite :
    (c : List ℕ) (o : ℕ) (xs ys : List ℕ)
    → overwrite (overwrite c o xs) (o + length xs) ys ≡ overwrite c o (xs ++ ys)
unfolding overwrite
overwrite-overwrite [] zero xs ys =
    let e : 0 + length xs ≡ length xs = omega arith in rw e (overwrite_end xs ys)
overwrite-overwrite [] (suc o) xs ys =
    let e : suc o + length xs ≡ suc (o + length xs) = omega arith in
    rw e (ap (λ r. 0 ∷ r) (overwrite-overwrite [] o xs ys))
overwrite-overwrite (c ∷ cs) (suc o) xs ys =
    let e : suc o + length xs ≡ suc (o + length xs) = omega arith in
    rw e (ap (λ r. c ∷ r) (overwrite-overwrite cs o xs ys))
overwrite-overwrite (c ∷ cs) zero [] ys = refl
overwrite-overwrite (c ∷ cs) zero (x ∷ xs) ys =
    let e : 0 + suc (length xs) ≡ suc (0 + length xs) = omega arith in
    rw e (ap (λ r. x ∷ r) (overwrite-overwrite cs zero xs ys))

length-overwrite :
    (c : List ℕ) (o : ℕ) (xs : List ℕ) → length (overwrite c o xs) ≡ max (length c) (o + length xs)
unfolding overwrite
length-overwrite [] zero xs = omega arith
length-overwrite [] (suc o) xs = omega (arith, length-overwrite [] o xs)
length-overwrite (c ∷ cs) (suc o) xs = omega (arith, length-overwrite cs o xs)
length-overwrite (c ∷ cs) zero [] = omega arith
length-overwrite (c ∷ cs) zero (x ∷ xs) = omega (arith, length-overwrite cs zero xs)

pub length-patch :
    (c : List ℕ) (o b : ℕ) (xs : List ℕ)
    → length (patch c o (b ∷ xs)) ≡ max (length c) (o + length (b ∷ xs))
unfolding patch
length-patch c o b xs = length-overwrite c o (b ∷ xs)

-- Two writes, the second where the first ended, are one write.
pub patch-patch :
    (c : List ℕ) (o : ℕ) (xs ys : List ℕ)
    → patch (patch c o xs) (o + length xs) ys ≡ patch c o (xs ++ ys)
unfolding patch
patch-patch c o [] [] = refl
patch-patch c o [] (y ∷ ys) = ap (λ n. overwrite c n (y ∷ ys)) (omega arith)
patch-patch c o (x ∷ xs) [] = ap (λ r. overwrite c o (x ∷ r)) (sym (append-nil xs))
patch-patch c o (x ∷ xs) (y ∷ ys) = overwrite-overwrite c o (x ∷ xs) (y ∷ ys)

pub patch_end : (c xs : List ℕ) → patch c (length c) xs ≡ c ++ xs
unfolding patch
patch_end c [] = sym (append-nil c)
patch_end c (x ∷ xs) = overwrite_end c (x ∷ xs)

pub length-resized : (c : List ℕ) (n : ℕ) → length (resized c n) ≡ n
unfolding resized
length-resized c zero = refl
length-resized [] (suc n) = ap suc (length-resized [] n)
length-resized (c ∷ cs) (suc n) = ap suc (length-resized cs n)
