-- ===== src/Tree/Parts.antt =====
-- How a path splits into parts (`split_path` of crates/mtpfs/src/tree.rs).
use bsdroid.Base.{◌==◌, ==_refl, Bool-cases, same}
use bsdroid.Base.{All}
use bsdroid.Base.{
  ℕ, ◌≡◌, refl, sym, ap, ◌∙◌, inl, inr, false, List, [], ◌∷◌, ◌++◌, append-nil, arith,
}
use bsdroid.Tree.{Tree, root, split, keep_parts, split_path, lookup, lookup_from, join}

-- The text does not hold the separator.
abbrev pub Without : ℕ → List ℕ → Type 0
Without c [] = Unit
Without c (x ∷ xs) = ((x == c) ≡ false) × Without c xs

-- A name that a path can hold: not empty, not `.`, and with no separator.
pub record IsName (p : List ℕ) : Type 0 where
  pub plain : Without b'/' p
  pub not_empty : same p [] ≡ false
  pub not_dot : same p (b'.' ∷ []) ≡ false

split-append :
    (c : ℕ) (p rest q : List ℕ) (qs : List (List ℕ))
    → Without c p
    → split c rest ≡ q ∷ qs
    → split c (p ++ rest) ≡ (p ++ q) ∷ qs
unfolding split
split-append c [] rest q qs w e = e
split-append c (x ∷ p) rest q qs w e = rw (split-append c p rest q qs w.1 e, w.0)

split-join : (ps : List (List ℕ)) → All IsName ps → split b'/' (join ps) ≡ [] ∷ ps
unfolding split join
split-join [] h = refl
split-join (p ∷ ps) h =
    rw (join, split, split-append b'/' p (join ps) [] ps h.0.plain (split-join ps h.1))
      (rw append-nil)

keep-All : (ps : List (List ℕ)) → All IsName ps → keep_parts ps ≡ ps
unfolding keep_parts
keep-All [] h = refl
keep-All (p ∷ ps) h = rw (h.0.not_empty, h.0.not_dot, keep-All ps h.1)

pub split_path-join : (ps : List (List ℕ)) → All IsName ps → split_path (join ps) ≡ ps
unfolding split_path
split_path-join ps h = rw (split-join ps h) (unfold keep_parts same in keep-All ps h)

-- The first part of a text, and the others.
split_shape : (c : ℕ) (xs : List ℕ) → (p : List ℕ) × (ps : List (List ℕ)) × (split c xs ≡ p ∷ ps)
unfolding split
split_shape c [] = ([], [], refl)
split_shape c (x ∷ xs) =
    let (p, ps, e) = split_shape c xs in
    elim (Bool-cases (x == c)) [
      | inl sep ↦ ([], p ∷ ps, rw (e, sep))
      | inr other ↦ (x ∷ p, ps, rw (e, other))
    ]

split_separator : (c : ℕ) (xs ys : List ℕ) → split c (xs ++ c ∷ ys) ≡ split c xs ++ split c ys
unfolding split
split_separator c [] ys = let (p, ps, e) = split_shape c ys in rw (e, ==_refl c)
split_separator c (x ∷ xs) ys =
    let (p, ps, e) = split_shape c xs in rw (split_separator c xs ys, e) (ground arith)

keep_parts-append : (ps qs : List (List ℕ)) → keep_parts (ps ++ qs) ≡ keep_parts ps ++ keep_parts qs
unfolding keep_parts
keep_parts-append [] qs = refl
keep_parts-append (p ∷ ps) qs = ground (arith, keep_parts-append ps qs)

split_path_separator :
    (xs ys : List ℕ) → split_path (xs ++ b'/' ∷ ys) ≡ split_path xs ++ split_path ys
unfolding split_path
split_path_separator xs ys =
    ap keep_parts (split_separator b'/' xs ys) ∙ keep_parts-append (split b'/' xs) (split b'/' ys)

-- A repeated separator, a part `.`, and a separator at either end of a path change nothing: the walk reaches the same object, the same unread folder, or nothing.
pub lookup_separators :
    (t : Tree) (xs ys : List ℕ)
    → (lookup t (xs ++ b'/' ∷ b'/' ∷ ys) ≡ lookup t (xs ++ b'/' ∷ ys))
      × (lookup t (xs ++ b'/' ∷ b'.' ∷ b'/' ∷ ys) ≡ lookup t (xs ++ b'/' ∷ ys))
      × (lookup t (b'/' ∷ xs) ≡ lookup t xs)
      × (lookup t (xs ++ b'/' ∷ []) ≡ lookup t xs)
unfolding lookup split_path same
lookup_separators t xs ys =
    let walk = lookup_from t root in
    (
      ap walk (
          split_path_separator xs (b'/' ∷ ys)
          ∙ ap (λ r. split_path xs ++ r) (split_path_separator [] ys)
          ∙ sym (split_path_separator xs ys)),
      ap walk (
          split_path_separator xs (b'.' ∷ b'/' ∷ ys)
          ∙ ap (λ r. split_path xs ++ r) (split_path_separator (b'.' ∷ []) ys)
          ∙ sym (split_path_separator xs ys)),
      ap walk (split_path_separator [] xs),
      ap walk (split_path_separator xs [] ∙ append-nil (split_path xs)),
    )
