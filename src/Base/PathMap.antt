-- ===== src/Base/PathMap.antt =====
-- `BTreeMap` with a text for a key, as far as the code uses it: a key has one value at most, and no
-- order of keys is read.
use Prim.Native.Nat.{ℕ}
use mathlib.Core.Path.{◌≡◌, refl, ap, ◌∙◌}
use mathlib.Core.Logic.{inl, inr}
use mathlib.Core.Bool.{Bool, true, false}
use mathlib.Core.List.{List, [], ◌∷◌}
use mathlib.Core.Option.{Option, none, some}
use bsdroid.Base.Tests.{if◌then◌else◌, Bool-cases, same, same_iff}

abbrev pub PathMap {ℓ} : Type ℓ → Type ℓ
PathMap V = List (List ℕ × V)

pub same_refl : (k : List ℕ) → same k k ≡ true
same_refl k = (same_iff k k).1 refl

module _ {ℓ} {V : Type ℓ} where
  unfoldable pub get : PathMap V → List ℕ → Option V
  get [] k = none
  get ((j, v) ∷ m) k = if same j k then some v else get m k

  unfoldable pub remove : PathMap V → List ℕ → PathMap V
  remove [] k = []
  remove ((j, v) ∷ m) k = let rest = remove m k in if same j k then rest else (j, v) ∷ rest

  unfoldable pub insert : PathMap V → List ℕ → V → PathMap V
  unfolding remove
  insert m k v = (k, v) ∷ remove m k

  pub get-insert_here : (m : PathMap V) (k : List ℕ) (v : V) → get (insert m k v) k ≡ some v
  unfolding get insert
  get-insert_here m k v = rw (same_refl k) refl

  pub remove-remove : (m : PathMap V) (k : List ℕ) → remove (remove m k) k ≡ remove m k
  unfolding remove
  remove-remove [] k = refl
  remove-remove ((j, v) ∷ m) k = elim (Bool-cases (same j k)) [
    | inl here ↦ rw here (remove-remove m k)
    | inr there ↦ rw (there, remove, there) (ap (λ r. (j, v) ∷ r) (remove-remove m k))
  ]

  -- To put a value back under its key changes nothing.
  pub insert-insert :
      (m : PathMap V) (k : List ℕ) (v w : V) → insert (insert m k v) k w ≡ insert m k w
  unfolding insert remove
  insert-insert m k v w = rw (same_refl k) (ap (λ r. (k, w) ∷ r) (remove-remove m k))

  unfoldable pub contains_key : PathMap V → List ℕ → Bool
  unfolding get
  contains_key m k = elim (get m k) [ none ↦ false | some v ↦ true ]

  -- An entry that was put there is taken out and put back.
  pub insert-remove-insert :
      (m : PathMap V) (k : List ℕ) (v : V) → insert (remove (insert m k v) k) k v ≡ insert m k v
  unfolding insert remove
  insert-remove-insert m k v =
      rw (same_refl k) (ap (λ r. (k, v) ∷ r) (remove-remove (remove m k) k ∙ remove-remove m k))
