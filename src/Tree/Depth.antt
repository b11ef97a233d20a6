-- ===== src/Tree/Depth.antt =====
-- How deep `path_of` climbs: crates/mtpfs/src/tree.rs.
use bsdroid.Base.{◌==◌, Bool-cases, Option-cases}
use bsdroid.Base.{ℕ, zero, suc, ◌<◌, ◌≡◌, ◌↔◌, inl, inr, true, false, some, List, [], ◌∷◌, arith}
use bsdroid.Tree.{Entry, Tree, root, get, max_depth, join, climb, path_of}

-- How many objects lie on the way from the root down to an object.
pub data Depth (t : Tree) : ℕ → ℕ → Type 0 where
  at_root : (h : ℕ) → (h == root) ≡ true → Depth t h 0
  below :
      (h n : ℕ) (e : Entry)
      → (h == root) ≡ false
      → get t h ≡ some e
      → Depth t e.parent n
      → Depth t h (suc n)

climb_total :
    (rounds : ℕ) (t : Tree) {h n : ℕ} (parts : List (List ℕ))
    → Depth t h n
    → n < rounds
    → (p : List ℕ) × (climb rounds t h parts ≡ some p)
unfolding climb
climb_total zero t parts d lt = ground (arith, lt)
climb_total (suc rounds) t parts (at_root h e) lt = (join parts, rw (climb, e))
climb_total (suc rounds) t parts (below h n e not_root there d) lt =
    let (p, up) = climb_total rounds t (e.name ∷ parts) d (omega arith) in
    (p, rw (climb, not_root, there) up)

climb-Depth :
    (rounds : ℕ) (t : Tree) (h : ℕ) (parts : List (List ℕ)) (p : List ℕ)
    → climb rounds t h parts ≡ some p
    → (n : ℕ) × Depth t h n × (n < rounds)
unfolding climb
climb-Depth zero t h parts p e = cc
climb-Depth (suc rounds) t h parts p e = elim (Bool-cases (h == root)) [
  | inl top ↦ (0, at_root h top, omega arith)
  | inr under ↦ elim (Option-cases (get t h)) [
    | inl lost ↦ ground (arith, under, lost, e)
    | inr (x, there) ↦
        let up : climb rounds t x.parent (x.name ∷ parts) ≡ some p =
          ground (arith, under, there, e) in
        let (n, d, lt) = climb-Depth rounds t x.parent (x.name ∷ parts) p up in
        (suc n, below h n x under there d, omega arith)
  ]
]

-- The path of an object is given exactly when fewer than 256 steps lead from it up to the root. So the climb ends on a chain of parents that never reaches the root, and gives no path there.
pub path_of-Depth :
    (t : Tree) (h : ℕ)
    → ((p : List ℕ) × (path_of t h ≡ some p)) ↔ ((n : ℕ) × Depth t h n × (n < max_depth))
unfolding path_of
path_of-Depth t h = elim (Bool-cases (h == root)) [
  | inl top ↦ (λ (p, e). (0, at_root h top, omega arith), λ d. (b'/' ∷ [], rw top))
  | inr under ↦ (
    λ (p, e). climb-Depth max_depth t h [] p (ground (arith, under, e)),
    λ (n, d, lt). rw under (climb_total max_depth t [] d lt),
  )
]
