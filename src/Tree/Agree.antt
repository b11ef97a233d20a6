-- ===== src/Tree/Agree.antt =====
-- `path_of` and `lookup` of crates/mtpfs/src/tree.rs.
use bsdroid.Base.{◌==◌, ==_iff, Bool-cases, Option-cases, same}
use bsdroid.Base.{All, All-append}
use bsdroid.Base.{
  ℕ, zero, suc, ◌≡◌, sym, ap, ◌∙◌, inl, inr, true, some, List, [], ◌∷◌, ◌++◌, append_assoc,
  append-nil, arith,
}
use bsdroid.Tree.{
  Entry, Tree, found, root, is_listed, get, children_named, split_path, lookup_from, lookup,
  max_depth, join, climb, path_of,
}
use bsdroid.Tree.Parts.{IsName, split_path-join}

-- Every object can be found from its parent: the parent was read, it gives the object for its name, and the name can stand in a path.
pub record IsResolved (t : Tree) : Type 0 where
  pub keyed : (h : ℕ) (e : Entry) → get t h ≡ some e → e.handle ≡ h
  pub parent_read : (h : ℕ) (e : Entry) → get t h ≡ some e → is_listed t e.parent ≡ true
  pub in_parent : (h : ℕ) (e : Entry) → get t h ≡ some e → children_named t e.parent e.name ≡ some e
  pub named : (h : ℕ) (e : Entry) → get t h ≡ some e → IsName e.name

-- The names from the root to an object, and the walk along them.
abbrev Walk : Tree → ℕ → List (List ℕ) → List ℕ → Type 0
Walk t current parts p =
    (names : List (List ℕ)) × (p ≡ join (names ++ parts))
    × All IsName names
    × ((rest : List (List ℕ)) → lookup_from t root (names ++ rest) ≡ lookup_from t current rest)

lookup_step :
    (t : Tree) (e : Entry) (rest : List (List ℕ))
    → is_listed t e.parent ≡ true
    → children_named t e.parent e.name ≡ some e
    → lookup_from t e.parent (e.name ∷ rest) ≡ lookup_from t e.handle rest
unfolding lookup_from
lookup_step t e rest read there = ground (arith, read, there)

climb-Walk :
    (rounds : ℕ) (t : Tree) (current : ℕ) (parts : List (List ℕ)) (p : List ℕ)
    → IsResolved t
    → climb rounds t current parts ≡ some p
    → Walk t current parts p
unfolding climb
climb-Walk zero t current parts p r e = cc
climb-Walk (suc rounds) t current parts p r e = elim (Bool-cases (current == root)) [
  | inl at_root ↦
      let here : current ≡ root = (==_iff current root).0 at_root in
      let path : p ≡ join parts = ground (arith, at_root, e) in
      ([], path, tt, λ rest. ap (λ c. lookup_from t c rest) (sym here))
  | inr below ↦ elim (Option-cases (get t current)) [
    | inl lost ↦ ground (arith, below, lost, e)
    | inr (x, there) ↦
        let up : climb rounds t x.parent (x.name ∷ parts) ≡ some p =
          ground (arith, below, there, e) in
        let (names, path, all, walk) = climb-Walk rounds t x.parent (x.name ∷ parts) p r up in
        let step : (rest : List (List ℕ))
            → lookup_from t root ((names ++ x.name ∷ []) ++ rest) ≡ lookup_from t current rest =
          λ rest.
            ap (lookup_from t root) (append_assoc names (x.name ∷ []) rest)
            ∙ walk (x.name ∷ rest)
            ∙ lookup_step t x rest (r.parent_read current x there) (r.in_parent current x there)
            ∙ ap (λ c. lookup_from t c rest) (r.keyed current x there) in
        (
          names ++ x.name ∷ [],
          path ∙ ap join (sym (append_assoc names (x.name ∷ []) parts)),
          All-append IsName names (x.name ∷ []) all (r.named current x there, tt),
          step,
        )
  ]
]

-- Where every object can be found from its parent, the path of an object leads back to it: the walk of `lookup` along the path that `path_of` gives finds that object.
pub lookup-path_of :
    (t : Tree) (h : ℕ) (p : List ℕ) → IsResolved t → path_of t h ≡ some p → lookup t p ≡ found h
unfolding lookup path_of split_path same
lookup-path_of t h p r e = elim (Bool-cases (h == root)) [
  | inl at_root ↦
      let path : p ≡ b'/' ∷ [] = ground (arith, at_root, e) in rw (path, (==_iff h root).0 at_root)
  | inr below ↦
      let up : climb max_depth t h [] ≡ some p = ground (arith, below, e) in
      let (names, path, all, walk) = climb-Walk max_depth t h [] p r up in
      ap (λ q. lookup_from t root (split_path q)) (path ∙ ap join (append-nil names))
      ∙ ap (lookup_from t root) (split_path-join names all ∙ sym (append-nil names))
      ∙ walk []
]
