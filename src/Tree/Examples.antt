-- ===== src/Tree/Examples.antt =====
-- A small tree (crates/mtpfs/src/tree.rs): the root was read and holds one folder, which was not.
use bsdroid.Base.{same}
use bsdroid.Base.{ℕ, ◌<◌, ◌≡◌, refl, sym, ap, ◌∙◌, subst, ◌↔◌, true, some, List, [], ◌∷◌, arith}
use bsdroid.Base.{◌++◌}
use bsdroid.Base.Map
use bsdroid.Tree.{
  Entry, Tree, handles, found, is_listed, set_children, get, present, children_of, children_named,
  lookup, new, max_depth, path_of, climb, join,
}
use bsdroid.Tree.Parts.{IsName, lookup_separators}
use bsdroid.Tree.Invariant.{
  IsConsistent, listing, forget, apply, reached-IsConsistent, children_of_complete,
}
use bsdroid.Tree.Listing.{children_of-set_children}
use bsdroid.Tree.Agree.{IsResolved, lookup-path_of}
use bsdroid.Tree.Depth.{Depth, path_of-Depth}

abbrev storage : Entry
storage = record { handle = 65537; parent = 0; name = b'S' ∷ []; is_dir = true; size = 0 }

-- The tree by its fields, as `set_children` leaves it.
abbrev small : Tree
small = record {
  entries = (65537, storage) ∷ [];
  children = (0, 65537 ∷ []) ∷ [];
  listed = (0, tt) ∷ [];
}

small_object : (h : ℕ) (e : Entry) → get small h ≡ some e → (h ≡ 65537) × (e ≡ storage)
unfolding get Map.get
small_object h e there = ground (arith, there)

small-IsResolved : IsResolved small
unfolding is_listed children_named present same Map.contains_key
small-IsResolved = record {
  keyed = λ h e there. let (at, is) = small_object h e there in ap (λ x. x.handle) is ∙ sym at;
  parent_read = λ h e there.
      let (at, is) = small_object h e there in
      subst (λ x. is_listed small x.parent ≡ true) (sym is) refl;
  in_parent = λ h e there.
      let (at, is) = small_object h e there in
      subst (λ x. children_named small x.parent x.name ≡ some x) (sym is) refl;
  named = λ h e there.
      let (at, is) = small_object h e there in
      subst (λ x. IsName x.name) (sym is)
        (record { plain = (refl, tt); not_empty = refl; not_dot = refl });
}

lookup-path_of_example : lookup small (b'/' ∷ b'S' ∷ []) ≡ found 65537
lookup-path_of_example =
    lookup-path_of small 65537 (b'/' ∷ b'S' ∷ []) small-IsResolved
      (unfold path_of climb join get Map.get in refl)

path_of-Depth_example :
    ((p : List ℕ) × (path_of small 65537 ≡ some p))
    ↔ ((n : ℕ) × Depth small 65537 n × (n < max_depth))
path_of-Depth_example = path_of-Depth small 65537

reached-IsConsistent_example : IsConsistent (apply new (listing 0 (storage ∷ []) ∷ forget 0 ∷ []))
reached-IsConsistent_example = reached-IsConsistent (listing 0 (storage ∷ []) ∷ forget 0 ∷ [])

children_of_complete_example :
    (xs : List Entry) × (children_of
        (apply new ((forget 0 ∷ []) ++ listing 0 (storage ∷ []) ∷ forget 9 ∷ []))
        0
      ≡ some xs)
    × (handles xs ≡ 65537 ∷ [])
children_of_complete_example =
    children_of_complete (forget 0 ∷ []) (forget 9 ∷ []) 0 (storage ∷ []) (refl, tt)

children_of-set_children_example :
    (children_of (set_children small 65537 []) 65537 ≡ some [])
    × (is_listed (set_children small 65537 []) 0 ≡ is_listed small 0)
    × (Map.get (set_children small 65537 []).children 0 ≡ Map.get small.children 0)
children_of-set_children_example = children_of-set_children small 65537 0 [] tt refl

lookup_separators_example :
    (lookup small (b'S' ∷ b'/' ∷ b'/' ∷ b'D' ∷ []) ≡ lookup small (b'S' ∷ b'/' ∷ b'D' ∷ []))
    × (lookup small (b'S' ∷ b'/' ∷ b'.' ∷ b'/' ∷ b'D' ∷ [])
        ≡ lookup small (b'S' ∷ b'/' ∷ b'D' ∷ []))
    × (lookup small (b'/' ∷ b'S' ∷ []) ≡ lookup small (b'S' ∷ []))
    × (lookup small (b'S' ∷ b'/' ∷ []) ≡ lookup small (b'S' ∷ []))
lookup_separators_example = lookup_separators small (b'S' ∷ []) (b'D' ∷ [])
