-- ===== src/Tree/Listing.antt =====
-- What a listing changes, and what a walk asks for (crates/mtpfs/src/tree.rs).
use bsdroid.Base.{◌==◌, if◌then◌else◌, ==_refl, Bool-cases, Option-cases}
use bsdroid.Base.{
  ℕ, ◌≡◌, refl, ap, ◌∙◌, ◌≢◌, inl, inr, true, false, Option, none, some, List, [], ◌∷◌, arith,
}
use bsdroid.Base.Map
use bsdroid.Base.Map.{Map, get-insert, get-remove, contains_key-insert, contains_key-remove}
use bsdroid.Tree.{
  Entry, Tree, need_listing, root, is_listed, insert_all, handles, set_children, get, present,
  children_of, children_named, split_path, lookup_from, lookup, forget_listing,
}

-- The handle is not in the list.
abbrev pub Absent : ℕ → List ℕ → Type 0
Absent h [] = Unit
Absent h (x ∷ xs) = ((x == h) ≡ false) × Absent h xs

-- No handle is twice in the list.
abbrev pub Distinct : List ℕ → Type 0
Distinct [] = Unit
Distinct (h ∷ hs) = Absent h hs × Distinct hs

-- The entry of a handle: the last one of a listing, or else what was there before.
abbrev pub last_of : ℕ → Option Entry → List Entry → Option Entry
last_of h o [] = o
last_of h o (e ∷ es) = last_of h (if e.handle == h then some e else o) es

pub get-insert_all :
    (m : Map Entry) (es : List Entry) (h : ℕ)
    → Map.get (insert_all m es) h ≡ last_of h (Map.get m h) es
unfolding insert_all
get-insert_all m [] h = refl
get-insert_all m (e ∷ es) h =
    get-insert_all (Map.insert m e.handle e) es h
    ∙ ap (λ o. last_of h o es) (get-insert m e.handle h e)

get-insert_all-Absent :
    (m : Map Entry) (es : List Entry) (h : ℕ)
    → Absent h (handles es)
    → Map.get (insert_all m es) h ≡ Map.get m h
unfolding insert_all
get-insert_all-Absent m [] h a = refl
get-insert_all-Absent m (e ∷ es) h (ne, a) =
    get-insert_all-Absent (Map.insert m e.handle e) es h a ∙ rw (get-insert, ne)

present-insert_all :
    (m : Map Entry) (es : List Entry)
    → Distinct (handles es)
    → present (insert_all m es) (handles es) ≡ es
unfolding insert_all present
present-insert_all m [] d = refl
present-insert_all m (e ∷ es) (a, d) =
    let m' = Map.insert m e.handle e in
    let here : Map.get (insert_all m' es) e.handle ≡ some e =
      get-insert_all-Absent m' es e.handle a ∙ rw (get-insert, ==_refl e.handle) in
    ground (arith, here, present-insert_all m' es d)

-- A folder that was just read holds what the device listed, in that order, where the listing names no handle twice; and the mark and the list of any other folder stay as they were.
pub children_of-set_children :
    (t : Tree) (p q : ℕ) (es : List Entry)
    → Distinct (handles es)
    → (p == q) ≡ false
    → (children_of (set_children t p es) p ≡ some es)
      × (is_listed (set_children t p es) q ≡ is_listed t q)
      × (Map.get (set_children t p es).children q ≡ Map.get t.children q)
unfolding children_of set_children is_listed
children_of-set_children t p q es d ne = (
  rw (contains_key-insert, get-insert, ==_refl p) (ap some (present-insert_all t.entries es d)),
  rw (contains_key-insert, ne),
  rw (get-insert, ne),
)

lookup_from-need_listing :
    (t : Tree) (current : ℕ) (parts : List (List ℕ)) (d : ℕ)
    → lookup_from t current parts ≡ need_listing d
    → is_listed t d ≡ false
unfolding lookup_from
lookup_from-need_listing t current [] d e = cc
lookup_from-need_listing t current (part ∷ parts) d e = elim (Bool-cases (is_listed t current)) [
  | inl read ↦ elim (Option-cases (children_named t current part)) [
    | inl missing ↦ ground (arith, read, missing)
    | inr (x, there) ↦
        let h : lookup_from t x.handle parts ≡ need_listing d = ground (arith, read, there, e) in
        lookup_from-need_listing t x.handle parts d h
  ]
  | inr unread ↦ ground (arith, unread)
]

is_listed-set_children :
    (t : Tree) (d : ℕ) (es : List Entry) → is_listed (set_children t d es) d ≡ true
unfolding is_listed set_children
is_listed-set_children t d es = rw (contains_key-insert, ==_refl d)

-- A walk asks only for a folder that was not read; once that folder is read, whatever the device listed there, the walk does not ask for it again.
pub lookup-need_listing :
    (t : Tree) (path : List ℕ) (d : ℕ) (es : List Entry)
    → lookup t path ≡ need_listing d
    → (is_listed t d ≡ false) × (lookup (set_children t d es) path ≢ need_listing d)
unfolding lookup
lookup-need_listing t path d es e = (
  lookup_from-need_listing t root (split_path path) d e,
  λ again.
      let unread = lookup_from-need_listing (set_children t d es) root (split_path path) d again in
      cc (unread, is_listed-set_children t d es),
)

-- After a change the host forgets a listing: the folder is unread, has no children to give, and keeps every object under its handle; any other folder keeps its mark and its children.
pub forget_listing_lem :
    (t : Tree) (p q h : ℕ)
    → (p == q) ≡ false
    → (is_listed (forget_listing t p) p ≡ false)
      × (children_of (forget_listing t p) p ≡ none)
      × (get (forget_listing t p) h ≡ get t h)
      × (is_listed (forget_listing t p) q ≡ is_listed t q)
      × (children_of (forget_listing t p) q ≡ children_of t q)
unfolding children_of forget_listing is_listed get
forget_listing_lem t p q h ne = (
  rw (contains_key-remove, ==_refl p),
  rw (contains_key-remove, ==_refl p),
  refl,
  rw (contains_key-remove, ne),
  rw (contains_key-remove, get-remove, ne),
)
