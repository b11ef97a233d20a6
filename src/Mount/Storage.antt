-- ===== src/Mount/Storage.antt =====
-- What a device holds, and a tree (crates/mtpfs/src/tree.rs) that knows a part of it.
use bsdroid.Base.{◌==◌, ==_iff, ==_refl, Bool-cases}
use bsdroid.Base.{find, All}
use bsdroid.Base.{
  ℕ, ◌≡◌, refl, sym, ap, ◌∙◌, subst, ◌⊎◌, inl, inr, Bool, true, Option, none, some, List, [], ◌∷◌,
  arith,
}
use bsdroid.Base.Map
use bsdroid.Base.Map.{Map, get-insert, contains_key-insert}
use bsdroid.Tree.{
  root, Entry, Tree, not_found, is_listed, insert_all, handles, set_children, present, is_named,
  children_named, lookup_from, lookup,
}
use bsdroid.Tree.Invariant.{AllPresent, AllPresent-Grows, Grows-insert_all, AllPresent-insert_all}

-- What a storage holds: the object behind a handle, and the objects in a folder.
pub record Storage : Type 0 where
  pub object : ℕ → Option Entry
  pub inside : ℕ → List Entry

-- The root, or an object of the storage.
abbrev pub IsKnown : Storage → ℕ → Type 0
IsKnown s h = (h ≡ root) ⊎ ((e : Entry) × (s.object h ≡ some e))

-- An object of a folder is the object behind its handle.
abbrev pub IsWhole : Storage → Type 0
IsWhole s = (p : ℕ) → All (λ e. s.object e.handle ≡ some e) (s.inside p)

-- The object that a chain of names leads to, from a folder on.
unfoldable pub object_at : Storage → ℕ → List (List ℕ) → Option ℕ
object_at s current [] = some current
object_at s current (part ∷ parts) = elim (find (is_named part) (s.inside current)) [
  | none ↦ none
  | some e ↦ object_at s e.handle parts
]

-- The tree holds a part of the storage: each of its objects, and every folder that was read, is as in the storage.
pub record IsPartOf (s : Storage) (t : Tree) : Type 0 where
  pub same_objects : (h : ℕ) (e : Entry) → Map.get t.entries h ≡ some e → s.object h ≡ some e
  pub read_folders :
      (p : ℕ)
      → is_listed t p ≡ true
      → (Map.get t.children p ≡ some (handles (s.inside p)))
        × AllPresent t.entries (handles (s.inside p))

some_injective {ℓ} : {A : Type ℓ} {x y : A} → some x ≡ some y → x ≡ y
some_injective e = cc

present-inside :
    (s : Storage) (m : Map Entry) (es : List Entry)
    → ((h : ℕ) (e : Entry) → Map.get m h ≡ some e → s.object h ≡ some e)
    → All (λ e. s.object e.handle ≡ some e) es
    → AllPresent m (handles es)
    → present m (handles es) ≡ es
unfolding present
present-inside s m [] objects whole there = refl
present-inside s m (e ∷ es) objects (is, whole) ((x, at), there) =
    let same_entry : x ≡ e = some_injective (sym (objects e.handle x at) ∙ is) in
    rw (present, at, present-inside s m es objects whole there) (ap (λ y. y ∷ es) same_entry)

children_named-inside :
    (s : Storage) (t : Tree) (p : ℕ) (part : List ℕ)
    → IsWhole s
    → IsPartOf s t
    → is_listed t p ≡ true
    → children_named t p part ≡ find (is_named part) (s.inside p)
unfolding children_named
children_named-inside s t p part whole is read =
    let (list_is, there) = is.read_folders p read in
    rw (children_named, list_is)
      (ap (find (is_named part))
        (present-inside s t.entries (s.inside p) is.same_objects (whole p) there))

find-All {ℓ κ} :
    {A : Type ℓ} (P : A → Type κ) (test : A → Bool) (xs : List A) (x : A)
    → All P xs
    → find test xs ≡ some x
    → P x
find-All P test [] x all is = absurd cc
find-All P test (y ∷ ys) x (here, all) is = elim (Bool-cases (test y)) [
  | inl hit ↦ subst P (some_injective (rw (find, hit) at is)) here
  | inr miss ↦ find-All P test ys x all (rw (find, miss) at is)
]

-- A listing of the storage goes into the tree.
insert_all-objects :
    (s : Storage) (m : Map Entry) (es : List Entry)
    → ((h : ℕ) (e : Entry) → Map.get m h ≡ some e → s.object h ≡ some e)
    → All (λ e. s.object e.handle ≡ some e) es
    → (h : ℕ) (e : Entry) → Map.get (insert_all m es) h ≡ some e
    → s.object h ≡ some e
unfolding insert_all
insert_all-objects s m [] objects whole = objects
insert_all-objects s m (x ∷ es) objects (is, whole) =
    insert_all-objects s (Map.insert m x.handle x) es
      (λ h e at. elim (Bool-cases (x.handle == h)) [
        | inl here ↦
            let handle_is = (==_iff x.handle h).0 here in
            let is_x : x ≡ e = some_injective (sym (rw (get-insert, here) (ap some refl)) ∙ at) in
            subst (λ k. s.object k ≡ some e) handle_is (is ∙ ap some is_x)
        | inr there ↦ objects h e (rw (get-insert, there) at at)
      ])
      whole

pub set_children-IsPartOf :
    (s : Storage) (t : Tree) (p : ℕ)
    → IsWhole s
    → IsPartOf s t
    → IsPartOf s (set_children t p (s.inside p))
unfolding set_children is_listed
set_children-IsPartOf s t p whole is = record {
  same_objects = insert_all-objects s t.entries (s.inside p) is.same_objects (whole p);
  read_folders = λ q read. elim (Bool-cases (p == q)) [
    | inl here ↦
        let q_is = (==_iff p q).0 here in
        subst
          (λ k.
            (Map.get (Map.insert t.children p (handles (s.inside p))) k
              ≡ some (handles (s.inside k)))
            × AllPresent (insert_all t.entries (s.inside p)) (handles (s.inside k)))
          q_is (rw (get-insert, ==_refl p) (refl, AllPresent-insert_all t.entries (s.inside p)))
    | inr there ↦
        let (list_is, present_there) =
          is.read_folders q (rw (contains_key-insert, there) at read) in
        (
          rw (get-insert, there) list_is,
          AllPresent-Grows t.entries _ (handles (s.inside q))
              (Grows-insert_all t.entries (s.inside p)) present_there,
        )
  ];
}

-- Every folder that was read stays so.
abbrev pub Extends : Tree → Tree → Type 0
Extends t t' = (p : ℕ) → is_listed t p ≡ true → is_listed t' p ≡ true

pub Extends-set_children : (t : Tree) (p : ℕ) (es : List Entry) → Extends t (set_children t p es)
unfolding is_listed set_children
Extends-set_children t p es q read = rw contains_key-insert (ground (arith, read))

pub is_listed-set_children :
    (t : Tree) (p : ℕ) (es : List Entry) → is_listed (set_children t p es) p ≡ true
unfolding is_listed set_children
is_listed-set_children t p es = rw (contains_key-insert, ==_refl p) refl

-- One step of the walk along the names, in a folder that was read.
lookup_from-read :
    (s : Storage) (t : Tree) (current : ℕ) (part : List ℕ) (parts : List (List ℕ)) (e : Entry)
    → IsWhole s
    → IsPartOf s t
    → is_listed t current ≡ true
    → find (is_named part) (s.inside current) ≡ some e
    → lookup_from t current (part ∷ parts) ≡ lookup_from t e.handle parts
unfolding lookup_from
lookup_from-read s t current part parts e whole is read there =
    rw (lookup_from, read, children_named-inside s t current part whole is read, there) refl

pub lookup_from-missing :
    (s : Storage) (t : Tree) (current : ℕ) (part : List ℕ) (parts : List (List ℕ))
    → IsWhole s
    → IsPartOf s t
    → is_listed t current ≡ true
    → find (is_named part) (s.inside current) ≡ none
    → lookup_from t current (part ∷ parts) ≡ not_found
unfolding lookup_from
lookup_from-missing s t current part parts whole is read missing =
    rw (lookup_from, read, children_named-inside s t current part whole is read, missing) refl

-- The walk stands at a folder, with names to go, in this tree and in those that know more.
abbrev pub Stands : Storage → List ℕ → Tree → ℕ → List (List ℕ) → Type 0
Stands s path t current parts =
    (t' : Tree) → IsPartOf s t' → Extends t t' → lookup t' path ≡ lookup_from t' current parts

pub Stands-step :
    (s : Storage) (path : List ℕ) (t t1 : Tree) (current : ℕ) (part : List ℕ)
    (parts : List (List ℕ)) (e : Entry)
    → IsWhole s
    → Stands s path t current (part ∷ parts)
    → Extends t t1
    → is_listed t1 current ≡ true
    → find (is_named part) (s.inside current) ≡ some e
    → Stands s path t1 e.handle parts
Stands-step s path t t1 current part parts e whole stands more read there t' is extends =
    stands t' is (λ p r. extends p (more p r))
    ∙ lookup_from-read s t' current part parts e whole is (extends current read) there

pub IsKnown-step :
    (s : Storage) (current : ℕ) (part : List ℕ) (e : Entry)
    → IsWhole s
    → find (is_named part) (s.inside current) ≡ some e
    → IsKnown s e.handle
IsKnown-step s current part e whole there = inr (
  e,
  find-All (λ x. s.object x.handle ≡ some x) (is_named part) (s.inside current) e (whole current)
      there,
)
