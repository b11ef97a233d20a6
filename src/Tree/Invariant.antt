-- ===== src/Tree/Invariant.antt =====
-- What holds of every tree that the host can build (crates/mtpfs/src/tree.rs).
use bsdroid.Base.{◌==◌, ==_refl, Bool-cases, All, ap, ◌∙◌, subst, ◌++◌}
use bsdroid.Base.{
  ℕ, ◌≡◌, refl, inl, inr, Bool, true, false, Option, none, some, List, [], ◌∷◌, arith,
}
use bsdroid.Base.Map
use bsdroid.Base.Map.{Map, get-insert, get-remove, contains_key-insert, contains_key-remove}
use bsdroid.Tree.{
  Entry, Tree, new, insert_all, handles, set_children, present, children_of, forget_listing,
}

-- Each handle has an object.
abbrev pub AllPresent : Map Entry → List ℕ → Type 0
AllPresent m [] = Unit
AllPresent m (h ∷ hs) = ((e : Entry) × (Map.get m h ≡ some e)) × AllPresent m hs

-- The listing of a folder goes with its mark, and all its objects are in the tree.
abbrev pub Row : Map Entry → Bool → Option (List ℕ) → Type 0
Row m true (some hs) = AllPresent m hs
Row m true none = ⊥
Row m false (some hs) = ⊥
Row m false none = Unit

pub record IsConsistent (t : Tree) : Type 0 where
  pub keyed : (h : ℕ) (e : Entry) → Map.get t.entries h ≡ some e → e.handle ≡ h
  pub rows : (p : ℕ) → Row t.entries (Map.contains_key t.listed p) (Map.get t.children p)

-- `m'` has an object wherever `m` has one.
abbrev pub Grows : Map Entry → Map Entry → Type 0
Grows m m' = (h : ℕ) → (e : Entry) × (Map.get m h ≡ some e) → (e : Entry) × (Map.get m' h ≡ some e)

Grows-insert : (m : Map Entry) (e : Entry) → Grows m (Map.insert m e.handle e)
Grows-insert m e h (x, p) = elim (Bool-cases (e.handle == h)) [
  | inl here ↦ (e, rw (get-insert, here))
  | inr there ↦ (x, rw (get-insert, there) p)
]

pub Grows-insert_all : (m : Map Entry) (es : List Entry) → Grows m (insert_all m es)
unfolding insert_all
Grows-insert_all m [] h x = x
Grows-insert_all m (e ∷ es) h x =
    Grows-insert_all (Map.insert m e.handle e) es h (Grows-insert m e h x)

pub AllPresent-Grows :
    (m m' : Map Entry) (hs : List ℕ) → Grows m m' → AllPresent m hs → AllPresent m' hs
AllPresent-Grows m m' [] g a = tt
AllPresent-Grows m m' (h ∷ hs) g a = (g h a.0, AllPresent-Grows m m' hs g a.1)

Row-Grows :
    (m m' : Map Entry) (b : Bool) (o : Option (List ℕ)) → Grows m m' → Row m b o → Row m' b o
Row-Grows m m' true (some hs) g r = AllPresent-Grows m m' hs g r
Row-Grows m m' true none g r = r
Row-Grows m m' false (some hs) g r = r
Row-Grows m m' false none g r = tt

pub AllPresent-insert_all :
    (m : Map Entry) (es : List Entry) → AllPresent (insert_all m es) (handles es)
unfolding insert_all
AllPresent-insert_all m [] = tt
AllPresent-insert_all m (e ∷ es) =
    let m' = Map.insert m e.handle e in
    (
      Grows-insert_all m' es e.handle (e, rw (get-insert, ==_refl e.handle)),
      AllPresent-insert_all m' es,
    )

keyed-insert_all :
    (m : Map Entry) (es : List Entry)
    → ((h : ℕ) (e : Entry) → Map.get m h ≡ some e → e.handle ≡ h)
    → (h : ℕ) (e : Entry) → Map.get (insert_all m es) h ≡ some e
    → e.handle ≡ h
unfolding insert_all
keyed-insert_all m [] k h e p = k h e p
keyed-insert_all m (x ∷ es) k h e p =
    keyed-insert_all (Map.insert m x.handle x) es
      (λ h' e' p'. ground (arith, get-insert m x.handle h' x, k h' e')) h e p

new-IsConsistent : IsConsistent new
unfolding Map.get Map.contains_key
new-IsConsistent = record { keyed = λ h e p. cc; rows = λ p. tt }

set_children-IsConsistent :
    (t : Tree) (p : ℕ) (es : List Entry) → IsConsistent t → IsConsistent (set_children t p es)
unfolding set_children
set_children-IsConsistent t p es c = record {
  keyed = keyed-insert_all t.entries es c.keyed;
  rows = λ q. elim (Bool-cases (p == q)) [
    | inl here ↦ rw (contains_key-insert, get-insert, here) (AllPresent-insert_all t.entries es)
    | inr there ↦
        rw (contains_key-insert, get-insert, there)
          (Row-Grows t.entries _ (Map.contains_key t.listed q) (Map.get t.children q)
            (Grows-insert_all t.entries es) (c.rows q))
  ];
}

forget_listing-IsConsistent :
    (t : Tree) (p : ℕ) → IsConsistent t → IsConsistent (forget_listing t p)
unfolding forget_listing
forget_listing-IsConsistent t p c = record {
  keyed = c.keyed;
  rows = λ q. elim (Bool-cases (p == q)) [
    | inl here ↦ rw (contains_key-remove, get-remove, here) tt
    | inr there ↦ rw (contains_key-remove, get-remove, there) (c.rows q)
  ];
}

-- What a program can do to a tree.
pub data Change : Type 0 where
  listing : ℕ → List Entry → Change
  forget : ℕ → Change

unfoldable pub apply : Tree → List Change → Tree
apply t [] = t
apply t (listing p es ∷ cs) = apply (set_children t p es) cs
apply t (forget p ∷ cs) = apply (forget_listing t p) cs

apply-IsConsistent : (t : Tree) (cs : List Change) → IsConsistent t → IsConsistent (apply t cs)
unfolding apply
apply-IsConsistent t [] c = c
apply-IsConsistent t (listing p es ∷ cs) c =
    apply-IsConsistent (set_children t p es) cs (set_children-IsConsistent t p es c)
apply-IsConsistent t (forget p ∷ cs) c =
    apply-IsConsistent (forget_listing t p) cs (forget_listing-IsConsistent t p c)

-- Whatever a device lists and the host forgets, in any order: an object stands under its own handle, a folder has a list of handles exactly while it is marked as read, and each of those handles has an object.
pub reached-IsConsistent : (cs : List Change) → IsConsistent (apply new cs)
reached-IsConsistent cs = apply-IsConsistent new cs new-IsConsistent

handles-present :
    (m : Map Entry) (hs : List ℕ)
    → ((h : ℕ) (e : Entry) → Map.get m h ≡ some e → e.handle ≡ h)
    → AllPresent m hs
    → handles (present m hs) ≡ hs
unfolding present
handles-present m [] k a = refl
handles-present m (h ∷ hs) k ((e, p), a) = ground (arith, p, k h e p, handles-present m hs k a)

Row-some : (m : Map Entry) (b : Bool) (hs : List ℕ) → Row m b (some hs) → AllPresent m hs
Row-some m true hs r = r
Row-some m false hs r = absurd r

-- A change that neither lists nor forgets a folder.
abbrev pub Spares : ℕ → Change → Type 0
Spares p (listing q es) = (q == p) ≡ false
Spares p (forget q) = (q == p) ≡ false

-- The marks and the handles of a folder that the changes spare.
apply-Spares :
    (t : Tree) (p : ℕ) (cs : List Change)
    → All (Spares p) cs
    → (Map.contains_key (apply t cs).listed p ≡ Map.contains_key t.listed p)
      × (Map.get (apply t cs).children p ≡ Map.get t.children p)
unfolding apply set_children forget_listing
apply-Spares t p [] spares = (refl, refl)
apply-Spares t p (listing q es ∷ cs) (other, spares) =
    let (marks, kids) = apply-Spares (set_children t q es) p cs spares in
    (marks ∙ rw (contains_key-insert, other) refl, kids ∙ rw (get-insert, other) refl)
apply-Spares t p (forget q ∷ cs) (other, spares) =
    let (marks, kids) = apply-Spares (forget_listing t q) p cs spares in
    (marks ∙ rw (contains_key-remove, other) refl, kids ∙ rw (get-remove, other) refl)

-- The folder that was listed last.
listed_now :
    (t : Tree) (p : ℕ) (es : List Entry)
    → (Map.contains_key (set_children t p es).listed p ≡ true)
      × (Map.get (set_children t p es).children p ≡ some (handles es))
unfolding set_children
listed_now t p es = (rw (contains_key-insert, ==_refl p) refl, rw (get-insert, ==_refl p) refl)

apply-append :
    (t : Tree) (before behind : List Change)
    → apply t (before ++ behind) ≡ apply (apply t before) behind
unfolding apply
apply-append t [] behind = refl
apply-append t (listing q es ∷ cs) behind = apply-append (set_children t q es) cs behind
apply-append t (forget q ∷ cs) behind = apply-append (forget_listing t q) cs behind

-- Whatever the host listed and forgot before, and whatever it lists and forgets of other folders behind it: a folder that was listed gives an entry for each object that the device listed in it, by its handle, all of them and in the order of the device.
pub children_of_complete :
    (before behind : List Change) (p : ℕ) (es : List Entry)
    → All (Spares p) behind
    → (xs : List Entry) × (children_of (apply new (before ++ listing p es ∷ behind)) p ≡ some xs)
      × (handles xs ≡ handles es)
unfolding children_of apply
children_of_complete before behind p es spares =
    let t = apply new (before ++ listing p es ∷ behind) in
    let c = reached-IsConsistent (before ++ listing p es ∷ behind) in
    let is = apply-append new before (listing p es ∷ behind) in
    let (marks, kids) = apply-Spares (set_children (apply new before) p es) p behind spares in
    let (marked, stored) = listed_now (apply new before) p es in
    let read : Map.contains_key t.listed p ≡ true =
      ap (λ u. Map.contains_key u.listed p) is ∙ marks ∙ marked in
    let hs_are : Map.get t.children p ≡ some (handles es) =
      ap (λ u. Map.get u.children p) is ∙ kids ∙ stored in
    let there : AllPresent t.entries (handles es) =
      Row-some t.entries (Map.contains_key t.listed p) (handles es)
        (subst (Row t.entries (Map.contains_key t.listed p)) hs_are (c.rows p)) in
    (
      present t.entries (handles es),
      rw (children_of, read, hs_are) refl,
      handles-present t.entries (handles es) c.keyed there,
    )
