-- ===== src/Ptp/PropList/Fold.antt =====
-- `fold_prop_list` against a plain description: no index from handles to places.
use bsdroid.Base.{◌==◌, if◌then◌else◌, Option-cases}
use bsdroid.Base.{length, find}
use bsdroid.Base.{
  ℕ, zero, suc, ◌≡◌, refl, sym, ap, ◌∙◌, inl, inr, Bool, Option, none, some, List, [], ◌∷◌, ◌++◌,
  arith,
}
use mathlib.Core.Option
use bsdroid.Base.Map
use bsdroid.Base.Map.{Map, get-insert}
use bsdroid.Ptp.PropList.{
  PropValue, number, text, wide, PropEntry, PropRecord, blank, assign, modify, fold_entry,
  fold_loop, fold_prop_list,
}

pub handle-assign :
    (code : ℕ) (v : PropValue) (r : PropRecord) → (assign code v r).handle ≡ r.handle
unfolding assign
handle-assign code (number n) r = ground arith
handle-assign code (text s) r = ground arith
handle-assign code wide r = refl

-- The record of a handle, wherever it stands.
abbrev pub has_handle : ℕ → PropRecord → Bool
has_handle h r = r.handle == h

-- One property, put into the record of its object; an object that is new goes to the end.
unfoldable pub upsert : PropEntry → List PropRecord → List PropRecord
upsert e [] = assign e.code e.value (blank e.handle) ∷ []
upsert e (r ∷ rs) =
    let rest = upsert e rs in
    if r.handle == e.handle then assign e.code e.value r ∷ rs else r ∷ rest

unfoldable pub upsert_all : List PropRecord → List PropEntry → List PropRecord
upsert_all out [] = out
upsert_all out (e ∷ es) = upsert_all (upsert e out) es

abbrev suc_some : Option ℕ → Option ℕ
suc_some none = none
suc_some (some i) = some (suc i)

-- Where the record of a handle stands.
index_of : List PropRecord → ℕ → Option ℕ
index_of [] h = none
index_of (r ∷ rs) h = let rest = suc_some (index_of rs h) in if r.handle == h then some 0 else rest

modify_found :
    (out : List PropRecord) (e : PropEntry) (at : ℕ)
    → index_of out e.handle ≡ some at
    → modify out at (assign e.code e.value) ≡ upsert e out
unfolding index_of modify upsert
modify_found [] e at h = cc
modify_found (r ∷ rs) e zero h = ground arith
modify_found (r ∷ rs) e (suc at) h = ground (arith, modify_found rs e at)

modify_new :
    (out : List PropRecord) (e : PropEntry)
    → index_of out e.handle ≡ none
    → modify (out ++ blank e.handle ∷ []) (length out) (assign e.code e.value) ≡ upsert e out
unfolding index_of modify upsert
modify_new [] e h = refl
modify_new (r ∷ rs) e h = ground (arith, modify_new rs e)

index_of-upsert :
    (out : List PropRecord) (e : PropEntry) (h : ℕ)
    → index_of (upsert e out) h ≡ elim (index_of out e.handle) [
      | some at ↦ index_of out h
      | none ↦ if e.handle == h then some (length out) else index_of out h
    ]
unfolding index_of upsert
index_of-upsert [] e h = ground (arith, handle-assign e.code e.value (blank e.handle))
index_of-upsert (r ∷ rs) e h =
    ground (arith, handle-assign e.code e.value r, index_of-upsert rs e h)

-- The map of the loop says of each handle where its record stands.
abbrev Indexes : List PropRecord × Map ℕ → Type 0
Indexes s = (h : ℕ) → Map.get s.1 h ≡ index_of s.0 h

index_kept :
    (out : List PropRecord) (e : PropEntry) (at h : ℕ)
    → index_of out e.handle ≡ some at
    → index_of (upsert e out) h ≡ index_of out h
index_kept out e at h p = rw (index_of-upsert out e h, p)

index_added :
    (out : List PropRecord) (e : PropEntry) (h : ℕ)
    → index_of out e.handle ≡ none
    → index_of (upsert e out) h ≡ (if e.handle == h then some (length out) else index_of out h)
index_added out e h p = rw (index_of-upsert out e h, p)

-- One round puts the property where the description puts it, and the map stays right.
fold_entry-upsert :
    (s : List PropRecord × Map ℕ) (e : PropEntry)
    → Indexes s
    → ((fold_entry s e).0 ≡ upsert e s.0) × Indexes (fold_entry s e)
unfolding fold_entry
fold_entry-upsert (out, seen) e inv = elim (Option-cases (Map.get seen e.handle)) [
  | inl new ↦
      let at_end = modify_new out e (sym (inv e.handle) ∙ new) in
      rw (new, fold_entry)
        (
          at_end,
          λ h.
              rw (at_end, get-insert)
                (ground (arith, inv h, index_added out e h (sym (inv e.handle) ∙ new))),
        )
  | inr (at, old) ↦
      let in_place = modify_found out e at (sym (inv e.handle) ∙ old) in
      rw (old, fold_entry)
        (
          in_place,
          λ h. rw in_place (inv h ∙ sym (index_kept out e at h (sym (inv e.handle) ∙ old))),
        )
]

fold_loop-upsert_all :
    (s : List PropRecord × Map ℕ) (es : List PropEntry)
    → Indexes s
    → fold_loop s es ≡ upsert_all s.0 es
unfolding fold_loop upsert_all
fold_loop-upsert_all s [] inv = refl
fold_loop-upsert_all s (e ∷ es) inv =
    let (step, inv') = fold_entry-upsert s e inv in
    fold_loop-upsert_all (fold_entry s e) es inv' ∙ ap (λ out. upsert_all out es) step

-- The records of a folder are those that a search for the handle gives, property by property: the map from handles to places never points at another object's record.
pub fold_prop_list-upsert_all : (es : List PropEntry) → fold_prop_list es ≡ upsert_all [] es
unfolding fold_prop_list
fold_prop_list-upsert_all es =
    fold_loop-upsert_all ([], []) es (λ h. unfold index_of in unfold Map.get in refl)

-- What the properties of one object make of its record; `none` where no property names it.
unfoldable pub summary : ℕ → Option PropRecord → List PropEntry → Option PropRecord
summary h o [] = o
summary h o (e ∷ es) =
    summary h
      (if e.handle == h then some (assign e.code e.value (Option.get_or o (blank h))) else o) es

find-upsert :
    (h : ℕ) (e : PropEntry) (out : List PropRecord)
    → find (has_handle h) (upsert e out) ≡ (
        if e.handle == h
        then some (assign e.code e.value (Option.get_or (find (has_handle h) out) (blank h)))
        else find (has_handle h) out)
unfolding upsert
find-upsert h e [] = ground (arith, handle-assign e.code e.value (blank e.handle))
find-upsert h e (r ∷ rs) = ground (arith, handle-assign e.code e.value r, find-upsert h e rs)

find-upsert_all :
    (h : ℕ) (out : List PropRecord) (es : List PropEntry)
    → find (has_handle h) (upsert_all out es) ≡ summary h (find (has_handle h) out) es
unfolding upsert_all summary
find-upsert_all h out [] = refl
find-upsert_all h out (e ∷ es) =
    find-upsert_all h (upsert e out) es ∙ ap (λ o. summary h o es) (find-upsert h e out)

-- The record of an object holds what its own properties say, in the order of the answer, and the properties of other objects leave it alone; an object that no property names has no record.
pub find-fold_prop_list :
    (h : ℕ) (es : List PropEntry) → find (has_handle h) (fold_prop_list es) ≡ summary h none es
find-fold_prop_list h es =
    ap (find (has_handle h)) (fold_prop_list-upsert_all es) ∙ find-upsert_all h [] es

-- Each object has one record.
abbrev pub Distinct : List PropRecord → Type 0
Distinct [] = Unit
Distinct (r ∷ rs) = (find (has_handle r.handle) rs ≡ none) × Distinct rs

upsert-Distinct : (e : PropEntry) (out : List PropRecord) → Distinct out → Distinct (upsert e out)
unfolding upsert
upsert-Distinct e [] d = (refl, tt)
upsert-Distinct e (r ∷ rs) (fresh, d) =
    ground
      (arith, handle-assign e.code e.value r, find-upsert r.handle e rs, upsert-Distinct e rs d)

upsert_all-Distinct :
    (out : List PropRecord) (es : List PropEntry) → Distinct out → Distinct (upsert_all out es)
unfolding upsert_all
upsert_all-Distinct out [] d = d
upsert_all-Distinct out (e ∷ es) d = upsert_all-Distinct (upsert e out) es (upsert-Distinct e out d)

-- A folder's listing never holds two records for one object.
pub fold_prop_list-Distinct : (es : List PropEntry) → Distinct (fold_prop_list es)
fold_prop_list-Distinct es = rw (fold_prop_list-upsert_all es) (upsert_all-Distinct [] es tt)
