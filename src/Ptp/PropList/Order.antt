-- ===== src/Ptp/PropList/Order.antt =====
-- The order of the records of `fold_prop_list` (crates/ptp-proto/src/lib.rs).
use bsdroid.Base.{◌==◌, if◌then◌else◌, Bool-cases}
use bsdroid.Base.{
  ℕ, ◌≡◌, refl, sym, ap, inl, inr, Bool, true, false, ◌||◌, List, [], ◌∷◌, ◌++◌, append_assoc,
  append-nil, arith,
}
use bsdroid.Ptp.PropList.{PropEntry, PropRecord, blank, fold_prop_list}
use bsdroid.Ptp.PropList.Fold.{handle-assign, upsert, upsert_all, fold_prop_list-upsert_all}

abbrev pub record_handles : List PropRecord → List ℕ
record_handles [] = []
record_handles (r ∷ rs) = r.handle ∷ record_handles rs

-- The handles without one of them.
abbrev pub without : ℕ → List ℕ → List ℕ
without h [] = []
without h (x ∷ xs) = let rest = without h xs in if x == h then rest else x ∷ rest

-- The objects that properties name, each where it is named first.
abbrev pub first_mentions : List PropEntry → List ℕ
first_mentions [] = []
first_mentions (e ∷ es) = e.handle ∷ without e.handle (first_mentions es)

abbrev holds : List ℕ → ℕ → Bool
holds [] h = false
holds (x ∷ xs) h = (x == h) || holds xs h

-- The handles that are not among those seen.
abbrev fresh : List ℕ → List ℕ → List ℕ
fresh seen [] = []
fresh seen (x ∷ xs) = let rest = fresh seen xs in if holds seen x then rest else x ∷ rest

fresh-none : (xs : List ℕ) → fresh [] xs ≡ xs
fresh-none [] = refl
fresh-none (x ∷ xs) = ap (λ rest. x ∷ rest) (fresh-none xs)

holds-same : (seen : List ℕ) (h x : ℕ) → holds seen h ≡ true → (x == h) ≡ true → holds seen x ≡ true
holds-same seen h x held same_as = ground (arith, held, same_as)

fresh-held :
    (seen : List ℕ) (h : ℕ) (xs : List ℕ)
    → holds seen h ≡ true
    → fresh seen (without h xs) ≡ fresh seen xs
fresh-held seen h [] held = refl
fresh-held seen h (x ∷ xs) held = elim (Bool-cases (x == h)) [
  | inl same_as ↦ rw (same_as, holds-same seen h x held same_as) (fresh-held seen h xs held)
  | inr other ↦ rw (other, fresh-held seen h xs held) refl
]

holds-last : (seen : List ℕ) (h x : ℕ) → holds (seen ++ h ∷ []) x ≡ (holds seen x || (x == h))
holds-last [] h x = ground arith
holds-last (s ∷ seen) h x = ground (arith, holds-last seen h x)

fresh-last :
    (seen : List ℕ) (h : ℕ) (xs : List ℕ) → fresh (seen ++ h ∷ []) xs ≡ fresh seen (without h xs)
fresh-last seen h [] = refl
fresh-last seen h (x ∷ xs) = rw (holds-last seen h x, fresh-last seen h xs) (ground arith)

record_handles-upsert :
    (e : PropEntry) (out : List PropRecord)
    → record_handles (upsert e out) ≡ (
        if holds (record_handles out) e.handle
        then record_handles out
        else record_handles out ++ e.handle ∷ [])
unfolding upsert
record_handles-upsert e [] = ground (arith, handle-assign e.code e.value (blank e.handle))
record_handles-upsert e (r ∷ rs) =
    ground (arith, handle-assign e.code e.value r, record_handles-upsert e rs)

record_handles-upsert_all :
    (out : List PropRecord) (es : List PropEntry)
    → record_handles (upsert_all out es)
      ≡ record_handles out ++ fresh (record_handles out) (first_mentions es)
unfolding upsert_all
record_handles-upsert_all out [] = sym (append-nil (record_handles out))
record_handles-upsert_all out (e ∷ es) =
    let seen = record_handles out in
    let step = record_handles-upsert e out in
    let rest = record_handles-upsert_all (upsert e out) es in
    elim (Bool-cases (holds seen e.handle)) [
      | inl held ↦ rw (rest, step, held, fresh-held seen e.handle (first_mentions es) held) refl
      | inr new ↦
          rw (rest, step, new, fresh-last seen e.handle (first_mentions es))
            (append_assoc seen (e.handle ∷ []) _)
    ]

-- The records stand in the order in which the properties name their objects first, and there are no others.
pub record_handles-fold_prop_list :
    (es : List PropEntry) → record_handles (fold_prop_list es) ≡ first_mentions es
record_handles-fold_prop_list es =
    rw (fold_prop_list-upsert_all es, record_handles-upsert_all [] es)
      (fresh-none (first_mentions es))
