-- ===== src/Backend/Folder/Inside.antt =====
-- What stands in a folder that the fast listing read (crates/mtpfs/src/backend.rs).
use bsdroid.Base.{◌==◌, if◌then◌else◌, ==_iff, Bool-cases}
use bsdroid.Base.{All, find}
use bsdroid.Base.{ok}
use bsdroid.Base.{
  ℕ, ◌≡◌, refl, sym, ap, ◌∙◌, subst, ◌≢◌, inl, inr, Bool, none, List, [], ◌∷◌, arith,
}
use bsdroid.Base.Action.{lift, ◌>>=◌, >>=-ok, lift-ok}
use mathlib.Core.Option
use bsdroid.Ptp.PropList
use bsdroid.Ptp.PropList.Fold.{has_handle, summary, find-fold_prop_list}
use bsdroid.Ptp.PropList.Order.{
  record_handles, without, first_mentions, record_handles-fold_prop_list,
}
use bsdroid.Ptp.PropList.{
  PropEntry, PropRecord, object_format, object_size, object_file_name, parse_object_prop_list,
  fold_prop_list,
}
use bsdroid.Tree.{root, Entry, handles}
use bsdroid.Session.{Transport}
use bsdroid.Backend.Folder.Asked.{Asked, ask_each-Asked}
use bsdroid.Base.{ok-injective, err-ok, then_ok-ok}
use bsdroid.Backend.{bad_listing, drop_the_folder, Mtp}
use bsdroid.Backend.Folder.{wanted, entry_of, entries_of, ask_each, list_by_properties}

-- An entry of a folder: it names the folder as its parent, has a name, and is not the folder.
abbrev pub IsChild : ℕ → Entry → Type 0
IsChild parent e = (e.parent ≡ parent) × (e.name ≢ []) × (e.handle ≢ parent)

-- The entry of an object from what its properties say.
abbrev pub child_of : ℕ → PropRecord → Entry
child_of parent r = record {
  handle = r.handle;
  parent = parent;
  name = r.name;
  is_dir = PropList.is_folder r;
  size = r.size;
}

-- The entry of an object in a listing.
abbrev pub has_entry_handle : ℕ → Entry → Bool
has_entry_handle h e = e.handle == h

-- What stands in a folder by the properties that the device gave: the objects that they name but the folder itself, in the order of their first properties, and each has the name, the size and the kind of its own properties.
pub record IsListing (parent : ℕ) (props : List PropEntry) (es : List Entry) : Type 0 where
  pub children : All (IsChild parent) es
  pub order : handles es ≡ without parent (first_mentions props)
  pub contents :
      (h : ℕ)
      → find (has_entry_handle h) es
        ≡ (if h == parent then none else Option.map (child_of parent) (summary h none props))

find-drop_the_folder :
    (rs : List PropRecord) (folder h : ℕ)
    → find (has_handle h) (drop_the_folder rs folder)
      ≡ (if h == folder then none else find (has_handle h) rs)
unfolding drop_the_folder
find-drop_the_folder [] folder h = ground arith
find-drop_the_folder (r ∷ rs) folder h = ground (arith, find-drop_the_folder rs folder h)

record_handles-drop_the_folder :
    (rs : List PropRecord) (folder : ℕ)
    → record_handles (drop_the_folder rs folder) ≡ without folder (record_handles rs)
unfolding drop_the_folder
record_handles-drop_the_folder [] folder = refl
record_handles-drop_the_folder (r ∷ rs) folder =
    ground (arith, record_handles-drop_the_folder rs folder)

abbrev IsOther : ℕ → PropRecord → Type 0
IsOther folder r = r.handle ≢ folder

drop_the_folder-IsOther :
    (rs : List PropRecord) (folder : ℕ) → All (IsOther folder) (drop_the_folder rs folder)
unfolding drop_the_folder
drop_the_folder-IsOther [] folder = tt
drop_the_folder-IsOther (r ∷ rs) folder = elim (Bool-cases (r.handle == folder)) [
  | inl same_handle ↦ rw same_handle (drop_the_folder-IsOther rs folder)
  | inr other ↦
      rw other ((λ e. absurd (ground (arith, other, e))), drop_the_folder-IsOther rs folder)
]

entry_of-child_of :
    (parent : ℕ) (r : PropRecord) (e : Entry)
    → entry_of parent r ≡ ok e
    → (e ≡ child_of parent r) × (r.name ≢ [])
unfolding entry_of
entry_of-child_of parent r e h = go r.name refl
  where
    go : (n : List ℕ) → r.name ≡ n → (e ≡ child_of parent r) × (r.name ≢ [])
    go [] name = absurd (err-ok (bad_listing r.handle) e (rw (entry_of, name) at h))
    go (c ∷ cs) name =
        (sym (ok-injective _ e (rw (entry_of, name) at h)), λ empty. absurd (cc (name, empty)))

-- The entries of records that have other handles than the folder.
abbrev AreEntries : ℕ → List PropRecord → List Entry → Type 0
AreEntries parent rs es =
    All (IsChild parent) es
    × (handles es ≡ record_handles rs)
    × ((h : ℕ)
        → find (has_entry_handle h) es ≡ Option.map (child_of parent) (find (has_handle h) rs))

entries_of-AreEntries :
    (parent : ℕ) (rs : List PropRecord) (es : List Entry)
    → All (IsOther parent) rs
    → entries_of parent rs ≡ ok es
    → AreEntries parent rs es
unfolding entries_of
entries_of-AreEntries parent [] es all h =
    subst (AreEntries parent []) (ok-injective [] es h) (tt, refl, λ k. refl)
entries_of-AreEntries parent (r ∷ rs) es (other, all) h =
    let (x, e1, e2) = then_ok-ok (entry_of parent r) _ es h in
    let (xs, e3, e4) = then_ok-ok (entries_of parent rs) _ es e2 in
    let (is_child, named) = entry_of-child_of parent r x e1 in
    let (children, same_handles, found) = entries_of-AreEntries parent rs xs all e3 in
    subst (AreEntries parent (r ∷ rs))
      (ap (λ y. y ∷ xs) (sym is_child) ∙ ok-injective (x ∷ xs) es e4)
      (
        ((refl, named, other), children),
        (λ i. r.handle ∷ same_handles i),
        λ k. elim (Bool-cases (r.handle == k)) [
          | inl same_handle ↦ rw same_handle refl
          | inr next ↦ rw next (found k)
        ],
      )

-- The entries that a folder has by the properties of its objects.
entries_of-IsListing :
    (parent : ℕ) (props : List PropEntry) (es : List Entry)
    → entries_of parent (drop_the_folder (fold_prop_list props) parent) ≡ ok es
    → IsListing parent props es
entries_of-IsListing parent props es h =
    let rs = fold_prop_list props in
    let (children, same_handles, found) =
      entries_of-AreEntries parent (drop_the_folder rs parent) es
        (drop_the_folder-IsOther rs parent) h in
    record {
      children = children;
      order =
          same_handles
          ∙ record_handles-drop_the_folder rs parent
          ∙ ap (without parent) (record_handles-fold_prop_list props);
      contents = λ k. elim (Bool-cases (k == parent)) [
        | inl is_folder ↦ rw (found k, find-drop_the_folder rs parent k, is_folder) refl
        | inr other ↦
            rw (found k, find-drop_the_folder rs parent k, other, find-fold_prop_list k props) refl
      ];
    }

-- The root has the handle that the request takes for it.
root_arg : (parent : ℕ) → (if parent == root then 0 else parent) ≡ parent
root_arg parent = elim (Bool-cases (parent == root)) [
  | inl is_root ↦ rw is_root (sym ((==_iff parent root).0 is_root))
  | inr other ↦ rw other refl
]

module _ {D : Type 0} (tr : Transport D) where
  -- A fast listing that succeeds has asked the device for the names, the sizes and the formats of the objects in the folder, and has read the three answers. It holds exactly the objects that the properties of the answers name, without the folder itself, each once where it is named first, with the name, the size and the kind that its own properties say; every entry names the folder as its parent, and has a name.
  pub list_by_properties-IsChild :
      (parent : ℕ) (m t : Mtp D) (es : List Entry)
      → list_by_properties tr parent m ≡ (ok es, t)
      → (props : List PropEntry) × Asked tr parent
          (object_file_name ∷ object_size ∷ object_format ∷ [])
          m
          t
          props
        × IsListing parent props es
  unfolding list_by_properties
  list_by_properties-IsChild parent m t es h =
      let arg_is : (if parent == root then 0 else parent) ≡ parent = root_arg parent in
      let h1 =
        subst
          (λ arg.
            (ask_each tr arg wanted >>= λ ps.
            lift (entries_of parent (drop_the_folder (fold_prop_list ps) arg)))
              m
            ≡ (ok es, t))
          arg_is h in
      let (props, u, e1, e2) = >>=-ok (ask_each tr parent wanted) _ m t es h1 in
      let (e3, ut) =
        lift-ok (entries_of parent (drop_the_folder (fold_prop_list props) parent)) u t es e2 in
      (
        props,
        ask_each-Asked tr parent wanted m t props (e1 ∙ ap (λ x. (ok props, x)) ut),
        entries_of-IsListing parent props es e3,
      )
