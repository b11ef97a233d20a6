-- ===== src/Mount/Walk.antt =====
-- What `resolve` (crates/mtpfs/src/main.rs) reads and answers on a device of any kind.
use bsdroid.Base.{◌==◌, ==_refl}
use bsdroid.Base.{Result, ok, err}
use bsdroid.Base.{
  ℕ, zero, suc, ◌≤◌, ◌≡◌, refl, ap, ◌⊎◌, inl, inr, true, false, Option, none, some, List, arith,
}
use bsdroid.Base.Map
use bsdroid.Base.Map.{Map, get-insert, contains_key-insert}
use bsdroid.Tree.{
  Entry, Tree, Lookup, found, need_listing, not_found, lookup, set_children, is_listed, handles,
  get,
}
use bsdroid.Tree.Listing.{last_of, get-insert_all}
use bsdroid.Session.{Transport}
use bsdroid.Backend.{Error, Mtp}
use bsdroid.Backend.Folder.{list}
use bsdroid.Mount.{Fs, walk, resolve, max_walk}

-- A tree took in a listing: the folder is read and has the objects of the listing in their order, each of them is there as the listing has it, and other objects and other folders are as before.
pub record HasTaken (t : Tree) (p : ℕ) (es : List Entry) (next : Tree) : Type 0 where
  pub folder_read : is_listed next p ≡ true
  pub objects : Map.get next.children p ≡ some (handles es)
  pub entries : (h : ℕ) → get next h ≡ last_of h (get t h) es
  pub other_folders :
      (q : ℕ)
      → (p == q) ≡ false
      → (is_listed next q ≡ is_listed t q) × (Map.get next.children q ≡ Map.get t.children q)

set_children-HasTaken : (t : Tree) (p : ℕ) (es : List Entry) → HasTaken t p es (set_children t p es)
unfolding set_children is_listed get
set_children-HasTaken t p es = record {
  folder_read = rw (contains_key-insert, ==_refl p) refl;
  objects = rw (get-insert, ==_refl p) refl;
  entries = λ h. get-insert_all t.entries es h;
  other_folders = λ q other. (rw (contains_key-insert, other) refl, rw (get-insert, other) refl);
}

-- The folders that a walk reads, one after the other: each is the one that stops the walk in the tree so far, and the tree takes in what the device lists there.
pub data Reads {D H F : Type 0} (tr : Transport D) (path : List ℕ)
    : ℕ → Fs D H F → Fs D H F → Type 0 where
  no_more : (fs : Fs D H F) → Reads tr path 0 fs fs
  one_more :
      (n p : ℕ) (es : List Entry) (m : Mtp D) (t : Tree) (fs last : Fs D H F)
      → lookup fs.tree path ≡ need_listing p
      → list tr p fs.mtp ≡ (ok es, m)
      → HasTaken fs.tree p es t
      → Reads tr path n (record fs { mtp = m; tree = t }) last
      → Reads tr path (suc n) fs last

module _ {D H F : Type 0} (tr : Transport D) (path : List ℕ) where
  -- Why a walk that stands at `last`, with `n` listings read, stops with its answer in the state `end`. A handle is what the path names. Nothing is answered where the path names nothing, where the count of listings is reached, and where the device lists the next folder with a fault.
  abbrev pub Stops : ℕ → ℕ → Fs D H F → Fs D H F → Option ℕ → Type 0
  Stops limit n last end (some h) = (end ≡ last) × (lookup last.tree path ≡ found h)
  Stops limit n last end none =
      ((end ≡ last) × ((lookup last.tree path ≡ not_found) ⊎ (n ≡ limit)))
      ⊎ ((p : ℕ) × (e : Error) × (m : Mtp D) × (lookup last.tree path ≡ need_listing p)
          × (list tr p last.mtp ≡ (err e, m))
          × (end ≡ record last { mtp = m }))

  Stops-suc :
      (limit n : ℕ) (last end : Fs D H F) (r : Option ℕ)
      → Stops limit n last end r
      → Stops (suc limit) (suc n) last end r
  Stops-suc limit n last end (some h) s = s
  Stops-suc limit n last end none (inl (same_end, inl nothing)) = inl (same_end, inl nothing)
  Stops-suc limit n last end none (inl (same_end, inr all)) = inl (same_end, inr (ap suc all))
  Stops-suc limit n last end none (inr refused) = inr refused

  abbrev Walks : ℕ → Fs D H F → Option ℕ × Fs D H F → Type 0
  Walks limit fs r =
      (n : ℕ) × (last : Fs D H F) × (n ≤ limit)
      × Reads tr path n fs last
      × Stops limit n last r.1 r.0

  walk-Walks : (rounds : ℕ) (fs : Fs D H F) → Walks rounds fs (walk tr rounds path fs)
  unfolding walk
  walk-Walks zero fs = (0, fs, omega arith, no_more fs, inl (refl, inr refl))
  walk-Walks (suc rounds) fs = go (λ next. walk-Walks rounds next) (lookup fs.tree path) refl
    where
      listed :
          ((next : Fs D H F) → Walks rounds next (walk tr rounds path next))
          → (p : ℕ) → lookup fs.tree path ≡ need_listing p
          → (r : Result Error (List Entry)) → (list tr p fs.mtp).0 ≡ r
          → Walks (suc rounds) fs (walk tr (suc rounds) path fs)
      listed ih p e (err x) l =
          let m = (list tr p fs.mtp).1 in
          rw (walk, e, l) (0, fs, omega arith, no_more fs, inr (p, x, m, e, (λ i. (l i, m)), refl))
      listed ih p e (ok es) l =
          let m = (list tr p fs.mtp).1 in
          let t = set_children fs.tree p es in
          let (n, last, few, reads, stops) = ih (record fs { mtp = m; tree = t }) in
          rw (walk, e, l)
            (
              suc n,
              last,
              omega (arith, few),
              one_more n p es m t fs last e (λ i. (l i, m)) (set_children-HasTaken fs.tree p es)
                  reads,
              Stops-suc rounds n last _ _ stops,
            )

      go :
          ((next : Fs D H F) → Walks rounds next (walk tr rounds path next))
          → (l : Lookup) → lookup fs.tree path ≡ l
          → Walks (suc rounds) fs (walk tr (suc rounds) path fs)
      go ih (found h) e = rw (walk, e) (0, fs, omega arith, no_more fs, (refl, e))
      go ih not_found e = rw (walk, e) (0, fs, omega arith, no_more fs, inl (refl, inl e))
      go ih (need_listing p) e = listed ih p e (list tr p fs.mtp).0 refl

  -- On a device of any kind `resolve` reads at most 64 folders, one after the other, each the one that stops the walk in the tree so far; the tree takes in what the device lists there, in its order, and keeps the other objects and folders. A handle that is answered is what the path names in the tree at the end. Nothing is answered where the path names nothing there, where the device could not list the next folder, or where 64 folders were read.
  pub resolve-Names :
      (fs : Fs D H F)
      → let (r, end) = resolve tr path fs in
        (n : ℕ) × (last : Fs D H F) × (n ≤ max_walk)
        × Reads tr path n fs last
        × Stops max_walk n last end r
  unfolding resolve
  resolve-Names fs = walk-Walks max_walk fs
