-- ===== src/Mount/Change/Renamed.antt =====
-- A rename that fails (`op_rename` of crates/mtpfs/src/main.rs).
use bsdroid.Base.{◌==◌, if◌then◌else◌, Bool-cases, same}
use bsdroid.Base.{Result, ok, err, Result-cases}
use bsdroid.Base.{ℕ, zero, suc, ◌≡◌, refl, sym, inl, inr, ◌||◌, Option, none, some, List, []}
use bsdroid.Base.Action.{Action, pure, raise}
use bsdroid.Tree
use bsdroid.Tree.{root, Lookup, found, need_listing, not_found, lookup, set_children}
use bsdroid.Session.{Transport}
use bsdroid.Backend.{Error, Mtp}
use bsdroid.Backend.Folder.{list}
use bsdroid.Backend.Changes.{rename_object, can_move, can_rename}
use bsdroid.Mount.{eio, Host, Fs, with_fs, on_device, or_errno, walk, resolve, resolve_or, max_walk}
use bsdroid.Mount.Names.{split_parent, aside_name, next_count}
use bsdroid.Mount.Change.{
  Target, itself, freed, change_in, move_aside, free_target, move_step, name_step, name_of,
  take_name, op_rename,
}
use bsdroid.Mount.Harmless.{
  Harmless, Keeps, KeepsOnFault, Keeps-chain, KeepsOnFault-chain, KeepsOnFault-if, put_back-Keeps,
}

module _ {D H F : Type 0} (K : Mtp D → Type 0) (tr : Transport D) (host : Host H F)
    (harmless : Harmless tr host K) where
  walk-Keeps :
      (rounds : ℕ) (path : List ℕ) (fs : Fs D H F) → K fs.mtp → K (walk tr rounds path fs).1.mtp
  unfolding walk
  walk-Keeps zero path fs k = k
  walk-Keeps (suc rounds) path fs k =
      go (λ u ku. walk-Keeps rounds path u ku) (lookup fs.tree path) refl
    where
      listed :
          ((u : Fs D H F) → K u.mtp → K (walk tr rounds path u).1.mtp)
          → (p : ℕ) → lookup fs.tree path ≡ need_listing p
          → (r : Result Error _) → (list tr p fs.mtp).0 ≡ r
          → K (walk tr (suc rounds) path fs).1.mtp
      listed ih p at (err x) l = rw (walk, at, l) (harmless.listing p fs.mtp k)
      listed ih p at (ok es) l = rw (walk, at, l) (ih _ (harmless.listing p fs.mtp k))

      go :
          ((u : Fs D H F) → K u.mtp → K (walk tr rounds path u).1.mtp)
          → (l : Lookup) → lookup fs.tree path ≡ l
          → K (walk tr (suc rounds) path fs).1.mtp
      go ih (found h) at = rw (walk, at) k
      go ih not_found at = rw (walk, at) k
      go ih (need_listing p) at = listed ih p at (list tr p fs.mtp).0 refl

  resolve_or-Keeps : (path : List ℕ) → Keeps {H = H} {F = F} K (resolve_or tr path)
  unfolding resolve
  resolve_or-Keeps path fs k = walk-Keeps max_walk path fs k

  change_in-Keeps :
      (parent h : ℕ) (name : List ℕ)
      → Keeps {H = H} {F = F} K (change_in tr parent (rename_object tr h name))
  unfolding change_in
  change_in-Keeps parent h name =
      Keeps-chain K (or_errno (on_device (rename_object tr h name)) eio) _
        (λ fs k. harmless.renaming h name fs.mtp k) (λ a fs k. k)

  free_target-Keeps :
      (handle new_parent : ℕ) (to new_name : List ℕ)
      → Keeps {H = H} {F = F} K (free_target tr handle new_parent to new_name)
  unfolding free_target move_aside resolve aside_name next_count
  free_target-Keeps handle new_parent to new_name fs k =
      go (resolve tr to fs).0 (resolve tr to fs).1 (walk-Keeps max_walk to fs k)
    where
      go :
          (r : Option ℕ) (u : Fs D H F)
          → K u.mtp
          → K
              (elim r as (λ x. Result ℕ Target × Fs D H F) [
                | none ↦ (ok (freed none), u)
                | some taken ↦
                    if taken == handle
                    then (ok itself, u)
                    else if taken == root
                    then (err eio, u)
                    else move_aside tr taken new_parent new_name u
              ]).1.mtp
      go none u k = k
      go (some taken) u k = elim (Bool-cases (taken == handle)) [
        | inl here ↦ rw here k
        | inr other ↦ elim (Bool-cases (taken == root)) [
          | inl top ↦ rw (other, top) k
          | inr below ↦
              rw (other, below)
                (Keeps-chain K
                  (change_in tr new_parent (rename_object tr taken (aside_name new_name u).0))
                  (λ _. pure (freed (some taken)))
                  (change_in-Keeps new_parent taken (aside_name new_name u).0) (λ a fs k. k)
                  (aside_name new_name u).1 k)
        ]
      ]

  move_step-Keeps :
      (handle old_parent new_parent : ℕ)
      → Keeps {H = H} {F = F} K (move_step tr handle old_parent new_parent)
  unfolding move_step
  move_step-Keeps handle old_parent new_parent fs k = elim (Bool-cases (new_parent == old_parent)) [
    | inl stays ↦ rw (move_step, stays) k
    | inr moves ↦ elim (Bool-cases (can_move fs.mtp)) [
      | inl can ↦ rw (move_step, moves, can) (harmless.moving handle new_parent fs.mtp k)
      | inr cannot ↦ rw (move_step, moves, cannot) k
    ]
  ]

  name_step-Keeps :
      (handle new_parent : ℕ) (name : List ℕ) (aside : Option ℕ)
      → Keeps {H = H} {F = F} K (name_step tr handle new_parent name aside)
  unfolding name_step
  name_step-Keeps handle new_parent name aside fs k =
      elim (Bool-cases (same (name_of (Tree.get fs.tree handle)) name)) [
        | inl stays ↦ rw (name_step, stays) k
        | inr other ↦ elim (Bool-cases (can_rename fs.mtp)) [
          | inr cannot ↦ rw (name_step, other, cannot) k
          | inl can ↦ elim (Result-cases (rename_object tr handle name fs.mtp).0) [
            | inl (a, renamed) ↦
                rw (name_step, other, can, renamed) (harmless.renaming handle name fs.mtp k)
            | inr (e, failed) ↦
                rw (name_step, other, can, failed)
                  (put_back-Keeps K tr host harmless aside name _
                    (harmless.renaming handle name fs.mtp k))
          ]
        ]
      ]

  -- Behind the last step that can fail the old object goes.
  take_name-KeepsOnFault :
      (handle old_parent new_parent : ℕ) (name : List ℕ) (aside : Option ℕ)
      → KeepsOnFault {H = H} {F = F} K (take_name tr handle old_parent new_parent name aside)
  unfolding take_name
  take_name-KeepsOnFault handle old_parent new_parent name aside fs e k is =
      KeepsOnFault-chain K (move_step tr handle old_parent new_parent) _
        (move_step-Keeps handle old_parent new_parent)
        (λ a.
          KeepsOnFault-chain K (name_step tr handle new_parent name aside) _
            (name_step-Keeps handle new_parent name aside) (λ b u x ku done. absurd (cc done)))
        fs e k is

  end_of_rename-KeepsOnFault :
      (handle old_parent new_parent : ℕ) (name : List ℕ) (target : Target)
      → KeepsOnFault {H = H} {F = F} K (elim target as (λ x. Action ℕ (Fs D H F) (Unit {0})) [
        | itself ↦ pure tt
        | freed aside ↦ take_name tr handle old_parent new_parent name aside
      ])
  end_of_rename-KeepsOnFault handle old_parent new_parent name itself = λ fs e k is. k
  end_of_rename-KeepsOnFault handle old_parent new_parent name (freed aside) =
      take_name-KeepsOnFault handle old_parent new_parent name aside

  -- A rename that fails has not lost the object at the target: whatever holds of the device and is kept by every call but a delete, such as that the old contents are there, holds behind it.
  pub op_rename-Keeps :
      (from to : List ℕ) (fs : Fs D H F) (e : ℕ) (st : Option (Fs D H F))
      → K fs.mtp
      → op_rename tr from to (some fs) ≡ (err e, st)
      → (next : Fs D H F) × (st ≡ some next) × K next.mtp
  unfolding op_rename with_fs
  op_rename-Keeps from to fs e st k run =
      let old_dir = (split_parent from).0 in
      let new_dir = (split_parent to).0 in
      let name = (split_parent to).1 in
      let keeps = KeepsOnFault-chain K (resolve_or tr from) _ (resolve_or-Keeps from) (λ handle.
        KeepsOnFault-if K ((handle == root) || same name []) (raise eio) _ (λ u x ku done. ku)
          (KeepsOnFault-chain K (resolve_or tr old_dir) _ (resolve_or-Keeps old_dir) (λ old_parent.
            KeepsOnFault-chain K (resolve_or tr new_dir) _ (resolve_or-Keeps new_dir) (λ new_parent.
              KeepsOnFault-chain K (free_target tr handle new_parent to name) _
                (free_target-Keeps handle new_parent to name)
                (end_of_rename-KeepsOnFault handle old_parent new_parent name))))) in
      (_, sym (λ i. (run i).1), keeps fs e k (λ i. (run i).0))
