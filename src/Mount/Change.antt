-- ===== src/Mount/Change.antt =====
-- The callbacks that change a name on the device at once: the removal of an object, the making of a
-- folder, and the new name or the new folder of an object (crates/mtpfs/src/main.rs).
pub mod Renamed
use bsdroid.Base.{◌==◌, if◌then◌else◌, same}
use bsdroid.Base.{Result, ok, err}
use bsdroid.Base.{ℕ, Bool, true, false, ◌||◌, Option, none, some, List, [], ◌∷◌}
use bsdroid.Base.Action.{Action, pure, raise, lift, ◌>>=◌}
use bsdroid.Tree.{root, Entry, forget_listing}
use bsdroid.Tree
use bsdroid.Session.{Transport}
use bsdroid.Backend.{Error, Mtp}
use bsdroid.Backend.Changes.{
  send_object, delete_object, rename_object, move_object, can_move, can_rename,
}
use bsdroid.Mount.{
  enoent, eio, enotdir, eisdir, enotsup, Fs, ok_or, with_fs, on_device, or_errno, ignored,
  forget_folder, change, resolve, resolve_or,
}
use bsdroid.Mount.Names.{split_parent, aside_name}

-- The object behind a handle is of the kind that is wanted.
unfoldable pub check_kind : Bool → Entry → Result ℕ ℕ
check_kind true e = if e.is_dir then ok e.parent else err enotdir
check_kind false e = if e.is_dir then err eisdir else ok e.parent

abbrev pub name_of : Option Entry → List ℕ
name_of none = []
name_of (some e) = e.name

-- What stands at the target of a rename: the object itself, or an object that was moved aside.
pub data Target : Type 0 where
  itself : Target
  freed : Option ℕ → Target

module _ {D H F : Type 0} (tr : Transport D) where
  -- A call of the device that changes it, and behind it the listing of the folder is forgotten.
  unfoldable pub change_in {ℓ} :
      {A : Type ℓ} → ℕ → Action Error (Mtp D) A → Action ℕ (Fs D H F) (Unit {0})
  unfolding forget_listing
  change_in parent call = or_errno (on_device call) eio >>= λ _. change (forget_folder parent)

  unfoldable pub remove : List ℕ → Bool → Action ℕ (Option (Fs D H F)) (Unit {0})
  unfolding with_fs resolve change_in check_kind delete_object
  remove path want_dir = with_fs eio (
      resolve_or tr path >>= λ handle. if handle == root then raise eio else λ fs.
      ((lift (ok_or (Tree.get fs.tree handle) enoent) >>= λ e.
      lift (check_kind want_dir e) >>= λ parent. change_in parent (delete_object tr handle))
        fs))

  abbrev pub op_unlink : List ℕ → Action ℕ (Option (Fs D H F)) (Unit {0})
  op_unlink path = remove path false

  abbrev pub op_rmdir : List ℕ → Action ℕ (Option (Fs D H F)) (Unit {0})
  op_rmdir path = remove path true

  unfoldable pub op_mkdir : List ℕ → Action ℕ (Option (Fs D H F)) (Unit {0})
  unfolding with_fs split_parent resolve change_in send_object
  op_mkdir path = with_fs eio (
      let (dir, name) = split_parent path in
      elim name [
        | [] ↦ raise eio
        | c ∷ cs ↦ resolve_or tr dir >>= λ parent.
            change_in parent (send_object tr parent (c ∷ cs) [] true)
      ])

  unfoldable pub move_aside : ℕ → ℕ → List ℕ → Action ℕ (Fs D H F) Target
  unfolding aside_name rename_object change_in
  move_aside taken new_parent new_name fs =
      let (aside, fs1) = aside_name new_name fs in
      (change_in new_parent (rename_object tr taken aside) >>= λ _. pure (freed (some taken))) fs1

  -- The match on `resolve(fs, &to)`.
  unfoldable pub free_target : ℕ → ℕ → List ℕ → List ℕ → Action ℕ (Fs D H F) Target
  unfolding resolve move_aside
  free_target handle new_parent to new_name fs =
      let (r, fs1) = resolve tr to fs in
      elim r [
        | none ↦ (ok (freed none), fs1)
        | some taken ↦
            if taken == handle
            then (ok itself, fs1)
            else if taken == root
            then (err eio, fs1)
            else move_aside taken new_parent new_name fs1
      ]

  unfoldable pub move_step : ℕ → ℕ → ℕ → Action ℕ (Fs D H F) (Unit {0})
  unfolding move_object
  move_step handle old_parent new_parent fs =
      if new_parent == old_parent
      then (ok tt, fs)
      else if can_move fs.mtp
      then or_errno (on_device (move_object tr handle new_parent)) eio fs
      else (err enotsup, fs)

  -- The old object goes back to its name.
  unfoldable pub put_back : Option ℕ → List ℕ → Fs D H F → Fs D H F
  unfolding rename_object
  put_back none name fs = fs
  put_back (some old) name fs = ignored (on_device (rename_object tr old name)) fs

  unfoldable pub name_step : ℕ → ℕ → List ℕ → Option ℕ → Action ℕ (Fs D H F) (Unit {0})
  unfolding rename_object put_back forget_listing
  name_step handle new_parent new_name moved_aside fs =
      if same (name_of (Tree.get fs.tree handle)) new_name
      then (ok tt, fs)
      else if can_rename fs.mtp
      then (let (r, fs1) = on_device (rename_object tr handle new_name) fs in
          elim r [
            | ok _ ↦ (ok tt, fs1)
            | err e ↦ (err eio, forget_folder new_parent (put_back moved_aside new_name fs1))
          ])
      else (err enotsup, fs)

  unfoldable pub delete_old : Option ℕ → Fs D H F → Fs D H F
  unfolding delete_object
  delete_old none fs = fs
  delete_old (some old) fs = ignored (on_device (delete_object tr old)) fs

  -- The steps behind the target: the new folder, the new name, and the end of the old object.
  unfoldable pub take_name : ℕ → ℕ → ℕ → List ℕ → Option ℕ → Action ℕ (Fs D H F) (Unit {0})
  unfolding move_step name_step delete_old forget_listing
  take_name handle old_parent new_parent new_name moved_aside =
      move_step handle old_parent new_parent >>= λ _.
      name_step handle new_parent new_name moved_aside >>= λ _.
      change (λ fs. forget_folder new_parent (forget_folder old_parent (delete_old moved_aside fs)))

  unfoldable pub op_rename : List ℕ → List ℕ → Action ℕ (Option (Fs D H F)) (Unit {0})
  unfolding with_fs split_parent resolve free_target take_name
  op_rename from to = with_fs eio (
      let (old_dir, _) = split_parent from in
      let (new_dir, new_name) = split_parent to in
      resolve_or tr from >>= λ handle.
      if (handle == root) || same new_name []
      then raise eio
      else (resolve_or tr old_dir >>= λ old_parent. resolve_or tr new_dir >>= λ new_parent.
          free_target handle new_parent to new_name >>= λ target. elim target [
            | itself ↦ pure tt
            | freed moved_aside ↦ take_name handle old_parent new_parent new_name moved_aside
          ]))
