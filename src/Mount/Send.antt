-- ===== src/Mount/Send.antt =====
-- How a file that a program wrote goes to the device (crates/mtpfs/src/main.rs): the send at a flush,
-- a release or a change of size, and what becomes of the object that it replaces.
pub mod Once
pub mod Saved
use bsdroid.Base.{
  ltb, leb, ◌==◌, if◌then◌else◌, ltb→lt, lt→ltb, le→ltb, ==_iff, ==_refl, Bool-cases, Option-cases,
  same, same_iff,
}
use bsdroid.Base.{
  length, get_or, get_elem?, take, drop, find, All, length-append, length-take, length-drop,
  take-append-drop, take-length_append, drop-length_append, take_all, take-min, take-append-take,
  take-take, drop-drop, find-some, All-append, All-take, All-drop, get_or-All,
}
use bsdroid.Base.{Result, ok, err, then_ok, map_err, IsOk, Result-cases, map_err-ok}
use bsdroid.Base.{
  IsByte, IsU16, IsU32, IsU64, usize_max, le_u16, le_u32, from_le_u16, from_le_u32, u16_at, u32_at,
  from_le-le_u16, from_le-le_u32, le-from_le_u16, le-from_le_u32, u32_at-IsU32,
}
use bsdroid.Base.{
  ℕ, zero, suc, ◌+◌, ◌-◌, ◌*◌, ◌/◌, ◌%◌, ◌^◌, ◌≤◌, ◌<◌, min, max, String, ◌≡◌, refl, sym, ap, ◌∙◌,
  subst, ◌≢◌, ◌↔◌, ◌⊎◌, inl, inr, Bool, true, false, not, ◌&&◌, ◌||◌, Option, none, some, List, [],
  ◌∷◌, ◌++◌, map, append_assoc, append-nil, arith,
}
use bsdroid.Base.Action.{Action, pure, raise, lift, ◌>>=◌}
use bsdroid.Base.PathMap
use bsdroid.Tree.{Entry, forget_listing}
use bsdroid.Tree
use bsdroid.Session.{Transport}
use bsdroid.Backend.{Error, Mtp}
use bsdroid.Backend.Changes.{rename_object, delete_object, storage_info, send_object_stream}
use bsdroid.Mount.{
  eio, eisdir, enoent, enospc, Host, Pending, Fs, ok_or, with_fs, on_device, on_host, or_errno,
  ignored, forget_folder, change, resolve, resolve_or,
}
use bsdroid.Mount.Names.{fh_writes, aside_name}
use bsdroid.Mount.Change.{put_back, delete_old}
use bsdroid.Mount.Spool.{drop_pending, adopt_for_write, resize, file_of}

-- The free space, where no answer is the largest number.
abbrev pub free_or_max {ℓ} : {E : Type ℓ} → Result E (ℕ × ℕ) → ℕ
free_or_max (ok (total, free)) = free
free_or_max (err e) = usize_max

abbrev pub size_of : Option Entry → ℕ
size_of none = 0
size_of (some e) = e.size

-- The answer of a send, and the entry behind it.
abbrev pub Sends : (D H F : Type 0) → Type 0
Sends D H F = Fs D H F → (Result ℕ (Unit {0}) × Pending F) × Fs D H F

module _ {D H F : Type 0} (tr : Transport D) (host : Host H F) where
  -- Room for the new contents: the old object moves aside, or goes first. The answer is the entry and whether a copy of the old contents is left.
  unfoldable pub make_room : Pending F → ℕ → Action ℕ (Fs D H F) (Pending F × Bool)
  unfolding storage_info aside_name rename_object delete_object
  make_room p old fs =
      let (info, fs1) = on_device (storage_info tr) fs in
      let free = free_or_max info in
      if leb p.size free
      then (let (aside, fs2) = aside_name p.name fs1 in
          (or_errno (on_device (rename_object tr old aside)) eio >>= λ _. pure (p, true)) fs2)
      else if leb p.size (min (free + size_of (Tree.get fs.tree old)) usize_max)
      then (or_errno (on_device (delete_object tr old)) eio >>= λ _.
            pure (record p { replaces = none }, false))
          fs1
      else (err enospc, fs1)

  unfoldable pub send_contents : Pending F → Bool → Sends D H F
  unfolding send_object_stream delete_old put_back forget_listing
  send_contents p old_copy_exists fs =
      let (r, (mtp, h)) =
        send_object_stream tr (host.reader p.file) host.patience p.parent p.name p.size
          (fs.mtp, fs.host) in
      let fs1 = record fs { mtp = mtp; host = h } in
      let taken = record p { replaces = none } in
      elim r [
        | ok _ ↦ ((ok tt, taken), forget_folder p.parent (delete_old tr p.replaces fs1))
        | err e ↦ (
          (err eio, if old_copy_exists then taken else record taken { keep_spool = true }),
          forget_folder p.parent (put_back tr p.replaces p.name fs1),
        )
      ]

  unfoldable pub send_pending : Pending F → Sends D H F
  send_pending p fs = elim p.broken [
    | some rc ↦ ((err rc, p), fs)
    | none ↦
        let (r, fs1) = on_host (host.rewind p.file) fs in
        elim r [
          | err e ↦ ((err eio, p), fs1)
          | ok _ ↦ elim p.replaces [
            | none ↦ send_contents p true fs1
            | some old ↦
                let (room, fs2) = make_room p old fs1 in
                elim room [
                  | err e ↦ ((err e, p), fs2)
                  | ok (p1, old_copy_exists) ↦ send_contents p1 old_copy_exists fs2
                ]
          ]
        ]
  ]

  -- The answer that an earlier flush kept, or the send.
  unfoldable pub answer_once : Pending F → Sends D H F
  unfolding send_pending
  answer_once p fs = elim p.sent [
    | some earlier ↦ ((earlier, p), fs)
    | none ↦ let ((rc, p1), fs1) = send_pending p fs in ((rc, record p1 { sent = some rc }), fs1)
  ]

  -- The entry is taken out for the send. What is put back replaces nothing.
  unfoldable pub flush_entry : List ℕ → Action ℕ (Fs D H F) (Unit {0})
  unfolding answer_once
  flush_entry path fs = elim (PathMap.get fs.pending path) [
    | none ↦ (ok tt, fs)
    | some p ↦
        let ((rc, p1), fs1) =
          answer_once p (record fs { pending = PathMap.remove fs.pending path }) in
        (rc, record fs1 { pending = PathMap.insert fs1.pending path p1 })
  ]

  unfoldable pub op_flush : List ℕ → Option ℕ → Action ℕ (Option (Fs D H F)) (Unit {0})
  unfolding with_fs flush_entry
  op_flush path fh = if fh_writes fh then with_fs eio (flush_entry path) else pure tt

  -- `with_fs(0, …)`: without a mount there is nothing to do.
  unfoldable pub op_release : List ℕ → Option ℕ → Option (Fs D H F) → Option (Fs D H F)
  unfolding send_pending drop_pending
  op_release path fh none = none
  op_release path fh (some fs) =
      if fh_writes fh
      then elim (PathMap.get fs.pending path) [
        | none ↦ some fs
        | some p ↦
            let fs1 = record fs { pending = PathMap.remove fs.pending path } in
            elim p.sent [
              | some earlier ↦ some (drop_pending host p fs1)
              | none ↦ let ((rc, p1), fs2) = send_pending p fs1 in some (drop_pending host p1 fs2)
            ]
      ]
      else some fs

  -- The send of a change of size, for which no flush comes: the entry goes with it.
  unfoldable pub send_now : List ℕ → Action ℕ (Fs D H F) (Unit {0})
  unfolding send_pending drop_pending
  send_now path fs = elim (PathMap.get fs.pending path) [
    | none ↦ (err eio, fs)
    | some p ↦
        let ((rc, p1), fs1) =
          send_pending p (record fs { pending = PathMap.remove fs.pending path }) in
        (rc, drop_pending host p1 fs1)
  ]

  -- A file that nobody writes: it adopts a spool file. The two `expect`s find the entry that was just put there.
  unfoldable pub truncate_object : List ℕ → ℕ → Action ℕ (Fs D H F) (Unit {0})
  unfolding resolve adopt_for_write resize send_now
  truncate_object path size = resolve_or tr path >>= λ handle. λ fs.
      (lift (file_of (Tree.get fs.tree handle)) >>= λ e.
      adopt_for_write tr host path handle e (ltb 0 size) >>= λ _. λ fs1.
        (lift (ok_or (PathMap.get fs1.pending path) eio) >>= λ p.
        resize host path size p >>= λ _. send_now path)
          fs1)
        fs

  unfoldable pub op_truncate : List ℕ → ℕ → Action ℕ (Option (Fs D H F)) (Unit {0})
  unfolding with_fs resize truncate_object
  op_truncate path size = with_fs eio λ fs. elim (PathMap.get fs.pending path) [
    | some p ↦ resize host path size p fs
    | none ↦ truncate_object path size fs
  ]
