-- ===== src/Mount/Spool.antt =====
-- The files that programs write (crates/mtpfs/src/main.rs): a spool file on the host holds the bytes
-- until the program closes the file.
pub mod Contents
pub mod Filled
pub mod Runs
pub mod Refines
pub mod Adopted
use bsdroid.Base.{
  ltb, leb, ◌==◌, if◌then◌else◌, ltb→lt, lt→ltb, le→ltb, ==_iff, ==_refl, Bool-cases, Option-cases,
  same, same_iff,
}
use bsdroid.Base.{
  length, get_or, get_elem?, take, drop, find, All, length-append, length-take, length-drop,
  take-append-drop, take-length_append, drop-length_append, take_all, take-min, take-append-take,
  take-take, drop-drop, find-some, All-append, All-take, All-drop, get_or-All,
}
use bsdroid.Base.{Result, ok, err, then_ok, map_err, IsOk, Result-cases, map_err-ok}
use bsdroid.Base.{
  IsByte, IsU16, IsU32, IsU64, usize_max, le_u16, le_u32, from_le_u16, from_le_u32, u16_at, u32_at,
  from_le-le_u16, from_le-le_u32, le-from_le_u16, le-from_le_u32, u32_at-IsU32,
}
use bsdroid.Base.{
  ℕ, zero, suc, ◌+◌, ◌-◌, ◌*◌, ◌/◌, ◌%◌, ◌^◌, ◌≤◌, ◌<◌, min, max, String, ◌≡◌, refl, sym, ap, ◌∙◌,
  subst, ◌≢◌, ◌↔◌, ◌⊎◌, inl, inr, Bool, true, false, not, ◌&&◌, ◌||◌, Option, none, some, List, [],
  ◌∷◌, ◌++◌, map, append_assoc, append-nil, arith,
}
use bsdroid.Base.Action.{Action, pure, raise, lift, ◌>>=◌}
use bsdroid.Base.PathMap
use bsdroid.Tree.{Entry}
use bsdroid.Tree
use bsdroid.Session.{Transport}
use bsdroid.Backend.Read.{read_at}
use bsdroid.Mount.{
  enoent, eio, eisdir, enospc, erofs, SpoolPath, Host, Pending, Fs, ok_or, with_fs, on_device,
  on_host, or_errno, change, resolve, resolve_or,
}
use bsdroid.Mount.Names.{
  writes, truncates, fh_writer, split_parent, spool_name, next_count, spool_dir, free_bytes,
}

abbrev pub read_chunk : ℕ
read_chunk = 1024 * 1024

-- A file behind a handle, as `Some(e) if !e.is_dir`.
abbrev pub file_of : Option Entry → Result ℕ Entry
file_of none = err eisdir
file_of (some e) = if e.is_dir then err eisdir else ok e

module _ {D H F : Type 0} where
  -- An entry of `pending` that is there already has a new value.
  abbrev pub put : List ℕ → Pending F → Fs D H F → Fs D H F
  put path p fs = record fs { pending = PathMap.insert fs.pending path p }

-- The new entry of an object that is on the device.
abbrev pub adopted : {F : Type 0} → ℕ → Entry → F → SpoolPath → ℕ → Pending F
adopted handle e file spool size = record {
  parent = e.parent;
  name = e.name;
  file = file;
  spool = spool;
  size = size;
  sent = none;
  replaces = some handle;
  broken = none;
  keep_spool = false;
}

abbrev pub created : {F : Type 0} → ℕ → List ℕ → F → SpoolPath → Pending F
created parent name file spool = record {
  parent = parent;
  name = name;
  file = file;
  spool = spool;
  size = 0;
  sent = none;
  replaces = none;
  broken = none;
  keep_spool = false;
}

module _ {H F : Type 0} (host : Host H F) where
  -- The loop of `op_write`, with its rounds left: `done` bytes are in the spool file. An offset is an `off_t` that is not negative and a buffer has fewer than 2^63 bytes, so the sum is a `u64`.
  unfoldable pub write_loop : ℕ → F → List ℕ → ℕ → ℕ → Action ℕ H ℕ
  write_loop zero file bytes offset done = pure done
  write_loop (suc rounds) file bytes offset done = elim (ltb done (length bytes)) [
    | false ↦ pure done
    | true ↦ host.write_at file (drop done bytes) (offset + done) >>= λ n. elim (n == 0) [
      | true ↦ pure done
      | false ↦ write_loop rounds file bytes offset (done + n)
    ]
  ]

module _ {D H F : Type 0} (host : Host H F) where
  unfoldable pub make_spool : Action ℕ (Fs D H F) (F × SpoolPath)
  unfolding next_count spool_name spool_dir
  make_spool fs =
      let (n, fs1) = next_count fs in
      let path : SpoolPath = record { dir = spool_dir host; name = spool_name host.pid n } in
      (on_host (host.create_file path) >>= λ file. pure (file, path)) fs1

  -- The drop of an entry.
  unfoldable pub drop_pending : Pending F → Fs D H F → Fs D H F
  drop_pending p fs =
      if p.keep_spool then fs else record fs { host = host.remove_file p.spool fs.host }

  -- `pending.insert`: an entry that it replaces is dropped.
  unfoldable pub insert_pending : List ℕ → Pending F → Fs D H F → Fs D H F
  unfolding drop_pending
  insert_pending path p fs = elim (PathMap.get fs.pending path) [
    | none ↦ put path p fs
    | some older ↦ drop_pending older (put path p fs)
  ]

  -- The host is known to have too little space.
  unfoldable pub is_too_large : ℕ → Fs D H F → Bool
  unfolding free_bytes spool_dir
  is_too_large size fs = elim (free_bytes host (spool_dir host) fs.host) [
    | none ↦ false
    | some free ↦ ltb free size
  ]

  -- A write that failed marks its entry.
  abbrev pub mark_broken : List ℕ → Pending F → ℕ → Fs D H F → Fs D H F
  mark_broken path p e = put path (record p { broken = some e })

  -- What `op_write` does with what the loop gave.
  unfoldable pub note_write : List ℕ → Pending F → ℕ → ℕ → Result ℕ ℕ → Action ℕ (Fs D H F) ℕ
  note_write path p count offset r fs = elim r [
    | err e ↦ (err e, mark_broken path p e fs)
    | ok done ↦
        if ltb done count
        then (err enospc, mark_broken path p enospc fs)
        else (let end = offset + count in
            (
              ok (count % 2 ^ 32),
              if ltb p.size end then put path (record p { size = end }) fs else fs,
            ))
  ]

  unfoldable pub op_write : List ℕ → List ℕ → ℕ → Action ℕ (Option (Fs D H F)) ℕ
  unfolding with_fs write_loop note_write
  op_write path bytes offset = with_fs eio λ fs. elim (PathMap.get fs.pending path) [
    | none ↦ (err erofs, fs)
    | some p ↦
        let (r, h) = write_loop host (length bytes) p.file bytes offset 0 fs.host in
        note_write path p (length bytes) offset r (record fs { host = h })
  ]

  -- `set_len` on the spool file, and the new count.
  unfoldable pub resize : List ℕ → ℕ → Pending F → Action ℕ (Fs D H F) (Unit {0})
  resize path size p = or_errno (on_host (host.set_len p.file size)) eio >>= λ _.
      change (put path (record p { size = size }))

module _ {D H F : Type 0} (tr : Transport D) (host : Host H F) where
  -- The loop of `copy_object_to_spool`, with its rounds left: `at` bytes are in the spool file.
  unfoldable pub copy_loop : ℕ → ℕ → ℕ → F → ℕ → Action ℕ (Fs D H F) ℕ
  unfolding read_at
  copy_loop zero handle size file at fs = (ok at, fs)
  copy_loop (suc rounds) handle size file at fs = elim (ltb at size) [
    | false ↦ (ok at, fs)
    | true ↦
        (or_errno (on_device (read_at tr handle at (min read_chunk (size - at)) size)) eio
            >>= λ bytes. elim (length bytes == 0) [
              | true ↦ pure at
              | false ↦ or_errno (on_host (host.write_all file bytes)) eio >>= λ _.
                  copy_loop rounds handle size file (at + length bytes)
            ])
          fs
  ]

  unfoldable pub copy_object_to_spool : ℕ → ℕ → F → Action ℕ (Fs D H F) ℕ
  unfolding copy_loop
  copy_object_to_spool handle size file = copy_loop size handle size file 0

  unfoldable pub adopt_for_write : List ℕ → ℕ → Entry → Bool → Action ℕ (Fs D H F) (Unit {0})
  unfolding make_spool insert_pending copy_object_to_spool is_too_large
  adopt_for_write path handle e keep fs =
      let copies = keep && ltb 0 e.size in
      if copies && is_too_large host e.size fs
      then (err enospc, fs)
      else ((or_errno (make_spool host) eio >>= λ made.
            (if copies then copy_object_to_spool handle e.size made.0 else pure 0) >>= λ size.
            change (insert_pending host path (adopted handle e made.0 made.1 size)))
          fs)

  -- The answer is the value for `fh`.
  unfoldable pub op_open : List ℕ → Option ℕ → Action ℕ (Option (Fs D H F)) ℕ
  unfolding with_fs resolve adopt_for_write
  op_open path fi_flags = with_fs enoent (
      let flags : ℕ = elim fi_flags [ none ↦ 0 | some n ↦ n ] in
      resolve_or tr path >>= λ handle. λ fs.
        (lift (file_of (Tree.get fs.tree handle)) >>= λ e.
        (if writes flags && not (PathMap.contains_key fs.pending path)
          then adopt_for_write path handle e (not (truncates flags))
          else pure tt)
        >>= λ _. pure (handle + (if writes flags then fh_writer else 0)))
          fs)

  unfoldable pub op_create : List ℕ → Action ℕ (Option (Fs D H F)) ℕ
  unfolding with_fs split_parent resolve make_spool insert_pending
  op_create path = with_fs eio (
      let (dir, name) = split_parent path in
      elim name [
        | [] ↦ raise eio
        | c ∷ cs ↦ resolve_or tr dir >>= λ parent. or_errno (make_spool host) eio >>= λ made.
            change (insert_pending host path (created parent (c ∷ cs) made.0 made.1)) >>= λ _.
            pure fh_writer
      ])
