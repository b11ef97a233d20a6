-- ===== src/Mount/Look.antt =====
-- The callbacks that only look (crates/mtpfs/src/main.rs): the attributes of an object, the names in
-- a folder, the bytes of a file, and the space of the storage.
use bsdroid.Base.{leb, ◌==◌, if◌then◌else◌}
use bsdroid.Base.{take}
use bsdroid.Base.{Result, ok, err}
use bsdroid.Base.{ℕ, ◌+◌, ◌-◌, ◌/◌, min, Bool, Option, none, some, List, [], ◌∷◌, ◌++◌}
use bsdroid.Base.Action.{Action, pure, raise, lift, ◌>>=◌}
use bsdroid.Base.PathMap
use bsdroid.Tree.{root, Entry, set_children}
use bsdroid.Tree
use bsdroid.Session.{Transport}
use bsdroid.Backend.Folder.{list}
use bsdroid.Backend.Changes.{storage_info}
use bsdroid.Backend.Read.{read_at}
use bsdroid.Mount.{
  enoent, eio, Host, Pending, Fs, ok_or, with_fs, on_device, on_host, or_errno, change, resolve,
  resolve_or,
}
use bsdroid.Mount.Names.{fh_handle, shown_name}

abbrev pub mode_dir : ℕ
mode_dir = 0x41ed

abbrev pub mode_file : ℕ
mode_file = 0x81a4

-- The fields of `stat` that the program sets; the others are 0.
pub record Stat : Type 0 where
  pub mode : ℕ
  pub nlink : ℕ
  pub size : ℕ
  pub uid : ℕ
  pub gid : ℕ
  pub blocks : ℕ
  pub blksize : ℕ

-- The fields of `statvfs` that the program sets.
pub record SpaceStat : Type 0 where
  pub bsize : ℕ
  pub frsize : ℕ
  pub blocks : ℕ
  pub bfree : ℕ
  pub bavail : ℕ
  pub namemax : ℕ

-- The mode, the size and the links of an object.
unfoldable pub kind_of : ℕ → Option Entry → Result ℕ (ℕ × ℕ × ℕ)
kind_of handle e = if handle == root then ok (mode_dir, 0, 2) else elim e [
  | none ↦ err enoent
  | some x ↦ if x.is_dir then ok (mode_dir, 0, 2) else ok (mode_file, x.size, 1)
]

-- The names that the filler takes.
unfoldable pub shown_names : List Entry → List (List ℕ)
unfolding shown_name
shown_names [] = []
shown_names (e ∷ es) = shown_name e.name ∷ shown_names es

abbrev pub dot_names : List (List ℕ)
dot_names = (b'.' ∷ []) ∷ (b'.' ∷ b'.' ∷ []) ∷ []

module _ {D H F : Type 0} (tr : Transport D) (host : Host H F) where
  abbrev pub stat_of_object : ℕ × ℕ × ℕ → Stat
  stat_of_object (mode, size, links) = record {
    mode = mode;
    nlink = links;
    size = size;
    uid = host.owner.0;
    gid = host.owner.1;
    blocks = (size + 511) / 512;
    blksize = 65536;
  }

  -- A file that a program writes.
  abbrev pub stat_of_pending : Pending F → Stat
  stat_of_pending p = record {
    mode = mode_file;
    nlink = 1;
    size = p.size;
    uid = host.owner.0;
    gid = host.owner.1;
    blocks = 0;
    blksize = 65536;
  }

  unfoldable pub op_getattr : List ℕ → Action ℕ (Option (Fs D H F)) Stat
  unfolding with_fs resolve kind_of
  op_getattr path = with_fs enoent λ fs. elim (PathMap.get fs.pending path) [
    | some p ↦ (ok (stat_of_pending p), fs)
    | none ↦
        (resolve_or tr path >>= λ handle. λ fs1.
            (lift (kind_of handle (Tree.get fs1.tree handle)) >>= λ kind.
            pure (stat_of_object kind))
              fs1)
          fs
  ]

  -- A folder that the walk did not open needs a read.
  unfoldable pub ensure_listed : ℕ → Action ℕ (Fs D H F) (Unit {0})
  unfolding list set_children
  ensure_listed handle fs =
      if Tree.is_listed fs.tree handle
      then (ok tt, fs)
      else (or_errno (on_device (list tr handle)) eio >>= λ entries.
            change (λ fs1. record fs1 { tree = set_children fs1.tree handle entries }))
          fs

  -- The answer is the names that the filler took.
  unfoldable pub op_readdir : List ℕ → Bool → Action ℕ (Option (Fs D H F)) (List (List ℕ))
  unfolding with_fs resolve ensure_listed shown_names
  op_readdir path has_filler = with_fs enoent (
      resolve_or tr path >>= λ handle. ensure_listed handle >>= λ _.
      if has_filler
      then (λ fs.
          (lift (ok_or (Tree.children_of fs.tree handle) eio) >>= λ entries.
          pure (dot_names ++ shown_names entries))
            fs)
      else raise eio)

  -- A read of the spool file.
  unfoldable pub read_pending : Pending F → ℕ → ℕ → Action ℕ (Fs D H F) (List ℕ)
  read_pending p count offset =
      if leb p.size offset
      then pure []
      else or_errno (on_host (host.read_at p.file (min count (p.size - offset)) offset)) eio

  -- The handle of `open`, and else the path.
  unfoldable pub handle_of : List ℕ → Option ℕ → Action ℕ (Fs D H F) ℕ
  unfolding resolve
  handle_of path fh = elim fh [
    | none ↦ resolve_or tr path
    | some n ↦ if fh_handle n == 0 then resolve_or tr path else pure (fh_handle n)
  ]

  -- A read of the object on the device.
  unfoldable pub read_object : ℕ → ℕ → ℕ → Action ℕ (Fs D H F) (List ℕ)
  unfolding read_at
  read_object handle count offset fs =
      (lift (ok_or (Tree.get fs.tree handle) enoent) >>= λ e.
      if leb e.size offset
      then pure []
      else (or_errno (on_device (read_at tr handle offset (min count (e.size - offset)) e.size)) eio
          >>= λ bytes. pure (take count bytes)))
        fs

  -- The answer is the bytes that go to the buffer.
  unfoldable pub op_read : List ℕ → ℕ → ℕ → Option ℕ → Action ℕ (Option (Fs D H F)) (List ℕ)
  unfolding with_fs read_pending handle_of read_object
  op_read path count offset fh = with_fs enoent λ fs. elim (PathMap.get fs.pending path) [
    | some p ↦ read_pending p count offset fs
    | none ↦ (handle_of path fh >>= λ handle. read_object handle count offset) fs
  ]

  unfoldable pub op_statfs : Action ℕ (Option (Fs D H F)) SpaceStat
  unfolding with_fs storage_info
  op_statfs = with_fs eio (
      or_errno (on_device (storage_info tr)) eio >>= λ space. pure (record {
        bsize = 4096;
        frsize = 4096;
        blocks = space.0 / 4096;
        bfree = space.1 / 4096;
        bavail = space.1 / 4096;
        namemax = 255;
      }))

-- `op_utimens`, `op_chmod` and `op_chown` change nothing.
abbrev pub accepts {ℓ} : {S : Type ℓ} → Action ℕ S (Unit {0})
accepts s = (ok tt, s)
