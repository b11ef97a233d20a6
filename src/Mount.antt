-- ===== src/Mount.antt =====
-- The file system of the mount (crates/mtpfs/src/main.rs): the state that the callbacks share, the
-- files of the host that they use, and the walk along a path over the tree and the device. An
-- error number is that of the code without its sign.
pub mod Names
pub mod Walk
pub mod Storage
pub mod Found
pub mod Harmless
pub mod Change
pub mod Spool
pub mod Send
pub mod Look
mod Examples
mod FileExamples
mod RefusedExamples
use bsdroid.Base.{
  ltb, leb, ◌==◌, if◌then◌else◌, ltb→lt, lt→ltb, le→ltb, ==_iff, ==_refl, Bool-cases, Option-cases,
  same, same_iff,
}
use bsdroid.Base.{
  length, get_or, get_elem?, take, drop, find, All, length-append, length-take, length-drop,
  take-append-drop, take-length_append, drop-length_append, take_all, take-min, take-append-take,
  take-take, drop-drop, find-some, All-append, All-take, All-drop, get_or-All,
}
use bsdroid.Base.{Result, ok, err, then_ok, map_err, IsOk, Result-cases, map_err-ok}
use bsdroid.Base.{
  IsByte, IsU16, IsU32, IsU64, usize_max, le_u16, le_u32, from_le_u16, from_le_u32, u16_at, u32_at,
  from_le-le_u16, from_le-le_u32, le-from_le_u16, le-from_le_u32, u32_at-IsU32,
}
use bsdroid.Base.{
  ℕ, zero, suc, ◌+◌, ◌-◌, ◌*◌, ◌/◌, ◌%◌, ◌^◌, ◌≤◌, ◌<◌, min, max, String, ◌≡◌, refl, sym, ap, ◌∙◌,
  subst, ◌≢◌, ◌↔◌, ◌⊎◌, inl, inr, Bool, true, false, not, ◌&&◌, ◌||◌, Option, none, some, List, [],
  ◌∷◌, ◌++◌, map, append_assoc, append-nil, arith,
}
use bsdroid.Base.Action.{Action, pure, raise, lift, ◌>>=◌}
use bsdroid.Base.PathMap.{PathMap}
use bsdroid.Tree.{
  root, Entry, Tree, found, need_listing, not_found, lookup, set_children, forget_listing,
}
use bsdroid.Session.{Transport, Source}
use bsdroid.Backend.{Error, Mtp}
use bsdroid.Backend.Folder.{list}

abbrev pub enoent : ℕ
enoent = 2

abbrev pub eio : ℕ
eio = 5

abbrev pub enotdir : ℕ
enotdir = 20

abbrev pub eisdir : ℕ
eisdir = 21

abbrev pub enospc : ℕ
enospc = 28

abbrev pub erofs : ℕ
erofs = 30

abbrev pub enotsup : ℕ
enotsup = 45

abbrev pub max_walk : ℕ
max_walk = 64

-- The folder and the name of a spool file.
pub record SpoolPath : Type 0 where
  pub dir : List ℕ
  pub name : List ℕ

-- What the program uses of the host: `H` is the state of its disk, `F` an open file. An error is the number of `raw_os_error().unwrap_or(EIO)`. `statvfs` gives `f_bavail` and `f_frsize`. A read of the source may be interrupted `patience` times.
pub record Host (H F : Type 0) : Type 0 where
  pub owner : ℕ × ℕ
  pub pid : ℕ
  pub patience : ℕ
  pub var : String → Option (List ℕ)
  pub statvfs : List ℕ → H → Option (ℕ × ℕ)
  pub create_file : SpoolPath → Action ℕ H F
  pub remove_file : SpoolPath → H → H
  pub write_at : F → List ℕ → ℕ → Action ℕ H ℕ
  pub write_all : F → List ℕ → Action ℕ H (Unit {0})
  pub read_at : F → ℕ → ℕ → Action ℕ H (List ℕ)
  pub set_len : F → ℕ → Action ℕ H (Unit {0})
  pub rewind : F → Action ℕ H (Unit {0})
  pub reader : F → Source H

-- A file that a program writes. `sent` is the answer of the send, once it happened.
pub record Pending (F : Type 0) : Type 0 where
  pub parent : ℕ
  pub name : List ℕ
  pub file : F
  pub spool : SpoolPath
  pub size : ℕ
  pub sent : Option (Result ℕ (Unit {0}))
  pub replaces : Option ℕ
  pub broken : Option ℕ
  pub keep_spool : Bool

-- `host` is the disk, and `spool_count` is the counter `SPOOL_COUNT`, which are global in the source.
pub record Fs (D H F : Type 0) : Type 0 where
  pub mtp : Mtp D
  pub tree : Tree
  pub pending : PathMap (Pending F)
  pub host : H
  pub spool_count : ℕ

abbrev pub ok_or {ℓ} : {A : Type ℓ} → Option A → ℕ → Result ℕ A
ok_or none e = err e
ok_or (some a) e = ok a

module _ {D H F : Type 0} where
  -- `with_fs` behind the lock.
  unfoldable pub with_fs {ℓ} :
      {A : Type ℓ} → ℕ → Action ℕ (Fs D H F) A → Action ℕ (Option (Fs D H F)) A
  with_fs absent body none = (err absent, none)
  with_fs absent body (some fs) = let (r, fs') = body fs in (r, some fs')

  -- A call of the device.
  abbrev pub on_device {ℓ} : {A : Type ℓ} → Action Error (Mtp D) A → Action Error (Fs D H F) A
  on_device call fs = let (r, mtp) = call fs.mtp in (r, record fs { mtp = mtp })

  -- A call of the host.
  abbrev pub on_host {ℓ} : {A : Type ℓ} → Action ℕ H A → Action ℕ (Fs D H F) A
  on_host call fs = let (r, host) = call fs.host in (r, record fs { host = host })

  -- The error number that stands for any fault.
  abbrev pub or_errno {ℓ κ} :
      {E : Type κ} {A : Type ℓ} → Action E (Fs D H F) A → ℕ → Action ℕ (Fs D H F) A
  or_errno call e fs = let (r, fs') = call fs in (map_err (λ x. e) r, fs')

  -- A call whose fault goes to the log alone.
  abbrev pub ignored {ℓ κ} : {E : Type κ} {A : Type ℓ} → Action E (Fs D H F) A → Fs D H F → Fs D H F
  ignored call fs = (call fs).1

  abbrev pub forget_folder : ℕ → Fs D H F → Fs D H F
  forget_folder parent fs = record fs { tree = forget_listing fs.tree parent }

  -- A step that cannot fail.
  abbrev pub change : (Fs D H F → Fs D H F) → Action ℕ (Fs D H F) (Unit {0})
  change f fs = (ok tt, f fs)

module _ {D H F : Type 0} (tr : Transport D) where
  -- The loop of `resolve` with its rounds left: a listing that is missing is read and put into the tree.
  unfoldable pub walk : ℕ → List ℕ → Fs D H F → Option ℕ × Fs D H F
  unfolding lookup set_children list
  walk zero path fs = (none, fs)
  walk (suc rounds) path fs = elim (lookup fs.tree path) [
    | found h ↦ (some h, fs)
    | not_found ↦ (none, fs)
    | need_listing parent ↦
        let (r, mtp) = list tr parent fs.mtp in
        elim r [
          | err e ↦ (none, record fs { mtp = mtp })
          | ok entries ↦
              walk rounds path (record fs { mtp = mtp; tree = set_children fs.tree parent entries })
        ]
  ]

  unfoldable pub resolve : List ℕ → Fs D H F → Option ℕ × Fs D H F
  unfolding walk
  resolve path fs = walk max_walk path fs

  -- `resolve` with the error number of its callers.
  abbrev pub resolve_or : List ℕ → Action ℕ (Fs D H F) ℕ
  resolve_or path fs = let (r, fs') = resolve path fs in (ok_or r enoent, fs')
