-- ===== src/Mount/Found.antt =====
-- That the walk along a path (`resolve` of crates/mtpfs/src/main.rs) finds what the device holds.
use bsdroid.Base.{ok}
use bsdroid.Base.{ℕ, ◌≡◌, Option}
use bsdroid.Session.{Transport}
use bsdroid.Backend.{Mtp}
use bsdroid.Backend.Folder.{list}
use bsdroid.Mount.{Fs}
use bsdroid.Mount.Storage.{Storage, IsKnown, IsWhole, IsPartOf}

-- What a device that holds the storage gives to `list`, in the states of a family: the objects of a folder.
pub record Lists {D : Type 0} (tr : Transport D) (s : Storage) (IsFit : Mtp D → Type 0)
    : Type 0 where
  pub lists :
      (m : Mtp D) (p : ℕ)
      → IsFit m
      → IsKnown s p
      → (m' : Mtp D) × (list tr p m ≡ (ok (s.inside p), m')) × IsFit m'

module _ {D H F : Type 0} (tr : Transport D) where
  module _ (s : Storage) (IsFit : Mtp D → Type 0) (lists : Lists tr s IsFit)
      (whole : IsWhole s) where
    -- The answer of the storage, and the mount is still a part of it.
    abbrev pub Finds : Option ℕ → Option ℕ × Fs D H F → Type 0
    Finds answer r = (r.0 ≡ answer) × IsPartOf s r.1.tree × IsFit r.1.mtp
