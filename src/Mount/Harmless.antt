-- ===== src/Mount/Harmless.antt =====
-- A property of the device that the calls of crates/mtpfs/src/main.rs keep, and the steps that keep it.
use bsdroid.Base.{if◌then◌else◌}
use bsdroid.Base.{Result, ok, err}
use bsdroid.Base.{ℕ, ◌≡◌, Bool, true, false, Option, none, some, List}
use bsdroid.Base.Action.{Action, continue, ◌>>=◌}
use bsdroid.Session.{Transport}
use bsdroid.Backend.{Mtp}
use bsdroid.Backend.Folder.{list}
use bsdroid.Backend.Changes.{storage_info, rename_object, move_object, send_object_stream}
use bsdroid.Mount.{Host, Fs}
use bsdroid.Mount.Change.{put_back}

-- A property of the device that every call of it keeps but a delete, such as that an object is there with its contents.
pub record Harmless {D H F : Type 0} (tr : Transport D) (host : Host H F) (K : Mtp D → Type 0)
    : Type 0 where
  pub listing : (p : ℕ) (m : Mtp D) → K m → K (list tr p m).1
  pub space : (m : Mtp D) → K m → K (storage_info tr m).1
  pub renaming : (h : ℕ) (name : List ℕ) (m : Mtp D) → K m → K (rename_object tr h name m).1
  pub moving : (h p : ℕ) (m : Mtp D) → K m → K (move_object tr h p m).1
  pub sending :
      (f : F) (p size : ℕ) (name : List ℕ) (m : Mtp D) (h : H)
      → K m
      → K (send_object_stream tr (host.reader f) host.patience p name size (m, h)).1.0

module _ {D H F : Type 0} (K : Mtp D → Type 0) where
  -- A step keeps the property.
  abbrev pub Keeps : {A : Type 0} → Action ℕ (Fs D H F) A → Type 0
  Keeps a = (fs : Fs D H F) → K fs.mtp → K (a fs).1.mtp

  -- A step that fails keeps the property.
  abbrev pub KeepsOnFault : {A : Type 0} → Action ℕ (Fs D H F) A → Type 0
  KeepsOnFault a = (fs : Fs D H F) (e : ℕ) → K fs.mtp → (a fs).0 ≡ err e → K (a fs).1.mtp

  pub Keeps-chain :
      {A B : Type 0} (m : Action ℕ (Fs D H F) A) (f : A → Action ℕ (Fs D H F) B)
      → Keeps m
      → ((a : A) → Keeps (f a))
      → Keeps (m >>= f)
  Keeps-chain {A} m f keeps next fs k = go (m fs).0 (m fs).1 (keeps fs k)
    where
      go : (r : Result ℕ A) (u : Fs D H F) → K u.mtp → K (continue r f u).1.mtp
      go (ok a) u k = next a u k
      go (err e) u k = k

  pub KeepsOnFault-chain :
      {A B : Type 0} (m : Action ℕ (Fs D H F) A) (f : A → Action ℕ (Fs D H F) B)
      → Keeps m
      → ((a : A) → KeepsOnFault (f a))
      → KeepsOnFault (m >>= f)
  KeepsOnFault-chain {A} m f keeps next fs e k is = go (m fs).0 (m fs).1 (keeps fs k) is
    where
      go :
          (r : Result ℕ A) (u : Fs D H F)
          → K u.mtp
          → (continue r f u).0 ≡ err e
          → K (continue r f u).1.mtp
      go (ok a) u k is = next a u e k is
      go (err e) u k is = k

  pub KeepsOnFault-if :
      {A : Type 0} (b : Bool) (x y : Action ℕ (Fs D H F) A)
      → KeepsOnFault x
      → KeepsOnFault y
      → KeepsOnFault (if b then x else y)
  KeepsOnFault-if true x y kx ky = kx
  KeepsOnFault-if false x y kx ky = ky

  module _ (tr : Transport D) (host : Host H F) (harmless : Harmless tr host K) where
    pub put_back-Keeps :
        (old : Option ℕ) (name : List ℕ) (fs : Fs D H F)
        → K fs.mtp
        → K (put_back tr old name fs).mtp
    unfolding put_back
    put_back-Keeps none name fs k = k
    put_back-Keeps (some h) name fs k = harmless.renaming h name fs.mtp k
