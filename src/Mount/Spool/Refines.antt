-- ===== src/Mount/Spool/Refines.antt =====
-- A file that a program writes is a file of bytes: the callbacks `op_write`, `op_truncate`, `op_read`
-- and `op_getattr` of crates/mtpfs/src/main.rs against an abstract file.
use bsdroid.Base.{ltb, leb, Bool-cases}
use bsdroid.Base.{length, take, drop, All, length-drop, take-min}
use bsdroid.Base.{ok}
use bsdroid.Base.{
  ℕ, zero, suc, ◌+◌, ◌-◌, ◌^◌, ◌<◌, min, ◌≡◌, refl, sym, ap, ◌∙◌, subst, inl, inr, Option, none,
  some, List, [], ◌∷◌, arith,
}
use bsdroid.Base.Action.{Action, pure, ◌>>=◌, >>=-step}
use bsdroid.Base.PathMap
use bsdroid.Base.PathMap.{get-insert_here}
use bsdroid.Session.{Transport}
use bsdroid.Backend.Read.Slices.{slice}
use bsdroid.Mount.{Host, Pending, Fs, with_fs}
use bsdroid.Mount.Spool.{put, op_write}
use bsdroid.Mount.Send.{op_truncate}
use bsdroid.Mount.Look.{op_getattr, op_read, read_pending, stat_of_pending}
use bsdroid.Mount.Spool.Contents.{patch, resized, length-patch, length-resized}
use bsdroid.Mount.Spool.Filled.{Stores, write_loop-fills}
use bsdroid.Mount.Spool.Runs.{op_write-whole, op_truncate-there, op_read-inside}

take-nil : (n : ℕ) {xs : List ℕ} → xs ≡ [] → [] ≡ take n xs
take-nil zero e = refl
take-nil (suc n) e = rw e refl

pub length-nil : (xs : List ℕ) → length xs ≡ 0 → xs ≡ []
length-nil [] e = refl
length-nil (x ∷ xs) e = absurd (omega (arith, e))

-- What a program does with a file that it writes; a write has a byte at least.
pub data FileOp : Type 0 where
  write : ℕ → List ℕ → ℕ → FileOp
  truncate : ℕ → FileOp
  read : ℕ → ℕ → FileOp
  size : FileOp

-- The abstract file: the answer, and the contents behind it.
abbrev pub on_bytes : FileOp → List ℕ → List ℕ × List ℕ
on_bytes (write b bytes offset) c = (length (b ∷ bytes) ∷ [], patch c offset (b ∷ bytes))
on_bytes (truncate n) c = ([], resized c n)
on_bytes (read count offset) c = (slice c offset count, c)
on_bytes size c = (length c ∷ [], c)

unfoldable pub all_on_bytes : List FileOp → List ℕ → List (List ℕ) × List ℕ
all_on_bytes [] c = ([], c)
all_on_bytes (o ∷ ops) c =
    let (a, c1) = on_bytes o c in let (rest, c2) = all_on_bytes ops c1 in (a ∷ rest, c2)

-- The count of a write fits an answer.
abbrev pub Fits : FileOp → Type 0
Fits (write b bytes offset) = length (b ∷ bytes) < 2 ^ 31
Fits (truncate n) = Unit
Fits (read count offset) = Unit
Fits size = Unit

module _ {D H F : Type 0} (tr : Transport D) (host : Host H F) (path : List ℕ) where
  -- The callback of an operation.
  unfoldable pub on_mount : FileOp → Action ℕ (Option (Fs D H F)) (List ℕ)
  unfolding op_write op_truncate op_read op_getattr
  on_mount (write b bytes offset) = op_write host path (b ∷ bytes) offset >>= λ n. pure (n ∷ [])
  on_mount (truncate n) = op_truncate tr host path n >>= λ _. pure []
  on_mount (read count offset) = op_read tr host path count offset none
  on_mount size = op_getattr tr host path >>= λ st. pure (st.size ∷ [])

  unfoldable pub all_on_mount : List FileOp → Action ℕ (Option (Fs D H F)) (List (List ℕ))
  unfolding on_mount
  all_on_mount [] = pure []
  all_on_mount (o ∷ ops) = on_mount o >>= λ a. all_on_mount ops >>= λ rest. pure (a ∷ rest)

  module _ (contents : F → H → List ℕ) where
    -- The mount has an entry for the path, whose spool file holds the bytes.
    abbrev pub Holds : List ℕ → Option (Fs D H F) → Type 0
    Holds c st =
        (fs : Fs D H F) × (p : Pending F) × (st ≡ some fs)
        × (PathMap.get fs.pending path ≡ some p)
        × (contents p.file fs.host ≡ c)
        × (p.size ≡ length c)

    -- An operation answers as on the bytes, and the mount holds what the bytes became.
    abbrev pub Does : FileOp → List ℕ → Option (Fs D H F) → Type 0
    Does o c st =
        (st' : Option (Fs D H F)) × (on_mount o st ≡ (ok (on_bytes o c).0, st'))
        × Holds (on_bytes o c).1 st'

    module _ (stores : Stores host contents) where
      write-Does :
          (b : ℕ) (bytes : List ℕ) (offset : ℕ) (c : List ℕ) (fs : Fs D H F) (p : Pending F)
          → Fits (write b bytes offset)
          → PathMap.get fs.pending path ≡ some p
          → contents p.file fs.host ≡ c
          → p.size ≡ length c
          → Does (write b bytes offset) c (some fs)
      unfolding on_mount patch
      write-Does b bytes offset c fs p small there holds sized =
          let count = length (b ∷ bytes) in
          let (h, run, now) =
            write_loop-fills host contents stores count p.file c (b ∷ bytes) offset 0 fs.host
              (omega arith) (omega arith) holds in
          let wrote = op_write-whole tr host path (b ∷ bytes) offset fs p h small there run in
          let is = length-patch c offset b bytes in
          let over = >>=-step (op_write host path (b ∷ bytes) offset) _ (some fs) _ _ in
          let fs1 : Fs D H F = record fs { host = h } in
          elim (Bool-cases (ltb p.size (offset + count))) [
            | inl longer ↦
                let q : Pending F = record p { size = offset + count } in
                (
                  some (put path q fs1),
                  over wrote ∙ rw longer refl,
                  (
                    put path q fs1,
                    q,
                    refl,
                    get-insert_here fs.pending path q,
                    now,
                    ground (arith, is, longer, sized),
                  ),
                )
            | inr inside ↦ (
              some fs1,
              over wrote ∙ rw inside refl,
              (fs1, p, refl, there, now, ground (arith, is, inside, sized)),
            )
          ]

      truncate-Does :
          (n : ℕ) (c : List ℕ) (fs : Fs D H F) (p : Pending F)
          → PathMap.get fs.pending path ≡ some p
          → contents p.file fs.host ≡ c
          → Does (truncate n) c (some fs)
      unfolding on_mount
      truncate-Does n c fs p there holds =
          let (h, run, now) = stores.sized p.file n fs.host in
          let q : Pending F = record p { size = n } in
          let fs1 : Fs D H F = put path q (record fs { host = h }) in
          (
            some fs1,
            >>=-step (op_truncate tr host path n) _ (some fs) _ _
                (op_truncate-there tr host path n fs p h there run),
            (
              fs1,
              q,
              refl,
              get-insert_here fs.pending path q,
              now ∙ ap (λ x. resized x n) holds,
              sym (length-resized c n),
            ),
          )

      read-Does :
          (count offset : ℕ) (c : List ℕ) (fs : Fs D H F) (p : Pending F)
          → PathMap.get fs.pending path ≡ some p
          → contents p.file fs.host ≡ c
          → p.size ≡ length c
          → Does (read count offset) c (some fs)
      unfolding on_mount op_read with_fs read_pending
      read-Does count offset c fs p there holds sized = elim (Bool-cases (leb p.size offset)) [
        | inl behind ↦
            let none_left : drop offset c ≡ [] =
              length-nil (drop offset c) (ground (arith, length-drop offset c, behind, sized)) in
            (
              some fs,
              rw (there, behind) (λ i. (ok (take-nil count none_left i), some fs)),
              (fs, p, refl, there, holds, sized),
            )
        | inr inside ↦
            let (h, run, same_bytes) =
              stores.gives p.file (min count (p.size - offset)) offset fs.host in
            let fs1 : Fs D H F = record fs { host = h } in
            let is : slice (contents p.file fs.host) offset (min count (p.size - offset))
                ≡ slice c offset count =
              (λ i. slice (holds i) offset (min count (sized i - offset)))
              ∙ ap (λ n. take n (drop offset c)) (omega (arith, length-drop offset c))
              ∙ take-min count (drop offset c) in
            (
              some fs1,
              op_read-inside tr host path count offset _ fs p h there inside run
                  ∙ (λ i. (ok (is i), some fs1)),
              (fs1, p, refl, there, same_bytes ∙ holds, sized),
            )
      ]

      size-Does :
          (c : List ℕ) (fs : Fs D H F) (p : Pending F)
          → PathMap.get fs.pending path ≡ some p
          → contents p.file fs.host ≡ c
          → p.size ≡ length c
          → Does size c (some fs)
      unfolding on_mount op_getattr with_fs
      size-Does c fs p there holds sized = (
        some fs,
        >>=-step (op_getattr tr host path) _ (some fs) (some fs) (stat_of_pending tr host p)
              (rw (op_getattr, with_fs, there) refl)
            ∙ (λ i. (ok (sized i ∷ []), some fs)),
        (fs, p, refl, there, holds, sized),
      )

      on_mount-Does :
          (o : FileOp) (c : List ℕ) (st : Option (Fs D H F)) → Fits o → Holds c st → Does o c st
      on_mount-Does o c st fits (fs, p, is, there, holds, sized) =
          subst (Does o c) (sym is) (go o fits)
        where
          go : (o : FileOp) → Fits o → Does o c (some fs)
          go (write b bytes offset) fits = write-Does b bytes offset c fs p fits there holds sized
          go (truncate n) fits = truncate-Does n c fs p there holds
          go (read count offset) fits = read-Does count offset c fs p there holds sized
          go size fits = size-Does c fs p there holds sized

      -- On a host with room, a file that the mount is writing is a file of bytes: whatever writes, changes of size, reads and questions for the size a program makes, and however few bytes the host takes at a time, each is answered as on the bytes, and the spool file holds at the end what the bytes became.
      pub all_on_mount-Refines :
          (ops : List FileOp) (c : List ℕ) (st : Option (Fs D H F))
          → All Fits ops
          → Holds c st
          → (st' : Option (Fs D H F)) × (all_on_mount ops st ≡ (ok (all_on_bytes ops c).0, st'))
            × Holds (all_on_bytes ops c).1 st'
      unfolding all_on_mount all_on_bytes
      all_on_mount-Refines [] c st fits holds = (st, refl, holds)
      all_on_mount-Refines (o ∷ ops) c st fits holds =
          let (st1, run, holds1) = on_mount-Does o c st fits.0 holds in
          let (st2, rest, holds2) = all_on_mount-Refines ops (on_bytes o c).1 st1 fits.1 holds1 in
          (
            st2,
            >>=-step (on_mount o) _ st st1 _ run ∙ >>=-step (all_on_mount ops) _ st1 st2 _ rest,
            holds2,
          )
