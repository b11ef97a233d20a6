-- ===== src/Mount/Spool/Runs.antt =====
-- What `op_write`, `op_truncate` and `op_read` of crates/mtpfs/src/main.rs do to a file that a program
-- writes, where the host does what it is asked for.
use bsdroid.Base.{ltb, leb, if◌then◌else◌}
use bsdroid.Base.{length}
use bsdroid.Base.{Result, ok, map_err}
use bsdroid.Base.{
  ℕ, ◌+◌, ◌-◌, ◌%◌, ◌^◌, ◌<◌, min, ◌≡◌, refl, ap, ◌∙◌, false, Option, none, some, List, arith,
}
use bsdroid.Base.Action.{continue}
use bsdroid.Base.PathMap
use bsdroid.Base.PathMap.{get-insert_here}
use bsdroid.Session.{Transport}
use bsdroid.Mount.{eio, Host, Pending, Fs, with_fs, change}
use bsdroid.Mount.Spool.{put, write_loop, note_write, op_write, resize}
use bsdroid.Mount.Send.{op_truncate}
use bsdroid.Mount.Look.{op_read, read_pending}

module _ {D H F : Type 0} (tr : Transport D) (host : Host H F) (path : List ℕ) where
  pub op_write-whole :
      (bytes : List ℕ) (offset : ℕ) (fs : Fs D H F) (p : Pending F) (h : H)
      → length bytes < 2 ^ 31
      → PathMap.get fs.pending path ≡ some p
      → write_loop host (length bytes) p.file bytes offset 0 fs.host ≡ (ok (length bytes), h)
      → op_write host path bytes offset (some fs) ≡ (
        ok (length bytes),
        some (
            if ltb p.size (offset + length bytes)
            then put path (record p { size = offset + length bytes }) (record fs { host = h })
            else record fs { host = h }),
      )
  unfolding op_write with_fs note_write
  op_write-whole bytes offset fs p h small there run =
      let after : Result ℕ ℕ × H → Result ℕ ℕ × Option (Fs D H F) = λ w.
        let x = note_write host path p (length bytes) offset w.0 (record fs { host = w.1 }) in
        (x.0, some x.1) in
      let whole : ltb (length bytes) (length bytes) ≡ false = ground arith in
      let answer : length bytes % 2 ^ 32 ≡ length bytes = omega (arith, small) in
      rw (op_write, with_fs, there) (ap after run ∙ rw (note_write, whole, answer) refl)

  pub op_truncate-there :
      (n : ℕ) (fs : Fs D H F) (p : Pending F) (h : H)
      → PathMap.get fs.pending path ≡ some p
      → host.set_len p.file n fs.host ≡ (ok tt, h)
      → op_truncate tr host path n (some fs)
        ≡ (ok tt, some (put path (record p { size = n }) (record fs { host = h })))
  unfolding op_truncate with_fs resize
  op_truncate-there n fs p h there run =
      let after : Result ℕ (Unit {0}) × H → Result ℕ (Unit {0}) × Option (Fs D H F) = λ w.
        let x =
          continue (map_err (λ e. eio) w.0) (λ _. change (put path (record p { size = n })))
            (record fs { host = w.1 }) in
        (x.0, some x.1) in
      rw (op_truncate, with_fs, there) (ap after run)

  pub op_read-inside :
      (count offset : ℕ) (bytes : List ℕ) (fs : Fs D H F) (p : Pending F) (h : H)
      → PathMap.get fs.pending path ≡ some p
      → leb p.size offset ≡ false
      → host.read_at p.file (min count (p.size - offset)) offset fs.host ≡ (ok bytes, h)
      → op_read tr host path count offset none (some fs) ≡ (ok bytes, some (record fs { host = h }))
  unfolding op_read with_fs read_pending
  op_read-inside count offset bytes fs p h there inside run =
      rw (op_read, with_fs, there, read_pending, inside)
        (ap
          (λ (w : Result ℕ (List ℕ) × H).
            (map_err (λ (e : ℕ). eio) w.0, some (record fs { host = w.1 })))
          run)
