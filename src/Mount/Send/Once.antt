-- ===== src/Mount/Send/Once.antt =====
-- A file that a program wrote is sent once, and not at all behind a write that failed (`op_flush` and
-- `op_release` of crates/mtpfs/src/main.rs).
use bsdroid.Base.{ltb, Bool-cases, Option-cases}
use bsdroid.Base.{length, drop}
use bsdroid.Base.{Result, ok, err}
use bsdroid.Base.{ℕ, ◌≡◌, refl, sym, ap, ◌∙◌, ◌⊎◌, inl, inr, true, false, Option, none, some, List}
use bsdroid.Base.PathMap
use bsdroid.Base.PathMap.{get-insert_here, insert-remove-insert}
use bsdroid.Tree.{Tree}
use bsdroid.Session.{Transport}
use bsdroid.Backend.{Mtp}
use bsdroid.Mount.{Host, Pending, Fs, with_fs}
use bsdroid.Mount.Names.{fh_writes}
use bsdroid.Mount.Spool.{put, drop_pending, write_loop, note_write, op_write}
use bsdroid.Mount.Send.{send_pending, answer_once, flush_entry, op_flush, op_release}

-- What the mount holds of the device.
abbrev pub device_side : {D H F : Type 0} → Option (Fs D H F) → Option (Mtp D × Tree)
device_side none = none
device_side (some fs) = some (fs.mtp, fs.tree)

-- The answer that an earlier flush kept, or else another one.
abbrev pub kept_or : Option (Result ℕ (Unit {0})) → Result ℕ (Unit {0}) → Result ℕ (Unit {0})
kept_or none r = r
kept_or (some earlier) r = earlier

module _ {D H F : Type 0} (tr : Transport D) (host : Host H F) where
  device-drop_pending :
      (p : Pending F) (fs : Fs D H F)
      → device_side (some (drop_pending host p fs)) ≡ device_side (some fs)
  unfolding drop_pending
  device-drop_pending p fs = elim (Bool-cases p.keep_spool) [
    | inl keep ↦ rw keep refl
    | inr drop ↦ rw drop refl
  ]

  answer_once-sent :
      (p : Pending F) (fs : Fs D H F) (rc : Result ℕ (Unit {0}))
      → p.sent ≡ some rc
      → answer_once tr host p fs ≡ ((rc, p), fs)
  unfolding answer_once
  answer_once-sent p fs rc e = simp (answer_once, e) refl

  -- The answer of an entry whose write failed.
  answer_once-broken :
      (p : Pending F) (fs : Fs D H F) (e : ℕ)
      → p.broken ≡ some e
      → answer_once tr host p fs
        ≡ ((kept_or p.sent (err e), record p { sent = some (kept_or p.sent (err e)) }), fs)
  unfolding answer_once send_pending
  answer_once-broken p fs e broken = elim (Option-cases p.sent) [
    | inl new ↦ simp (answer_once, send_pending, new, broken) refl
    | inr (rc, kept) ↦ simp (answer_once, kept) (λ i. ((rc, record p { sent = kept i }), fs))
  ]

  -- The answer is kept in the entry.
  answer_once-keeps :
      (p : Pending F) (fs : Fs D H F)
      → (answer_once tr host p fs).0.1.sent ≡ some (answer_once tr host p fs).0.0
  unfolding answer_once
  answer_once-keeps p fs = elim (Option-cases p.sent) [
    | inl new ↦ simp (answer_once, new) refl
    | inr (rc, kept) ↦ simp (answer_once, kept) refl
  ]

  flush_entry-there :
      (path : List ℕ) (fs : Fs D H F) (p : Pending F)
      → PathMap.get fs.pending path ≡ some p
      → flush_entry tr host path fs ≡ (
          let r = answer_once tr host p (record fs { pending = PathMap.remove fs.pending path }) in
          (r.0.0, put path r.0.1 r.1))
  unfolding flush_entry
  flush_entry-there path fs p there = rw (flush_entry, there) refl

  -- A flush of an entry that keeps an answer.
  flush_entry-sent :
      (path : List ℕ) (q : Pending F) (fs : Fs D H F) (rc : Result ℕ (Unit {0}))
      → q.sent ≡ some rc
      → flush_entry tr host path (put path q fs) ≡ (rc, put path q fs)
  flush_entry-sent path q fs rc e =
      flush_entry-there path (put path q fs) q (get-insert_here fs.pending path q)
      ∙ ap (λ (r : (Result ℕ (Unit {0}) × Pending F) × Fs D H F). (r.0.0, put path r.0.1 r.1))
          (answer_once-sent q _ rc e)
      ∙ (λ i. (rc, record fs { pending = insert-remove-insert fs.pending path q i }))

  release-sent :
      (path : List ℕ) (fh : Option ℕ) (q : Pending F) (fs : Fs D H F) (rc : Result ℕ (Unit {0}))
      → q.sent ≡ some rc
      → device_side (op_release tr host path fh (some (put path q fs))) ≡ some (fs.mtp, fs.tree)
  unfolding op_release
  release-sent path fh q fs rc e = elim (Bool-cases (fh_writes fh)) [
    | inr reads ↦ rw reads refl
    | inl writing ↦
        rw (writing, get-insert_here fs.pending path q) (simp e (device-drop_pending q _))
  ]

  -- What a flush left: nothing to send, or an entry that keeps the answer.
  flush_entry-cases :
      (path : List ℕ) (fs : Fs D H F)
      → ((PathMap.get fs.pending path ≡ none) × (flush_entry tr host path fs ≡ (ok tt, fs)))
        ⊎ ((rc : Result ℕ (Unit {0})) × (q : Pending F) × (fs1 : Fs D H F) × (q.sent ≡ some rc)
            × (flush_entry tr host path fs ≡ (rc, put path q fs1)))
  unfolding flush_entry
  flush_entry-cases path fs = elim (Option-cases (PathMap.get fs.pending path)) [
    | inl absent ↦ inl (absent, rw (flush_entry, absent) refl)
    | inr (p, there) ↦
        let r = answer_once tr host p (record fs { pending = PathMap.remove fs.pending path }) in
        inr (r.0.0, r.0.1, r.1, answer_once-keeps p _, flush_entry-there path fs p there)
  ]

  release-absent :
      (path : List ℕ) (fh : Option ℕ) (fs : Fs D H F)
      → PathMap.get fs.pending path ≡ none
      → op_release tr host path fh (some fs) ≡ some fs
  unfolding op_release
  release-absent path fh fs absent = elim (Bool-cases (fh_writes fh)) [
    | inr reads ↦ rw (op_release, reads) refl
    | inl writing ↦ rw (op_release, writing, absent) refl
  ]

  release-reads :
      (path : List ℕ) (fh : Option ℕ) (st : Option (Fs D H F))
      → fh_writes fh ≡ false
      → op_release tr host path fh st ≡ st
  unfolding op_release
  release-reads path fh none reads = refl
  release-reads path fh (some fs) reads = rw reads refl

  -- A file is sent once: a second flush gives the answer of the first and changes nothing, and a release behind a flush leaves what the mount holds of the device as it was.
  pub op_flush_once :
      (path : List ℕ) (fh : Option ℕ) (st : Option (Fs D H F))
      → let (r, st1) = op_flush tr host path fh st in
        (op_flush tr host path fh st1 ≡ (r, st1))
        × (device_side (op_release tr host path fh st1) ≡ device_side st1)
  unfolding op_flush with_fs
  op_flush_once path fh none = elim (Bool-cases (fh_writes fh)) [
    | inr reads ↦ rw reads (refl, ap device_side (release-reads path fh none reads))
    | inl writing ↦ rw writing (refl, unfold op_release in refl)
  ]
  op_flush_once path fh (some fs) = elim (Bool-cases (fh_writes fh)) [
    | inr reads ↦ rw reads (refl, ap device_side (release-reads path fh (some fs) reads))
    | inl writing ↦ elim (flush_entry-cases path fs) [
      | inl (absent, is) ↦
          rw (writing, is) (rw is refl, ap device_side (release-absent path fh fs absent))
      | inr (rc, q, fs1, kept, is) ↦
          rw (writing, is)
            (rw (flush_entry-sent path q fs1 rc kept) refl, release-sent path fh q fs1 rc kept)
    ]
  ]

  note_write-failed :
      (path : List ℕ) (p : Pending F) (count offset e : ℕ) (r : Result ℕ ℕ) (fs next : Fs D H F)
      → note_write host path p count offset r fs ≡ (err e, next)
      → next ≡ put path (record p { broken = some e }) fs
  unfolding note_write
  note_write-failed path p count offset e (err x) fs next is = cc
  note_write-failed path p count offset e (ok n) fs next is = elim (Bool-cases (ltb n count)) [
    | inl short ↦ cc (rw (note_write, short) at is)
    | inr whole ↦ absurd (cc (rw (note_write, whole) at is))
  ]

  -- What a write that failed left behind.
  op_write-failed :
      (path bytes : List ℕ) (offset : ℕ) (fs : Fs D H F) (p : Pending F) (e : ℕ)
      (st : Option (Fs D H F))
      → PathMap.get fs.pending path ≡ some p
      → op_write host path bytes offset (some fs) ≡ (err e, st)
      → (h : H) × (st ≡ some (put path (record p { broken = some e }) (record fs { host = h })))
  unfolding op_write with_fs
  op_write-failed path bytes offset fs p e st there run =
      let w = write_loop host (length bytes) p.file bytes offset 0 fs.host in
      let x = note_write host path p (length bytes) offset w.0 (record fs { host = w.1 }) in
      let is : ◌≡◌ {A = Result ℕ ℕ × Option (Fs D H F)} (x.0, some x.1) (err e, st) =
        rw there at run in
      (
        w.1,
        sym (ap (λ r. r.1) is)
            ∙ ap some
                (note_write-failed path p (length bytes) offset e w.0 _ x.1 (λ i. ((is i).0, x.1))),
      )

  -- A write that failed on the spool file of a path stops the send. The flush behind it, of a handle that writes, answers the error of the write, unless an earlier flush kept an answer: then it answers that one again. In both cases neither the flush nor the release after it changes what the mount holds of the device.
  pub op_flush-op_write_failed :
      (path bytes : List ℕ) (offset : ℕ) (fh : Option ℕ) (fs : Fs D H F) (p : Pending F) (e : ℕ)
      (st : Option (Fs D H F))
      → PathMap.get fs.pending path ≡ some p
      → op_write host path bytes offset (some fs) ≡ (err e, st)
      → fh_writes fh ≡ true
      → let (r, flushed) = op_flush tr host path fh st in
        (r ≡ kept_or p.sent (err e))
        × (device_side flushed ≡ some (fs.mtp, fs.tree))
        × (device_side (op_release tr host path fh flushed) ≡ some (fs.mtp, fs.tree))
  unfolding op_flush with_fs
  op_flush-op_write_failed path bytes offset fh fs p e st there run writing =
      let (h, left) = op_write-failed path bytes offset fs p e st there run in
      let q : Pending F = record p { broken = some e } in
      let fs1 : Fs D H F = put path q (record fs { host = h }) in
      let taken : Fs D H F = record fs1 { pending = PathMap.remove fs1.pending path } in
      let answer = answer_once-broken q taken e refl in
      let is = flush_entry-there path fs1 q (get-insert_here fs.pending path q) in
      rw (left, writing, is, answer)
        (refl, refl, release-sent path fh _ _ (kept_or p.sent (err e)) refl)
