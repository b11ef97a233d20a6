-- ===== src/Mount/Spool/Adopted.antt =====
-- A file of the device that a program opens to change it (`adopt_for_write` and
-- `copy_object_to_spool` of crates/mtpfs/src/main.rs): its bytes go to the spool file.
use bsdroid.Base.{ltb, ◌==◌, if◌then◌else◌, Bool-cases}
use bsdroid.Base.{length, take, length-take, take_all, take-append-take}
use bsdroid.Base.{Result, ok, map_err}
use bsdroid.Base.{
  ℕ, zero, suc, ◌+◌, ◌-◌, ◌%◌, ◌^◌, ◌≤◌, ◌<◌, min, ◌≡◌, refl, sym, ap, ◌∙◌, inl, inr, Bool, true,
  false, ◌&&◌, none, some, List, [], arith,
}
use bsdroid.Base.Action.{Action, pure, >>=-step}
use bsdroid.Base.PathMap
use bsdroid.Base.PathMap.{get-insert_here}
use bsdroid.Tree.{Entry}
use bsdroid.Session.{Transport, Session}
use bsdroid.Backend.{Mtp}
use bsdroid.Backend.Read.{read_at}
use bsdroid.Backend.Read.Slices.{slice, length-slice}
use bsdroid.Backend.Read.Exact.{IsReady, read_at-GivesAndKeeps}
use bsdroid.Mount.{eio, Host, SpoolPath, Pending, Fs, on_device, on_host, or_errno}
use bsdroid.Mount.Names.{next_count, spool_name, spool_dir}
use bsdroid.Mount.Spool.{
  put, make_spool, insert_pending, read_chunk, copy_loop, copy_object_to_spool, is_too_large,
  adopted, adopt_for_write,
}
use bsdroid.Mount.Spool.Contents.{patch, patch_end}
use bsdroid.Mount.Spool.Refines.{Holds, length-nil}

and_false : (b : Bool) → (b && false) ≡ false
and_false true = refl
and_false false = refl

-- A host whose disk has room, as POSIX describes `open` with `O_CREAT` and `O_TRUNC`, and `write`: a new file is empty, and bytes go where the last ones ended.
pub record Appends {H F : Type 0} (host : Host H F) (contents : F → H → List ℕ) (cursor : F → H → ℕ)
    : Type 0 where
  pub created :
      (path : SpoolPath) (h : H)
      → (f : F) × (h' : H) × (host.create_file path h ≡ (ok f, h'))
        × (contents f h' ≡ [])
        × (cursor f h' ≡ 0)
  pub appended :
      (f : F) (bytes : List ℕ) (h : H)
      → (h' : H) × (host.write_all f bytes h ≡ (ok tt, h'))
        × (contents f h' ≡ patch (contents f h) (cursor f h) bytes)
        × (cursor f h' ≡ cursor f h + length bytes)

module _ {D H F : Type 0} (tr : Transport D) (host : Host H F) where
  copy_step :
      (rounds handle size at : ℕ) (f : F) (bytes : List ℕ) (fs : Fs D H F) (m : Mtp D) (h : H)
      → at < size
      → read_at tr handle at (min read_chunk (size - at)) size fs.mtp ≡ (ok bytes, m)
      → 0 < length bytes
      → host.write_all f bytes fs.host ≡ (ok tt, h)
      → copy_loop tr host (suc rounds) handle size f at fs
        ≡ copy_loop tr host rounds handle size f
            (at + length bytes)
            (record fs { mtp = m; host = h })
  unfolding copy_loop
  copy_step rounds handle size at f bytes fs m h lt read some_bytes wrote =
      let more : ltb at size ≡ true = ground (arith, lt) in
      let not_empty : (length bytes == 0) ≡ false = ground (arith, some_bytes) in
      rw (copy_loop, more)
        (>>=-step
            (or_errno (on_device (read_at tr handle at (min read_chunk (size - at)) size)) eio) _ fs
            (record fs { mtp = m }) bytes
            (ap
              (λ (r : Result _ (List ℕ) × Mtp D). (map_err (λ e. eio) r.0, record fs { mtp = r.1 }))
              read)
          ∙ rw not_empty (
              >>=-step (or_errno (on_host (host.write_all f bytes)) eio) _ (record fs { mtp = m })
                (record fs { mtp = m; host = h }) tt
                (ap
                  (λ (r : Result ℕ (Unit {0}) × H).
                    (map_err (λ (e : ℕ). eio) r.0, record fs { mtp = m; host = r.1 }))
                  wrote)))

  -- The path of the next spool file.
  abbrev next_path : Fs D H F → SpoolPath
  next_path fs = record { dir = spool_dir host; name = spool_name host.pid fs.spool_count }

  made :
      (fs : Fs D H F) (f : F) (h : H)
      → host.create_file (next_path fs) fs.host ≡ (ok f, h)
      → or_errno (make_spool host) eio fs ≡ (
        ok (f, next_path fs),
        record fs { host = h; spool_count = (fs.spool_count + 1) % 2 ^ 64 },
      )
  unfolding make_spool next_count
  made fs f h run =
      ap (λ (r : Result ℕ (F × SpoolPath) × Fs D H F). (map_err (λ (e : ℕ). eio) r.0, r.1))
        (>>=-step (on_host (host.create_file (next_path fs))) (λ f. pure (f, next_path fs))
          (record fs { spool_count = (fs.spool_count + 1) % 2 ^ 64 })
          (record fs { host = h; spool_count = (fs.spool_count + 1) % 2 ^ 64 }) f
          (ap
            (λ (r : Result ℕ F × H).
              (r.0, record fs { host = r.1; spool_count = (fs.spool_count + 1) % 2 ^ 64 }))
            run))

  inserted :
      (path : List ℕ) (p : Pending F) (fs : Fs D H F)
      → PathMap.get fs.pending path ≡ none
      → insert_pending host path p fs ≡ put path p fs
  unfolding insert_pending
  inserted path p fs absent = rw (insert_pending, absent) refl

  -- The bytes that are copied when the old contents are kept.
  abbrev copies : ℕ → Entry → F → Action ℕ (Fs D H F) ℕ
  copies handle e f = if ltb 0 e.size then copy_object_to_spool tr host handle e.size f else pure 0

  adopt_step :
      (path : List ℕ) (handle n : ℕ) (e : Entry) (f : F) (sp : SpoolPath) (fs fs1 fs2 : Fs D H F)
      → is_too_large host e.size fs ≡ false
      → or_errno (make_spool host) eio fs ≡ (ok (f, sp), fs1)
      → copies handle e f fs1 ≡ (ok n, fs2)
      → PathMap.get fs2.pending path ≡ none
      → adopt_for_write tr host path handle e true fs
        ≡ (ok tt, put path (adopted handle e f sp n) fs2)
  unfolding adopt_for_write
  adopt_step path handle n e f sp fs fs1 fs2 room made_file copied absent =
      let not_refused : (ltb 0 e.size && is_too_large host e.size fs) ≡ false =
        ap (λ b. ltb 0 e.size && b) room ∙ and_false (ltb 0 e.size) in
      rw (adopt_for_write, not_refused)
        (>>=-step (or_errno (make_spool host) eio) _ fs fs1 (f, sp) made_file
          ∙ >>=-step (copies handle e f) _ fs1 fs2 n copied
          ∙ (λ i. (ok tt, inserted path (adopted handle e f sp n) fs2 absent i)))

  module _ (file : List ℕ) (handle : ℕ) (IsFit : Session D → Type 0) (contents : F → H → List ℕ)
      (cursor : F → H → ℕ) (appends : Appends host contents cursor) where
    copy_loop-fills :
        (rounds at : ℕ) (f : F) (fs : Fs D H F)
        → IsReady tr file handle IsFit fs.mtp
        → length file ≤ rounds + at
        → at ≤ length file
        → contents f fs.host ≡ take at file
        → cursor f fs.host ≡ at
        → (m : Mtp D) × (h : H) × IsReady tr file handle IsFit m
          × (copy_loop tr host rounds handle (length file) f at fs
              ≡ (ok (length file), record fs { mtp = m; host = h }))
          × (contents f h ≡ file)
    unfolding copy_loop
    copy_loop-fills zero at f fs ready few part holds here =
        let all : at ≡ length file = omega (arith, few, part) in
        (
          fs.mtp,
          fs.host,
          ready,
          (λ i. (ok (all i), fs)),
          holds ∙ take_all at file (omega (arith, all)),
        )
    copy_loop-fills (suc rounds) at f fs ready few part holds here =
        elim (Bool-cases (ltb at (length file))) [
          | inr stop ↦
              let all : at ≡ length file = ground (arith, stop, part) in
              (
                fs.mtp,
                fs.host,
                ready,
                rw (copy_loop, stop) (λ i. (ok (all i), fs)),
                holds ∙ take_all at file (omega (arith, all)),
              )
          | inl more ↦
              let lt : at < length file = ground (arith, more) in
              let want = min read_chunk (length file - at) in
              let (t, c, ready1, read) =
                read_at-GivesAndKeeps tr file handle IsFit fs.mtp at want ready (omega arith) in
              let size = length-slice file at want (omega (arith, lt)) in
              let (h, wrote, now, next) = appends.appended f (slice file at want) fs.host in
              let start : cursor f fs.host ≡ length (take at file) =
                omega (arith, here, part, length-take at file) in
              let step : contents f h ≡ take (at + want) file =
                now
                ∙ (λ i. patch (holds i) (start i) (slice file at want))
                ∙ patch_end (take at file) (slice file at want)
                ∙ take-append-take at want file in
              let fs1 : Fs D H F = record fs {
                mtp = record fs.mtp { session = t; cache = c };
                host = h;
              } in
              let (m2, h2, ready2, rest, final) =
                copy_loop-fills rounds (at + length (slice file at want)) f fs1 ready1
                  (omega (arith, few, size, lt)) (omega (arith, size, lt))
                  (step ∙ ap (λ n. take (at + n) file) (sym size))
                  (next ∙ ap (λ n. n + length (slice file at want)) here) in
              (
                m2,
                h2,
                ready2,
                copy_step rounds handle (length file) at f (slice file at want) fs
                      (record fs.mtp { session = t; cache = c }) h lt read (omega (arith, size, lt))
                      wrote
                    ∙ rest,
                final,
              )
        ]

    -- A file that has no spool file yet, opened to be changed on a host with room, is held by the mount with the bytes that the device serves, whatever the cache of the mount holds and however many reads it takes; and the mount is ready to read the file again.
    pub adopt_for_write-Holds :
        (path : List ℕ) (e : Entry) (fs : Fs D H F)
        → IsReady tr file handle IsFit fs.mtp
        → e.size ≡ length file
        → is_too_large host e.size fs ≡ false
        → PathMap.get fs.pending path ≡ none
        → (next : Fs D H F) × (adopt_for_write tr host path handle e true fs ≡ (ok tt, next))
          × Holds tr host path contents file (some next)
          × IsReady tr file handle IsFit next.mtp
    unfolding adopt_for_write copy_object_to_spool
    adopt_for_write-Holds path e fs ready size room absent =
        let (f, h, made_file, empty, start) = appends.created (next_path fs) fs.host in
        let fs1 : Fs D H F = record fs { host = h; spool_count = (fs.spool_count + 1) % 2 ^ 64 } in
        let (m, h2, ready2, copied, final) =
          copy_loop-fills (length file) 0 f fs1 ready (omega arith) (omega arith) empty start in
        let fs2 : Fs D H F = record fs1 { mtp = m; host = h2 } in
        elim (Bool-cases (ltb 0 e.size)) [
          | inl some_bytes ↦ (
            put path (adopted handle e f (next_path fs) (length file)) fs2,
            adopt_step path handle (length file) e f (next_path fs) fs fs1 fs2 room
                (made fs f h made_file)
                (rw (copies, some_bytes)
                  (ap (λ n. copy_loop tr host n handle n f 0 fs1) size ∙ copied))
                absent,
            (_, _, refl, get-insert_here fs.pending path _, final, refl),
            ready2,
          )
          | inr no_bytes ↦
              let nothing : length file ≡ 0 = ground (arith, no_bytes, size) in
              (
                put path (adopted handle e f (next_path fs) 0) fs1,
                adopt_step path handle 0 e f (next_path fs) fs fs1 fs1 room (made fs f h made_file)
                    (rw (copies, no_bytes) refl) absent,
                (
                  _,
                  _,
                  refl,
                  get-insert_here fs.pending path _,
                  empty ∙ sym (length-nil file nothing),
                  sym nothing,
                ),
                ready,
              )
        ]
