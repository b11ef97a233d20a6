-- ===== src/Mount/Spool/Filled.antt =====
-- What the loop of `op_write` (crates/mtpfs/src/main.rs) leaves in a spool file, on a host that takes a
-- part of the bytes at least.
use bsdroid.Base.{ltb, ◌==◌, Bool-cases}
use bsdroid.Base.{length, take, drop, length-take, length-drop, take_all, take-append-take}
use bsdroid.Base.{ok}
use bsdroid.Base.{
  ℕ, zero, suc, ◌+◌, ◌≤◌, ◌<◌, ◌≡◌, refl, ap, ◌∙◌, inl, inr, true, false, List, arith,
}
use bsdroid.Base.Action.{>>=-step}
use bsdroid.Backend.Read.Slices.{slice}
use bsdroid.Mount.{Host}
use bsdroid.Mount.Spool.{write_loop}
use bsdroid.Mount.Spool.Contents.{patch, resized, patch-patch}

-- A host whose disk has room, as POSIX describes `pwrite`, `pread` and `ftruncate` on a file: a write takes a byte at least and may take fewer than it was given.
pub record Stores {H F : Type 0} (host : Host H F) (contents : F → H → List ℕ) : Type 0 where
  pub written :
      (f : F) (bytes : List ℕ) (offset : ℕ) (h : H)
      → 0 < length bytes
      → (n : ℕ) × (h' : H) × (host.write_at f bytes offset h ≡ (ok n, h'))
        × (0 < n)
        × (n ≤ length bytes)
        × (contents f h' ≡ patch (contents f h) offset (take n bytes))
  pub sized :
      (f : F) (n : ℕ) (h : H)
      → (h' : H) × (host.set_len f n h ≡ (ok tt, h')) × (contents f h' ≡ resized (contents f h) n)
  pub gives :
      (f : F) (want offset : ℕ) (h : H)
      → (h' : H) × (host.read_at f want offset h ≡ (ok (slice (contents f h) offset want), h'))
        × (contents f h' ≡ contents f h)

write_loop_step :
    {H F : Type 0} (host : Host H F) (rounds : ℕ) (f : F) (bytes : List ℕ) (offset done n : ℕ)
    (h h1 : H)
    → done < length bytes
    → 0 < n
    → host.write_at f (drop done bytes) (offset + done) h ≡ (ok n, h1)
    → write_loop host (suc rounds) f bytes offset done h
      ≡ write_loop host rounds f bytes offset (done + n) h1
unfolding write_loop
write_loop_step host rounds f bytes offset done n h h1 lt positive run =
    let more : ltb done (length bytes) ≡ true = ground (arith, lt) in
    let not_none : (n == 0) ≡ false = ground (arith, positive) in
    rw (write_loop, more)
      (>>=-step (host.write_at f (drop done bytes) (offset + done)) _ h h1 n run ∙ rw not_none refl)

module _ {H F : Type 0} (host : Host H F) (contents : F → H → List ℕ)
    (stores : Stores host contents) where
  pub write_loop-fills :
      (rounds : ℕ) (f : F) (c bytes : List ℕ) (offset done : ℕ) (h : H)
      → length bytes ≤ rounds + done
      → done ≤ length bytes
      → contents f h ≡ patch c offset (take done bytes)
      → (h' : H) × (write_loop host rounds f bytes offset done h ≡ (ok (length bytes), h'))
        × (contents f h' ≡ patch c offset bytes)
  unfolding write_loop
  write_loop-fills zero f c bytes offset done h few part so_far =
      let all : done ≡ length bytes = omega (arith, few, part) in
      (
        h,
        (λ i. (ok (all i), h)),
        so_far ∙ ap (patch c offset) (take_all done bytes (omega (arith, all))),
      )
  write_loop-fills (suc rounds) f c bytes offset done h few part so_far =
      elim (Bool-cases (ltb done (length bytes))) [
        | inr stop ↦
            let all : done ≡ length bytes = ground (arith, stop, part) in
            (
              h,
              rw (write_loop, stop) (λ i. (ok (all i), h)),
              so_far ∙ ap (patch c offset) (take_all done bytes (omega (arith, all))),
            )
        | inl more ↦
            let lt : done < length bytes = ground (arith, more) in
            let left = length-drop done bytes in
            let (n, h1, run, some_taken, few_taken, now) =
              stores.written f (drop done bytes) (offset + done) h (omega (arith, left, lt)) in
            let at : offset + done ≡ offset + length (take done bytes) =
              omega (arith, lt, length-take done bytes) in
            let step : contents f h1 ≡ patch c offset (take (done + n) bytes) =
              now
              ∙ (λ i. patch (so_far i) (at i) (take n (drop done bytes)))
              ∙ patch-patch c offset (take done bytes) (take n (drop done bytes))
              ∙ ap (patch c offset) (take-append-take done n bytes) in
            let (h2, rest, final) =
              write_loop-fills rounds f c bytes offset (done + n) h1
                (omega (arith, few, some_taken)) (omega (arith, few_taken, left, lt)) step in
            (
              h2,
              write_loop_step host rounds f bytes offset done n h h1 lt some_taken run ∙ rest,
              final,
            )
      ]
