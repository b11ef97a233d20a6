-- ===== src/Backend/Read/Served.antt =====
-- What a device that serves a file gives to `partial_read` and `read_from_device`
-- (crates/mtpfs/src/backend.rs).
use bsdroid.Base.{◌==◌, ==_iff}
use bsdroid.Base.{length}
use bsdroid.Base.{ok}
use bsdroid.Base.{IsU32, usize_max}
use bsdroid.Base.{ℕ, ◌+◌, ◌≤◌, ◌<◌, ◌≡◌, sym, ap, ◌∙◌, subst, inl, inr, true, some, List, arith}
use bsdroid.Base.Action.{Action, >>=-step}
use bsdroid.Session.{Outcome, is_success, Transport, Session}
use bsdroid.Session.Answer
use bsdroid.Backend.{Error, split_final_read, Mtp}
use bsdroid.Backend.Calls.{operation, accepted}
use bsdroid.Backend.Read.{partial_params, partial_read, read_tail, read_from_device}
use bsdroid.Backend.Read.Slices.{slice, length-slice, slice_add}
use bsdroid.Backend.Read.Quirk.{
  IsSafe, split_final_read-IsSafe, asked, Reaches, Reaches-le, asked-partial_params,
}

-- A device that gives the bytes of one file, in the states of a family: it answers a partial read that lies in the file, except one that reaches the end with a full last packet.
pub record Serves {D : Type 0} (tr : Transport D) (file : List ℕ) (handle code packet : ℕ)
    (IsFit : Session D → Type 0) : Type 0 where
  pub answers :
      (s : Session D) (params : List ℕ) (offset want : ℕ)
      → IsFit s
      → asked code params ≡ some (handle, offset, want)
      → 0 < want
      → offset + want ≤ length file
      → IsSafe packet (length file) offset want
      → (o : Outcome) × (t : Session D) × (Answer.operation tr "GetPartialObject" code params s
          ≡ (ok o, t))
        × (is_success o ≡ true)
        × (o.data_bytes ≡ slice file offset want)
        × IsFit t

module _ {D : Type 0} (tr : Transport D) (file : List ℕ) (handle : ℕ)
    (IsFit : Session D → Type 0) where
  -- An action that gives a part of the file, and changes nothing of the mount but its session.
  abbrev pub Gives : Mtp D → ℕ → ℕ → Action Error (Mtp D) (List ℕ) → Type 0
  Gives m offset want a =
      (t : Session D) × IsFit t × (a m ≡ (ok (slice file offset want), record m { session = t }))

  partial_read-Gives :
      (m : Mtp D) (offset want : ℕ)
      → Serves tr file handle m.partial_read m.packet IsFit
      → IsFit m.session
      → Reaches m.partial_read offset
      → IsU32 want
      → 0 < want
      → offset + want ≤ length file
      → IsSafe m.packet (length file) offset want
      → Gives m offset want (partial_read tr handle offset want)
  unfolding partial_read operation accepted
  partial_read-Gives m offset want serves fit reaches small hw fits safe =
      let (o, t, run, good, bytes, fit_t) =
        serves.answers m.session (partial_params m.partial_read handle offset want) offset want fit
          (asked-partial_params m.partial_read handle offset want reaches small) hw fits safe in
      (t, fit_t, rw (run, good) (λ i. (ok (bytes i), record m { session = t })))

  pub read_from_device-Gives :
      (m : Mtp D) (offset want : ℕ)
      → Serves tr file handle m.partial_read m.packet IsFit
      → IsFit m.session
      → Reaches m.partial_read (offset + want)
      → IsU32 want
      → 1 < m.packet
      → 0 < want
      → offset + want ≤ length file
      → length file ≤ usize_max
      → Gives m offset want (read_from_device tr handle offset want (length file))
  unfolding read_from_device read_tail
  read_from_device-Gives m offset want serves fit reaches small hp hw fits bound =
      let split = split_final_read offset want (length file) m.packet in
      let (first_safe, rest) =
        split_final_read-IsSafe offset want (length file) m.packet hp hw fits bound in
      let tail = λ (bytes : List ℕ). read_tail tr handle offset split.0 split.1 bytes in
      elim rest [
        | inl (no_tail, all) ↦
            let (t, fit_t, run) =
              partial_read-Gives m offset split.0 serves fit
                (Reaches-le m.partial_read reaches (omega arith)) (subst IsU32 (sym all) small)
                (omega (arith, all, hw)) (omega (arith, all, fits)) first_safe in
            (
              t,
              fit_t,
              >>=-step (partial_read tr handle offset split.0) tail m (record m { session = t }) _
                    run
                  ∙ ap
                      (λ b.
                        read_tail tr handle offset split.0 b (slice file offset split.0)
                          (record m { session = t }))
                      no_tail
                  ∙ ap (λ n. (ok (slice file offset n), record m { session = t })) all,
            )
        | inr (has_tail, sum, some_first, tail_safe) ↦
            let (t, fit_t, run) =
              partial_read-Gives m offset split.0 serves fit
                (Reaches-le m.partial_read reaches (omega arith)) (omega (arith, sum, small))
                some_first (omega (arith, sum, fits)) first_safe in
            let m1 : Mtp D = record m { session = t } in
            let (u, fit_u, run_tail) =
              partial_read-Gives m1 (offset + split.0) 1 serves fit_t
                (Reaches-le m.partial_read reaches (omega (arith, sum))) (omega arith) (omega arith)
                (omega (arith, sum, fits)) tail_safe in
            let whole : (length (slice file offset split.0) == split.0) ≡ true =
              (==_iff _ _).1 (length-slice file offset split.0 (omega (arith, sum, fits))) in
            (
              u,
              fit_u,
              >>=-step (partial_read tr handle offset split.0) tail m m1 _ run
                  ∙ ap (λ b. read_tail tr handle offset split.0 b (slice file offset split.0) m1)
                      has_tail
                  ∙ rw whole (
                      >>=-step (partial_read tr handle (offset + split.0) 1) _ m1
                        (record m1 { session = u }) _ run_tail
                      ∙ ap (λ (x : List ℕ). (ok x, record m { session = u }))
                          (slice_add file offset split.0 1)
                      ∙ ap (λ n. (ok (slice file offset n), record m { session = u })) sum),
            )
      ]
