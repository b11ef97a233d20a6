-- ===== src/Session/Life/Repair.antt =====
-- What `open_session` and `open_session_or_repair` (crates/mtp-session/src/lib.rs) report.
use bsdroid.Base.{◌==◌, Bool-cases}
use bsdroid.Base.{ok}
use bsdroid.Base.{
  ℕ, ◌≡◌, refl, ap, subst, ◌≢◌, ◌⊎◌, inl, inr, Bool, true, false, ◌||◌, none, [], ◌∷◌, arith,
}
use bsdroid.Base.Action.{pure, >>=-ok, pure-ok}
use bsdroid.Session.{Outcome, is_success, session_already_open, SessionOpen, Transport, Session}
use bsdroid.Session.Answer.{operation}
use bsdroid.Session.Life.{
  note_open, open_session, close_session, recover, repair, open_session_or_repair,
}

-- The answers behind which the device holds a session.
abbrev pub holds_session : Outcome → Bool
holds_session o = is_success o || (o.response_code == session_already_open)

module _ {D : Type 0} (tr : Transport D) where
  note_open_lem :
      (o : Outcome) (s : Session D)
      → (holds_session o ≡ false) ⊎ ((note_open tr o s).session_open ≡ true)
  unfolding note_open
  note_open_lem o s = elim (Bool-cases (holds_session o)) [
    | inl held ↦ inr (rw held refl)
    | inr other ↦ inl other
  ]

  open_session_lem :
      (id : ℕ) (s t : Session D) (o : Outcome)
      → open_session tr id s ≡ (ok o, t)
      → (holds_session o ≡ false) ⊎ (t.session_open ≡ true)
  unfolding open_session
  open_session_lem id s t o e =
      let (a, u, e1, e2) = >>=-ok (operation tr "OpenSession" 0x1002 (id ∷ [])) _ s t o e in
      let same_outcome : a ≡ o = (pure-ok a o (note_open tr a u) t e2).0 in
      let state : note_open tr a u ≡ t = ap (λ x. x.1) e2 in
      subst (λ x. (holds_session x ≡ false) ⊎ (t.session_open ≡ true)) same_outcome
        (subst (λ x. (holds_session a ≡ false) ⊎ (x.session_open ≡ true)) state (note_open_lem a u))

  -- What a report says of the last answer and of the repair.
  abbrev IsReport : SessionOpen → Session D → Type 0
  IsReport o t =
      ((holds_session o.outcome ≡ false) ⊎ (t.session_open ≡ true))
      × (((o.repaired ≡ false)
            × (o.wedged ≡ false)
            × (o.outcome.response_code ≢ session_already_open))
          ⊎ ((o.repaired ≡ true) × (o.wedged ≡ (o.outcome.response_code == session_already_open))))

  same-IsReport :
      {o p : SessionOpen} {s t : Session D} → o ≡ p → s ≡ t → IsReport o s → IsReport p t
  same-IsReport {o = o} {t = t} op st h = subst (λ x. IsReport x t) op (subst (IsReport o) st h)

  -- Whatever the device answers, a session that opens is reported as it is: the host notes that it holds a session when the last answer says that the device holds one; without a repair that answer is not `SessionAlreadyOpen`, and behind a repair the report says that the device is wedged exactly when it still is.
  pub open_session_or_repair-IsReport :
      (id : ℕ) (s t : Session D) (o : SessionOpen)
      → open_session_or_repair tr id s ≡ (ok o, t)
      → IsReport o t
  unfolding open_session_or_repair repair
  open_session_or_repair-IsReport id s t o e =
      let (first, u, e1, e2) = >>=-ok (open_session tr id) _ s t o e in
      elim (Bool-cases (first.response_code == session_already_open)) [
        | inr opened ↦
            let e3 : pure
                  (record {
                    outcome = first;
                    repaired = false;
                    close_response = none;
                    dropped = 0;
                    wedged = false;
                  })
                  u
                ≡ (ok o, t) =
              rw opened at e2 in
            let (is, st) = pure-ok _ o u t e3 in
            same-IsReport is st (
              open_session_lem id s u first e1,
              inl (refl, refl, λ same_code. absurd (ground (arith, opened, same_code))),
            )
        | inl already ↦
            let e3 : repair tr id u ≡ (ok o, t) = rw already at e2 in
            let (closed, s1) = close_session tr u in
            let (dropped, s2) = recover tr s1 in
            let (second, v, e4, e5) = >>=-ok (open_session tr id) _ s2 t o e3 in
            let (is, st) = pure-ok _ o v t e5 in
            same-IsReport is st (open_session_lem id s2 v second e4, inr (refl, refl))
      ]
