-- ===== src/Session/Life.antt =====
-- How a session starts, recovers, opens, closes and ends (crates/mtp-session/src/lib.rs).
pub mod Repair
use bsdroid.Base.{
  ltb, leb, ◌==◌, if◌then◌else◌, ltb→lt, lt→ltb, le→ltb, ==_iff, ==_refl, Bool-cases, Option-cases,
  same, same_iff,
}
use bsdroid.Base.{
  length, get_or, get_elem?, take, drop, find, All, length-append, length-take, length-drop,
  take-append-drop, take-length_append, drop-length_append, take_all, take-min, take-append-take,
  take-take, drop-drop, find-some, All-append, All-take, All-drop, get_or-All,
}
use bsdroid.Base.{Result, ok, err, then_ok, map_err, IsOk, Result-cases, map_err-ok}
use bsdroid.Base.{
  IsByte, IsU16, IsU32, IsU64, usize_max, le_u16, le_u32, from_le_u16, from_le_u32, u16_at, u32_at,
  from_le-le_u16, from_le-le_u32, le-from_le_u16, le-from_le_u32, u32_at-IsU32,
}
use bsdroid.Base.{
  ℕ, zero, suc, ◌+◌, ◌-◌, ◌*◌, ◌/◌, ◌%◌, ◌^◌, ◌≤◌, ◌<◌, min, max, String, ◌≡◌, refl, sym, ap, ◌∙◌,
  subst, ◌≢◌, ◌↔◌, ◌⊎◌, inl, inr, Bool, true, false, not, ◌&&◌, ◌||◌, Option, none, some, List, [],
  ◌∷◌, ◌++◌, map, append_assoc, append-nil, arith,
}
use bsdroid.Base.Action.{Action, pure, ◌>>=◌}
use bsdroid.Usb.Device.{UsbError}
use bsdroid.Session.{
  SessionError, Outcome, is_success, session_already_open, SessionOpen, Transport, Session,
  on_device,
}
use bsdroid.Session.Setup.{
  Config, normalised, read_buffer_min, max_read_rounds, drain_first_millis, drain_rest_millis,
}
use bsdroid.Session.Answer.{operation}

-- `op::OPEN_SESSION` and `op::CLOSE_SESSION`.
abbrev pub op_open_session : ℕ
op_open_session = 0x1002

abbrev pub op_close_session : ℕ
op_close_session = 0x1003

unfoldable pub set_read_buffer : {D : Type 0} → ℕ → Session D → Session D
set_read_buffer bytes s = record s {
  config = record s.config { read_buffer = max bytes read_buffer_min };
}

module _ {D : Type 0} (tr : Transport D) where
  -- The loop of `drain` with its rounds left. A deadline is an argument, since it changes behind the first read.
  unfoldable pub drain_rounds : ℕ → ℕ → ℕ → ℕ → D → ℕ × D
  drain_rounds zero size deadline dropped d = (dropped, d)
  drain_rounds (suc rounds) size deadline dropped d =
      let (r, e) = tr.read size deadline d in
      elim r [
        | err x ↦ (dropped, e)
        | ok bytes ↦ elim (length bytes == 0) [
          | true ↦ (dropped, e)
          | false ↦ drain_rounds rounds size drain_rest_millis (dropped + length bytes) e
        ]
      ]

  unfoldable pub drain : Session D → ℕ × Session D
  unfolding drain_rounds
  drain s =
      let (dropped, d) =
        drain_rounds max_read_rounds s.config.read_buffer drain_first_millis 0 s.device in
      (dropped, on_device s d)

  unfoldable pub recover : Session D → ℕ × Session D
  unfolding drain
  recover s = drain (on_device s (tr.clear_stalls s.device))

  unfoldable pub new_without_recovery : D → Config → Session D
  new_without_recovery d config = record {
    device = d;
    transaction = 0;
    config = normalised config;
    session_open = false;
  }

  unfoldable pub new : D → Config → Session D × ℕ
  unfolding recover new_without_recovery
  new d config = let (dropped, s) = recover (new_without_recovery d config) in (s, dropped)

  -- The answer to `OpenSession` decides whether the host holds a session.
  unfoldable pub note_open : Outcome → Session D → Session D
  note_open o s =
      if is_success o || (o.response_code == session_already_open)
      then record s { session_open = true }
      else s

  unfoldable pub open_session : ℕ → Action SessionError (Session D) Outcome
  unfolding operation note_open
  open_session id =
      operation tr "OpenSession" op_open_session (id ∷ []) >>= λ o s. (ok o, note_open o s)

  unfoldable pub note_close : Outcome → Session D → Session D
  note_close o s = if is_success o then record s { session_open = false } else s

  unfoldable pub close_session : Action SessionError (Session D) Outcome
  unfolding operation note_close
  close_session = operation tr "CloseSession" op_close_session [] >>= λ o s. (ok o, note_close o s)

  -- `.ok().map(|o| o.response_code)`.
  abbrev pub code_of : Result SessionError Outcome → Option ℕ
  code_of (ok o) = some o.response_code
  code_of (err e) = none

  -- The repair: close the old session, clear the endpoints, and open a new one.
  unfoldable pub repair : ℕ → Action SessionError (Session D) SessionOpen
  unfolding open_session close_session recover
  repair id s =
      let (closed, s1) = close_session s in
      let (dropped, s2) = recover s1 in
      (open_session id >>= λ second. pure (record {
        outcome = second;
        repaired = true;
        close_response = code_of closed;
        dropped = dropped;
        wedged = second.response_code == session_already_open;
      }))
        s2

  unfoldable pub open_session_or_repair : ℕ → Action SessionError (Session D) SessionOpen
  unfolding open_session repair
  open_session_or_repair id = open_session id >>= λ first.
      if not (first.response_code == session_already_open)
      then pure (record {
        outcome = first;
        repaired = false;
        close_response = none;
        dropped = 0;
        wedged = false;
      })
      else repair id

  -- `Drop::drop`.
  unfoldable pub drop_session : Session D → Session D
  unfolding recover close_session
  drop_session s = elim s.session_open [
    | false ↦ s
    | true ↦ let (dropped, s1) = recover s in (close_session s1).1
  ]

  unfoldable pub reset_device : Session D → Result UsbError (Unit {0}) × Session D
  reset_device s = let (r, d) = tr.reset s.device in (r, on_device s d)
