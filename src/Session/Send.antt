-- ===== src/Session/Send.antt =====
-- An operation with a data phase to the device (`operation_sending`, `operation_with_data` and
-- `read_exact_or_short` of crates/mtp-session/src/lib.rs). A read of the source that is interrupted
-- is tried again; the model follows `patience` such reads in one call.
pub mod Wire
pub mod Framing
use bsdroid.Base.{
  ltb, leb, ◌==◌, if◌then◌else◌, ltb→lt, lt→ltb, le→ltb, ==_iff, ==_refl, Bool-cases, Option-cases,
  same, same_iff,
}
use bsdroid.Base.{
  length, get_or, get_elem?, take, drop, find, All, length-append, length-take, length-drop,
  take-append-drop, take-length_append, drop-length_append, take_all, take-min, take-append-take,
  take-take, drop-drop, find-some, All-append, All-take, All-drop, get_or-All,
}
use bsdroid.Base.{Result, ok, err, then_ok, map_err, IsOk, Result-cases, map_err-ok}
use bsdroid.Base.{
  IsByte, IsU16, IsU32, IsU64, usize_max, le_u16, le_u32, from_le_u16, from_le_u32, u16_at, u32_at,
  from_le-le_u16, from_le-le_u32, le-from_le_u16, le-from_le_u32, u32_at-IsU32,
}
use bsdroid.Base.{
  ℕ, zero, suc, ◌+◌, ◌-◌, ◌*◌, ◌/◌, ◌%◌, ◌^◌, ◌≤◌, ◌<◌, min, max, String, ◌≡◌, refl, sym, ap, ◌∙◌,
  subst, ◌≢◌, ◌↔◌, ◌⊎◌, inl, inr, Bool, true, false, not, ◌&&◌, ◌||◌, Option, none, some, List, [],
  ◌∷◌, ◌++◌, map, append_assoc, append-nil, arith,
}
use bsdroid.Base.Action.{Action, pure, raise, lift, ◌>>=◌}
use bsdroid.Ptp.Header.{header_len, container_length}
use bsdroid.Ptp.Container.{build_command, build_data_header}
use bsdroid.Session.{
  SessionError, build, short_read, interrupted_too_often, Outcome, StreamOutcome, Transport,
  vec_sink, ReadOutcome, got, interrupted, failed, Source, slice_source, Session,
}
use bsdroid.Session.Setup.{needs_zero_packet}
use bsdroid.Session.Answer.{next_transaction, write_bytes, read_answer, outcome_of}

module _ {R : Type 0} (source : Source R) where
  -- The loop of `read_exact_or_short` with its rounds left: `filled` is the part of the buffer that is filled.
  unfoldable pub fill : ℕ → String → ℕ → List ℕ → Action SessionError R (List ℕ)
  fill zero step want filled r = (err (interrupted_too_often step), r)
  fill (suc rounds) step want filled r = elim (ltb (length filled) want) [
    | false ↦ (ok filled, r)
    | true ↦
        let (outcome, r') = source.read_some (want - length filled) r in
        elim outcome [
          | interrupted ↦ fill rounds step want filled r'
          | failed e ↦ (err (short_read step want (length filled) (some e)), r')
          | got bytes ↦ elim (length bytes == 0) [
            | true ↦ (err (short_read step want (length filled) none), r')
            | false ↦ fill rounds step want (filled ++ bytes) r'
          ]
        ]
  ]

  unfoldable pub read_exact_or_short : ℕ → String → ℕ → Action SessionError R (List ℕ)
  unfolding fill
  read_exact_or_short patience step want = fill (want + patience + 1) step want []

module _ {D : Type 0} (tr : Transport D) {R : Type 0} (source : Source R) (patience : ℕ) where
  abbrev pub on_session {ℓ} :
      {A : Type ℓ} → Action SessionError (Session D) A → Action SessionError (Session D × R) A
  on_session m (s, r) = let (x, s') = m s in (x, (s', r))

  abbrev pub on_source {ℓ} :
      {A : Type ℓ} → Action SessionError R A → Action SessionError (Session D × R) A
  on_source m (s, r) = let (x, r') = m r in (x, (s, r'))

  -- The next bytes of the source, written behind a prefix.
  unfoldable pub send_chunk : String → List ℕ → ℕ → Action SessionError (Session D × R) (Unit {0})
  unfolding read_exact_or_short write_bytes
  send_chunk step head want = on_source (read_exact_or_short source patience step want) >>= λ bytes.
      on_session (write_bytes tr step (head ++ bytes))

  -- The loop over the chunks, with its rounds left. The result is the count of payload bytes that were sent.
  unfoldable pub send_rounds : ℕ → String → ℕ → ℕ → ℕ → Action SessionError (Session D × R) ℕ
  unfolding send_chunk
  send_rounds zero step chunk size sent = pure sent
  send_rounds (suc rounds) step chunk size sent = elim (leb size sent) [
    | true ↦ pure sent
    | false ↦ send_chunk step [] (min chunk (size - sent)) >>= λ _.
        send_rounds rounds step chunk size (sent + min chunk (size - sent))
  ]

  -- The data phase: the header with the first bytes, the chunks, and a packet of zero bytes where one is needed.
  unfoldable pub send_data :
      String → ℕ → ℕ → ℕ → ℕ → ℕ → List ℕ → Action SessionError (Session D × R) (Unit {0})
  unfolding send_rounds
  send_data step chunk packet total size sent first = send_chunk step first sent >>= λ _.
      send_rounds (size / chunk + 4) step chunk size sent >>= λ done.
      if ltb done size
      then raise (short_read step size done none)
      else if needs_zero_packet total packet
      then on_session (write_bytes tr step [])
      else pure tt

  -- The command and the data phase of `operation_sending`.
  unfoldable pub send_phase :
      String → ℕ → List ℕ → ℕ → Action SessionError (Session D × R) (Unit {0})
  unfolding send_data next_transaction write_bytes
  send_phase step code params size (s, r) =
      (lift (map_err (build step) (container_length size)) >>= λ total.
      on_session (next_transaction tr) >>= λ tid.
      on_session (write_bytes tr step (build_command code tid params)) >>= λ _.
      lift (map_err (build step) (build_data_header code tid size)) >>= λ first.
      send_data step s.config.write_chunk s.config.packet total size
        (min (s.config.write_chunk - header_len) size) first)
        (s, r)

  unfoldable pub operation_sending :
      String → ℕ → List ℕ → ℕ → Action SessionError (Session D × R) Outcome
  unfolding send_phase read_answer
  operation_sending step code params size = send_phase step code params size >>= λ _.
      on_session (λ s. outcome_of tr (read_answer tr vec_sink step (s, [])))

-- `operation_with_data`: the payload is in memory, and its reader is never interrupted.
unfoldable pub operation_with_data :
    {D : Type 0}
    → Transport D
    → String
    → ℕ
    → List ℕ
    → List ℕ
    → Action SessionError (Session D) Outcome
unfolding operation_sending
operation_with_data tr step code params payload s =
    let (r, (s', rest)) =
      operation_sending tr slice_source 0 step code params (length payload) (s, payload) in
    (r, s')
