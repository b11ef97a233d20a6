-- ===== src/Session/Answer.antt =====
-- The transfers of one operation, and the answer of a device: an optional data phase, then the
-- response (`read_answer`, `operation_stream` and `operation` of crates/mtp-session/src/lib.rs).
pub mod Whole
pub mod Delivered
pub mod Answered
use bsdroid.Base.{
  ltb, leb, ◌==◌, if◌then◌else◌, ltb→lt, lt→ltb, le→ltb, ==_iff, ==_refl, Bool-cases, Option-cases,
  same, same_iff,
}
use bsdroid.Base.{
  length, get_or, get_elem?, take, drop, find, All, length-append, length-take, length-drop,
  take-append-drop, take-length_append, drop-length_append, take_all, take-min, take-append-take,
  take-take, drop-drop, find-some, All-append, All-take, All-drop, get_or-All,
}
use bsdroid.Base.{Result, ok, err, then_ok, map_err, IsOk, Result-cases}
use bsdroid.Base.{
  IsByte, IsU16, IsU32, IsU64, usize_max, le_u16, le_u32, from_le_u16, from_le_u32, u16_at, u32_at,
  from_le-le_u16, from_le-le_u32, le-from_le_u16, le-from_le_u32, u32_at-IsU32,
}
use bsdroid.Base.{
  ℕ, zero, suc, ◌+◌, ◌-◌, ◌*◌, ◌/◌, ◌%◌, ◌^◌, ◌≤◌, ◌<◌, min, max, String, ◌≡◌, refl, sym, ap, ◌∙◌,
  subst, ◌≢◌, ◌↔◌, ◌⊎◌, inl, inr, Bool, true, false, not, ◌&&◌, ◌||◌, Option, none, some, List, [],
  ◌∷◌, ◌++◌, map, append_assoc, append-nil, arith,
}
use bsdroid.Base.Action.{Action, pure, raise, lift, ◌>>=◌}
use bsdroid.Ptp.Header
use bsdroid.Ptp.Header.{Header, ContainerType, command, data_phase, response, event, header_len}
use bsdroid.Ptp.Container
use bsdroid.Ptp.Container.{Container, parameters, build_command}
use bsdroid.Session.{
  SessionError, usb, parse, unexpected, too_large, incomplete, write_failed, Outcome, StreamOutcome,
  Transport, Sink, vec_sink, Session, on_device,
}
use bsdroid.Session.Setup.{max_data_bytes, max_read_rounds}

-- What `read_answer` has counted: the reads, the payload bytes, and the bytes of the container.
pub record Progress : Type 0 where
  pub reads : ℕ
  pub payload_bytes : ℕ
  pub have : ℕ

abbrev pub add_read : Progress → ℕ → Progress
add_read p more = record {
  reads = p.reads + 1;
  payload_bytes = p.payload_bytes + more;
  have = p.have + more;
}

module _ {D : Type 0} (tr : Transport D) where
  unfoldable pub next_transaction : Action SessionError (Session D) ℕ
  next_transaction s = (ok s.transaction, record s { transaction = (s.transaction + 1) % 2 ^ 32 })

  -- `write_all` of the session: the count that was written is not looked at.
  unfoldable pub write_bytes : String → List ℕ → Action SessionError (Session D) (Unit {0})
  write_bytes step bytes s =
      let (r, d) = tr.write bytes s.config.timeout s.device in
      (elim r [ ok n ↦ ok tt | err e ↦ err (usb step e) ], on_device s d)

  unfoldable pub read_once : String → Action SessionError (Session D) (List ℕ)
  read_once step s =
      let (r, d) = tr.read s.config.read_buffer s.config.timeout s.device in
      (map_err (usb step) r, on_device s d)

  module _ {W : Type 0} (out : Sink W) where
    abbrev pub on_session {ℓ} :
        {A : Type ℓ} → Action SessionError (Session D) A → Action SessionError (Session D × W) A
    on_session m (s, w) = let (r, s') = m s in (r, (s', w))

    unfoldable pub write_out : String → List ℕ → Action SessionError (Session D × W) (Unit {0})
    write_out step bytes (s, w) =
        let (r, w') = out.write_all bytes w in (map_err (write_failed step) r, (s, w'))

    -- The loop of the data phase, with its rounds left.
    unfoldable pub collect :
        ℕ → String → ℕ → Progress → Action SessionError (Session D × W) Progress
    unfolding read_once write_out
    collect zero step declared p = pure p
    collect (suc rounds) step declared p = elim (leb declared p.have) [
      | true ↦ pure p
      | false ↦ on_session (read_once step) >>= λ more. elim (length more == 0) [
        | true ↦ pure (record p { reads = p.reads + 1 })
        | false ↦
            write_out step more >>= λ _. collect rounds step declared (add_read p (length more))
      ]
    ]

    -- `Container::parse` on one transfer, and the code and the parameters that it gives.
    unfoldable pub whole_container : String → List ℕ → Result SessionError Container
    whole_container step bytes = map_err (parse step) (Container.parse bytes)

    unfoldable pub expect_response : String → Container → Result SessionError (ℕ × List ℕ)
    expect_response step c = elim c.kind [
      | response ↦ ok (c.code, parameters c)
      | command ↦ err (unexpected step response command)
      | data_phase ↦ err (unexpected step response data_phase)
      | event ↦ err (unexpected step response event)
    ]

    -- The response that follows a data phase that is complete.
    unfoldable pub response_after :
        String → ℕ → Progress → Action SessionError (Session D × W) ((ℕ × List ℕ) × Progress)
    unfolding read_once whole_container expect_response
    response_after step declared p =
        if leb declared p.have
        then (on_session (read_once step) >>= λ bytes. lift (whole_container step bytes) >>= λ c.
            lift (expect_response step c) >>= λ r. pure (r, p))
        else raise (incomplete step declared p.have)

    -- The branch of `read_answer` for a data container: `bytes` is the first transfer.
    unfoldable pub read_data :
        String → ℕ → ℕ → List ℕ → Action SessionError (Session D × W) ((ℕ × List ℕ) × Progress)
    unfolding write_out collect response_after
    read_data step buf_size declared bytes =
        if ltb max_data_bytes declared
        then raise (too_large step declared max_data_bytes)
        else (let start = min (length bytes) header_len in
            write_out step (drop start bytes) >>= λ _.
            collect (min (declared / buf_size + 16) max_read_rounds) step declared
              (record { reads = 1; payload_bytes = length bytes - start; have = length bytes })
            >>= λ p. response_after step declared p)

    -- The `match` on the kind of the first container.
    unfoldable pub by_kind :
        String → ℕ → List ℕ → Header → Action SessionError (Session D × W) ((ℕ × List ℕ) × Progress)
    unfolding read_data whole_container
    by_kind step buf_size bytes h = elim h.kind [
      | data_phase ↦ read_data step buf_size h.length bytes
      | response ↦ lift (whole_container step bytes) >>= λ c.
          pure ((c.code, parameters c), record { reads = 1; payload_bytes = 0; have = 0 })
      | command ↦ raise (unexpected step response command)
      | event ↦ raise (unexpected step response event)
    ]

    abbrev pub stream_outcome : (ℕ × List ℕ) × Progress → StreamOutcome
    stream_outcome ((code, params), p) = record {
      response_code = code;
      response_params = params;
      bytes = p.payload_bytes;
      reads = p.reads;
    }

    unfoldable pub read_answer : String → Action SessionError (Session D × W) StreamOutcome
    unfolding read_once by_kind
    read_answer step (s, w) =
        (on_session (read_once step) >>= λ bytes.
        lift (map_err (parse step) (Header.parse bytes)) >>= λ h.
        by_kind step s.config.read_buffer bytes h >>= λ a. pure (stream_outcome a))
          (s, w)

    unfoldable pub operation_stream :
        String → ℕ → List ℕ → Action SessionError (Session D × W) StreamOutcome
    unfolding next_transaction write_bytes read_answer
    operation_stream step code params = on_session next_transaction >>= λ tid.
        on_session (write_bytes step (build_command code tid params)) >>= λ _. read_answer step

  -- The payload that went to a vector, in the outcome.
  abbrev pub outcome_of :
      Result SessionError StreamOutcome × (Session D × List ℕ)
      → Result SessionError Outcome × Session D
  outcome_of (err e, (s, payload)) = (err e, s)
  outcome_of (ok o, (s, payload)) = (
    ok (record {
      response_code = o.response_code;
      data_bytes = payload;
      response_params = o.response_params;
      reads = o.reads;
    }),
    s,
  )

  unfoldable pub operation : String → ℕ → List ℕ → Action SessionError (Session D) Outcome
  unfolding operation_stream
  operation step code params s = outcome_of (operation_stream vec_sink step code params (s, []))
