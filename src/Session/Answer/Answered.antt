-- ===== src/Session/Answer/Answered.antt =====
-- What an operation gives when the device answers as MTP says (crates/mtp-session/src/lib.rs).
use bsdroid.Base.{length, All, length-append}
use bsdroid.Base.{Result, ok}
use bsdroid.Base.{IsU16, IsU32}
use bsdroid.Base.{
  ℕ, ◌+◌, ◌/◌, ◌%◌, ◌^◌, ◌≤◌, min, String, ◌≡◌, refl, sym, ap, ◌∙◌, List, [], ◌++◌, append-nil,
  arith,
}
use bsdroid.Base.Action.{>>=-step}
use bsdroid.Ptp.Header.{data_phase, response, header_len, push_header}
use bsdroid.Ptp.Container
use bsdroid.Ptp.Container.{Container, parameters, u32_chunks, build, build_command, push_u32s}
use bsdroid.Ptp.Container.RoundTrip.{parse_header, parse-build, u32_chunks-push_u32s}
use bsdroid.Session.{SessionError, StreamOutcome, Transport, vec_sink, Session, on_device}
use bsdroid.Session.Setup.{max_read_rounds}
use bsdroid.Session.Answer.{
  Progress, next_transaction, write_bytes, read_once, on_session, read_data, by_kind, read_answer,
  operation_stream, outcome_of, operation,
}
use bsdroid.Session.Answer.Delivered.{
  joined, IsFull, Delivers, advance, advance_lem, read_once_lem, read_data_lem,
}

module _ {D : Type 0} (tr : Transport D) where
  -- The device answers one operation as MTP says, from state `d` to state `f`: the data container in its transfers, and a response that stands in one transfer.
  pub record IsAnswer (s : Session D) (d f : D) (code tid : ℕ) (first : List ℕ)
      (parts : List (List ℕ)) (answer : ℕ) (params : List ℕ) : Type 0 where
    pub behind_first : D
    pub middle : D
    pub bytes : List ℕ
    pub starts : tr.read s.config.read_buffer s.config.timeout d ≡ (
      ok (
          push_header [] (header_len + length (first ++ joined parts)) data_phase code tid
          ++ first),
      behind_first,
    )
    pub sends : Delivers tr s.config.read_buffer s.config.timeout behind_first parts middle
    pub responds : tr.read s.config.read_buffer s.config.timeout middle ≡ (ok bytes, f)
    pub built : build response answer tid (push_u32s params) ≡ ok bytes
    pub answer_fits : IsU16 answer
    pub params_fit : All IsU32 params
    pub code_fits : IsU16 code
    pub tid_fits : IsU32 tid
    pub payload_fits : IsU32 (header_len + length (first ++ joined parts))
    pub parts_full : All IsFull parts
    pub enough :
        length parts
        ≤ min
            ((header_len + length (first ++ joined parts)) / s.config.read_buffer + 16)
            max_read_rounds

  answer_parses :
      (answer tid : ℕ) (params bytes : List ℕ)
      → build response answer tid (push_u32s params) ≡ ok bytes
      → IsU16 answer
      → IsU32 tid
      → All IsU32 params
      → (c : Container) × (Container.parse bytes ≡ ok c)
        × (c.kind ≡ response)
        × (c.code ≡ answer)
        × (parameters c ≡ params)
  answer_parses answer tid params bytes b ha ht hp = (
    _,
    ap Container.parse (sym (append-nil bytes))
        ∙ parse-build response answer tid (push_u32s params) [] bytes ha ht b,
    refl,
    refl,
    unfold parameters in u32_chunks-push_u32s params hp,
  )

  read_answer_lem :
      (step : String) (s : Session D) (d e f g : D) (code tid : ℕ) (first bytes : List ℕ)
      {parts : List (List ℕ)} (c : Container)
      → IsU16 code
      → IsU32 tid
      → IsU32 (header_len + length (first ++ joined parts))
      → All IsFull parts
      → length parts
        ≤ min
            ((header_len + length (first ++ joined parts)) / s.config.read_buffer + 16)
            max_read_rounds
      → tr.read s.config.read_buffer s.config.timeout d ≡ (
        ok (
            push_header [] (header_len + length (first ++ joined parts)) data_phase code tid
            ++ first),
        e,
      )
      → Delivers tr s.config.read_buffer s.config.timeout e parts f
      → tr.read s.config.read_buffer s.config.timeout f ≡ (ok bytes, g)
      → Container.parse bytes ≡ ok c
      → c.kind ≡ response
      → read_answer tr vec_sink step (on_device s d, []) ≡ (
        ok (record {
          response_code = c.code;
          response_params = parameters c;
          bytes = length (first ++ joined parts);
          reads = 1 + length parts;
        }),
        (on_device s g, first ++ joined parts),
      )
  unfolding read_answer by_kind
  read_answer_lem step s d e f g code tid first bytes {parts = parts} c hc ht fits full enough r0 m
        r parsed kind =
      let declared = header_len + length (first ++ joined parts) in
      let start = push_header [] declared data_phase code tid ++ first in
      let header = parse_header declared code tid data_phase first fits hc ht in
      let read : on_session tr vec_sink (read_once tr step) (on_device s d, [])
          ≡ (ok start, (on_device s e, [])) =
        ap (λ (z : Result SessionError (List ℕ) × Session D). (z.0, (z.1, [])))
          (read_once_lem tr step s d e start r0) in
      let body =
        read_data_lem tr step s e f g code tid first bytes c fits full enough m r parsed kind in
      let p0 : Progress = record {
        reads = 1;
        payload_bytes = length first;
        have = header_len + length first;
      } in
      let sums = advance_lem p0 parts in
      let count : (advance p0 parts).payload_bytes ≡ length (first ++ joined parts) =
        omega (arith, sums.1, length-append first (joined parts)) in
      let rounds : (advance p0 parts).reads ≡ 1 + length parts = sums.2 in
      >>=-step (on_session tr vec_sink (read_once tr step)) _ (on_device s d, [])
        (on_device s e, []) start read
      ∙ rw header (
          >>=-step (read_data tr vec_sink step s.config.read_buffer declared start) _
            (on_device s e, []) (on_device s g, first ++ joined parts) _ body
          ∙ λ i. (
            ok (record {
              response_code = c.code;
              response_params = parameters c;
              bytes = count i;
              reads = rounds i;
            }),
            (on_device s g, first ++ joined parts),
          ))

  -- The command is written, and the device answers with its data phase, of a length that 32 bits hold, in transfers that are not empty, the first with the whole header and at most as many behind it as the host waits for (the declared length over the read buffer, and 16 more, and the limit on rounds), and with its response in one transfer. The operation then gives exactly the payload that was sent, wherever it was cut, with the code and the parameters of the response; the host ends with the next transaction, and has read what the device had to send.
  pub operation_delivered :
      (step : String) (s : Session D) (d f : D) (n code : ℕ) (params first : List ℕ)
      (parts : List (List ℕ)) (answer : ℕ) (answer_params : List ℕ)
      → tr.write (build_command code s.transaction params) s.config.timeout s.device ≡ (ok n, d)
      → IsAnswer s d f code s.transaction first parts answer answer_params
      → operation tr step code params s ≡ (
        ok (record {
          response_code = answer;
          data_bytes = first ++ joined parts;
          response_params = answer_params;
          reads = 1 + length parts;
        }),
        record s { device = f; transaction = (s.transaction + 1) % 2 ^ 32 },
      )
  unfolding operation operation_stream next_transaction write_bytes read_answer by_kind
  operation_delivered step s d f n code params first parts answer answer_params written a =
      let (c, parsed, kind, is_answer, has_params) =
        answer_parses answer s.transaction answer_params a.bytes a.built a.answer_fits a.tid_fits
          a.params_fit in
      let s1 : Session D = record s { transaction = (s.transaction + 1) % 2 ^ 32 } in
      let o : StreamOutcome = record {
        response_code = c.code;
        response_params = parameters c;
        bytes = length (first ++ joined parts);
        reads = 1 + length parts;
      } in
      let sent : on_session tr vec_sink
            (write_bytes tr step (build_command code s.transaction params)) (s1, [])
          ≡ (ok tt, (on_device s1 d, [])) =
        rw (write_bytes, written) in
      let answered : read_answer tr vec_sink step (on_device s1 d, [])
          ≡ (ok o, (on_device s1 f, first ++ joined parts)) =
        read_answer_lem step s1 d a.behind_first a.middle f code s.transaction first a.bytes c
          a.code_fits a.tid_fits a.payload_fits a.parts_full a.enough a.starts a.sends a.responds
          parsed kind in
      let whole : operation_stream tr vec_sink step code params (s, [])
          ≡ (ok o, (on_device s1 f, first ++ joined parts)) =
        >>=-step
          (on_session tr vec_sink (write_bytes tr step (build_command code s.transaction params))) _
          (s1, []) (on_device s1 d, []) tt sent
        ∙ answered in
      ap (outcome_of tr) whole ∙ rw (is_answer, has_params)
