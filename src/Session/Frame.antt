-- ===== src/Session/Frame.antt =====
-- What an operation leaves alone in a session (crates/mtp-session/src/lib.rs), however it ends.
use bsdroid.Base.{ltb, leb, ◌==◌, if◌then◌else◌}
use bsdroid.Base.{length, drop}
use bsdroid.Base.{Result, ok, err, map_err}
use bsdroid.Base.{
  ℕ, zero, suc, ◌+◌, ◌-◌, ◌/◌, ◌%◌, ◌^◌, min, String, ◌≡◌, refl, ap, ◌∙◌, Bool, true, false, List,
  [], ◌++◌,
}
use bsdroid.Base.Action.{Action, lift, continue, ◌>>=◌}
use bsdroid.Ptp.Header
use bsdroid.Ptp.Header.{Header, ContainerType, command, data_phase, response, event, header_len}
use bsdroid.Ptp.Container.{build_command}
use bsdroid.Session.{SessionError, parse, StreamOutcome, Transport, vec_sink, Session, on_device}
use bsdroid.Session.Setup.{max_data_bytes, max_read_rounds}
use bsdroid.Session.Answer.{
  Progress, add_read, next_transaction, write_bytes, read_once, on_session, write_out, collect,
  whole_container, expect_response, response_after, read_data, by_kind, stream_outcome, read_answer,
  operation_stream, outcome_of, operation,
}

module _ {D : Type 0} (tr : Transport D) where
  abbrev WithSink : Type 0
  WithSink = Session D × List ℕ

  -- An action that changes nothing of the session but its device.
  record IsFramed {ℓ} {A : Type ℓ} (m : Action SessionError WithSink A) : Type ℓ where
    framed :
        (s : Session D) (w : List ℕ) → (d : D) × (v : List ℕ) × ((m (s, w)).1 ≡ (on_device s d, v))

  lift-IsFramed {ℓ} : {A : Type ℓ} (r : Result SessionError A) → IsFramed (lift r)
  lift-IsFramed r = record { framed = λ s w. (s.device, w, refl) }

  >>=-IsFramed {ℓ κ} :
      {A : Type ℓ} {B : Type κ} (m : Action SessionError WithSink A)
      (f : A → Action SessionError WithSink B)
      → IsFramed m
      → ((a : A) → IsFramed (f a))
      → IsFramed (m >>= f)
  >>=-IsFramed {A} {B} m f hm hf = record { framed = λ s w. go s (m (s, w)) (hm.framed s w) }
    where
      go :
          (s : Session D) (r : Result SessionError A × WithSink)
          → (d : D) × (v : List ℕ) × (r.1 ≡ (on_device s d, v))
          → (d : D) × (v : List ℕ) × ((continue r.0 f r.1).1 ≡ (on_device s d, v))
      go s (err e, u) h = h
      go s (ok a, u) (d, v, e) =
          let (d', v', e') = (hf a).framed (on_device s d) v in (d', v', ap (λ x. (f a x).1) e ∙ e')

  elim-IsFramed {ℓ} :
      {A : Type ℓ} (b : Bool) (x y : Action SessionError WithSink A)
      → IsFramed x
      → IsFramed y
      → IsFramed (elim b [ false ↦ x | true ↦ y ])
  elim-IsFramed false x y hx hy = hx
  elim-IsFramed true x y hx hy = hy

  if-IsFramed {ℓ} :
      {A : Type ℓ} (b : Bool) (x y : Action SessionError WithSink A)
      → IsFramed x
      → IsFramed y
      → IsFramed (if b then x else y)
  if-IsFramed false x y hx hy = hy
  if-IsFramed true x y hx hy = hx

  read_once-IsFramed : (step : String) → IsFramed (on_session tr vec_sink (read_once tr step))
  unfolding read_once
  read_once-IsFramed step = record { framed = λ s w. (_, w, refl) }

  write_out-IsFramed :
      (step : String) (bytes : List ℕ) → IsFramed (write_out tr vec_sink step bytes)
  unfolding write_out
  write_out-IsFramed step bytes = record { framed = λ s w. (s.device, w ++ bytes, refl) }

  write_bytes-IsFramed :
      (step : String) (bytes : List ℕ)
      → IsFramed (on_session tr vec_sink (write_bytes tr step bytes))
  unfolding write_bytes
  write_bytes-IsFramed step bytes = record { framed = λ s w. (_, w, refl) }

  collect-IsFramed :
      (rounds : ℕ) (step : String) (declared : ℕ) (p : Progress)
      → IsFramed (collect tr vec_sink rounds step declared p)
  unfolding collect
  collect-IsFramed zero step declared p = lift-IsFramed (ok p)
  collect-IsFramed (suc rounds) step declared p =
      elim-IsFramed (leb declared p.have) _ _
        (>>=-IsFramed _ _ (read_once-IsFramed step) λ more.
          elim-IsFramed (length more == 0) _ _
            (>>=-IsFramed _ _ (write_out-IsFramed step more)
              λ u. collect-IsFramed rounds step declared (add_read p (length more)))
            (lift-IsFramed (ok (record p { reads = p.reads + 1 }))))
        (lift-IsFramed (ok p))

  response_after-IsFramed :
      (step : String) (declared : ℕ) (p : Progress)
      → IsFramed (response_after tr vec_sink step declared p)
  unfolding response_after
  response_after-IsFramed step declared p =
      if-IsFramed (leb declared p.have) _ _
        (>>=-IsFramed _ _ (read_once-IsFramed step) λ bytes.
          >>=-IsFramed _ _ (lift-IsFramed (whole_container tr vec_sink step bytes)) λ c.
            >>=-IsFramed _ _ (lift-IsFramed (expect_response tr vec_sink step c))
              λ r. lift-IsFramed (ok (r, p)))
        (lift-IsFramed (err _))

  read_data-IsFramed :
      (step : String) (buf_size declared : ℕ) (bytes : List ℕ)
      → IsFramed (read_data tr vec_sink step buf_size declared bytes)
  unfolding read_data
  read_data-IsFramed step buf_size declared bytes =
      if-IsFramed (ltb max_data_bytes declared) _ _ (lift-IsFramed (err _)) (
        >>=-IsFramed _ _ (write_out-IsFramed step (drop (min (length bytes) header_len) bytes)) λ u.
          >>=-IsFramed _ _
            (collect-IsFramed (min (declared / buf_size + 16) max_read_rounds) step declared
              (record {
                reads = 1;
                payload_bytes = length bytes - min (length bytes) header_len;
                have = length bytes;
              }))
            λ p. response_after-IsFramed step declared p)

  by_kind-IsFramed :
      (step : String) (buf_size : ℕ) (bytes : List ℕ) (h : Header)
      → IsFramed (by_kind tr vec_sink step buf_size bytes h)
  unfolding by_kind
  by_kind-IsFramed step buf_size bytes h = go h.kind
    where
      go :
          (k : ContainerType)
          → IsFramed (by_kind tr vec_sink step buf_size bytes (record h { kind = k }))
      go data_phase = read_data-IsFramed step buf_size h.length bytes
      go response =
          >>=-IsFramed _ _ (lift-IsFramed (whole_container tr vec_sink step bytes))
            λ c. lift-IsFramed (ok _)
      go command = lift-IsFramed (err _)
      go event = lift-IsFramed (err _)

  read_answer-IsFramed : (step : String) → IsFramed (read_answer tr vec_sink step)
  unfolding read_answer
  read_answer-IsFramed step = record {
    framed = λ s w.
        (>>=-IsFramed _ _ (read_once-IsFramed step) λ bytes.
            >>=-IsFramed _ _ (lift-IsFramed (map_err (parse step) (Header.parse bytes))) λ h.
              >>=-IsFramed _ _ (by_kind-IsFramed step s.config.read_buffer bytes h)
                λ a. lift-IsFramed (ok (stream_outcome tr vec_sink a))).framed
          s w;
  }

  outcome_of-session :
      (r : Result SessionError StreamOutcome × WithSink) → (outcome_of tr r).1 ≡ r.1.0
  outcome_of-session (ok o, (s, v)) = refl
  outcome_of-session (err e, (s, v)) = refl

  -- Every operation takes the next transaction, whether it succeeds or fails, and changes nothing else of the session but the device: the configuration stays, and the note whether a session is open.
  pub operation-IsFramed :
      (step : String) (code : ℕ) (params : List ℕ) (s : Session D)
      → (d : D) × ((operation tr step code params s).1
          ≡ record s { device = d; transaction = (s.transaction + 1) % 2 ^ 32 })
  unfolding operation operation_stream next_transaction
  operation-IsFramed step code params s =
      let s1 : Session D = record s { transaction = (s.transaction + 1) % 2 ^ 32 } in
      let (d, v, e) =
        (>>=-IsFramed _ _ (write_bytes-IsFramed step (build_command code s.transaction params))
            λ u. read_answer-IsFramed step).framed
          s1 [] in
      (
        d,
        outcome_of-session (operation_stream tr vec_sink step code params (s, []))
            ∙ ap (λ x. x.0) e,
      )
