-- ===== src/Session/Answer/Delivered.antt =====
-- How `read_answer` (crates/mtp-session/src/lib.rs) puts the transfers of a data phase together.
use bsdroid.Base.{ltb, leb, ◌==◌}
use bsdroid.Base.{length, drop, All, length-append}
use bsdroid.Base.{Result, ok}
use bsdroid.Base.{IsU32}
use bsdroid.Base.{
  ℕ, zero, suc, ◌+◌, ◌-◌, ◌/◌, ◌≤◌, ◌<◌, min, String, ◌≡◌, refl, ap, ◌∙◌, true, false, List, [],
  ◌∷◌, ◌++◌, append_assoc, append-nil, arith,
}
use bsdroid.Base.Action.{◌>>=◌, >>=-step}
use bsdroid.Ptp.Header.{data_phase, response, header_len, push_header}
use bsdroid.Ptp.Container
use bsdroid.Ptp.Container.{Container, parameters, u32_chunks, build, build_command, push_u32s}
use bsdroid.Session.{SessionError, Transport, vec_sink, Session, on_device}
use bsdroid.Session.Setup.{max_data_bytes, max_read_rounds}
use bsdroid.Session.Answer.{
  Progress, add_read, read_once, on_session, write_out, collect, whole_container, expect_response,
  response_after, read_data,
}

-- The bytes of several transfers.
abbrev pub joined : List (List ℕ) → List ℕ
joined [] = []
joined (x ∷ xs) = x ++ joined xs

-- A transfer that holds something.
abbrev pub IsFull : List ℕ → Type 0
IsFull x = 0 < length x

abbrev pub advance : Progress → List (List ℕ) → Progress
advance p [] = p
advance p (x ∷ xs) = advance (add_read p (length x)) xs

pub advance_lem :
    (p : Progress) (xs : List (List ℕ))
    → (advance p xs).have ≡ p.have + length (joined xs)
      × (advance p xs).payload_bytes ≡ p.payload_bytes + length (joined xs)
      × (advance p xs).reads ≡ p.reads + length xs
advance_lem p [] = (omega arith, omega arith, omega arith)
advance_lem p (x ∷ xs) =
    let (a, b, c) = advance_lem (add_read p (length x)) xs in
    (
      omega (arith, a, length-append x (joined xs)),
      omega (arith, b, length-append x (joined xs)),
      omega (arith, c),
    )

module _ {D : Type 0} (tr : Transport D) where
  -- The device gives these transfers, one to a read, and ends in the last state.
  pub data Delivers (size timeout : ℕ) : D → List (List ℕ) → D → Type 0 where
    done : (d : D) → Delivers size timeout d [] d
    more :
        (d e f : D) (x : List ℕ) (xs : List (List ℕ))
        → tr.read size timeout d ≡ (ok x, e)
        → Delivers size timeout e xs f
        → Delivers size timeout d (x ∷ xs) f

  pub read_once_lem :
      (step : String) (s : Session D) (d e : D) (x : List ℕ)
      → tr.read s.config.read_buffer s.config.timeout d ≡ (ok x, e)
      → read_once tr step (on_device s d) ≡ (ok x, on_device s e)
  unfolding read_once
  read_once_lem step s d e x r = rw r

  -- The loop takes the parts and stops behind the last one; what follows is left for the next read.
  collect-Delivers :
      (rounds : ℕ) (step : String) (declared : ℕ) (p : Progress) (s : Session D) (w : List ℕ)
      {d f : D} {parts : List (List ℕ)}
      → Delivers s.config.read_buffer s.config.timeout d parts f
      → All IsFull parts
      → length parts ≤ rounds
      → p.have + length (joined parts) ≡ declared
      → collect tr vec_sink rounds step declared p (on_device s d, w)
        ≡ (ok (advance p parts), (on_device s f, w ++ joined parts))
  unfolding collect write_out
  collect-Delivers zero step declared p s w (done d) h le e = rw (append-nil w)
  collect-Delivers zero step declared p s w (more d g f x xs r m) h le e = absurd (omega arith)
  collect-Delivers (suc rounds) step declared p s w (done d) h le e =
      let whole : leb declared p.have ≡ true = ground (arith, e) in
      rw (collect, whole, append-nil w)
  collect-Delivers (suc rounds) step declared p s w (more d g f x xs r m) (full, h) le e =
      let size = length-append x (joined xs) in
      let part : leb declared p.have ≡ false = ground (arith, size, e, full) in
      let bytes : (length x == 0) ≡ false = ground (arith, full) in
      let ih =
        collect-Delivers rounds step declared (add_read p (length x)) s (w ++ x) m h (omega arith)
          (omega (arith, size, e)) in
      let read =
        ap (λ (z : Result SessionError (List ℕ) × Session D). (z.0, (z.1, w)))
          (read_once_lem step s d g x r) in
      rw (collect, part)
        (>>=-step (on_session tr vec_sink (read_once tr step)) _ (on_device s d, w)
            (on_device s g, w) x read
          ∙ rw bytes (ih ∙ rw (append_assoc w x (joined xs))))

  response_after_lem :
      (step : String) (declared : ℕ) (p : Progress) (s : Session D) (d e : D) (w bytes : List ℕ)
      (c : Container)
      → declared ≤ p.have
      → tr.read s.config.read_buffer s.config.timeout d ≡ (ok bytes, e)
      → Container.parse bytes ≡ ok c
      → c.kind ≡ response
      → response_after tr vec_sink step declared p (on_device s d, w)
        ≡ (ok ((c.code, parameters c), p), (on_device s e, w))
  unfolding response_after whole_container expect_response
  response_after_lem step declared p s d e w bytes c le r parsed kind =
      let whole : leb declared p.have ≡ true = ground (arith, le) in
      let read =
        ap (λ (z : Result SessionError (List ℕ) × Session D). (z.0, (z.1, w)))
          (read_once_lem step s d e bytes r) in
      rw (response_after, whole)
        (>>=-step (on_session tr vec_sink (read_once tr step)) _ (on_device s d, w)
            (on_device s e, w) bytes read
          ∙ rw (parsed, kind))

  Progress-eq :
      (p q : Progress)
      → p.reads ≡ q.reads
      → p.payload_bytes ≡ q.payload_bytes
      → p.have ≡ q.have
      → p ≡ q
  Progress-eq p q a b c = λ i. record { reads = a i; payload_bytes = b i; have = c i }

  pub read_data_lem :
      (step : String) (s : Session D) (d e f : D) (code tid : ℕ) (first bytes : List ℕ)
      {parts : List (List ℕ)} (c : Container)
      → IsU32 (header_len + length (first ++ joined parts))
      → All IsFull parts
      → length parts
        ≤ min
            ((header_len + length (first ++ joined parts)) / s.config.read_buffer + 16)
            max_read_rounds
      → Delivers s.config.read_buffer s.config.timeout d parts e
      → tr.read s.config.read_buffer s.config.timeout e ≡ (ok bytes, f)
      → Container.parse bytes ≡ ok c
      → c.kind ≡ response
      → let declared = header_len + length (first ++ joined parts) in
        let start = push_header [] declared data_phase code tid in
        let p0 : Progress = record {
          reads = 1;
          payload_bytes = length first;
          have = header_len + length first;
        } in
        read_data tr vec_sink step s.config.read_buffer declared
          (start ++ first)
          (on_device s d, [])
        ≡ (ok ((c.code, parameters c), advance p0 parts), (on_device s f, first ++ joined parts))
  unfolding read_data write_out push_header
  read_data_lem step s d e f code tid first bytes {parts = parts} c fits full enough m r parsed
        kind =
      let declared = header_len + length (first ++ joined parts) in
      let small : ltb max_data_bytes declared ≡ false = ground (arith, fits) in
      let size = length-append first (joined parts) in
      let p0 : Progress = record {
        reads = 1;
        payload_bytes = length first;
        have = header_len + length first;
      } in
      let body = collect-Delivers _ step declared p0 s first m full enough (omega (arith, size)) in
      let reached : declared ≤ (advance p0 parts).have =
        omega (arith, (advance_lem p0 parts).0, size) in
      let start = push_header [] declared data_phase code tid ++ first in
      let head : min (length start) header_len ≡ header_len = omega arith in
      let p1 : Progress = record {
        reads = 1;
        payload_bytes = length start - min (length start) header_len;
        have = length start;
      } in
      let counts : p1 ≡ p0 = Progress-eq p1 p0 refl (omega arith) (omega arith) in
      let payload : drop (min (length start) header_len) start ≡ first =
        ap (λ n. drop n start) head in
      let rounds = min (declared / s.config.read_buffer + 16) max_read_rounds in
      let after = response_after tr vec_sink step declared in
      let from = λ (bytes : List ℕ) (p : Progress).
        (write_out tr vec_sink step bytes >>= λ x.
        collect tr vec_sink rounds step declared p >>= after)
          (on_device s d, []) in
      rw (read_data, small)
        (ap (λ b. from b p1) payload
          ∙ ap (from first) counts
          ∙ >>=-step (collect tr vec_sink rounds step declared p0) after (on_device s d, first)
              (on_device s e, first ++ joined parts) (advance p0 parts) body
          ∙ response_after_lem step declared (advance p0 parts) s e f (first ++ joined parts) bytes
              c reached r parsed kind)
