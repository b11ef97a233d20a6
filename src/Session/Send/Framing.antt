-- ===== src/Session/Send/Framing.antt =====
-- The data phase that `operation_with_data` (crates/mtp-session/src/lib.rs) writes: the container in
-- whole packets, with a last packet that ends it.
use bsdroid.Base.{ltb, ◌==◌, ==_iff, Bool-cases}
use bsdroid.Base.{length, take, drop, length-append, length-take, length-drop, take-append-drop}
use bsdroid.Base.{ok}
use bsdroid.Base.{
  ℕ, ◌+◌, ◌-◌, ◌*◌, ◌/◌, ◌%◌, ◌^◌, ◌≤◌, ◌<◌, min, String, ◌≡◌, refl, sym, ap, ◌∙◌, subst, inl, inr,
  false, List, [], ◌∷◌, ◌++◌, append_assoc, append-nil, arith,
}
use bsdroid.Base.Action.{>>=-step}
use native.Mathlib.Nat.{div-add-mod, mod-lt}
use bsdroid.Ptp.Header.{header_len, container_length, push_header, data_phase, max_payload_len}
use bsdroid.Ptp.Container.{build, build_command, build_data_header}
use bsdroid.Session.{Transport, slice_source, Session, on_device}
use bsdroid.Session.Setup.{needs_zero_packet}
use bsdroid.Session.Setup.Normalised.{IsUsable}
use bsdroid.Session.Answer.{next_transaction, write_bytes}
use bsdroid.Session.Answer.Delivered.{joined}
use bsdroid.Session.Send.{send_chunk, send_rounds, send_data, send_phase}
use bsdroid.Session.Send.Wire.{
  Chunked, Framed, joined-append, Chunked-Framed_short, Chunked-Framed_whole, Writes, none_left,
  one_more, Accepts, Writes-append, send_chunk_lem, Chunked-cons, send_rounds_lem,
}

-- The loop runs often enough.
enough_rounds : (size chunk : ℕ) → 0 < chunk → size ≤ chunk * (size / chunk + 4)
enough_rounds size chunk h =
    let step : chunk * (size / chunk + 4) ≡ chunk * (size / chunk) + 4 * chunk = grind arith in
    omega (arith, step, div-add-mod size chunk, mod-lt size h)

module _ {D : Type 0} (tr : Transport D) where
  -- The header with the first bytes, and then the chunks.
  send_data_chunks :
      (step : String) (chunk size : ℕ) (s : Session D) (first r : List ℕ)
      → Accepts tr s.config.timeout
      → length first ≡ header_len
      → header_len < chunk
      → length r ≡ size
      → let sent = min (chunk - header_len) size in
        (w : List ℕ) × (ws : List (List ℕ)) × (d e : D) × (n : ℕ) × (tr.write w s.config.timeout
            s.device
          ≡ (ok n, d))
        × Writes tr s.config.timeout d ws e
        × (joined (w ∷ ws) ≡ first ++ r)
        × Chunked chunk (w ∷ ws)
        × (send_chunk tr slice_source 0 step first sent (s, r)
            ≡ (ok tt, (on_device s d, drop sent r)))
        × (send_rounds tr slice_source 0
              (size / chunk + 4)
              step
              chunk
              size
              sent
              (on_device s d, drop sent r)
            ≡ (ok size, (on_device s e, [])))
  send_data_chunks step chunk size s first r acc len hc e =
      let sent = min (chunk - header_len) size in
      let fits : sent ≤ length r = omega (arith, e) in
      let (n, d, written) = acc (first ++ take sent r) s.device in
      let kept = length-drop sent r in
      let (ws, f, took, bytes, rest, run) =
        send_rounds_lem tr (size / chunk + 4) step chunk size sent (on_device s d) (drop sent r) acc
          (omega (arith, hc)) (omega (arith, kept, e))
          (omega (arith, kept, e, enough_rounds size chunk (omega (arith, hc)))) in
      let size_of : length (first ++ take sent r) ≡ header_len + sent =
        omega (arith, length-append first (take sent r), length-take sent r, len, fits) in
      (
        first ++ take sent r,
        ws,
        d,
        f,
        n,
        written,
        took,
        append_assoc first (take sent r) (joined ws)
            ∙ ap (λ x. first ++ x) (ap (λ x. take sent r ++ x) bytes ∙ take-append-drop sent r),
        Chunked-cons chunk (first ++ take sent r) ws (omega (arith, hc)) (omega (arith, size_of))
            (omega (arith, size_of, hc))
            (λ more. omega (arith, size_of, kept, ap length bytes, more, e, hc)) rest,
        send_chunk_lem tr step first sent s r n d fits written,
        run,
      )

  send_data_lem :
      (step : String) (chunk packet size : ℕ) (s : Session D) (first r : List ℕ)
      → Accepts tr s.config.timeout
      → length first ≡ header_len
      → header_len < chunk
      → 0 < packet
      → chunk % packet ≡ 0
      → length r ≡ size
      → (ws : List (List ℕ)) × (e : D) × Writes tr s.config.timeout s.device ws e
        × (joined ws ≡ first ++ r)
        × Framed packet ws
        × (send_data tr slice_source 0 step chunk packet
              (header_len + size)
              size
              (min (chunk - header_len) size)
              first
              (s, r)
            ≡ (ok tt, (on_device s e, [])))
  unfolding send_data needs_zero_packet write_bytes
  send_data_lem step chunk packet size s first r acc len hc hp whole e =
      let (w, ws, d, f, n, written, took, bytes, ch, one, run) =
        send_data_chunks step chunk size s first r acc len hc e in
      let total : length (joined (w ∷ ws)) ≡ header_len + size =
        ap length bytes ∙ omega (arith, length-append first r, len, e) in
      let all : ltb size size ≡ false = ground arith in
      let packet_is : (packet == 0) ≡ false = ground (arith, hp) in
      elim (Bool-cases ((header_len + size) % packet == 0)) [
        | inl last_full ↦
            let (m, g, ended) = acc [] f in
            (
              (w ∷ ws) ++ ([] ∷ []),
              g,
              Writes-append tr s.config.timeout (one_more s.device d f w ws n written took)
                  (one_more f g g [] [] m ended (none_left g)),
              joined-append (w ∷ ws) ([] ∷ []) ∙ append-nil (joined (w ∷ ws)) ∙ bytes,
              Chunked-Framed_whole chunk packet (w ∷ ws) hp (omega (arith, hc)) whole ch (
                  ap (λ x. x % packet) total
                  ∙ (==_iff ((header_len + size) % packet) 0).0 last_full),
              (>>=-step (send_chunk tr slice_source 0 step first (min (chunk - header_len) size)) _
                    (s, r) (on_device s d, drop (min (chunk - header_len) size) r) tt one
                  ∙ >>=-step
                      (send_rounds tr slice_source 0 (size / chunk + 4) step chunk size
                        (min (chunk - header_len) size))
                      _ (on_device s d, drop (min (chunk - header_len) size) r) (on_device s f, [])
                      size run
                  ∙ rw (all, packet_is, last_full, ended) refl),
            )
        | inr last_short ↦ (
          w ∷ ws,
          f,
          one_more s.device d f w ws n written took,
          bytes,
          Chunked-Framed_short chunk packet (w ∷ ws) hp (omega (arith, hc)) whole ch
              (subst (λ x. 0 < x % packet) (sym total) (ground (arith, last_short))),
          (>>=-step (send_chunk tr slice_source 0 step first (min (chunk - header_len) size)) _
                (s, r) (on_device s d, drop (min (chunk - header_len) size) r) tt one
              ∙ >>=-step
                  (send_rounds tr slice_source 0 (size / chunk + 4) step chunk size
                    (min (chunk - header_len) size))
                  _ (on_device s d, drop (min (chunk - header_len) size) r) (on_device s f, []) size
                  run
              ∙ rw (all, packet_is, last_short) refl),
        )
      ]

  -- The whole of what the host sends: the command, and a data phase whose bytes are those of the container that `build` gives for the payload, in whole packets, with a short packet or a packet of zero bytes at its end. The device takes every write; the configuration is usable, as `normalised` makes it; the payload fits in a container.
  pub send_phase-Framed :
      (step : String) (code : ℕ) (params payload : List ℕ) (s : Session D)
      → IsUsable s.config
      → Accepts tr s.config.timeout
      → length payload ≤ max_payload_len
      → (ws : List (List ℕ)) × (e : D) × Writes tr s.config.timeout s.device
          (build_command code s.transaction params ∷ ws)
          e
        × (build data_phase code s.transaction payload ≡ ok (joined ws))
        × Framed s.config.packet ws
        × (send_phase tr slice_source 0 step code params (length payload) (s, payload)
            ≡ (ok tt, (record s { device = e; transaction = (s.transaction + 1) % 2 ^ 32 }, [])))
  unfolding send_phase build build_data_header container_length next_transaction write_bytes
      push_header
  send_phase-Framed step code params payload s u acc le =
      let fits : ltb max_payload_len (length payload) ≡ false = ground (arith, le) in
      let total : header_len + length payload % 2 ^ 32 ≡ header_len + length payload =
        omega (arith, le) in
      let (n, d, written) = acc (build_command code s.transaction params) s.device in
      let s1 : Session D = record s { device = d; transaction = (s.transaction + 1) % 2 ^ 32 } in
      let first =
        push_header [] (header_len + length payload % 2 ^ 32) data_phase code s.transaction in
      let (ws, e, took, bytes, framed, run) =
        send_data_lem step s.config.write_chunk s.config.packet (length payload) s1 first payload
          acc refl u.write_holds u.has_packet u.whole_packets refl in
      (
        ws,
        e,
        one_more s.device d e (build_command code s.transaction params) ws n written took,
        rw fits (ap ok (sym bytes)),
        framed,
        rw (fits, written)
            (ap
                (λ t.
                  send_data tr slice_source 0 step s.config.write_chunk s.config.packet t
                    (length payload) (min (s.config.write_chunk - header_len) (length payload))
                    first (s1, payload))
                total
              ∙ run),
      )
