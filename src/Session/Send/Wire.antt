-- ===== src/Session/Send/Wire.antt =====
-- What `operation_with_data` (crates/mtp-session/src/lib.rs) writes to the device.
use bsdroid.Base.{ltb, leb, ◌==◌, Bool-cases}
use bsdroid.Base.{length, take, drop, length-append, length-take, length-drop, take-append-drop}
use bsdroid.Base.{ok}
use bsdroid.Base.{
  ℕ, zero, suc, ◌+◌, ◌-◌, ◌*◌, ◌%◌, ◌≤◌, ◌<◌, min, String, ◌≡◌, refl, sym, ap, ◌∙◌, subst, ◌⊎◌, inl,
  inr, true, false, List, [], ◌∷◌, ◌++◌, append_assoc, append-nil, arith,
}
use bsdroid.Base.Action.{Action, >>=-step}
use native.Mathlib.Nat.{mod-add-mod}
use bsdroid.Session.{SessionError, Transport, slice_source, Session, on_device}
use bsdroid.Session.Answer.{write_bytes}
use bsdroid.Session.Answer.Delivered.{joined}
use bsdroid.Session.Send.{fill, read_exact_or_short, send_chunk, send_rounds}

-- Writes that hold something and fill a chunk, and a last one that holds what is left.
abbrev pub Chunked : ℕ → List (List ℕ) → Type 0
Chunked c [] = ⊥
Chunked c (w ∷ []) = (0 < length w) × (length w ≤ c)
Chunked c (w ∷ v ∷ ws) = (length w ≡ c) × Chunked c (v ∷ ws)

-- A data phase that the device can see the end of: whole packets, and a last write that ends with a short packet or is a packet of zero bytes.
abbrev pub Framed : ℕ → List (List ℕ) → Type 0
Framed p [] = ⊥
Framed p (w ∷ []) = (w ≡ []) ⊎ (0 < length w % p)
Framed p (w ∷ v ∷ ws) = (length w % p ≡ 0) × (0 < length w) × Framed p (v ∷ ws)

pub joined-append : (ws vs : List (List ℕ)) → joined (ws ++ vs) ≡ joined ws ++ joined vs
joined-append [] vs = refl
joined-append (w ∷ ws) vs = rw (joined-append ws vs, append_assoc w (joined ws) (joined vs)) refl

-- A full chunk in front changes nothing of what is left of the packets.
left_of_packets :
    (c p : ℕ) (w : List ℕ) (ws : List (List ℕ))
    → c % p ≡ 0
    → length w ≡ c
    → length (joined (w ∷ ws)) % p ≡ length (joined ws) % p
left_of_packets c p w ws whole e =
    let none_more : 0 + length (joined ws) ≡ length (joined ws) = omega arith in
    ap (λ n. n % p) (length-append w (joined ws) ∙ ap (λ n. n + length (joined ws)) e)
    ∙ sym (mod-add-mod c p (length (joined ws)))
    ∙ ap (λ n. (n + length (joined ws)) % p) whole
    ∙ ap (λ n. n % p) none_more

-- The last write holds what is left of the packets.
pub Chunked-Framed_short :
    (c p : ℕ) (ws : List (List ℕ))
    → 0 < p
    → 0 < c
    → c % p ≡ 0
    → Chunked c ws
    → 0 < length (joined ws) % p
    → Framed p ws
Chunked-Framed_short c p [] hp hc whole h left = elim h [ ]
Chunked-Framed_short c p (w ∷ []) hp hc whole h left =
    inr (subst (λ n. 0 < n % p) (ap length (append-nil w)) left)
Chunked-Framed_short c p (w ∷ v ∷ ws) hp hc whole (e, h) left = (
  ap (λ n. n % p) e ∙ whole,
  omega (arith, e, hc),
  Chunked-Framed_short c p (v ∷ ws) hp hc whole h
      (subst (λ n. 0 < n) (left_of_packets c p w (v ∷ ws) whole e) left),
)

pub Chunked-Framed_whole :
    (c p : ℕ) (ws : List (List ℕ))
    → 0 < p
    → 0 < c
    → c % p ≡ 0
    → Chunked c ws
    → length (joined ws) % p ≡ 0
    → Framed p (ws ++ ([] ∷ []))
Chunked-Framed_whole c p [] hp hc whole h none_left = elim h [ ]
Chunked-Framed_whole c p (w ∷ []) hp hc whole (some_bytes, h) none_left =
    (subst (λ n. n % p ≡ 0) (ap length (append-nil w)) none_left, some_bytes, inl refl)
Chunked-Framed_whole c p (w ∷ v ∷ ws) hp hc whole (e, h) none_left = (
  ap (λ n. n % p) e ∙ whole,
  omega (arith, e, hc),
  Chunked-Framed_whole c p (v ∷ ws) hp hc whole h
      (sym (left_of_packets c p w (v ∷ ws) whole e) ∙ none_left),
)

-- The chunks behind the first write: none, or full ones and what is left.
abbrev pub Rest : ℕ → List (List ℕ) → Type 0
Rest c ws = (ws ≡ []) ⊎ Chunked c ws

pub Chunked-positive : (c : ℕ) (ws : List (List ℕ)) → 0 < c → Chunked c ws → 0 < length (joined ws)
Chunked-positive c [] h ch = elim ch [ ]
Chunked-positive c (w ∷ []) h ch = omega (arith, ch.0, length-append w [])
Chunked-positive c (w ∷ v ∷ ws) h ch = omega (arith, ch.0, h, length-append w (joined (v ∷ ws)))

pub Chunked-cons :
    (c : ℕ) (w : List ℕ) (ws : List (List ℕ))
    → 0 < c
    → 0 < length w
    → length w ≤ c
    → (0 < length (joined ws) → length w ≡ c)
    → Rest c ws
    → Chunked c (w ∷ ws)
Chunked-cons c w [] h some_bytes le full rest = (some_bytes, le)
Chunked-cons c w (v ∷ ws) h some_bytes le full (inl e) = absurd cc
Chunked-cons c w (v ∷ ws) h some_bytes le full (inr ch) =
    (full (Chunked-positive c (v ∷ ws) h ch), ch)

abbrev empty : List ℕ
empty = []

fill_slice :
    (k : ℕ) (step : String) (want : ℕ) (r : List ℕ)
    → suc want ≤ length r
    → fill slice_source (suc (suc k)) step (suc want) [] r
      ≡ (ok (take (suc want) r), drop (suc want) r)
unfolding fill
fill_slice k step want r le =
    let chunk = take (suc want - length (empty)) r in
    let whole : suc want - length (empty) ≡ suc want = omega arith in
    let size : length chunk ≡ suc want = omega (arith, length-take (suc want - 0) r) in
    let some_bytes : (length chunk == 0) ≡ false = ground (arith, size) in
    let start : ltb (length (empty)) (suc want) ≡ true = ground arith in
    let all : ltb (length chunk) (suc want) ≡ false = ground (arith, size) in
    rw (fill, start, some_bytes) (rw (fill, all) (ap (λ n. (ok (take n r), drop n r)) whole))

read_slice :
    (step : String) (want : ℕ) (r : List ℕ)
    → want ≤ length r
    → read_exact_or_short slice_source 0 step want r ≡ (ok (take want r), drop want r)
unfolding read_exact_or_short fill
read_slice step zero r le = refl
read_slice step (suc want) r le =
    let rounds : suc want + 0 + 1 ≡ suc (suc want) = omega arith in
    ap (λ n. fill slice_source n step (suc want) [] r) rounds ∙ fill_slice want step want r le

module _ {D : Type 0} (tr : Transport D) where
  -- The device takes these writes, one after the other, and ends in the last state.
  pub data Writes (timeout : ℕ) : D → List (List ℕ) → D → Type 0 where
    none_left : (d : D) → Writes timeout d [] d
    one_more :
        (d e f : D) (w : List ℕ) (ws : List (List ℕ)) (n : ℕ)
        → tr.write w timeout d ≡ (ok n, e)
        → Writes timeout e ws f
        → Writes timeout d (w ∷ ws) f

  -- The device takes every write.
  abbrev pub Accepts : ℕ → Type 0
  Accepts timeout =
      (bytes : List ℕ) (d : D) → (n : ℕ) × (e : D) × (tr.write bytes timeout d ≡ (ok n, e))

  pub Writes-append :
      (timeout : ℕ) {d e f : D} {ws vs : List (List ℕ)}
      → Writes timeout d ws e
      → Writes timeout e vs f
      → Writes timeout d (ws ++ vs) f
  Writes-append timeout (none_left d) m = m
  Writes-append timeout (one_more d e f w ws n r l) m =
      one_more d e _ w _ n r (Writes-append timeout l m)

  pub send_chunk_lem :
      (step : String) (head : List ℕ) (want : ℕ) (s : Session D) (r : List ℕ) (n : ℕ) (e : D)
      → want ≤ length r
      → tr.write (head ++ take want r) s.config.timeout s.device ≡ (ok n, e)
      → send_chunk tr slice_source 0 step head want (s, r) ≡ (ok tt, (on_device s e, drop want r))
  unfolding send_chunk write_bytes
  send_chunk_lem step head want s r n e le written =
      rw (send_chunk, read_slice step want r le, written) refl

  -- How a run of writes ends: the device took the bytes, and the source is used up.
  abbrev pub Sends :
      ℕ → Session D → List ℕ → ℕ → Action SessionError (Session D × List ℕ) ℕ → Type 0
  Sends chunk s r size m =
      (ws : List (List ℕ)) × (e : D) × Writes s.config.timeout s.device ws e
      × (joined ws ≡ r)
      × Rest chunk ws
      × (m (s, r) ≡ (ok size, (on_device s e, [])))

  send_rounds_done :
      (rounds : ℕ) (step : String) (chunk size sent : ℕ) (s : Session D) (r : List ℕ)
      → length r ≡ 0
      → size ≡ sent
      → Sends chunk s r size (send_rounds tr slice_source 0 rounds step chunk size sent)
  unfolding send_rounds
  send_rounds_done zero step chunk size sent s [] h e =
      ([], s.device, none_left s.device, refl, inl refl, rw e refl)
  send_rounds_done (suc rounds) step chunk size sent s [] h e =
      let whole : leb sent sent ≡ true = ground arith in
      ([], s.device, none_left s.device, refl, inl refl, rw (e, send_rounds, whole) refl)
  send_rounds_done rounds step chunk size sent s (b ∷ r) h e = absurd (omega (arith, h))

  pub send_rounds_lem :
      (rounds : ℕ) (step : String) (chunk size sent : ℕ) (s : Session D) (r : List ℕ)
      → Accepts s.config.timeout
      → 0 < chunk
      → length r + sent ≡ size
      → length r ≤ chunk * rounds
      → Sends chunk s r size (send_rounds tr slice_source 0 rounds step chunk size sent)
  unfolding send_rounds
  send_rounds_lem zero step chunk size sent s r acc h e le =
      let none_more : length r ≡ 0 = omega (arith, le) in
      send_rounds_done zero step chunk size sent s r none_more (omega (arith, e, none_more))
  send_rounds_lem (suc rounds) step chunk size sent s r acc h e le =
      elim (Bool-cases (leb size sent)) [
        | inl whole ↦
            let le' : size ≤ sent = ground (arith, whole) in
            send_rounds_done (suc rounds) step chunk size sent s r (omega (arith, e, le'))
              (omega (arith, e, le'))
        | inr part ↦
            let lt : sent < size = ground (arith, part) in
            let want = min chunk (size - sent) in
            let fits : want ≤ length r = omega (arith, e) in
            let (n, d, written) = acc (take want r) s.device in
            let one = send_chunk_lem step [] want s r n d fits written in
            let step_eq : chunk * suc rounds ≡ chunk * rounds + chunk = grind arith in
            let kept = length-drop want r in
            let (ws, f, took, bytes, rest, run) =
              send_rounds_lem rounds step chunk size (sent + want) (on_device s d) (drop want r) acc
                h (omega (arith, kept, e, fits)) (omega (arith, kept, step_eq, le, e)) in
            let size_of : length (take want r) ≡ want = omega (arith, length-take want r, fits) in
            (
              take want r ∷ ws,
              f,
              one_more s.device d f (take want r) ws n written took,
              rw bytes (take-append-drop want r),
              inr (
                  Chunked-cons chunk (take want r) ws h (omega (arith, size_of, lt, h))
                    (omega (arith, size_of))
                    (λ more. omega (arith, size_of, kept, ap length bytes, more, e)) rest),
              rw (send_rounds, part)
                  (>>=-step (send_chunk tr slice_source 0 step [] want) _ (s, r)
                      (on_device s d, drop want r) tt one
                    ∙ run),
            )
      ]
