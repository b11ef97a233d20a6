-- ===== src/Backend/Read/Exact.antt =====
-- `read_at` (crates/mtpfs/src/backend.rs) gives the bytes of the file, through the cache, the
-- workaround at the end of the file, and any count of requests to the device.
use bsdroid.Base.{ltb, leb, ◌==◌, ==_iff, Bool-cases, Option-cases}
use bsdroid.Base.{length, take, drop, length-append, length-take, length-drop, take-min, take-take}
use bsdroid.Base.{ok}
use bsdroid.Base.{IsU32, usize_max}
use bsdroid.Base.{
  ℕ, zero, suc, ◌+◌, ◌-◌, ◌≤◌, ◌<◌, min, max, ◌≡◌, refl, sym, ap, ◌∙◌, subst, inl, inr, true, false,
  Option, none, some, List, [], ◌∷◌, ◌++◌, arith,
}
use bsdroid.Base.Action.{Action, pure, ◌>>=◌, >>=-step}
use bsdroid.Session.{Transport, Session}
use bsdroid.Backend.{Error, read_ahead, ReadCache, Mtp}
use bsdroid.Backend.Read.{read_from_device, find_cached, keep_cache, fill_answer, read_at}
use bsdroid.Backend.Read.Slices.{
  slice, length-slice, IsPart, slice-IsPart, IsPart-append, cached-IsPart,
}
use bsdroid.Backend.Read.Quirk.{Reaches, Reaches-le}
use bsdroid.Backend.Read.Served.{Serves, read_from_device-Gives}

length_zero : (xs : List ℕ) → length xs ≡ 0 → xs ≡ []
length_zero [] e = refl
length_zero (x ∷ xs) e = absurd (omega (arith, e))

-- What the cache holds of the object stands in the file.
abbrev pub AgreesWith : List ℕ → ℕ → Option ReadCache → Type 0
AgreesWith file handle none = Unit {0}
AgreesWith file handle (some c) = c.handle ≡ handle → IsPart file c.start c.data_bytes

module _ {D : Type 0} (tr : Transport D) (file : List ℕ) (handle : ℕ)
    (IsFit : Session D → Type 0) where
  -- The mount is ready to read the file.
  pub record IsReady (m : Mtp D) : Type 0 where
    pub serves : Serves tr file handle m.partial_read m.packet IsFit
    pub fit : IsFit m.session
    pub agrees : AgreesWith file handle m.cache
    pub reaches : Reaches m.partial_read (length file)
    pub packet_holds : 1 < m.packet
    pub file_fits : length file ≤ usize_max

  -- An action that gives a part of the file and leaves the mount ready, with a new session and cache.
  abbrev pub GivesAndKeeps : Mtp D → ℕ → ℕ → Action Error (Mtp D) (List ℕ) → Type 0
  GivesAndKeeps m offset want a =
      (t : Session D) × (c : Option ReadCache) × IsReady (record m { session = t; cache = c })
      × (a m ≡ (ok (slice file offset want), record m { session = t; cache = c }))

  fill_answer_done :
      (rounds : ℕ) (m : Mtp D) (offset want : ℕ) (out : List ℕ)
      → IsReady m
      → IsPart file offset out
      → length out ≡ want
      → GivesAndKeeps m offset want (fill_answer tr rounds handle offset want (length file) out)
  unfolding fill_answer
  fill_answer_done zero m offset want out ready p e =
      (m.session, m.cache, ready, λ i. (ok ((p.as_file ∙ ap (slice file offset) e) i), m))
  fill_answer_done (suc rounds) m offset want out ready p e =
      let full : ltb (length out) want ≡ false = ground (arith, e) in
      (
        m.session,
        m.cache,
        ready,
        rw (fill_answer, full) (λ i. (ok ((p.as_file ∙ ap (slice file offset) e) i), m)),
      )

  hit-IsPart :
      (m : Mtp D) (at need : ℕ) (bytes : List ℕ)
      → IsReady m
      → 0 < need
      → find_cached tr handle at need m.cache ≡ some bytes
      → IsPart file at bytes × (0 < length bytes) × (length bytes ≤ need)
  hit-IsPart m at need bytes ready h hit = go m.cache ready.agrees hit
    where
      go :
          (c : Option ReadCache)
          → AgreesWith file handle c
          → find_cached tr handle at need c ≡ some bytes
          → IsPart file at bytes × (0 < length bytes) × (length bytes ≤ need)
      go none agrees e = absurd cc
      go (some c) agrees e =
          let (same_handle, inside, some_bytes, short) =
            cached-IsPart file c handle at need bytes h agrees e in
          (inside, some_bytes, short)

  -- A read leaves what it got in the cache.
  read-IsReady :
      (m : Mtp D) (at ask : ℕ) (t : Session D)
      → IsReady m
      → IsFit t
      → at + ask ≤ length file
      → IsReady (keep_cache tr handle at (slice file at ask) (record m { session = t }))
  read-IsReady m at ask t ready fit_t reach = record {
    serves = ready.serves;
    fit = fit_t;
    agrees = λ e. slice-IsPart file at ask reach;
    reaches = ready.reaches;
    packet_holds = ready.packet_holds;
    file_fits = ready.file_fits;
  }

  -- One request to the device: it gives a piece of the answer, and the cache keeps all of what came.
  miss_step :
      (m : Mtp D) (at need : ℕ)
      → IsReady m
      → 0 < need
      → IsU32 need
      → at < length file
      → (t : Session D) × (bytes piece : List ℕ) × IsReady
          (keep_cache tr handle at bytes (record m { session = t }))
        × IsPart file at piece
        × (0 < length piece)
        × (length piece ≤ need)
        × ((next : List ℕ → Action Error (Mtp D) (List ℕ)) (stop : Action Error (Mtp D) (List ℕ))
            → (read_from_device tr handle at
                    (min (max need read_ahead) (length file - at))
                    (length file)
                  >>= λ b. elim (length b == 0) [
                    | true ↦ stop
                    | false ↦ λ u. next (take (min need (length b)) b) (keep_cache tr handle at b u)
                  ])
                m
              ≡ next piece (keep_cache tr handle at bytes (record m { session = t })))
  miss_step m at need ready hn small lt =
      let ask = min (max need read_ahead) (length file - at) in
      let reach : at + ask ≤ length file = omega (arith, lt) in
      let positive : 0 < ask = omega (arith, lt, hn) in
      let (t, fit_t, read) =
        read_from_device-Gives tr file handle IsFit m at ask ready.serves ready.fit
          (Reaches-le m.partial_read ready.reaches reach) (omega (arith, small)) ready.packet_holds
          positive reach ready.file_fits in
      let bytes = slice file at ask in
      let size : length bytes ≡ ask = length-slice file at ask reach in
      let some_bytes : (length bytes == 0) ≡ false = ground (arith, size, positive) in
      let taken = min need (length bytes) in
      let piece_is : slice file at taken ≡ take taken bytes =
        sym (take-take taken ask (drop at file) (omega (arith, size))) in
      let inside = slice-IsPart file at taken (omega (arith, size, reach)) in
      let piece_size : length (take taken bytes) ≡ taken = omega (arith, length-take taken bytes) in
      (
        t,
        bytes,
        take taken bytes,
        read-IsReady m at ask t ready fit_t reach,
        subst (IsPart file at) piece_is inside,
        omega (arith, piece_size, size, positive, hn),
        omega (arith, piece_size),
        λ next stop.
            >>=-step (read_from_device tr handle at ask (length file)) _ m
              (record m { session = t }) bytes read
            ∙ rw some_bytes refl,
      )

  fill_answer-GivesAndKeeps :
      (rounds : ℕ) (m : Mtp D) (offset want : ℕ) (out : List ℕ)
      → IsReady m
      → IsU32 want
      → IsPart file offset out
      → length out ≤ want
      → offset + want ≤ length file
      → want ≤ length out + rounds
      → GivesAndKeeps m offset want (fill_answer tr rounds handle offset want (length file) out)
  unfolding fill_answer
  fill_answer-GivesAndKeeps zero m offset want out ready small p le fits enough =
      fill_answer_done zero m offset want out ready p (omega (arith, le, enough))
  fill_answer-GivesAndKeeps (suc rounds) m offset want out ready small p le fits enough =
      elim (Bool-cases (ltb (length out) want)) [
        | inr full ↦
            fill_answer_done (suc rounds) m offset want out ready p (ground (arith, full, le))
        | inl part ↦
            let lt : length out < want = ground (arith, part) in
            let at = offset + length out in
            let need = want - length out in
            elim (Option-cases (find_cached tr handle at need m.cache)) [
              | inr (bytes, hit) ↦
                  let (inside, some_bytes, short) =
                    hit-IsPart m at need bytes ready (omega (arith, lt)) hit in
                  let (t, c, kept, run) =
                    fill_answer-GivesAndKeeps rounds m offset want (out ++ bytes) ready small
                      (IsPart-append file offset out bytes p inside)
                      (omega (arith, length-append out bytes, short, lt)) fits
                      (omega (arith, length-append out bytes, some_bytes, enough)) in
                  (t, c, kept, rw (fill_answer, part, hit) run)
              | inl miss ↦
                  let reach : at < length file = omega (arith, lt, fits) in
                  let (t, bytes, piece, kept, inside, some_bytes, short, step) =
                    miss_step m at need ready (omega (arith, lt)) (omega (arith, small)) reach in
                  let (u, c, kept_on, run) =
                    fill_answer-GivesAndKeeps rounds
                      (keep_cache tr handle at bytes (record m { session = t })) offset want
                      (out ++ piece) kept small (IsPart-append file offset out piece p inside)
                      (omega (arith, length-append out piece, short, lt)) fits
                      (omega (arith, length-append out piece, some_bytes, enough)) in
                  (
                    u,
                    c,
                    kept_on,
                    rw (fill_answer, part, miss)
                        (step
                            (λ x. fill_answer tr rounds handle offset want (length file) (out ++ x))
                            (pure out)
                          ∙ run),
                  )
            ]
      ]

  -- A read gives exactly the bytes of the file that the kernel asked for, as many as there are: through whatever the cache holds of the object, with the workaround at the end of the file, and in as many requests as the device needs. The mount stays ready for the next read, and only its session and its cache change. The device answers partial reads inside the file as MTP says, save those that reach the end with a full last packet; where it has only the operation with 32 bits for the offset, the file is shorter than 4 GiB.
  pub read_at-GivesAndKeeps :
      (m : Mtp D) (offset want : ℕ)
      → IsReady m
      → IsU32 want
      → GivesAndKeeps m offset want (read_at tr handle offset want (length file))
  unfolding read_at
  read_at-GivesAndKeeps m offset want ready small = elim (Bool-cases (want == 0)) [
    | inl nothing ↦
        let e : want ≡ 0 = (==_iff want 0).0 nothing in
        (m.session, m.cache, ready, rw nothing (ap (λ n. (ok (slice file offset n), m)) (sym e)))
    | inr something ↦ elim (Bool-cases (leb (length file) offset)) [
      | inl behind ↦
          let empty : length (slice file offset want) ≡ 0 =
            ground (arith, behind, length-take want (drop offset file), length-drop offset file) in
          (
            m.session,
            m.cache,
            ready,
            rw (something, behind)
                (ap (λ (x : List ℕ). (ok x, m)) (sym (length_zero (slice file offset want) empty))),
          )
      | inr inside ↦
          let lt : offset < length file = ground (arith, inside) in
          let count = min want (length file - offset) in
          let same_part : slice file offset count ≡ slice file offset want =
            ap (λ n. take n (drop offset file)) (omega (arith, length-drop offset file))
            ∙ take-min want (drop offset file) in
          let (t, c, kept, run) =
            fill_answer-GivesAndKeeps count m offset count [] ready (omega (arith, small))
              (slice-IsPart file offset 0 (omega (arith, lt))) (omega arith) (omega (arith, lt))
              (omega arith) in
          (
            t,
            c,
            kept,
            rw (something, inside)
                (run ∙ λ i. (ok (same_part i), record m { session = t; cache = c })),
          )
    ]
  ]
