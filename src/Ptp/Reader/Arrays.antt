-- ===== src/Ptp/Reader/Arrays.antt =====
-- The arrays of crates/ptp-proto/src/lib.rs, read back and cut short.
use bsdroid.Base.{ltb}
use bsdroid.Base.{length, drop, All, length-append, length-drop}
use bsdroid.Base.{ok, err}
use bsdroid.Base.{IsByte, IsU32, usize_max, le_u32, u32_at}
use bsdroid.Base.{
  ℕ, ◌+◌, ◌-◌, ◌*◌, ◌≤◌, ◌<◌, String, ◌≡◌, sym, ap, ◌∙◌, false, List, [], ◌∷◌, ◌++◌, arith,
}
use bsdroid.Base.{u32_at-IsU32}
use bsdroid.Ptp.Error.{truncated}
use bsdroid.Ptp.Container.{push_u32s}
use bsdroid.Ptp.Container.RoundTrip.{length-push_u32s}
use bsdroid.Ptp.Reader.{
  Reader, remaining, take_bytes, read_u32, read_times, read_array, read_u32_array, new,
  parse_u32_array,
}
use bsdroid.Ptp.Reader.Reads.{Reads, Reads-pure, Reads-bind, Reads-end, run-Reads, read_u32-Reads}

read_times-Reads :
    (xs : List ℕ) (field : String)
    → All IsU32 xs
    → Reads (read_times (length xs) (read_u32 field)) xs (push_u32s xs)
unfolding read_times push_u32s
read_times-Reads [] field h = Reads-pure []
read_times-Reads (x ∷ xs) field h =
    Reads-bind _ _ (le_u32 x) (push_u32s xs) (read_u32-Reads x field h.0)
      (Reads-end _ _ (push_u32s xs) (read_times-Reads xs field h.1) (Reads-pure (x ∷ xs)))

module _ (xs : List ℕ) (field : String) (n : IsU32 (length xs)) (h : All IsU32 xs) where
  counted :
      (r : Reader) (ys : List ℕ)
      → drop r.pos r.buf ≡ push_u32s xs ++ ys
      → (ltb usize_max (length xs * 4) ≡ false)
        × (ltb (length r.buf - r.pos) (length xs * 4) ≡ false)
  counted r ys e =
      let size = sym (length-drop r.pos r.buf) ∙ ap length e ∙ length-append (push_u32s xs) ys in
      ground (arith, size, length-push_u32s xs)

  -- An array reads back whole behind its count.
  pub read_u32_array-Reads : Reads (read_u32_array field) xs (le_u32 (length xs) ++ push_u32s xs)
  unfolding read_u32_array read_array remaining
  read_u32_array-Reads =
      Reads-bind _ _ (le_u32 (length xs)) (push_u32s xs) (read_u32-Reads _ field n) (record {
        at = λ r ys e.
            let c = counted r ys e in rw (c.0, c.1) ((read_times-Reads xs field h).at r ys e);
      })

-- A reader of an array finds the elements that were written behind their count, whatever follows them.
parse_u32_array_read :
    (xs rest : List ℕ)
    → IsU32 (length xs)
    → All IsU32 xs
    → parse_u32_array ((le_u32 (length xs) ++ push_u32s xs) ++ rest) ≡ ok xs
unfolding parse_u32_array
parse_u32_array_read xs rest n h = run-Reads _ _ rest (read_u32_array-Reads xs "array" n h)

parse_u32_array_short :
    (payload : List ℕ)
    → length payload < 4
    → parse_u32_array payload ≡ err (truncated "array" 4 (length payload))
unfolding parse_u32_array read_u32_array read_array read_u32 take_bytes remaining
parse_u32_array_short payload h = ground arith

-- The count of an array, as the first read gives it.
first_u32 :
    (payload : List ℕ) (field : String)
    → 4 ≤ length payload
    → read_u32 field (new payload) ≡ (ok (u32_at payload 0), record { buf = payload; pos = 4 })
unfolding read_u32 take_bytes remaining
first_u32 [] field h = absurd (omega arith)
first_u32 (a ∷ []) field h = absurd (omega arith)
first_u32 (a ∷ b ∷ []) field h = absurd (omega arith)
first_u32 (a ∷ b ∷ c ∷ []) field h = absurd (omega arith)
first_u32 (a ∷ b ∷ c ∷ d ∷ rest) field h = ground arith

parse_u32_array_cut :
    (payload : List ℕ)
    → All IsByte payload
    → 4 ≤ length payload
    → length payload < 4 + u32_at payload 0 * 4
    → parse_u32_array payload ≡ err (truncated "array" (u32_at payload 0 * 4) (length payload - 4))
unfolding parse_u32_array read_u32_array read_array remaining
parse_u32_array_cut payload hb h4 h =
    ground (arith, first_u32 payload "array" h4, u32_at-IsU32 payload 0 hb)

-- An array reads back whole, and cut short at any place it is an error: inside the count, the answer is too short for it; behind the count, the error names the bytes that the count asks for and the bytes that are there.
pub parse_u32_array_lem :
    (xs rest head cut : List ℕ)
    → IsU32 (length xs)
    → All IsU32 xs
    → length head < 4
    → All IsByte cut
    → 4 ≤ length cut
    → length cut < 4 + u32_at cut 0 * 4
    → (parse_u32_array ((le_u32 (length xs) ++ push_u32s xs) ++ rest) ≡ ok xs)
      × (parse_u32_array head ≡ err (truncated "array" 4 (length head)))
      × (parse_u32_array cut ≡ err (truncated "array" (u32_at cut 0 * 4) (length cut - 4)))
parse_u32_array_lem xs rest head cut n h short hb le lt = (
  parse_u32_array_read xs rest n h,
  parse_u32_array_short head short,
  parse_u32_array_cut cut hb le lt,
)
