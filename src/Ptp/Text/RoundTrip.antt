-- ===== src/Ptp/Text/RoundTrip.antt =====
-- A text that the host writes with `push_string` and reads with `read_string`.
use bsdroid.Base.{leb, ◌==◌, Bool-cases}
use bsdroid.Base.{length, All, length-take, All-append}
use bsdroid.Base.{ok}
use bsdroid.Base.{IsU16, le_u16, from_le-le_u16}
use bsdroid.Base.{
  ℕ, ◌+◌, ◌-◌, ◌*◌, ◌%◌, ◌≤◌, max, String, ◌≡◌, refl, ap, ◌∙◌, ◌≢◌, inl, inr, false, some, List, [],
  ◌∷◌, ◌++◌, arith,
}
use bsdroid.Ptp.Utf16.{IsChar, char_units, encode_utf16, from_utf16, from_utf16-encode_utf16}
use bsdroid.Ptp.Reader.{run, u16_chunks, drop_terminator, or_bad_string, read_string}
use bsdroid.Ptp.Reader.Reads.{
  run-Reads, Reads, Reads-pure, Reads-bind, Reads-end, take_bytes-Reads, read_u8-Reads,
}
use bsdroid.Ptp.Text.{push_u16s, cut_length, max_units, push_string}
use bsdroid.Ptp.Text.Cut.{
  unfit, NoRoom, fit-append-unfit, fit_longest, fit, unfit, fit-append-unfit, length-fit, NoRoom,
  fit_longest, cut-fit, cut_length-le,
}

char_units-IsU16 : (c : ℕ) → IsChar c → All IsU16 (char_units c)
unfolding char_units
char_units-IsU16 c h = ground arith

encode_utf16-IsU16 : (s : List ℕ) → All IsChar s → All IsU16 (encode_utf16 s)
unfolding encode_utf16
encode_utf16-IsU16 [] h = tt
encode_utf16-IsU16 (c ∷ s) h =
    All-append IsU16 (char_units c) (encode_utf16 s) (char_units-IsU16 c h.0)
      (encode_utf16-IsU16 s h.1)

fit-IsChar : (max : ℕ) (s : List ℕ) → All IsChar s → All IsChar (fit max s)
unfolding fit
fit-IsChar max [] h = tt
fit-IsChar max (c ∷ s) h = elim (Bool-cases (leb (length (char_units c)) max)) [
  | inl e ↦ rw e (h.0, fit-IsChar (max - length (char_units c)) s h.1)
  | inr e ↦ rw e tt
]

u16_chunks-push_u16s :
    (us : List ℕ) → All IsU16 us → u16_chunks (push_u16s us ++ le_u16 0) ≡ us ++ 0 ∷ []
unfolding u16_chunks push_u16s
u16_chunks-push_u16s [] h = refl
u16_chunks-push_u16s (u ∷ us) h = rw (u16_chunks-push_u16s us h.1, from_le-le_u16 u h.0)

drop_terminator_lem : (us : List ℕ) → drop_terminator (us ++ 0 ∷ []) ≡ us
unfolding drop_terminator
drop_terminator_lem [] = refl
drop_terminator_lem (u ∷ []) = refl
drop_terminator_lem (u ∷ v ∷ us) = ap (λ r. u ∷ r) (drop_terminator_lem (v ∷ us))

length-push_u16s : (us : List ℕ) → length (push_u16s us ++ le_u16 0) ≡ (length us + 1) * 2
unfolding push_u16s
length-push_u16s [] = omega arith
length-push_u16s (u ∷ us) = omega (arith, length-push_u16s us)

-- The count, the units and the terminator, as `push_string` writes them.
abbrev text_bytes : List ℕ → List ℕ
text_bytes us = (length us + 1) % 256 ∷ (push_u16s us ++ le_u16 0)

text_bytes-Reads :
    (us s : List ℕ) (field : String)
    → All IsU16 us
    → length us ≤ max_units
    → from_utf16 us ≡ some s
    → Reads (read_string field) s (text_bytes us)
unfolding read_string
text_bytes-Reads us s field hu hl hd =
    let bytes = push_u16s us ++ le_u16 0 in
    let size : (length us + 1) % 256 * 2 ≡ length bytes = omega (arith, length-push_u16s us) in
    let counted : ((length us + 1) % 256 == 0) ≡ false = ground arith in
    let text =
      ap (λ v. from_utf16 (drop_terminator v)) (u16_chunks-push_u16s us hu)
      ∙ ap from_utf16 (drop_terminator_lem us)
      ∙ hd in
    Reads-bind _ _ (((length us + 1) % 256) ∷ []) bytes (read_u8-Reads _ field) (
      rw (counted, size)
        (Reads-end _ _ bytes (take_bytes-Reads bytes field)
          (rw text (unfold or_bad_string in Reads-pure s))))

-- What `push_string` writes for a text: the longest part of it that fits in 254 units.
push_string_bytes :
    (s : List ℕ)
    → All IsChar s
    → s ≢ []
    → push_string [] s ≡ text_bytes (encode_utf16 (fit max_units s))
unfolding push_string
push_string_bytes [] h n = absurd (n refl)
push_string_bytes (c ∷ s) h n =
    let units = encode_utf16 (c ∷ s) in
    let e = cut-fit max_units (c ∷ s) h in
    let n' : cut_length max_units units ≡ length (encode_utf16 (fit max_units (c ∷ s))) = omega (
      arith,
      ap length e,
      length-take (cut_length max_units units) units,
      cut_length-le max_units units,
    ) in
    cc (n', e)

-- What `push_string` wrote is read as the part of the text that fits.
pub push_string-Reads :
    (s : List ℕ) (field : String)
    → All IsChar s
    → Reads (read_string field) (fit max_units s) (push_string [] s)
push_string-Reads [] field h =
    unfold push_string read_string fit in
    Reads-end _ _ (0 ∷ []) (read_u8-Reads 0 field) (Reads-pure [])
push_string-Reads (c ∷ s) field h =
    let part = fit max_units (c ∷ s) in
    let part_ok = fit-IsChar max_units (c ∷ s) h in
    rw (push_string_bytes (c ∷ s) h (λ e. cc)) (
      text_bytes-Reads (encode_utf16 part) part field (encode_utf16-IsU16 part part_ok)
        (length-fit max_units (c ∷ s)) (from_utf16-encode_utf16 part part_ok))

-- `read_string` reads back what `push_string` wrote, whatever follows it: the start of the text, of at most 254 UTF-16 units, up to a whole character that does not fit any more, and so the whole text where it fits.
pub read_string-push_string :
    (s rest : List ℕ) (field : String)
    → All IsChar s
    → (read : List ℕ) × (lost : List ℕ) × (run (read_string field) (push_string [] s ++ rest)
        ≡ ok read)
      × (read ++ lost ≡ s)
      × (length (encode_utf16 read) ≤ max_units)
      × NoRoom max_units read lost
read_string-push_string s rest field h = (
  fit max_units s,
  unfit max_units s,
  run-Reads (read_string field) (push_string [] s) rest (push_string-Reads s field h),
  fit-append-unfit max_units s,
  length-fit max_units s,
  fit_longest max_units s,
)
