-- ===== src/Ptp/Container/Rebuild.antt =====
-- What the host read, built again (crates/ptp-proto/src/lib.rs).
use bsdroid.Base.{
  length, take, drop, All, length-take, length-drop, take-append-drop, take-append-take, take-take,
  drop-drop,
}
use bsdroid.Base.{ok}
use bsdroid.Base.{IsByte, le_u16, le_u32, u16_at, u32_at, le-from_le_u16, le-from_le_u32}
use bsdroid.Base.{ℕ, zero, suc, ◌+◌, ◌-◌, ◌≤◌, ◌≡◌, sym, ap, ◌∙◌, List, [], ◌∷◌, ◌++◌, arith}
use bsdroid.Base.{u32_at-IsU32}
use bsdroid.Ptp.Header
use bsdroid.Ptp.Header.{
  ContainerType, command, data_phase, response, event, from_wire, to_wire, header_len,
  max_payload_len, container_length, push_header,
}
use bsdroid.Ptp.Container.{Container, parse, build}
use bsdroid.Ptp.Container.RoundTrip.{container_length_fits}

le-u32_at :
    (buf : List ℕ) (i : ℕ)
    → i + 4 ≤ length buf
    → All IsByte buf
    → le_u32 (u32_at buf i) ≡ take 4 (drop i buf)
le-u32_at [] i h hb = absurd (omega arith)
le-u32_at (a ∷ buf) (suc i) h hb = le-u32_at buf i (omega arith) hb.1
le-u32_at (a ∷ []) zero h hb = absurd (omega arith)
le-u32_at (a ∷ b ∷ []) zero h hb = absurd (omega arith)
le-u32_at (a ∷ b ∷ c ∷ []) zero h hb = absurd (omega arith)
le-u32_at (a ∷ b ∷ c ∷ d ∷ rest) zero h (ha, (hb, (hc, (hd, _)))) =
    le-from_le_u32 a b c d ha hb hc hd

le-u16_at :
    (buf : List ℕ) (i : ℕ)
    → i + 2 ≤ length buf
    → All IsByte buf
    → le_u16 (u16_at buf i) ≡ take 2 (drop i buf)
le-u16_at [] i h hb = absurd (omega arith)
le-u16_at (a ∷ buf) (suc i) h hb = le-u16_at buf i (omega arith) hb.1
le-u16_at (a ∷ []) zero h hb = absurd (omega arith)
le-u16_at (a ∷ b ∷ rest) zero h (ha, (hb, _)) = le-from_le_u16 a b ha hb

from_wire_ok : (v : ℕ) (k : ContainerType) → from_wire v ≡ ok k → to_wire k ≡ v
unfolding from_wire to_wire
from_wire_ok v k h = ground arith

-- What a header that was read holds.
parse_fields :
    (buf : List ℕ) (h : Header.Header)
    → Header.parse buf ≡ ok h
    → (header_len ≤ length buf)
      × (u32_at buf 0 ≡ h.length)
      × (from_wire (u16_at buf 4) ≡ ok h.kind)
      × (u16_at buf 6 ≡ h.code)
      × (u32_at buf 8 ≡ h.transaction_id)
unfolding Header.parse
parse_fields buf h e = ground arith

-- The four fields, each at its offset, are the first 12 bytes.
header_parts :
    (buf : List ℕ)
    → take 4 (drop 0 buf) ++ (take 2 (drop 4 buf) ++ (take 2 (drop 6 buf) ++ take 4 (drop 8 buf)))
      ≡ take header_len buf
header_parts buf =
    ap (λ r. take 4 buf ++ r)
      (ap (λ r. take 2 (drop 4 buf) ++ r)
          (ap (λ r. take 2 (drop 6 buf) ++ take 4 r) (sym (drop-drop 6 2 buf))
            ∙ take-append-take 2 4 (drop 6 buf)
            ∙ ap (take 6) (sym (drop-drop 4 2 buf)))
        ∙ take-append-take 2 6 (drop 4 buf))
    ∙ take-append-take 4 8 buf

join_parts :
    {a a' b b' c c' d d' : List ℕ}
    → a ≡ a'
    → b ≡ b'
    → c ≡ c'
    → d ≡ d'
    → a ++ (b ++ (c ++ d)) ≡ a' ++ (b' ++ (c' ++ d'))
join_parts p q r s = cc

-- The header of a container that was read is the first 12 bytes of the buffer.
header_bytes :
    (buf : List ℕ) (h : Header.Header)
    → All IsByte buf
    → Header.parse buf ≡ ok h
    → push_header [] h.length h.kind h.code h.transaction_id ≡ take header_len buf
unfolding push_header
header_bytes buf h hb e =
    let (room, el, ek, ec, et) = parse_fields buf h e in
    join_parts (ap le_u32 (sym el) ∙ le-u32_at buf 0 (omega arith) hb)
      (ap le_u16 (from_wire_ok _ h.kind ek) ∙ le-u16_at buf 4 (omega arith) hb)
      (ap le_u16 (sym ec) ∙ le-u16_at buf 6 (omega arith) hb)
      (ap le_u32 (sym et) ∙ le-u32_at buf 8 (omega arith) hb)
    ∙ header_parts buf

-- What a container that was read holds: its length covers the header and lies in the buffer.
parse_bounds :
    (buf : List ℕ) (c : Container)
    → parse buf ≡ ok c
    → (Header.parse buf
        ≡ ok (record {
          length = c.length;
          kind = c.kind;
          code = c.code;
          transaction_id = c.transaction_id;
        }))
      × (header_len ≤ c.length)
      × (c.length ≤ length buf)
      × (c.payload ≡ drop header_len (take c.length buf))
unfolding parse
parse_bounds buf c e = ground arith

-- A container that was read, built again from its fields, is the part of the buffer that its length declares. So the reader drops nothing and makes up nothing, and it reads no byte past the declared length.
pub build-parse :
    (buf : List ℕ) (c : Container)
    → All IsByte buf
    → parse buf ≡ ok c
    → (header_len ≤ c.length)
      × (c.length ≤ length buf)
      × (build c.kind c.code c.transaction_id c.payload ≡ ok (take c.length buf))
unfolding build
build-parse buf c hb e =
    let (eh, lo, hi, ep) = parse_bounds buf c e in
    let size : length c.payload ≡ c.length - header_len =
      ap length ep
      ∙ omega (arith, length-drop header_len (take c.length buf), length-take c.length buf) in
    let fits : container_length (length c.payload) ≡ ok c.length =
      container_length_fits _ (omega (arith, u32_at-IsU32 buf 0 hb, (parse_fields buf _ eh).1))
      ∙ ap ok (omega arith) in
    let head = header_bytes buf _ hb eh ∙ sym (take-take header_len c.length buf lo) in
    let pieces = take-append-drop header_len (take c.length buf) in
    (lo, hi, rw fits (ap ok (cc (head, ep, pieces))))
