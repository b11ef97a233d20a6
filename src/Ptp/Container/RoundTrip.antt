-- ===== src/Ptp/Container/RoundTrip.antt =====
-- What the host builds, read back (crates/ptp-proto/src/lib.rs).
use bsdroid.Base.{
  length, take, drop, All, length-append, length-take, take-length_append, take-min, All-take,
}
use bsdroid.Base.{ok}
use bsdroid.Base.{IsU16, IsU32, from_le-le_u16, from_le-le_u32}
use bsdroid.Base.{
  ℕ, ◌+◌, ◌*◌, ◌%◌, ◌^◌, ◌≤◌, min, ◌≡◌, refl, ap, ◌∙◌, List, [], ◌∷◌, ◌++◌, append_assoc, arith,
}
use bsdroid.Ptp.Header
use bsdroid.Ptp.Header.{
  ContainerType, command, data_phase, response, event, from_wire, to_wire, header_len,
  max_payload_len, container_length, push_header,
}
use bsdroid.Ptp.Container.{
  Container, parse, u32_chunks, parameters, build, max_params, push_u32s, build_command,
}

-- The wire value of a kind reads back as the kind.
pub from_wire-to_wire : (k : ContainerType) → from_wire (to_wire k) ≡ ok k
unfolding from_wire to_wire
from_wire-to_wire command = refl
from_wire-to_wire data_phase = refl
from_wire-to_wire response = refl
from_wire-to_wire event = refl

to_wire-IsU16 : (k : ContainerType) → IsU16 (to_wire k)
unfolding to_wire
to_wire-IsU16 command = omega arith
to_wire-IsU16 data_phase = omega arith
to_wire-IsU16 response = omega arith
to_wire-IsU16 event = omega arith

-- A length that fits: the header and the payload, with no wrap.
pub container_length_fits :
    (len : ℕ) → len ≤ max_payload_len → container_length len ≡ ok (header_len + len)
unfolding container_length
container_length_fits len h = ground arith

pub parse_header :
    (len code tid : ℕ) (kind : ContainerType) (rest : List ℕ)
    → IsU32 len
    → IsU16 code
    → IsU32 tid
    → Header.parse (push_header [] len kind code tid ++ rest)
      ≡ ok (record { length = len; kind = kind; code = code; transaction_id = tid })
unfolding Header.parse push_header
parse_header len code tid kind rest hl hc ht = ground (
  arith,
  from_le-le_u32 len,
  from_le-le_u16 (to_wire kind) (to_wire-IsU16 kind),
  from_wire-to_wire kind,
  from_le-le_u16 code,
  from_le-le_u32 tid,
)

header_then_payload :
    (len code tid : ℕ) (kind : ContainerType) (payload rest : List ℕ)
    → len ≡ header_len + length payload
    → drop header_len (take len ((push_header [] len kind code tid ++ payload) ++ rest)) ≡ payload
unfolding push_header
header_then_payload len code tid kind payload rest e =
    let hdr = push_header [] len kind code tid ++ payload in
    let e' : len ≡ length hdr = omega arith in
    ap (λ n. drop header_len (take n (hdr ++ rest))) e'
    ∙ ap (drop header_len) (take-length_append hdr rest)

header_length :
    (len code tid : ℕ) (kind : ContainerType) (xs : List ℕ)
    → length (push_header [] len kind code tid ++ xs) ≡ header_len + length xs
unfolding push_header
header_length len code tid kind xs = omega arith

parse_built :
    (len code tid : ℕ) (kind : ContainerType) (payload rest : List ℕ)
    → len ≡ header_len + length payload
    → IsU32 len
    → IsU16 code
    → IsU32 tid
    → parse ((push_header [] len kind code tid ++ payload) ++ rest)
      ≡ ok (record {
        length = len;
        kind = kind;
        code = code;
        transaction_id = tid;
        payload = payload;
      })
unfolding parse
parse_built len code tid kind payload rest e hl hc ht =
    let hdr = push_header [] len kind code tid in
    ground (
      arith,
      append_assoc hdr payload rest,
      parse_header len code tid kind (payload ++ rest) hl hc ht,
      header_length len code tid kind (payload ++ rest),
      length-append payload rest,
      header_then_payload len code tid kind payload rest e,
    )

-- Every container that the host builds reads back whole, with whatever follows it left out.
pub parse-build :
    (kind : ContainerType) (code tid : ℕ) (payload rest bytes : List ℕ)
    → IsU16 code
    → IsU32 tid
    → build kind code tid payload ≡ ok bytes
    → parse (bytes ++ rest)
      ≡ ok (record {
        length = header_len + length payload;
        kind = kind;
        code = code;
        transaction_id = tid;
        payload = payload;
      })
unfolding build container_length
parse-build kind code tid payload rest bytes hc ht h =
    ground (arith, parse_built (header_len + length payload % 2 ^ 32) code tid kind payload rest)

-- A command
pub u32_chunks-push_u32s : (ps : List ℕ) → All IsU32 ps → u32_chunks (push_u32s ps) ≡ ps
unfolding u32_chunks push_u32s
u32_chunks-push_u32s [] h = refl
u32_chunks-push_u32s (p ∷ ps) h = rw (u32_chunks-push_u32s ps h.1, from_le-le_u32 p h.0)

pub length-push_u32s : (ps : List ℕ) → length (push_u32s ps) ≡ 4 * length ps
unfolding push_u32s
length-push_u32s [] = omega arith
length-push_u32s (p ∷ ps) = omega (arith, length-push_u32s ps)

-- A command reads back with the code, the transaction and the first five parameters, whatever the count of parameters and whatever follows.
pub parse-build_command :
    (code tid : ℕ) (params rest : List ℕ)
    → IsU16 code
    → IsU32 tid
    → All IsU32 params
    → (c : Container) × (parse (build_command code tid params ++ rest) ≡ ok c)
      × (c.kind ≡ command)
      × (c.code ≡ code)
      × (c.transaction_id ≡ tid)
      × (parameters c ≡ take max_params params)
unfolding build_command parameters
parse-build_command code tid params rest hc ht hp =
    let n = min (length params) max_params in
    let payload = push_u32s (take n params) in
    let hl : length payload ≡ 4 * n =
      omega (arith, length-push_u32s (take n params), length-take n params) in
    (
      record {
        length = (header_len + n * 4) % 2 ^ 32;
        kind = command;
        code = code;
        transaction_id = tid;
        payload = payload;
      },
      parse_built _ code tid command payload rest (omega arith) (omega arith) hc ht,
      refl,
      refl,
      refl,
      u32_chunks-push_u32s (take n params) (All-take IsU32 n params hp)
          ∙ take-min max_params params,
    )
