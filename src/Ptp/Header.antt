-- ===== src/Ptp/Header.antt =====
-- The container type and the 12 byte header (crates/ptp-proto/src/lib.rs).
use bsdroid.Base.{ltb, ◌==◌, if◌then◌else◌}
use bsdroid.Base.{length}
use bsdroid.Base.{Result, ok, err, then_ok}
use bsdroid.Base.{le_u16, le_u32, u16_at, u32_at}
use bsdroid.Base.{ℕ, ◌+◌, ◌-◌, ◌%◌, ◌^◌, List, ◌++◌}
use bsdroid.Ptp.Error.{ParseError, short_header, unknown_container_type, PayloadTooLarge, too_large}

-- The size of a container header, in bytes.
abbrev pub header_len : ℕ
header_len = 12

pub data ContainerType : Type 0 where
  command data_phase response event : ContainerType

unfoldable pub from_wire : ℕ → Result ParseError ContainerType
from_wire v =
    if v == 1
    then ok command
    else if v == 2
    then ok data_phase
    else if v == 3
    then ok response
    else if v == 4
    then ok event
    else err (unknown_container_type v)

unfoldable pub to_wire : ContainerType → ℕ
to_wire command = 1
to_wire data_phase = 2
to_wire response = 3
to_wire event = 4

pub record Header : Type 0 where
  pub length : ℕ
  pub kind : ContainerType
  pub code : ℕ
  pub transaction_id : ℕ

-- `Header::parse`. The reads are at fixed offsets below 12, behind the test of the length.
unfoldable pub parse : List ℕ → Result ParseError Header
unfolding from_wire
parse buf =
    if ltb (length buf) header_len
    then err (short_header (length buf))
    else then_ok (from_wire (u16_at buf 4)) λ kind. ok (record {
      length = u32_at buf 0;
      kind = kind;
      code = u16_at buf 6;
      transaction_id = u32_at buf 8;
    })

-- `Header::payload_len`, a subtraction that stops at 0.
unfoldable pub payload_len : Header → ℕ
payload_len h = h.length - header_len

-- The largest payload that one container carries: `u32::MAX` less the header.
abbrev pub max_payload_len : ℕ
max_payload_len = 0xffff_ffff - header_len

-- The sum is below 2 ^ 32 behind the test, so the `u32` addition does not overflow.
unfoldable pub container_length : ℕ → Result PayloadTooLarge ℕ
container_length len =
    if ltb max_payload_len len then err (too_large len) else ok (header_len + len % 2 ^ 32)

unfoldable pub push_header : List ℕ → ℕ → ContainerType → ℕ → ℕ → List ℕ
unfolding to_wire
push_header out len kind code transaction_id =
    out ++ (le_u32 len ++ (le_u16 (to_wire kind) ++ (le_u16 code ++ le_u32 transaction_id)))
