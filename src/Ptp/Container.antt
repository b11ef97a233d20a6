-- ===== src/Ptp/Container.antt =====
-- Containers: the reader and the builders of crates/ptp-proto/src/lib.rs.
pub mod RoundTrip
pub mod Rebuild
use bsdroid.Base.{
  ltb, leb, ◌==◌, if◌then◌else◌, ltb→lt, lt→ltb, le→ltb, ==_iff, ==_refl, Bool-cases, Option-cases,
  same, same_iff,
}
use bsdroid.Base.{
  length, get_or, get_elem?, take, drop, find, All, length-append, length-take, length-drop,
  take-append-drop, take-length_append, drop-length_append, take_all, drop-drop, find-some,
  All-append, All-take, All-drop,
}
use bsdroid.Base.{Result, ok, err, then_ok, map_err, IsOk}
use bsdroid.Base.{
  IsByte, IsU16, IsU32, IsU64, usize_max, le_u16, le_u32, from_le_u16, from_le_u32, u16_at, u32_at,
  from_le-le_u16, from_le-le_u32, le-from_le_u16, le-from_le_u32,
}
use bsdroid.Base.{
  ℕ, zero, suc, ◌+◌, ◌-◌, ◌*◌, ◌/◌, ◌%◌, ◌^◌, ◌≤◌, ◌<◌, min, max, String, ◌≡◌, refl, sym, ap, ◌∙◌,
  ◌≢◌, ◌↔◌, ◌⊎◌, inl, inr, Bool, true, false, not, ◌&&◌, ◌||◌, Option, none, some, List, [], ◌∷◌,
  ◌++◌, map, append_assoc, append-nil, arith,
}
use bsdroid.Ptp.Error.{ParseError, length_mismatch, PayloadTooLarge}
use bsdroid.Ptp.Header
use bsdroid.Ptp.Header.{
  ContainerType, command, data_phase, header_len, container_length, push_header,
}

pub record Container : Type 0 where
  pub length : ℕ
  pub kind : ContainerType
  pub code : ℕ
  pub transaction_id : ℕ
  pub payload : List ℕ

-- `&buf[HEADER_LEN..declared]` is the first `declared` bytes without the header.
unfoldable pub parse : List ℕ → Result ParseError Container
unfolding Header.parse
parse buf = then_ok (Header.parse buf) λ h.
    if ltb h.length header_len || ltb (length buf) h.length
    then err (length_mismatch h.length (length buf))
    else ok (record {
      length = h.length;
      kind = h.kind;
      code = h.code;
      transaction_id = h.transaction_id;
      payload = drop header_len (take h.length buf);
    })

-- `chunks_exact(4)`, each chunk read as a `u32`: bytes after the last whole chunk are dropped.
unfoldable pub u32_chunks : List ℕ → List ℕ
u32_chunks (a ∷ b ∷ c ∷ d ∷ rest) = from_le_u32 a b c d ∷ u32_chunks rest
u32_chunks rest = []

unfoldable pub parameters : Container → List ℕ
unfolding u32_chunks
parameters c = u32_chunks c.payload

unfoldable pub build : ContainerType → ℕ → ℕ → List ℕ → Result PayloadTooLarge (List ℕ)
unfolding container_length push_header
build kind code transaction_id payload =
    then_ok (container_length (length payload))
      λ len. ok (push_header [] len kind code transaction_id ++ payload)

unfoldable pub build_data_header : ℕ → ℕ → ℕ → Result PayloadTooLarge (List ℕ)
unfolding container_length push_header
build_data_header code transaction_id len =
    then_ok (container_length len) λ total. ok (push_header [] total data_phase code transaction_id)

-- The parameter slots that PTP gives a command.
abbrev pub max_params : ℕ
max_params = 5

-- The loop that appends each parameter.
unfoldable pub push_u32s : List ℕ → List ℕ
push_u32s [] = []
push_u32s (p ∷ ps) = le_u32 p ++ push_u32s ps

unfoldable pub build_command : ℕ → ℕ → List ℕ → List ℕ
unfolding push_header push_u32s
build_command code transaction_id params =
    let n = min (length params) max_params in
    push_header [] ((header_len + n * 4) % 2 ^ 32) command code transaction_id
    ++ push_u32s (take n params)
