-- ===== src/Session/Setup.antt =====
-- How a session reads and writes (crates/mtp-session/src/lib.rs).
pub mod Normalised
use bsdroid.Base.{
  ltb, leb, ◌==◌, if◌then◌else◌, ltb→lt, lt→ltb, le→ltb, ==_iff, ==_refl, Bool-cases, Option-cases,
  same, same_iff,
}
use bsdroid.Base.{
  length, get_or, get_elem?, take, drop, find, All, length-append, length-take, length-drop,
  take-append-drop, take-length_append, drop-length_append, take_all, take-min, take-append-take,
  take-take, drop-drop, find-some, All-append, All-take, All-drop, get_or-All,
}
use bsdroid.Base.{Result, ok, err, then_ok, map_err, IsOk, Result-cases}
use bsdroid.Base.{
  IsByte, IsU16, IsU32, IsU64, usize_max, le_u16, le_u32, from_le_u16, from_le_u32, u16_at, u32_at,
  from_le-le_u16, from_le-le_u32, le-from_le_u16, le-from_le_u32, u32_at-IsU32,
}
use bsdroid.Base.{
  ℕ, zero, suc, ◌+◌, ◌-◌, ◌*◌, ◌/◌, ◌%◌, ◌^◌, ◌≤◌, ◌<◌, min, max, String, ◌≡◌, refl, sym, ap, ◌∙◌,
  subst, ◌≢◌, ◌↔◌, ◌⊎◌, inl, inr, Bool, true, false, not, ◌&&◌, ◌||◌, Option, none, some, List, [],
  ◌∷◌, ◌++◌, map, append_assoc, append-nil, arith,
}
use bsdroid.Ptp.Header.{header_len}

abbrev pub read_buffer_min : ℕ
read_buffer_min = 512

abbrev pub max_data_bytes : ℕ
max_data_bytes = 64 * 1024 * 1024 * 1024

abbrev pub max_read_rounds : ℕ
max_read_rounds = max_data_bytes / read_buffer_min

abbrev pub drain_first_millis : ℕ
drain_first_millis = 15

abbrev pub drain_rest_millis : ℕ
drain_rest_millis = 250

pub record Config : Type 0 where
  pub timeout : ℕ
  pub read_buffer : ℕ
  pub write_chunk : ℕ
  pub packet : ℕ

abbrev pub usb2_packet : ℕ
usb2_packet = 512

abbrev pub default_config : Config
default_config = record {
  timeout = 10_000;
  read_buffer = 64 * 1024;
  write_chunk = 512 * 1024;
  packet = usb2_packet;
}

-- `usize::next_multiple_of` of a multiple that is not 0.
unfoldable pub next_multiple_of : ℕ → ℕ → ℕ
next_multiple_of n m = if n % m == 0 then n else n + (m - n % m)

unfoldable pub normalised : Config → Config
unfolding next_multiple_of
normalised c =
    let packet = if c.packet == 0 then usb2_packet else c.packet in
    let least = next_multiple_of (header_len + 1) packet in
    let chunk = if ltb c.write_chunk least then least else c.write_chunk in
    record c {
      packet = packet;
      read_buffer = if ltb c.read_buffer read_buffer_min then read_buffer_min else c.read_buffer;
      write_chunk = chunk - chunk % packet;
    }

unfoldable pub needs_zero_packet : ℕ → ℕ → Bool
needs_zero_packet total packet = not (packet == 0) && (total % packet == 0)
