-- ===== src/Ptp/Error.antt =====
-- The faults of crates/ptp-proto/src/lib.rs. A field's name is a text, as in the source.
use bsdroid.Base.{ℕ, String}

pub data ParseError : Type 0 where
  short_header : (got : ℕ) → ParseError
  length_mismatch : (declared available : ℕ) → ParseError
  unknown_container_type : ℕ → ParseError
  truncated : (field : String) (need got : ℕ) → ParseError
  bad_string : (field : String) → ParseError
  unsupported : (field : String) (value : ℕ) → ParseError

-- A payload that does not fit the length field of a container.
pub data PayloadTooLarge : Type 0 where
  too_large : (len : ℕ) → PayloadTooLarge
