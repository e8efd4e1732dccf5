-- ===== src/Proto/Errors.antt =====
-- crates/dnser-proto/src/error.rs, and the `Utf8Error` of Rust's standard library.
use dnser.Base.{ℕ, Option}

-- `valid_up_to()` and `error_len()`
pub record Utf8Error : Type 0 where
  pub valid_up_to : ℕ
  pub error_len : Option ℕ

pub data ParseError : Type 0 where
  unexpected_eof invalid_pointer pointer_loop : ParseError
  label_too_long name_too_long rdata_length_mismatch : ParseError
  unknown_record_type unknown_class : ℕ → ParseError
  invalid_utf8 : Utf8Error → ParseError
  reserved_bit_set : ParseError

pub data WriteError : Type 0 where
  label_too_long empty_label txt_chunk_too_long : WriteError
