-- ===== src/Proto/Question.antt =====
-- crates/dnser-proto/src/question.rs
pub mod RoundTrip
use dnser.Base.{ℕ, ◌≡◌, refl, Result, ok, err, ◌>>=◌, map_err, if◌then◌else◌}
use dnser.Base.Bytes.{Bytes}
use dnser.Proto.Errors.{ParseError, unknown_record_type, unknown_class, WriteError}
use dnser.Proto.Codes.{RecordType, Class, record_type_try_from, record_type_code, is_known}
use dnser.Proto.Reader.{Reader, Parsed, read_name, read_u16}
use dnser.Proto.Writer.{Writer, Written, write_name, write_u16}

pub record Question : Type 0 where
  pub name : Bytes
  pub qtype : RecordType
  pub qclass : Class

unfoldable pub parse : Reader → Parsed Question
parse r = do
  (name, r₁) ← read_name r
  (type_code, r₂) ← read_u16 r₁
  qtype ← map_err unknown_record_type (record_type_try_from type_code)
  (qclass_raw, r₃) ← read_u16 r₂
  let qclass : Class = record { code = qclass_raw }
  if is_known qclass
      then ok (record { name = name; qtype = qtype; qclass = qclass }, r₃)
      else err (unknown_class qclass_raw)

unfoldable pub write : Question → Writer → Written
write q w = do
  w₁ ← write_name q.name w
  let w₂ = write_u16 (record_type_code q.qtype) w₁
  ok (write_u16 q.qclass.code w₂)
