-- ===== src/Proto/Message.antt =====
-- crates/dnser-proto/src/message.rs
pub mod RoundTrip
pub mod Termination
pub mod Uniform
pub mod Total
pub mod Parts
use dnser.Base.{
  ℕ, zero, suc, ◌≡◌, refl, Bool, true, false, Option, none, some, List, [], ◌∷◌, Result, ok, err,
  ◌>>=◌, if◌then◌else◌,
}
use dnser.Base.Bytes.{Bytes}
use dnser.Proto.Errors.{ParseError, WriteError}
use dnser.Proto.Header
use dnser.Proto.Header.{Header}
use dnser.Proto.Question
use dnser.Proto.Question.{Question}
use dnser.Proto.Reader
use dnser.Proto.Reader.{Reader, Parsed}
use dnser.Proto.Record
use dnser.Proto.Record.{ResourceRecord, is_opt}
use dnser.Proto.Writer
use dnser.Proto.Writer.{Writer, Written}

-- `MAX_UDP_SIZE` of lib.rs
abbrev pub max_udp_size : ℕ
max_udp_size = 4096

pub record Message : Type 0 where
  pub header : Header
  pub questions : List Question
  pub answers : List ResourceRecord
  pub authority : List ResourceRecord
  pub additional : List ResourceRecord

abbrev pub default : Message
default = record {
  header = Header.default;
  questions = [];
  answers = [];
  authority = [];
  additional = [];
}

-- The loop `for _ in 0..count`; the capacity of the vector does not show.
unfoldable pub parse_section {ℓ} : {A : Type ℓ} → ℕ → (Reader → Parsed A) → Reader → Parsed (List A)
parse_section zero parse r = ok ([], r)
parse_section (suc count) parse r = do
  (x, r₁) ← parse r
  (xs, r₂) ← parse_section count parse r₁
  ok (x ∷ xs, r₂)

-- The body of `parse`, once the reader is made.
unfoldable pub parse_body : Reader → Parsed Message
parse_body r = do
  (header, r₁) ← Header.parse r
  (questions, r₂) ← parse_section header.qd_count Question.parse r₁
  (answers, r₃) ← parse_section header.an_count Record.parse r₂
  (authority, r₄) ← parse_section header.ns_count Record.parse r₃
  (additional, r₅) ← parse_section header.ar_count Record.parse r₄
  ok (
    record {
      header = header;
      questions = questions;
      answers = answers;
      authority = authority;
      additional = additional;
    },
    r₅,
  )

unfoldable pub parse : Bytes → Result ParseError Message
parse buf = do (m, _) ← parse_body (Reader.new buf); ok m

-- `for x in xs { x.write(&mut w)?; }`
unfoldable pub write_section {ℓ} : {A : Type ℓ} → (A → Writer → Written) → List A → Writer → Written
write_section write [] w = ok w
write_section write (x ∷ xs) w = write x w >>= write_section write xs

unfoldable pub build_writer : Message → Written
build_writer m = do
  let w = Header.write m.header Writer.new
  w₁ ← write_section Question.write m.questions w
  w₂ ← write_section Record.write m.answers w₁
  w₃ ← write_section Record.write m.authority w₂
  write_section Record.write m.additional w₃

-- `to_bytes` and `to_bytes_mut`: a `Bytes` and a `BytesMut` with the same contents.
unfoldable pub to_bytes : Message → Result WriteError Bytes
to_bytes m = do w ← build_writer m; ok w.buf

abbrev pub find_opt : List ResourceRecord → Option ResourceRecord
find_opt [] = none
find_opt (rr ∷ rrs) = if is_opt rr then some rr else find_opt rrs

unfoldable pub opt : Message → Option ResourceRecord
opt m = find_opt m.additional
