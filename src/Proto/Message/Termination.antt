-- ===== src/Proto/Message/Termination.antt =====
-- Parsing a message ends on every input.
use dnser.Base.{
  ℕ, zero, suc, ◌≢◌, stuck, ◌==◌, inl, inr, >>=-ne-stuck, arith, ok-ne-stuck, bit_and, map_err,
  Bool-cases,
}
use dnser.Base.Bytes.{Bytes}
use dnser.Proto.Codes.{record_type_try_from, record_type_try_from-ne-stuck}
use dnser.Proto.Errors.{unknown_record_type}
use dnser.Proto.Header
use dnser.Proto.Message
use dnser.Proto.Message.{parse_body, parse_section}
use dnser.Proto.Question
use dnser.Proto.Rdata
use dnser.Proto.Rdata.Termination
use dnser.Proto.Reader
use dnser.Proto.Reader.{Reader, Parsed, read_name, read_u16, read_u32}
use dnser.Proto.Reader.Termination.{read_name-ne-stuck, read_u16-ne-stuck, read_u32-ne-stuck}
use dnser.Proto.Record

header-ne-stuck : (r : Reader) → Header.parse r ≢ stuck
unfolding Header.parse
header-ne-stuck r = >>=-ne-stuck (read_u16 r) _ (read_u16-ne-stuck r) λ p₁ _.
    >>=-ne-stuck (read_u16 p₁.1) _ (read_u16-ne-stuck p₁.1) λ p₂ _.
      elim (Bool-cases (bit_and p₂.0 Header.z == 0)) [
        | inr reserved ↦ rw reserved (λ e. ground arith)
        | inl clear ↦ rw clear (
            >>=-ne-stuck (read_u16 p₂.1) _ (read_u16-ne-stuck p₂.1) λ p₃ _.
              >>=-ne-stuck (read_u16 p₃.1) _ (read_u16-ne-stuck p₃.1) λ p₄ _.
                >>=-ne-stuck (read_u16 p₄.1) _ (read_u16-ne-stuck p₄.1) λ p₅ _.
                  >>=-ne-stuck (read_u16 p₅.1) _ (read_u16-ne-stuck p₅.1) λ p₆ _. ok-ne-stuck _)
      ]

map_err-ne-stuck : (t : ℕ) → map_err unknown_record_type (record_type_try_from t) ≢ stuck
map_err-ne-stuck t = ground (arith, record_type_try_from-ne-stuck t)

question-ne-stuck : (r : Reader) → Question.parse r ≢ stuck
unfolding Question.parse
question-ne-stuck r = >>=-ne-stuck (read_name r) _ (read_name-ne-stuck r) λ p₁ _.
    >>=-ne-stuck (read_u16 p₁.1) _ (read_u16-ne-stuck p₁.1) λ p₂ _.
      >>=-ne-stuck (map_err unknown_record_type (record_type_try_from p₂.0)) _
        (map_err-ne-stuck p₂.0)
        λ t _. >>=-ne-stuck (read_u16 p₂.1) _ (read_u16-ne-stuck p₂.1) λ p₃ _. ground arith

record-ne-stuck : (r : Reader) → Record.parse r ≢ stuck
unfolding Record.parse
record-ne-stuck r = >>=-ne-stuck (read_name r) _ (read_name-ne-stuck r) λ p₁ _.
    >>=-ne-stuck (read_u16 p₁.1) _ (read_u16-ne-stuck p₁.1) λ p₂ _.
      >>=-ne-stuck (read_u16 p₂.1) _ (read_u16-ne-stuck p₂.1) λ p₃ _.
        >>=-ne-stuck (read_u32 p₃.1) _ (read_u32-ne-stuck p₃.1) λ p₄ _.
          >>=-ne-stuck (read_u16 p₄.1) _ (read_u16-ne-stuck p₄.1) λ p₅ _.
            >>=-ne-stuck (Rdata.parse p₅.1 p₂.0 p₅.0) _
              (Rdata.Termination.parse-ne-stuck p₅.1 p₂.0 p₅.0) λ p₆ _. ok-ne-stuck _

section-ne-stuck :
    {A : Type 0} (count : ℕ) (parse : Reader → Parsed A)
    → ((r : Reader) → parse r ≢ stuck)
    → (r : Reader) → parse_section count parse r ≢ stuck
unfolding parse_section
section-ne-stuck zero parse h r = ok-ne-stuck _
section-ne-stuck (suc count) parse h r = >>=-ne-stuck (parse r) _ (h r) λ p _.
    >>=-ne-stuck (parse_section count parse p.1) _ (section-ne-stuck count parse h p.1)
      λ q _. ok-ne-stuck _

body-ne-stuck : (r : Reader) → parse_body r ≢ stuck
unfolding parse_body
body-ne-stuck r = >>=-ne-stuck (Header.parse r) _ (header-ne-stuck r) λ h _.
    >>=-ne-stuck (parse_section h.0.qd_count Question.parse h.1) _
      (section-ne-stuck h.0.qd_count Question.parse question-ne-stuck h.1)
      λ q _.
        >>=-ne-stuck (parse_section h.0.an_count Record.parse q.1) _
          (section-ne-stuck h.0.an_count Record.parse record-ne-stuck q.1)
          λ a _.
            >>=-ne-stuck (parse_section h.0.ns_count Record.parse a.1) _
              (section-ne-stuck h.0.ns_count Record.parse record-ne-stuck a.1)
              λ n _.
                >>=-ne-stuck (parse_section h.0.ar_count Record.parse n.1) _
                  (section-ne-stuck h.0.ar_count Record.parse record-ne-stuck n.1)
                  λ x _. ok-ne-stuck _

-- Whatever the bytes, parsing ends with a message or an error: no compression loop, count or length
-- keeps it running.
pub message-ne-stuck : (buf : Bytes) → Message.parse buf ≢ stuck
unfolding Message.parse
message-ne-stuck buf =
    >>=-ne-stuck (parse_body (Reader.new buf)) _ (body-ne-stuck (Reader.new buf))
      λ p _. ok-ne-stuck _
