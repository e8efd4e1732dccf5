-- ===== src/Proto/Question/RoundTrip.antt =====
-- A question that is written is read back.
use dnser.Base.{ℕ, ◌≡◌, true, ok, ◌>>=◌, arith, map_err, if◌then◌else◌, err}
use dnser.Base.Bytes.{Bytes, IsU16}
use dnser.Proto.Codec.{RoundTrip, Codes-bind, Codes-parse, Codes-return}
use dnser.Proto.Codec.Names.{IsNameText, text_round_trip}
use dnser.Proto.Codec.Words.{u16_round_trip}
use dnser.Proto.Codes.{
  RecordType, Class, is_known, record_type_code, record_type_try_from, record_type_try_from-code,
  record_type_code-lt,
}
use dnser.Proto.Errors.{unknown_class, unknown_record_type}
use dnser.Proto.Question
use dnser.Proto.Question.{Question}
use dnser.Proto.Reader.{Reader, Parsed, read_name, read_u16}
use dnser.Proto.Writer.{Writer, write_name, write_u16}
use dnser.Proto.Writer.Offsets.{IsRight}

pub record IsValid (q : Question) : Type 0 where
  pub name_valid : IsNameText q.name
  pub class_known : is_known q.qclass ≡ true

is_known-IsU16 : (c : Class) → is_known c ≡ true → IsU16 c.code
unfolding is_known
is_known-IsU16 c h = ground arith

after_class : Bytes → RecordType → ℕ × Reader → Parsed Question
after_class name qtype (raw, r) =
    let qclass : Class = record { code = raw } in
    if is_known qclass
    then ok (record { name = name; qtype = qtype; qclass = qclass }, r)
    else err (unknown_class raw)

after_type : Bytes → ℕ × Reader → Parsed Question
after_type name (type_code, r) =
    map_err unknown_record_type (record_type_try_from type_code) >>= λ qtype.
    read_u16 r >>= after_class name qtype

-- From a writer whose remembered names lie at their offsets, a question with a valid name and a
-- known class is written in 259 bytes at most, and `parse` reads it back from where it was written,
-- whatever is written later; it stops where the writer stopped, and the remembered names still lie
-- at their offsets.
pub question-RoundTrip :
    (q : Question)
    → IsValid q
    → (w : Writer) → IsRight w
    → RoundTrip Question (Question.write q) Question.parse q 259 w
unfolding Question.write Question.parse after_type after_class
question-RoundTrip q h =
    Codes-bind (write_name q.name) _ read_name (λ (name, r). read_u16 r >>= after_type name) q.name
      q 255 4 (text_round_trip q.name h.name_valid)
      (Codes-bind _ (λ w. ok (write_u16 q.qclass.code w)) read_u16 (after_type q.name)
        (record_type_code q.qtype) q 2 2
        (u16_round_trip (record_type_code q.qtype) (record_type_code-lt q.qtype))
        (Codes-parse (λ r. read_u16 r >>= after_class q.name q.qtype) _
          (λ r. rw (record_type_try_from-code q.qtype))
          (Codes-bind _ (λ w. ok w) read_u16 (after_class q.name q.qtype) q.qclass.code q 2 0
            (u16_round_trip q.qclass.code (is_known-IsU16 q.qclass h.class_known))
            (Codes-return _ q (λ r. rw h.class_known)))))
