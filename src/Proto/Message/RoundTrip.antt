-- ===== src/Proto/Message/RoundTrip.antt =====
-- A message that is serialised is parsed back.
use dnser.Base.{ℕ, ◌+◌, ◌≡◌, refl, sym, subst, List, [], ◌∷◌, ◌++◌, length, ok, ◌>>=◌, All, arith}
use dnser.Base.Bytes.{Bytes}
use dnser.Proto.Codec.{Codes, Codes-bind, Codes-map, Codes-return, RoundTrip}
use dnser.Proto.Header
use dnser.Proto.Header.{Header}
use dnser.Proto.Header.RoundTrip.{header_round_trip}
use dnser.Proto.Message
use dnser.Proto.Message.{Message, parse_body, parse_section, write_section, build_writer, to_bytes}
use dnser.Proto.Question
use dnser.Proto.Question.{Question}
use dnser.Proto.Question.RoundTrip.{question-RoundTrip}
use dnser.Proto.Reader
use dnser.Proto.Reader.{Reader, Parsed}
use dnser.Proto.Record
use dnser.Proto.Record.{ResourceRecord}
use dnser.Proto.Record.RoundTrip.{record-RoundTrip, max_record}
use dnser.Proto.Writer
use dnser.Proto.Writer.{Writer, Written, find_name}
use dnser.Proto.Writer.Offsets.{IsRight}

-- A message that the parser can return: the counts are those of the sections.
pub record IsValid (m : Message) : Type 0 where
  pub header_valid : Header.RoundTrip.IsValid m.header
  pub qd_agrees : m.header.qd_count ≡ length m.questions
  pub an_agrees : m.header.an_count ≡ length m.answers
  pub ns_agrees : m.header.ns_count ≡ length m.authority
  pub ar_agrees : m.header.ar_count ≡ length m.additional
  pub questions_valid : All Question.RoundTrip.IsValid m.questions
  pub answers_valid : All Record.RoundTrip.IsValid m.answers
  pub authority_valid : All Record.RoundTrip.IsValid m.authority
  pub additional_valid : All Record.RoundTrip.IsValid m.additional

new-IsRight : IsRight Writer.new
unfolding Writer.new find_name
new-IsRight = record { entry = λ key offset found. absurd (ground arith) }

section_size {ℓ} : {A : Type ℓ} → ℕ → List A → ℕ
section_size n [] = 0
section_size n (x ∷ xs) = n + section_size n xs

module _ {A : Type 0} (write : A → Writer → Written) (parse : Reader → Parsed A)
    (IsGood : A → Type 0) (n : ℕ) (codes : (x : A) → IsGood x → Codes A (write x) parse x n) where
  section_round_trip :
      (xs : List A)
      → All IsGood xs
      → Codes
          (List A)
          (write_section write xs)
          (parse_section (length xs) parse)
          xs
          (section_size n xs)
  unfolding write_section parse_section section_size
  section_round_trip [] h = Codes-return _ [] (λ r. refl)
  section_round_trip (x ∷ xs) (h, hs) =
      Codes-bind (write x) (write_section write xs) parse _ x (x ∷ xs) n (section_size n xs)
        (codes x h)
        (Codes-map (write_section write xs) (parse_section (length xs) parse) (λ ys. x ∷ ys) xs
          (section_size n xs) (section_round_trip xs hs))

  -- The count is a field of the header.
  counted :
      (xs : List A) (count : ℕ)
      → count ≡ length xs
      → All IsGood xs
      → Codes (List A) (write_section write xs) (parse_section count parse) xs (section_size n xs)
  counted xs count e h =
      subst
        (λ (k : ℕ).
          Codes (List A) (write_section write xs) (parse_section k parse) xs (section_size n xs))
        (sym e) (section_round_trip xs h)

body_round_trip :
    (m : Message)
    → IsValid m
    → Codes Message
        (λ w. write_section Question.write m.questions (Header.write m.header w) >>= λ w₁.
          write_section Record.write m.answers w₁ >>= λ w₂.
          write_section Record.write m.authority w₂ >>= write_section Record.write m.additional)
        parse_body
        m
        (12
          + (section_size 259 m.questions
              + (section_size max_record m.answers
                  + (section_size max_record m.authority + section_size max_record m.additional))))
unfolding parse_body
body_round_trip m v =
    Codes-bind _ _ Header.parse _ m.header m 12 _ (header_round_trip m.header v.header_valid) (
      Codes-bind (write_section Question.write m.questions) _ _ _ m.questions m _ _
        (counted Question.write Question.parse Question.RoundTrip.IsValid 259 question-RoundTrip
          m.questions m.header.qd_count v.qd_agrees v.questions_valid)
        (Codes-bind (write_section Record.write m.answers) _ _ _ m.answers m _ _
          (counted Record.write Record.parse Record.RoundTrip.IsValid max_record record-RoundTrip
            m.answers m.header.an_count v.an_agrees v.answers_valid)
          (Codes-bind (write_section Record.write m.authority) _ _ _ m.authority m _ _
            (counted Record.write Record.parse Record.RoundTrip.IsValid max_record record-RoundTrip
              m.authority m.header.ns_count v.ns_agrees v.authority_valid)
            (Codes-map (write_section Record.write m.additional) _
              (λ rrs. record {
                header = m.header;
                questions = m.questions;
                answers = m.answers;
                authority = m.authority;
                additional = rrs;
              })
              m.additional _
              (counted Record.write Record.parse Record.RoundTrip.IsValid max_record
                record-RoundTrip m.additional m.header.ar_count v.ar_agrees v.additional_valid)))))

-- Every valid message is serialised, and `parse` returns it from the bytes, whatever follows them.
pub message_round_trip :
    (m : Message)
    → IsValid m
    → (bytes : Bytes) × (to_bytes m ≡ ok bytes)
      × ((later : Bytes) → Message.parse (bytes ++ later) ≡ ok m)
unfolding to_bytes build_writer Message.parse Writer.new Reader.new
message_round_trip m v =
    let t : RoundTrip Message _ parse_body m _ Writer.new =
      body_round_trip m v Writer.new new-IsRight in
    (t.result.buf, rw t.run, λ later. rw (t.back later))
