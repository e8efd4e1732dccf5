-- ===== src/Proto/Message/Parts.antt =====
-- What a message that is parsed is made of.
use dnser.Base.{
  ℕ, zero, suc, ◌≤◌, ◌≡◌, subst, List, [], ◌∷◌, length, All, ok, map_err, arith, >>=-eq-ok,
}
use dnser.Base.Bytes.{Bytes}
use dnser.Proto.Codes.{record_type_try_from}
use dnser.Proto.Errors.{unknown_record_type}
use dnser.Proto.Header
use dnser.Proto.Header.{Header}
use dnser.Proto.Message.{Message, parse, parse_body, parse_section}
use dnser.Proto.Question
use dnser.Proto.Question.{Question}
use dnser.Proto.Reader
use dnser.Proto.Reader.{Reader, Parsed, max_name_len, read_name, read_u16, read_u32}
use dnser.Proto.Reader.Safety.{read_name_bounds}
use dnser.Proto.Rdata
use dnser.Proto.Record
use dnser.Proto.Record.{ResourceRecord}

pub record Parts (buf : Bytes) (m : Message) : Type 0 where
  pub r₁ : Reader
  pub r₂ : Reader
  pub r₃ : Reader
  pub r₄ : Reader
  pub r₅ : Reader
  pub header : Header.parse (Reader.new buf) ≡ ok (m.header, r₁)
  pub questions : parse_section m.header.qd_count Question.parse r₁ ≡ ok (m.questions, r₂)
  pub answers : parse_section m.header.an_count Record.parse r₂ ≡ ok (m.answers, r₃)
  pub authority : parse_section m.header.ns_count Record.parse r₃ ≡ ok (m.authority, r₄)
  pub additional : parse_section m.header.ar_count Record.parse r₄ ≡ ok (m.additional, r₅)

pub parse-Parts : (buf : Bytes) (m : Message) → parse buf ≡ ok m → Parts buf m
unfolding parse parse_body
parse-Parts buf m e =
    let (whole, p, q) = >>=-eq-ok (parse_body (Reader.new buf)) _ e in
    let ((h, r₁), p₁, q₁) = >>=-eq-ok (Header.parse (Reader.new buf)) _ p in
    let ((qs, r₂), p₂, q₂) = >>=-eq-ok (parse_section h.qd_count Question.parse r₁) _ q₁ in
    let ((an, r₃), p₃, q₃) = >>=-eq-ok (parse_section h.an_count Record.parse r₂) _ q₂ in
    let ((ns, r₄), p₄, q₄) = >>=-eq-ok (parse_section h.ns_count Record.parse r₃) _ q₃ in
    let ((ar, r₅), p₅, q₅) = >>=-eq-ok (parse_section h.ar_count Record.parse r₄) _ q₄ in
    let same : (record {
      header = h;
      questions = qs;
      answers = an;
      authority = ns;
      additional = ar;
    })
        ≡ m =
      ground (arith, q, q₅) in
    subst (Parts buf) same (record {
      r₁ = r₁;
      r₂ = r₂;
      r₃ = r₃;
      r₄ = r₄;
      r₅ = r₅;
      header = p₁;
      questions = p₂;
      answers = p₃;
      authority = p₄;
      additional = p₅;
    })

module _ {A : Type 0} (parse_one : Reader → Parsed A) where
  length-parse_section :
      (count : ℕ) (r : Reader) (xs : List A) (r' : Reader)
      → parse_section count parse_one r ≡ ok (xs, r')
      → length xs ≡ count
  unfolding parse_section
  length-parse_section zero r xs r' e = ground (arith, e)
  length-parse_section (suc count) r xs r' e =
      let ((x, r₁), p, q) = >>=-eq-ok (parse_one r) _ e in
      let ((rest, r₂), p', q') = >>=-eq-ok (parse_section count parse_one r₁) _ q in
      ground (arith, q', length-parse_section count r₁ rest r₂ p')

  All-parse_section :
      (P : A → Type 0)
      → ((r : Reader) (x : A) (r' : Reader) → parse_one r ≡ ok (x, r') → P x)
      → (count : ℕ) (r : Reader) (xs : List A) (r' : Reader)
      → parse_section count parse_one r ≡ ok (xs, r')
      → All P xs
  unfolding parse_section
  All-parse_section P each zero r xs r' e =
      let none_read : [] ≡ xs = ground (arith, e) in subst (All P) none_read tt
  All-parse_section P each (suc count) r xs r' e =
      let ((x, r₁), p, q) = >>=-eq-ok (parse_one r) _ e in
      let ((rest, r₂), p', q') = >>=-eq-ok (parse_section count parse_one r₁) _ q in
      let same : x ∷ rest ≡ xs = ground (arith, q') in
      subst (All P) same (each r x r₁ p, All-parse_section P each count r₁ rest r₂ p')

abbrev pub ShortName : Question → Type 0
ShortName q = length q.name ≤ max_name_len

abbrev pub ShortOwner : ResourceRecord → Type 0
ShortOwner rr = length rr.name ≤ max_name_len

Question-ShortName :
    (r : Reader) (q : Question) (r' : Reader) → Question.parse r ≡ ok (q, r') → ShortName q
unfolding Question.parse
Question-ShortName r q r' e =
    let ((name, r₁), p, e₁) = >>=-eq-ok (read_name r) _ e in
    let ((code, r₂), _, e₂) = >>=-eq-ok (read_u16 r₁) _ e₁ in
    let (qtype, _, e₃) = >>=-eq-ok (map_err unknown_record_type (record_type_try_from code)) _ e₂ in
    let ((raw, r₃), _, e₄) = >>=-eq-ok (read_u16 r₂) _ e₃ in
    let same : name ≡ q.name = ground (arith, e₄) in
    subst (λ (n : Bytes). length n ≤ max_name_len) same (read_name_bounds r p).2

Record-ShortOwner :
    (r : Reader) (rr : ResourceRecord) (r' : Reader) → Record.parse r ≡ ok (rr, r') → ShortOwner rr
unfolding Record.parse
Record-ShortOwner r rr r' e =
    let ((name, r₁), p, e₁) = >>=-eq-ok (read_name r) _ e in
    let ((code, r₂), _, e₂) = >>=-eq-ok (read_u16 r₁) _ e₁ in
    let ((class, r₃), _, e₃) = >>=-eq-ok (read_u16 r₂) _ e₂ in
    let ((ttl, r₄), _, e₄) = >>=-eq-ok (read_u32 r₃) _ e₃ in
    let ((len, r₅), _, e₅) = >>=-eq-ok (read_u16 r₄) _ e₄ in
    let ((rdata, r₆), _, e₆) = >>=-eq-ok (Rdata.parse r₅ code len) _ e₅ in
    let same : name ≡ rr.name = ground (arith, e₆) in
    subst (λ (n : Bytes). length n ≤ max_name_len) same (read_name_bounds r p).2

-- A message that `parse` accepts, whatever the bytes, has as many questions and records in each section
-- as its header says, and every question and record has a name of at most 253 bytes.
pub parsed_bounds :
    (buf : Bytes) (m : Message)
    → parse buf ≡ ok m
    → (length m.questions ≡ m.header.qd_count)
      × (length m.answers ≡ m.header.an_count)
      × (length m.authority ≡ m.header.ns_count)
      × (length m.additional ≡ m.header.ar_count)
      × All ShortName m.questions
      × All ShortOwner m.answers
      × All ShortOwner m.authority
      × All ShortOwner m.additional
parsed_bounds buf m e =
    let parts = parse-Parts buf m e in
    (
      length-parse_section Question.parse _ _ _ _ parts.questions,
      length-parse_section Record.parse _ _ _ _ parts.answers,
      length-parse_section Record.parse _ _ _ _ parts.authority,
      length-parse_section Record.parse _ _ _ _ parts.additional,
      All-parse_section Question.parse ShortName Question-ShortName _ _ _ _ parts.questions,
      All-parse_section Record.parse ShortOwner Record-ShortOwner _ _ _ _ parts.answers,
      All-parse_section Record.parse ShortOwner Record-ShortOwner _ _ _ _ parts.authority,
      All-parse_section Record.parse ShortOwner Record-ShortOwner _ _ _ _ parts.additional,
    )
