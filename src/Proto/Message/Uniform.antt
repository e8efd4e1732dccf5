-- ===== src/Proto/Message/Uniform.antt =====
-- The header of a serialised message can be exchanged: nothing behind it depends on what it holds.
use dnser.Base.{
  ◌≡◌, refl, sym, ap, ◌∙◌, List, [], ◌∷◌, ◌++◌, drop, ok, ◌>>=◌, arith, append-nil, >>=-eq-ok,
}
use dnser.Base.Bytes.{Bytes, be16}
use dnser.Proto.Header
use dnser.Proto.Header.{Header}
use dnser.Proto.Message.{Message, write_section, build_writer, to_bytes}
use dnser.Proto.Question
use dnser.Proto.Record
use dnser.Proto.Record.Uniform.{question-Uniform, record-Uniform}
use dnser.Proto.Writer
use dnser.Proto.Writer.{Writer, Written}
use dnser.Proto.Writer.Uniform.{Uniform, Replay, bind-Uniform}

section-Uniform :
    {A : Type 0} (write : A → Writer → Written)
    → ((x : A) → Uniform (write x))
    → (xs : List A) → Uniform (write_section write xs)
unfolding write_section
section-Uniform write h [] = record {
  replay = λ w buf result len e. record {
    out = [];
    appended = ground (arith, append-nil w.buf);
    replayed = ground (arith, append-nil buf);
  };
}
section-Uniform write h (x ∷ xs) =
    bind-Uniform (write x) (write_section write xs) (h x) (section-Uniform write h xs)

-- What `build_writer` writes behind the header.
write_body : Message → Writer → Written
write_body m w = do
  w₁ ← write_section Question.write m.questions w
  w₂ ← write_section Record.write m.answers w₁
  w₃ ← write_section Record.write m.authority w₂
  write_section Record.write m.additional w₃

body-Uniform : (m : Message) → Uniform (write_body m)
unfolding write_body
body-Uniform m = bind-Uniform _ _ (section-Uniform Question.write question-Uniform m.questions) (
    bind-Uniform _ _ (section-Uniform Record.write record-Uniform m.answers) (
      bind-Uniform _ _ (section-Uniform Record.write record-Uniform m.authority)
        (section-Uniform Record.write record-Uniform m.additional)))

abbrev pub header_bytes : Header → Bytes
header_bytes h =
    be16 h.id
    ++ be16 h.flags
    ++ be16 h.qd_count
    ++ be16 h.an_count
    ++ be16 h.ns_count
    ++ be16 h.ar_count

-- A message that is serialised is its header and bytes that do not depend on the header.
pub record Framed (m : Message) (bytes : Bytes) : Type 0 where
  pub body : Bytes
  pub whole : bytes ≡ header_bytes m.header ++ body
  pub exchange : (h : Header) → to_bytes (record m { header = h }) ≡ ok (header_bytes h ++ body)

pub to_bytes-Framed : (m : Message) (bytes : Bytes) → to_bytes m ≡ ok bytes → Framed m bytes
unfolding to_bytes build_writer Header.write write_body Writer.new
to_bytes-Framed m bytes e =
    let start : Header → Writer = λ (h : Header). Header.write h Writer.new in
    let (end, p, q) = >>=-eq-ok (build_writer m) (λ w. ok w.buf) e in
    let there : (h : Header) → Replay (write_body m) (start m.header) (header_bytes h) end =
      λ h. (body-Uniform m).replay (start m.header) (header_bytes h) end refl p in
    let same : (h : Header) → (there h).out ≡ drop 12 end.buf =
      λ h. sym (ap (drop 12) (there h).appended) in
    record {
      body = drop 12 end.buf;
      whole =
          ground (arith, q)
          ∙ (there m.header).appended
          ∙ ap (λ (b : Bytes). header_bytes m.header ++ b) (same m.header);
      exchange = λ h.
          ap (λ (r : Written). r >>= λ w. ok w.buf) (there h).replayed
          ∙ ap (λ (b : Bytes). ok (header_bytes h ++ b)) (same h);
    }
