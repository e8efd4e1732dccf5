-- ===== src/Proto/Message/Total.antt =====
-- Writing never gets stuck: every loop of the writer ends.
use dnser.Base.{ℕ, ◌+◌, ◌≢◌, List, [], ◌∷◌, length, drop, stuck, >>=-ne-stuck, ok-ne-stuck, arith}
use dnser.Base.Bytes.{Bytes}
use dnser.Proto.Message.{Message, to_bytes, build_writer, write_section}
use dnser.Proto.Question
use dnser.Proto.Question.{Question}
use dnser.Proto.Rdata
use dnser.Proto.Rdata.{
  RData, write_chunks, a, aaaa, ns, cname, ptr, mx, txt, soa, srv, opt, unknown,
}
use dnser.Proto.Record
use dnser.Proto.Record.{ResourceRecord}
use dnser.Proto.Writer.{
  Writer, Written, write_name, write_labels, split_dots, remember, write_bytes, write_u8,
  trim_end_dots,
}

write_labels-ne-stuck :
    (name : Bytes) (offset : ℕ) (labels : List Bytes) (w : Writer)
    → write_labels name offset labels w ≢ stuck
unfolding write_labels
write_labels-ne-stuck name offset [] w = ground arith
write_labels-ne-stuck name offset (label ∷ labels) w = ground (
  arith,
  write_labels-ne-stuck name (offset + length label + 1) labels
      (write_bytes label (write_u8 (length label) (remember (drop offset name) w))),
)

write_name-ne-stuck : (name : Bytes) (w : Writer) → write_name name w ≢ stuck
unfolding write_name
write_name-ne-stuck name w =
    ground (arith, write_labels-ne-stuck (trim_end_dots name) 0 (split_dots (trim_end_dots name)) w)

write_chunks-ne-stuck : (chunks : List Bytes) (w : Writer) → write_chunks chunks w ≢ stuck
unfolding write_chunks
write_chunks-ne-stuck [] w = ground arith
write_chunks-ne-stuck (chunk ∷ chunks) w =
    ground (arith, write_chunks-ne-stuck chunks (write_bytes chunk (write_u8 (length chunk) w)))

rdata-ne-stuck : (rdata : RData) (w : Writer) → Rdata.write rdata w ≢ stuck
unfolding Rdata.write
rdata-ne-stuck (a octets) w = ok-ne-stuck _
rdata-ne-stuck (aaaa octets) w = ok-ne-stuck _
rdata-ne-stuck (ns name) w = write_name-ne-stuck name w
rdata-ne-stuck (cname name) w = write_name-ne-stuck name w
rdata-ne-stuck (ptr name) w = write_name-ne-stuck name w
rdata-ne-stuck (mx preference exchange) w = write_name-ne-stuck exchange _
rdata-ne-stuck (txt chunks) w = write_chunks-ne-stuck chunks w
rdata-ne-stuck (soa mname rname serial refresh retry expire minimum) w =
    >>=-ne-stuck (write_name mname w) _ (write_name-ne-stuck mname w) λ w₁ _.
      >>=-ne-stuck (write_name rname w₁) _ (write_name-ne-stuck rname w₁) λ w₂ _. ok-ne-stuck _
rdata-ne-stuck (srv priority weight port target) w = write_name-ne-stuck target _
rdata-ne-stuck (opt options) w = ok-ne-stuck _
rdata-ne-stuck (unknown rtype payload) w = ok-ne-stuck _

record-ne-stuck : (rr : ResourceRecord) (w : Writer) → Record.write rr w ≢ stuck
unfolding Record.write
record-ne-stuck rr w = >>=-ne-stuck (write_name rr.name w) _ (write_name-ne-stuck rr.name w) λ w₁ _.
    >>=-ne-stuck (Rdata.write rr.rdata _) _ (rdata-ne-stuck rr.rdata _) λ w₆ _. ok-ne-stuck _

question-ne-stuck : (q : Question) (w : Writer) → Question.write q w ≢ stuck
unfolding Question.write
question-ne-stuck q w =
    >>=-ne-stuck (write_name q.name w) _ (write_name-ne-stuck q.name w) λ w₁ _. ok-ne-stuck _

section-ne-stuck :
    {A : Type 0} (write : A → Writer → Written)
    → ((x : A) (w : Writer) → write x w ≢ stuck)
    → (xs : List A) (w : Writer) → write_section write xs w ≢ stuck
unfolding write_section
section-ne-stuck write h [] w = ok-ne-stuck _
section-ne-stuck write h (x ∷ xs) w =
    >>=-ne-stuck (write x w) _ (h x w) λ w₁ _. section-ne-stuck write h xs w₁

pub to_bytes-ne-stuck : (m : Message) → to_bytes m ≢ stuck
unfolding to_bytes build_writer
to_bytes-ne-stuck m = >>=-ne-stuck (build_writer m) _ written λ w _. ok-ne-stuck _
  where
    records : (rrs : List ResourceRecord) (w : Writer) → write_section Record.write rrs w ≢ stuck
    records = section-ne-stuck Record.write record-ne-stuck

    written : build_writer m ≢ stuck
    written =
        >>=-ne-stuck (write_section Question.write m.questions _) _
          (section-ne-stuck Question.write question-ne-stuck m.questions _)
          λ w₁ _.
            >>=-ne-stuck (write_section Record.write m.answers w₁) _ (records m.answers w₁) λ w₂ _.
              >>=-ne-stuck (write_section Record.write m.authority w₂) _ (records m.authority w₂)
                λ w₃ _. records m.additional w₃
