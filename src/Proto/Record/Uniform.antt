-- ===== src/Proto/Record/Uniform.antt =====
-- Questions and records too are written the same over every buffer of the same length.
use dnser.Base.Bytes.{be32}
use dnser.Proto.Question
use dnser.Proto.Question.{Question}
use dnser.Proto.Record
use dnser.Proto.Record.{ResourceRecord, record_type}
use dnser.Proto.Record.Backfill.{write_data, write_data-Uniform}
use dnser.Proto.Writer.{write_name}
use dnser.Proto.Writer.Uniform.{
  Uniform, put-Uniform, bind-Uniform, put-bind-Uniform, write_name-Uniform,
}

pub question-Uniform : (q : Question) → Uniform (Question.write q)
unfolding Question.write
question-Uniform q =
    bind-Uniform (write_name q.name) _ (write_name-Uniform q.name)
      (put-bind-Uniform _ _ (put-Uniform _))

pub record-Uniform : (rr : ResourceRecord) → Uniform (Record.write rr)
unfolding Record.write record_type write_data
record-Uniform rr = bind-Uniform (write_name rr.name) _ (write_name-Uniform rr.name) (
    put-bind-Uniform _ _
      (put-bind-Uniform _ _ (put-bind-Uniform (be32 rr.ttl) _ (write_data-Uniform rr.rdata))))
