-- ===== src/Proto/Rdata/Uniform.antt =====
-- `RData::write` appends the same bytes over every buffer of the same length.
use dnser.Base.{List, [], ◌∷◌, length, ok, Bool-cases, inl, inr, ltb, arith, append-nil}
use dnser.Base.Bytes.{Bytes, be16, be32}
use dnser.Proto.Rdata.{
  RData, a, aaaa, ns, cname, ptr, soa, mx, txt, srv, opt, unknown, write, write_chunks,
  write_options, EdnsOption,
}
use dnser.Proto.Writer.{write_name}
use dnser.Proto.Writer.Uniform.{
  Uniform, put-Uniform, bind-Uniform, put-bind-Uniform, write_name-Uniform, Replay-same,
}

write_chunks-Uniform : (chunks : List Bytes) → Uniform (write_chunks chunks)
unfolding write_chunks
write_chunks-Uniform [] = record {
  replay = λ w buf result len e. record {
    out = [];
    appended = ground (arith, append-nil w.buf);
    replayed = ground (arith, append-nil buf);
  };
}
write_chunks-Uniform (chunk ∷ chunks) =
    let tail : Uniform (write_chunks chunks) = write_chunks-Uniform chunks in
    record {
      replay = λ w buf result len e. elim (Bool-cases (ltb 255 (length chunk))) [
        | inl p ↦ absurd (ground arith)
        | inr p ↦ Replay-same (write_chunks (chunk ∷ chunks)) (rw p) (rw p) (
            (put-bind-Uniform _ _ (put-bind-Uniform chunk _ tail)).replay w buf result len
              (rw p at e))
      ];
    }

write_options-Uniform : (options : List EdnsOption) → Uniform (λ w. ok (write_options options w))
unfolding write_options
write_options-Uniform [] = record {
  replay = λ w buf result len e. record {
    out = [];
    appended = ground (arith, append-nil w.buf);
    replayed = ground (arith, append-nil buf);
  };
}
write_options-Uniform (option ∷ options) =
    put-bind-Uniform _ _
      (put-bind-Uniform _ _ (put-bind-Uniform _ _ (write_options-Uniform options)))

pub write-Uniform : (rdata : RData) → Uniform (write rdata)
unfolding write
write-Uniform (a octets) = put-Uniform octets
write-Uniform (aaaa octets) = put-Uniform octets
write-Uniform (ns name) = write_name-Uniform name
write-Uniform (cname name) = write_name-Uniform name
write-Uniform (ptr name) = write_name-Uniform name
write-Uniform (soa mname rname serial refresh retry expire minimum) =
    bind-Uniform (write_name mname) _ (write_name-Uniform mname) (
      bind-Uniform (write_name rname) _ (write_name-Uniform rname) (
        put-bind-Uniform (be32 serial) _ (
          put-bind-Uniform (be32 refresh) _ (
            put-bind-Uniform (be32 retry) _
              (put-bind-Uniform (be32 expire) _ (put-Uniform (be32 minimum)))))))
write-Uniform (mx preference exchange) =
    put-bind-Uniform (be16 preference) (write_name exchange) (write_name-Uniform exchange)
write-Uniform (txt chunks) = write_chunks-Uniform chunks
write-Uniform (srv priority weight port target) = put-bind-Uniform (be16 priority) _ (
    put-bind-Uniform (be16 weight) _
      (put-bind-Uniform (be16 port) (write_name target) (write_name-Uniform target)))
write-Uniform (opt options) = write_options-Uniform options
write-Uniform (unknown rtype payload) = put-Uniform payload
