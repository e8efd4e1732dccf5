-- ===== src/Proto/Record/Valid.antt =====
-- The data that a message can carry, and what it is for its bytes to be read back.
use dnser.Base.{
  ℕ, ◌+◌, ◌^◌, ◌≤◌, ◌<◌, ◌≡◌, refl, sym, ap, ◌∙◌, Bool, true, false, List, ◌++◌, length, drop, ok,
  err, stuck, All, arith, length-append, Result,
}
use dnser.Base.Bytes.{Bytes, IsU16, IsU32}
use dnser.Proto.Codec.{Codes, RoundTrip, reader_at}
use dnser.Proto.Codec.Names.{IsNameText}
use dnser.Proto.Codec.Words.{ahead_of_put}
use dnser.Proto.Codes
use dnser.Proto.Codes.{RecordType, record_type_try_from, record_type_code}
use dnser.Proto.Rdata
use dnser.Proto.Rdata.{
  RData, a, aaaa, ns, cname, ptr, soa, mx, txt, srv, opt, unknown, EdnsOption, parse_inner,
  parse_matched, parse_typed,
}
use dnser.Proto.Rdata.Loops.{chunks_bytes, IsChunk, options_bytes, IsOption}
use dnser.Proto.Reader.{Reader, Parsed}
use dnser.Proto.Record.{wire_type, rdata_type}
use dnser.Proto.Writer.{Writer, pos, put}
use dnser.Proto.Writer.Offsets.{IsRight, put-IsRight}

-- A type code that the parser does not give a structure to.
abbrev pub is_untyped : Result ℕ RecordType → Bool
is_untyped (ok Codes.ixfr) = true
is_untyped (ok Codes.axfr) = true
is_untyped (ok Codes.any) = true
is_untyped (ok _) = false
is_untyped (err n) = true
is_untyped stuck = false

-- The data that a message can carry.
pub data IsData : RData → Type 0 where
  a_valid : {octets : Bytes} → length octets ≡ 4 → IsData (a octets)
  aaaa_valid : {octets : Bytes} → length octets ≡ 16 → IsData (aaaa octets)
  ns_valid : {name : Bytes} → IsNameText name → IsData (ns name)
  cname_valid : {name : Bytes} → IsNameText name → IsData (cname name)
  ptr_valid : {name : Bytes} → IsNameText name → IsData (ptr name)
  soa_valid :
      {mname rname : Bytes} {serial refresh retry expire minimum : ℕ}
      → IsNameText mname
      → IsNameText rname
      → IsU32 serial
      → IsU32 refresh
      → IsU32 retry
      → IsU32 expire
      → IsU32 minimum
      → IsData (soa mname rname serial refresh retry expire minimum)
  mx_valid :
      {preference : ℕ} {exchange : Bytes}
      → IsU16 preference
      → IsNameText exchange
      → IsData (mx preference exchange)
  txt_valid :
      {chunks : List Bytes}
      → All IsChunk chunks
      → IsU16 (length (chunks_bytes chunks))
      → IsData (txt chunks)
  srv_valid :
      {priority weight port : ℕ} {target : Bytes}
      → IsU16 priority
      → IsU16 weight
      → IsU16 port
      → IsNameText target
      → IsData (srv priority weight port target)
  opt_valid :
      {options : List EdnsOption}
      → All IsOption options
      → IsU16 (length (options_bytes options))
      → IsData (opt options)
  unknown_valid :
      {rtype : ℕ} {payload : Bytes}
      → IsU16 rtype
      → is_untyped (record_type_try_from rtype) ≡ true
      → IsU16 (length payload)
      → IsData (unknown rtype payload)

-- As `RoundTrip`, for a parser that is told the length of what was written.
pub record DataTrip (rdata : RData) (w : Writer) : Type 0 where
  pub result : Writer
  pub out : Bytes
  pub run : Rdata.write rdata w ≡ ok result
  pub appended : result.buf ≡ w.buf ++ out
  pub fits : IsU16 (length out)
  pub right : IsRight result
  pub inner :
      (later : Bytes)
      → parse_inner (reader_at result.buf later (pos w)) (wire_type (rdata_type rdata)) (length out)
        ≡ ok (rdata, reader_at result.buf later (pos result))

-- A parser that does not look at the length.
pub from_codes :
    (rdata : RData) (parse : Reader → Parsed RData) (n : ℕ)
    → n < 2 ^ 16
    → ((rdlen : ℕ) (r : Reader) → parse_inner r (wire_type (rdata_type rdata)) rdlen ≡ parse r)
    → Codes RData (Rdata.write rdata) parse rdata n
    → (w : Writer) → IsRight w
    → DataTrip rdata w
from_codes rdata parse n bound same codes w h =
    let t : RoundTrip RData (Rdata.write rdata) parse rdata n w = codes w h in
    record {
      result = t.result;
      out = t.out;
      run = t.run;
      appended = t.appended;
      fits = omega (arith, t.small);
      right = t.right;
      inner = λ later. same (length t.out) _ ∙ t.back later;
    }

-- Data that is one string of bytes, whose length the parser goes by.
pub from_put :
    (rdata : RData) (bs : Bytes) (w : Writer)
    → Rdata.write rdata w ≡ ok (put bs w)
    → IsU16 (length bs)
    → ((r : Reader) (later : Bytes)
        → drop r.pos r.buf ≡ bs ++ later
        → r.pos + length bs ≤ length r.buf
        → parse_inner r (wire_type (rdata_type rdata)) (length bs)
          ≡ ok (rdata, record r { pos = r.pos + length bs }))
    → IsRight w
    → DataTrip rdata w
from_put rdata bs w run fits back h = record {
  result = put bs w;
  out = bs;
  run = run;
  appended = refl;
  fits = fits;
  right = put-IsRight bs w h;
  inner = λ later.
      back (reader_at (w.buf ++ bs) later (pos w)) later (ahead_of_put bs later w)
        (omega (arith, length-append (w.buf ++ bs) later, length-append w.buf bs))
      ∙ ap (λ (p : ℕ). ok (rdata, reader_at (w.buf ++ bs) later p)) (sym (length-append w.buf bs));
}
