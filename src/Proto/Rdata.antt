-- ===== src/Proto/Rdata.antt =====
-- crates/dnser-proto/src/rdata.rs. An address is the list of its octets.
pub mod Uniform
pub mod Loops
pub mod Termination
use dnser.Base.{
  ℕ, zero, suc, ◌+◌, ◌-◌, ◌%◌, ◌^◌, ◌≡◌, refl, Bool, true, false, Option, none, some, List, [], ◌∷◌,
  ◌++◌, length, ltb, leb, ◌==◌, if◌then◌else◌, Result, ok, err, stuck, ◌>>=◌,
}
use dnser.Base.Bytes.{Bytes}
use dnser.Proto.Errors.{ParseError, rdata_length_mismatch, WriteError, txt_chunk_too_long}
use dnser.Proto.Codes
use dnser.Proto.Codes.{RecordType, record_type_try_from}
use dnser.Proto.Reader.{Reader, Parsed, read_name, read_u8, read_u16, read_u32, read_bytes}
use dnser.Proto.Writer.{Writer, Written, write_name, write_u8, write_u16, write_u32, write_bytes}

pub record EdnsOption : Type 0 where
  pub code : ℕ
  pub payload : Bytes

pub data RData : Type 0 where
  a aaaa : Bytes → RData
  ns cname ptr : Bytes → RData
  soa : (mname rname : Bytes) (serial refresh retry expire minimum : ℕ) → RData
  mx : (preference : ℕ) (exchange : Bytes) → RData
  txt : List Bytes → RData
  srv : (priority weight port : ℕ) (target : Bytes) → RData
  opt : List EdnsOption → RData
  unknown : (rtype : ℕ) (payload : Bytes) → RData

-- `remaining.checked_sub(n).ok_or(RdataLengthMismatch)`
abbrev pub checked_sub : ℕ → ℕ → Result ParseError ℕ
checked_sub remaining n = if leb n remaining then ok (remaining - n) else err rdata_length_mismatch

-- `while remaining > 0 { … }` of a TXT record, on fuel
unfoldable pub txt_loop : ℕ → Reader → ℕ → List Bytes → Parsed (List Bytes)
txt_loop zero r remaining chunks = stuck
txt_loop (suc fuel) r remaining chunks = elim (remaining == 0) [
  | true ↦ ok (chunks, r)
  | false ↦ do
    (len, r₁) ← read_u8 r
    remaining' ← checked_sub remaining (1 + len)
    (chunk, r₂) ← read_bytes r₁ len
    txt_loop fuel r₂ remaining' (chunks ++ chunk ∷ [])
]

-- `while remaining > 0 { … }` of an OPT record, on fuel
unfoldable pub opt_loop : ℕ → Reader → ℕ → List EdnsOption → Parsed (List EdnsOption)
opt_loop zero r remaining options = stuck
opt_loop (suc fuel) r remaining options = elim (remaining == 0) [
  | true ↦ ok (options, r)
  | false ↦ do
    (code, r₁) ← read_u16 r
    (len, r₂) ← read_u16 r₁
    remaining' ← checked_sub remaining (4 + len)
    (payload, r₃) ← read_bytes r₂ len
    opt_loop fuel r₃ remaining' (options ++ record { code = code; payload = payload } ∷ [])
]

-- Each round takes a byte at least of what remains, so one round more than `rdlen` is enough.
unfoldable pub parse_typed : RecordType → ℕ → ℕ → Reader → Parsed RData
parse_typed Codes.a rtype rdlen r =
    if rdlen == 4 then (do (b, r₁) ← read_bytes r 4; ok (a b, r₁)) else err rdata_length_mismatch
parse_typed Codes.aaaa rtype rdlen r =
    if rdlen == 16
    then (do (b, r₁) ← read_bytes r 16; ok (aaaa b, r₁))
    else err rdata_length_mismatch
parse_typed Codes.ns rtype rdlen r = do (name, r₁) ← read_name r; ok (ns name, r₁)
parse_typed Codes.cname rtype rdlen r = do (name, r₁) ← read_name r; ok (cname name, r₁)
parse_typed Codes.ptr rtype rdlen r = do (name, r₁) ← read_name r; ok (ptr name, r₁)
parse_typed Codes.mx rtype rdlen r = do
  (preference, r₁) ← read_u16 r
  (exchange, r₂) ← read_name r₁
  ok (mx preference exchange, r₂)
parse_typed Codes.txt rtype rdlen r = do
  (chunks, r₁) ← txt_loop (suc rdlen) r rdlen []
  ok (txt chunks, r₁)
parse_typed Codes.soa rtype rdlen r = do
  (mname, r₁) ← read_name r
  (rname, r₂) ← read_name r₁
  (serial, r₃) ← read_u32 r₂
  (refresh, r₄) ← read_u32 r₃
  (retry, r₅) ← read_u32 r₄
  (expire, r₆) ← read_u32 r₅
  (minimum, r₇) ← read_u32 r₆
  ok (soa mname rname serial refresh retry expire minimum, r₇)
parse_typed Codes.srv rtype rdlen r = do
  (priority, r₁) ← read_u16 r
  (weight, r₂) ← read_u16 r₁
  (port, r₃) ← read_u16 r₂
  (target, r₄) ← read_name r₃
  ok (srv priority weight port target, r₄)
parse_typed Codes.opt rtype rdlen r = do
  (options, r₁) ← opt_loop (suc rdlen) r rdlen []
  ok (opt options, r₁)
parse_typed _ rtype rdlen r = do (payload, r₁) ← read_bytes r rdlen; ok (unknown rtype payload, r₁)

-- The match on `RecordType::try_from(rtype)`; its `_` takes the codes that are no record type too.
unfoldable pub parse_matched : Result ℕ RecordType → ℕ → ℕ → Reader → Parsed RData
parse_matched (ok t) rtype rdlen r = parse_typed t rtype rdlen r
parse_matched (err n) rtype rdlen r = do
  (payload, r₁) ← read_bytes r rdlen
  ok (unknown rtype payload, r₁)
parse_matched stuck rtype rdlen r = stuck

unfoldable pub parse_inner : Reader → ℕ → ℕ → Parsed RData
parse_inner r rtype rdlen = parse_matched (record_type_try_from rtype) rtype rdlen r

unfoldable pub parse : Reader → ℕ → ℕ → Parsed RData
parse r rtype rdlen = do
  (rdata, r₁) ← parse_inner r rtype rdlen
  if r₁.pos - r.pos == rdlen then ok (rdata, r₁) else err rdata_length_mismatch

unfoldable pub write_chunks : List Bytes → Writer → Written
write_chunks [] w = ok w
write_chunks (chunk ∷ chunks) w =
    if ltb 255 (length chunk)
    then err txt_chunk_too_long
    else write_chunks chunks (write_bytes chunk (write_u8 (length chunk) w))

unfoldable pub write_options : List EdnsOption → Writer → Writer
write_options [] w = w
write_options (option ∷ options) w = write_options options (
    write_bytes option.payload
      (write_u16 (length option.payload % 2 ^ 16) (write_u16 option.code w)))

unfoldable pub write : RData → Writer → Written
write (a octets) w = ok (write_bytes octets w)
write (aaaa octets) w = ok (write_bytes octets w)
write (ns name) w = write_name name w
write (cname name) w = write_name name w
write (ptr name) w = write_name name w
write (mx preference exchange) w = write_name exchange (write_u16 preference w)
write (txt chunks) w = write_chunks chunks w
write (soa mname rname serial refresh retry expire minimum) w = do
  w₁ ← write_name mname w
  w₂ ← write_name rname w₁
  let w₃ = write_u32 serial w₂
  let w₄ = write_u32 refresh w₃
  let w₅ = write_u32 retry w₄
  let w₆ = write_u32 expire w₅
  ok (write_u32 minimum w₆)
write (srv priority weight port target) w =
    let w₁ = write_u16 priority w in
    let w₂ = write_u16 weight w₁ in let w₃ = write_u16 port w₂ in write_name target w₃
write (opt options) w = ok (write_options options w)
write (unknown rtype payload) w = ok (write_bytes payload w)
