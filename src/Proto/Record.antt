-- ===== src/Proto/Record.antt =====
-- crates/dnser-proto/src/resource_record.rs
pub mod Valid
pub mod Data
pub mod Backfill
pub mod Uniform
pub mod Edns
pub mod RoundTrip
use dnser.Base.{
  ℕ, ◌+◌, ◌-◌, ◌*◌, ◌/◌, ◌%◌, ◌^◌, ◌≡◌, refl, Bool, true, false, Option, none, some, [], Result, ok,
  err, stuck, ◌>>=◌, if◌then◌else◌, bit_and, bit_or,
}
use dnser.Base.Bytes.{Bytes}
use dnser.Proto.Errors.{ParseError, WriteError}
use dnser.Proto.Codes
use dnser.Proto.Codes.{RecordType, Class, record_type_code}
use dnser.Proto.Rdata
use dnser.Proto.Rdata.{RData, a, aaaa, ns, cname, ptr, soa, mx, txt, srv, opt, unknown}
use dnser.Proto.Reader.{Reader, Parsed, read_name, read_u16, read_u32}
use dnser.Proto.Writer.{
  Writer, Written, pos, write_name, write_u16, write_u32, reserve_u16, backfill_u16,
}

pub record ResourceRecord : Type 0 where
  pub name : Bytes
  pub class : Class
  pub ttl : ℕ
  pub rdata : RData

unfoldable pub edns_opt : ℕ → ResourceRecord
edns_opt udp_size = record {
  name = [];
  class = record { code = udp_size };
  ttl = 0;
  rdata = opt [];
}

abbrev is_opt_rdata : RData → Bool
is_opt_rdata (opt options) = true
is_opt_rdata _ = false

unfoldable pub is_opt : ResourceRecord → Bool
is_opt rr = is_opt_rdata rr.rdata

-- `b.then_some(v)`
abbrev pub then_some {ℓ} : {A : Type ℓ} → Bool → A → Option A
then_some true x = some x
then_some false x = none

unfoldable pub edns_udp_size : ResourceRecord → Option ℕ
edns_udp_size rr = then_some (is_opt rr) rr.class.code

unfoldable pub edns_extended_rcode : ResourceRecord → Option ℕ
edns_extended_rcode rr = then_some (is_opt rr) (bit_and (rr.ttl / 2 ^ 24) 0xFF % 256)

unfoldable pub edns_version : ResourceRecord → Option ℕ
edns_version rr = then_some (is_opt rr) (bit_and (rr.ttl / 2 ^ 16) 0xFF % 256)

unfoldable pub set_edns_extended_rcode : ResourceRecord → ℕ → ResourceRecord
set_edns_extended_rcode rr ext_rcode =
    if is_opt rr
    then record rr { ttl = bit_or (bit_and rr.ttl 0x00FF_FFFF) (ext_rcode * 2 ^ 24 % 2 ^ 32) }
    else rr

unfoldable pub set_edns_version : ResourceRecord → ℕ → ResourceRecord
set_edns_version rr version =
    if is_opt rr
    then record rr { ttl = bit_or (bit_and rr.ttl 0xFF00_FFFF) (version * 2 ^ 16 % 2 ^ 32) }
    else rr

abbrev pub rdata_type : RData → Result ℕ RecordType
rdata_type (a _) = ok Codes.a
rdata_type (aaaa _) = ok Codes.aaaa
rdata_type (ns _) = ok Codes.ns
rdata_type (cname _) = ok Codes.cname
rdata_type (soa _ _ _ _ _ _ _) = ok Codes.soa
rdata_type (ptr _) = ok Codes.ptr
rdata_type (mx _ _) = ok Codes.mx
rdata_type (txt _) = ok Codes.txt
rdata_type (srv _ _ _ _) = ok Codes.srv
rdata_type (opt _) = ok Codes.opt
rdata_type (unknown rtype _) = err rtype

unfoldable pub record_type : ResourceRecord → Result ℕ RecordType
record_type rr = rdata_type rr.rdata

unfoldable pub parse : Reader → Parsed ResourceRecord
parse r = do
  (name, r₁) ← read_name r
  (rtype, r₂) ← read_u16 r₁
  (class_code, r₃) ← read_u16 r₂
  (ttl, r₄) ← read_u32 r₃
  (rdlen, r₅) ← read_u16 r₄
  (rdata, r₆) ← Rdata.parse r₅ rtype rdlen
  ok (record { name = name; class = record { code = class_code }; ttl = ttl; rdata = rdata }, r₆)

-- The number that goes over the wire as the type.
abbrev pub wire_type : Result ℕ RecordType → ℕ
wire_type (ok t) = record_type_code t
wire_type (err n) = n
wire_type stuck = 0

unfoldable pub write : ResourceRecord → Writer → Written
write rr w = do
  w₁ ← write_name rr.name w
  let w₂ = write_u16 (wire_type (record_type rr)) w₁
  let w₃ = write_u16 rr.class.code w₂
  let w₄ = write_u32 rr.ttl w₃
  let (rdlen_pos, w₅) = reserve_u16 w₄
  let rdata_start = pos w₅
  w₆ ← Rdata.write rr.rdata w₅
  let rdlen = (pos w₆ - rdata_start) % 2 ^ 16
  ok (backfill_u16 rdlen_pos rdlen w₆)
