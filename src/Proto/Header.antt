-- ===== src/Proto/Header.antt =====
-- crates/dnser-proto/src/header.rs
pub mod RoundTrip
pub mod Replies
use dnser.Base.{
  ℕ, ◌/◌, ◌%◌, ◌^◌, ◌≡◌, refl, Bool, not, Result, ok, err, ◌>>=◌, ◌==◌, if◌then◌else◌, bit_and,
  bit_or,
}
use dnser.Proto.Errors.{ParseError, reserved_bit_set}
use dnser.Proto.Codes.{Opcode, Rcode, opcode_try_from, rcode_try_from}
use dnser.Proto.Reader.{Reader, Parsed, read_u16}
use dnser.Proto.Writer.{Writer, write_u16}

pub record Header : Type 0 where
  pub id : ℕ
  pub flags : ℕ
  pub qd_count : ℕ
  pub an_count : ℕ
  pub ns_count : ℕ
  pub ar_count : ℕ

-- `Header::default()`
abbrev pub default : Header
default = record { id = 0; flags = 0; qd_count = 0; an_count = 0; ns_count = 0; ar_count = 0 }

abbrev pub qr : ℕ
qr = 0b1000_0000_0000_0000

abbrev pub opcode_mask : ℕ
opcode_mask = 0b0111_1000_0000_0000

abbrev pub aa : ℕ
aa = 0b0000_0100_0000_0000

abbrev pub tc : ℕ
tc = 0b0000_0010_0000_0000

abbrev pub rd : ℕ
rd = 0b0000_0001_0000_0000

abbrev pub ra : ℕ
ra = 0b0000_0000_1000_0000

abbrev pub z : ℕ
z = 0b0000_0000_0100_0000

abbrev pub ad : ℕ
ad = 0b0000_0000_0010_0000

abbrev pub cd : ℕ
cd = 0b0000_0000_0001_0000

abbrev pub rcode_mask : ℕ
rcode_mask = 0b0000_0000_0000_1111

unfoldable pub is_response : Header → Bool
is_response h = not (bit_and h.flags qr == 0)

unfoldable pub is_query : Header → Bool
is_query h = bit_and h.flags qr == 0

unfoldable pub opcode : Header → Result ℕ Opcode
opcode h = opcode_try_from (bit_and h.flags opcode_mask / 2 ^ 11 % 256)

unfoldable pub is_authoritative : Header → Bool
is_authoritative h = not (bit_and h.flags aa == 0)

unfoldable pub is_truncated : Header → Bool
is_truncated h = not (bit_and h.flags tc == 0)

unfoldable pub recursion_desired : Header → Bool
recursion_desired h = not (bit_and h.flags rd == 0)

unfoldable pub recursion_available : Header → Bool
recursion_available h = not (bit_and h.flags ra == 0)

unfoldable pub authentic_data : Header → Bool
authentic_data h = not (bit_and h.flags ad == 0)

unfoldable pub checking_disabled : Header → Bool
checking_disabled h = not (bit_and h.flags cd == 0)

unfoldable pub rcode : Header → Result ℕ Rcode
rcode h = rcode_try_from (bit_and h.flags rcode_mask % 256)

-- `qr | extra_flags | (query.flags & rd)`
unfoldable pub reply_to : Header → ℕ → Header
reply_to query extra_flags = record default {
  id = query.id;
  flags = bit_or (bit_or qr extra_flags) (bit_and query.flags rd);
  qd_count = query.qd_count;
}

unfoldable pub parse : Reader → Parsed Header
parse r = do
  (id, r₁) ← read_u16 r
  (flags, r₂) ← read_u16 r₁
  if bit_and flags z == 0
      then (do
        (qd_count, r₃) ← read_u16 r₂
        (an_count, r₄) ← read_u16 r₃
        (ns_count, r₅) ← read_u16 r₄
        (ar_count, r₆) ← read_u16 r₅
        ok (
          record {
            id = id;
            flags = flags;
            qd_count = qd_count;
            an_count = an_count;
            ns_count = ns_count;
            ar_count = ar_count;
          },
          r₆,
        ))
      else err reserved_bit_set

unfoldable pub write : Header → Writer → Writer
write h w =
    let w₁ = write_u16 h.id w in
    let w₂ = write_u16 h.flags w₁ in
    let w₃ = write_u16 h.qd_count w₂ in
    let w₄ = write_u16 h.an_count w₃ in let w₅ = write_u16 h.ns_count w₄ in write_u16 h.ar_count w₅
