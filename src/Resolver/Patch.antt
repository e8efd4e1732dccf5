-- ===== src/Resolver/Patch.antt =====
-- Patching the serialised query in place.
use dnser.Base.{ℕ, ◌/◌, ◌%◌, ◌≡◌, refl, sym, ap, ◌∙◌, ok, arith, bit_or}
use dnser.Base.Bits.{or_256, or_one-lt}
use dnser.Base.Bytes.{Bytes, IsU16}
use dnser.Proto.Header.{Header, rd}
use dnser.Proto.Message.{Message, to_bytes}
use dnser.Proto.Message.Uniform.{Framed, to_bytes-Framed}
use dnser.Resolver.Query.{patch}

-- The query as the upstream is asked it.
abbrev pub asking : ℕ → Message → Message
asking id query = record query {
  header = record query.header { id = id; flags = bit_or query.header.flags rd };
}

rd_high : (flags : ℕ) → IsU16 flags → bit_or flags rd / 256 % 256 ≡ bit_or (flags / 256 % 256) 1
rd_high flags small = omega (
  arith,
  or_256 flags,
  or_one-lt (flags / 256) (omega (arith, small)),
  ap (λ (t : ℕ). bit_or t 1) (high_byte flags small),
)
  where
    high_byte : (n : ℕ) → IsU16 n → n / 256 % 256 ≡ n / 256
    high_byte n h = omega arith

rd_low : (flags : ℕ) → bit_or flags rd % 256 ≡ flags % 256
rd_low flags = omega (arith, or_256 flags)

-- Patching the id and RD into a serialised query, whose flags are of 16 bits, gives what serialising
-- the query with that id and with RD set gives.
pub patch_lem :
    (id : ℕ) (query : Message) (bytes : Bytes)
    → IsU16 query.header.flags
    → to_bytes query ≡ ok bytes
    → to_bytes (asking id query) ≡ ok (patch id bytes)
unfolding patch
patch_lem id query bytes small e =
    let f : Framed query bytes = to_bytes-Framed query bytes e in
    let h : Header = (asking id query).header in
    let high : h.flags / 256 % 256 ≡ bit_or (query.header.flags / 256 % 256) 1 =
      rd_high query.header.flags small in
    let low : h.flags % 256 ≡ query.header.flags % 256 = rd_low query.header.flags in
    f.exchange h ∙ ap ok (rw (high, low) refl ∙ ap (patch id) (sym f.whole))
