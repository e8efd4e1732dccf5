-- ===== src/Proto/Header/RoundTrip.antt =====
-- A header that is written is read back.
use dnser.Base.{ℕ, ◌≡◌, ok, ◌>>=◌, bit_and}
use dnser.Base.Bytes.{IsU16}
use dnser.Proto.Codec.{Codes, Codes-bind, Codes-map, Codes-parse}
use dnser.Proto.Codec.Words.{u16_round_trip}
use dnser.Proto.Header
use dnser.Proto.Header.{Header, z}
use dnser.Proto.Reader.{Reader, Parsed, read_u16}

pub record IsValid (h : Header) : Type 0 where
  pub id_fits : IsU16 h.id
  pub flags_fit : IsU16 h.flags
  pub not_reserved : bit_and h.flags z ≡ 0
  pub qd_fits : IsU16 h.qd_count
  pub an_fits : IsU16 h.an_count
  pub ns_fits : IsU16 h.ns_count
  pub ar_fits : IsU16 h.ar_count

-- What `parse` does behind the flags, if the reserved bit is clear.
parse_counts : ℕ → ℕ → Reader → Parsed Header
parse_counts id flags r = do
  (qd_count, r₁) ← read_u16 r
  (an_count, r₂) ← read_u16 r₁
  (ns_count, r₃) ← read_u16 r₂
  (ar_count, r₄) ← read_u16 r₃
  ok (
    record {
      id = id;
      flags = flags;
      qd_count = qd_count;
      an_count = an_count;
      ns_count = ns_count;
      ar_count = ar_count;
    },
    r₄,
  )

-- A header whose reserved bit is clear is read back.
pub header_round_trip :
    (h : Header) → IsValid h → Codes Header (λ w. ok (Header.write h w)) Header.parse h 12
unfolding Header.write Header.parse parse_counts
header_round_trip h v = Codes-bind _ _ read_u16 _ h.id h 2 10 (u16_round_trip h.id v.id_fits) (
    Codes-bind _ _ read_u16 _ h.flags h 2 8 (u16_round_trip h.flags v.flags_fit) (
      Codes-parse (parse_counts h.id h.flags) _ (λ r. rw v.not_reserved)
        (Codes-bind _ _ read_u16 _ h.qd_count h 2 6 (u16_round_trip h.qd_count v.qd_fits) (
          Codes-bind _ _ read_u16 _ h.an_count h 2 4 (u16_round_trip h.an_count v.an_fits) (
            Codes-bind _ _ read_u16 _ h.ns_count h 2 2 (u16_round_trip h.ns_count v.ns_fits) (
              Codes-map _ read_u16
                (λ n. record {
                  id = h.id;
                  flags = h.flags;
                  qd_count = h.qd_count;
                  an_count = h.an_count;
                  ns_count = h.ns_count;
                  ar_count = n;
                })
                h.ar_count 2 (u16_round_trip h.ar_count v.ar_fits)))))))
