-- ===== src/Proto/Record/RoundTrip.antt =====
-- A resource record that is written, its length filled in afterwards, is read back.
use dnser.Base.{
  ℕ, ◌+◌, ◌-◌, ◌≡◌, sym, ap, subst, ◌∙◌, ◌++◌, length, drop, ok, ◌>>=◌, arith, append_assoc,
  length-append, ==_iff, true, ◌==◌, >>=_assoc,
}
use dnser.Base.Bytes.{Bytes, be16, IsU16, IsU32}
use dnser.Proto.Codec.{Codes-bind, Codes-map, Codes-parse, RoundTrip, reader_at}
use dnser.Proto.Codec.Names.{IsNameText, text_round_trip}
use dnser.Proto.Codec.Words.{u16_round_trip, u32_round_trip, ahead_of_put}
use dnser.Proto.Codes.{record_type_code}
use dnser.Proto.Rdata
use dnser.Proto.Rdata.{RData, parse_inner, unknown}
use dnser.Proto.Reader.{Reader, Parsed, read_name, read_u16, read_u32}
use dnser.Proto.Reader.Ahead.{read_u16_ahead}
use dnser.Proto.Record
use dnser.Proto.Record.{ResourceRecord, wire_type, rdata_type, record_type}
use dnser.Proto.Record.Backfill.{write_data, backfill_is_direct, direct_length}
use dnser.Proto.Record.Data.{data_trip}
use dnser.Proto.Record.Valid.{IsData, unknown_valid, DataTrip}
use dnser.Proto.Writer.{Writer, pos, write_name, write_u16}
use dnser.Proto.Writer.Offsets.{IsRight, put-IsRight}

pub record IsValid (rr : ResourceRecord) : Type 0 where
  pub name_valid : IsNameText rr.name
  pub class_fits : IsU16 rr.class.code
  pub ttl_fits : IsU32 rr.ttl
  pub data_valid : IsData rr.rdata

pub after_data : ℕ → ℕ × Reader → Parsed RData
after_data code (rdlen, r) = Rdata.parse r code rdlen

module _ (rdata : RData) (valid : IsData rdata) (w : Writer) (right : IsRight w) where
  -- The data as it is written behind zeros, and behind its length.
  reserved : DataTrip rdata (write_u16 0 w)
  reserved = data_trip rdata valid (write_u16 0 w) (put-IsRight (be16 0) w right)

  rdlen : ℕ
  rdlen = length reserved.out

  direct : DataTrip rdata (write_u16 rdlen w)
  direct = data_trip rdata valid (write_u16 rdlen w) (put-IsRight (be16 rdlen) w right)

  rdlen-IsU16 : IsU16 rdlen
  unfolding rdlen
  rdlen-IsU16 = reserved.fits

  reserved_size : pos reserved.result ≡ pos w + 2 + rdlen
  unfolding rdlen
  reserved_size =
      ap length reserved.appended
      ∙ omega (arith, length-append (w.buf ++ be16 0) reserved.out, length-append w.buf (be16 0))

  direct_result : pos direct.result ≡ pos w + 2 + rdlen
  direct_result =
      direct_length rdata w reserved.result direct.result rdlen reserved.run reserved_size
        direct.run

  direct_out : length direct.out ≡ rdlen
  direct_out = omega (
    arith,
    direct_result,
    ap length direct.appended,
    length-append (w.buf ++ be16 rdlen) direct.out,
    length-append w.buf (be16 rdlen),
  )

  -- The reader at the length, and behind it.
  data_back :
      (later : Bytes)
      → (read_u16 (reader_at direct.result.buf later (pos w))
          >>= after_data (wire_type (rdata_type rdata)))
        ≡ ok (rdata, reader_at direct.result.buf later (pos direct.result))
  unfolding after_data Rdata.parse
  data_back later =
      let r : Reader = reader_at direct.result.buf later (pos w) in
      let r₂ : Reader = reader_at direct.result.buf later (pos w + 2) in
      let r₃ : Reader = reader_at direct.result.buf later (pos direct.result) in
      let ahead : drop r.pos r.buf ≡ be16 rdlen ++ (direct.out ++ later) =
        ap (λ (b : Bytes). drop (pos w) (b ++ later)) direct.appended
        ∙ ap (drop (pos w)) (append_assoc (w.buf ++ be16 rdlen) direct.out later)
        ∙ ahead_of_put (be16 rdlen) (direct.out ++ later) w in
      let start : pos (write_u16 rdlen w) ≡ pos w + 2 = length-append w.buf (be16 rdlen) in
      let inner : parse_inner r₂ (wire_type (rdata_type rdata)) rdlen ≡ ok (rdata, r₃) =
        subst
          (λ (p : ℕ).
            parse_inner (reader_at direct.result.buf later p) (wire_type (rdata_type rdata)) rdlen
            ≡ ok (rdata, r₃))
          start
          (subst
            (λ (n : ℕ).
              parse_inner (reader_at direct.result.buf later (pos (write_u16 rdlen w)))
                (wire_type (rdata_type rdata)) n
              ≡ ok (rdata, r₃))
            direct_out (direct.inner later)) in
      let taken : (pos direct.result - (pos w + 2) == rdlen) ≡ true =
        (==_iff _ rdlen).1 (omega (arith, direct_result)) in
      rw (read_u16_ahead r rdlen (direct.out ++ later) rdlen-IsU16 ahead) (rw inner (rw taken))

  data-RoundTrip :
      RoundTrip RData
        (write_data rdata)
        (λ r. read_u16 r >>= after_data (wire_type (rdata_type rdata)))
        rdata
        65537
        w
  data-RoundTrip = record {
    result = direct.result;
    out = be16 rdlen ++ direct.out;
    run =
        backfill_is_direct rdata w reserved.result rdlen reserved.run reserved_size rdlen-IsU16
        ∙ direct.run;
    appended = direct.appended ∙ append_assoc w.buf (be16 rdlen) direct.out;
    small = omega (arith, direct.fits);
    right = direct.right;
    back = data_back;
  }

-- The largest record that the parser accepts: a name, ten bytes of fields and 65535 of data.
abbrev pub max_record : ℕ
max_record = 255 + (2 + (2 + (4 + 65537)))

wire_type-IsU16 : (rdata : RData) → IsData rdata → IsU16 (wire_type (rdata_type rdata))
unfolding record_type_code
wire_type-IsU16 (unknown rtype payload) (unknown_valid h u f) = h
wire_type-IsU16 rdata h = omega arith

-- From a writer whose remembered names lie at their offsets, a valid record of any type is written
-- and `parse` reads it back from where it was written, whatever is written later; it stops where the
-- writer stopped, and the remembered names still lie at their offsets.
pub record-RoundTrip :
    (rr : ResourceRecord)
    → IsValid rr
    → (w : Writer) → IsRight w
    → RoundTrip ResourceRecord (Record.write rr) Record.parse rr max_record w
unfolding Record.write Record.parse record_type write_data after_data
record-RoundTrip rr h =
    let code : ℕ = wire_type (rdata_type rr.rdata) in
    Codes-bind (write_name rr.name) _ read_name _ rr.name rr 255 _
      (text_round_trip rr.name h.name_valid)
      (Codes-bind _ _ read_u16 _ code rr 2 _
        (u16_round_trip code (wire_type-IsU16 rr.rdata h.data_valid))
        (Codes-bind _ _ read_u16 _ rr.class.code rr 2 _ (u16_round_trip rr.class.code h.class_fits)
          (Codes-bind _ (write_data rr.rdata) read_u32 _ rr.ttl rr 4 _
            (u32_round_trip rr.ttl h.ttl_fits)
            (Codes-parse _ _ (λ r. sym (>>=_assoc (read_u16 r) (after_data code) _))
              (Codes-map (write_data rr.rdata) (λ r. read_u16 r >>= after_data code)
                (λ d. record { name = rr.name; class = rr.class; ttl = rr.ttl; rdata = d }) rr.rdata
                65537 (data-RoundTrip rr.rdata h.data_valid))))))
