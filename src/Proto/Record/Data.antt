-- ===== src/Proto/Record/Data.antt =====
-- The data of a record, of every type, is read back with the type and the length that the writer
-- puts in front of it.
use dnser.Base.{
  ℕ, suc, ◌≡◌, refl, sym, ap, subst, ◌∙◌, true, [], length, ok, err, stuck, ◌>>=◌, arith, Result,
}
use dnser.Base.Bytes.{Bytes, IsU16, IsU32}
use dnser.Proto.Codec.{Codes, Codes-bind, Codes-map}
use dnser.Proto.Codec.Names.{IsNameText, text_round_trip}
use dnser.Proto.Codec.Words.{u16_round_trip, u32_round_trip}
use dnser.Proto.Codes
use dnser.Proto.Codes.{RecordType, record_type_try_from, record_type_code}
use dnser.Proto.Rdata
use dnser.Proto.Rdata.{
  RData, a, aaaa, ns, cname, ptr, soa, mx, txt, srv, opt, unknown, EdnsOption, parse_inner,
  parse_matched, parse_typed,
}
use dnser.Proto.Rdata.Loops.{
  chunks_bytes, write_chunks-bytes, txt_loop-chunks, options_bytes, write_options-bytes,
  opt_loop-options,
}
use dnser.Proto.Reader.Ahead.{read_bytes_ahead}
use dnser.Proto.Reader.{Reader, read_name, read_u16, read_u32, read_bytes}
use mathlib.Core.Path.{fun_ext}
use dnser.Proto.Record.{wire_type, rdata_type}
use dnser.Proto.Writer.{Writer, Written, write_name}
use dnser.Proto.Writer.Offsets.{IsRight}
use dnser.Proto.Record.Valid.{
  is_untyped, IsData, DataTrip, from_codes, from_put, a_valid, aaaa_valid, ns_valid, cname_valid,
  ptr_valid, soa_valid, mx_valid, txt_valid, srv_valid, opt_valid, unknown_valid,
}

module _ (name : Bytes) (h : IsNameText name) where
  -- A record whose data is one name.
  named :
      (rdata : Bytes → RData)
      → ((w : Writer) → Rdata.write (rdata name) w ≡ write_name name w)
      → ((rdlen : ℕ) (r : Reader)
          → parse_inner r (wire_type (rdata_type (rdata name))) rdlen
            ≡ (read_name r >>= λ p. ok (rdata p.0, p.1)))
      → (w : Writer) → IsRight w
      → DataTrip (rdata name) w
  named rdata written same w right =
      from_codes (rdata name) (λ r. read_name r >>= λ p. ok (rdata p.0, p.1)) 255 (omega arith) same
        (subst
          (λ (f : Writer → Written).
            Codes RData f (λ r. read_name r >>= λ p. ok (rdata p.0, p.1)) (rdata name) 255)
          (sym (fun_ext written))
          (Codes-map (write_name name) read_name rdata name 255 (text_round_trip name h)))
        w right

soa-Codes :
    (mname rname : Bytes) (serial refresh retry expire minimum : ℕ)
    → IsNameText mname
    → IsNameText rname
    → IsU32 serial
    → IsU32 refresh
    → IsU32 retry
    → IsU32 expire
    → IsU32 minimum
    → Codes RData
        (Rdata.write (soa mname rname serial refresh retry expire minimum))
        (λ r. parse_typed Codes.soa 6 0 r)
        (soa mname rname serial refresh retry expire minimum)
        530
unfolding Rdata.write parse_typed
soa-Codes mname rname serial refresh retry expire minimum hm hr h₁ h₂ h₃ h₄ h₅ =
    Codes-bind (write_name mname) _ read_name _ mname _ 255 275 (text_round_trip mname hm) (
      Codes-bind (write_name rname) _ read_name _ rname _ 255 20 (text_round_trip rname hr) (
        Codes-bind _ _ read_u32 _ serial _ 4 16 (u32_round_trip serial h₁) (
          Codes-bind _ _ read_u32 _ refresh _ 4 12 (u32_round_trip refresh h₂) (
            Codes-bind _ _ read_u32 _ retry _ 4 8 (u32_round_trip retry h₃) (
              Codes-bind _ _ read_u32 _ expire _ 4 4 (u32_round_trip expire h₄) (
                Codes-map _ read_u32 (soa mname rname serial refresh retry expire) minimum 4
                  (u32_round_trip minimum h₅)))))))

mx-Codes :
    (preference : ℕ) (exchange : Bytes)
    → IsU16 preference
    → IsNameText exchange
    → Codes RData
        (Rdata.write (mx preference exchange))
        (λ r. parse_typed Codes.mx 15 0 r)
        (mx preference exchange)
        257
unfolding Rdata.write parse_typed
mx-Codes preference exchange h₁ h₂ =
    Codes-bind _ (write_name exchange) read_u16 _ preference _ 2 255 (u16_round_trip preference h₁)
      (Codes-map (write_name exchange) read_name (mx preference) exchange 255
        (text_round_trip exchange h₂))

srv-Codes :
    (priority weight port : ℕ) (target : Bytes)
    → IsU16 priority
    → IsU16 weight
    → IsU16 port
    → IsNameText target
    → Codes RData
        (Rdata.write (srv priority weight port target))
        (λ r. parse_typed Codes.srv 33 0 r)
        (srv priority weight port target)
        261
unfolding Rdata.write parse_typed
srv-Codes priority weight port target h₁ h₂ h₃ h₄ =
    Codes-bind _ _ read_u16 _ priority _ 2 259 (u16_round_trip priority h₁) (
      Codes-bind _ _ read_u16 _ weight _ 2 257 (u16_round_trip weight h₂) (
        Codes-bind _ (write_name target) read_u16 _ port _ 2 255 (u16_round_trip port h₃) (
          Codes-map (write_name target) read_name (srv priority weight port) target 255
            (text_round_trip target h₄))))

untyped_payload :
    (t : Result ℕ RecordType) (rtype rdlen : ℕ) (r : Reader)
    → is_untyped t ≡ true
    → parse_matched t rtype rdlen r ≡ (read_bytes r rdlen >>= λ p. ok (unknown rtype p.0, p.1))
unfolding parse_matched parse_typed
untyped_payload (ok Codes.ixfr) rtype rdlen r h = refl
untyped_payload (ok Codes.axfr) rtype rdlen r h = refl
untyped_payload (ok Codes.any) rtype rdlen r h = refl
untyped_payload (ok _) rtype rdlen r h = absurd (ground arith)
untyped_payload (err n) rtype rdlen r h = refl
untyped_payload stuck rtype rdlen r h = absurd (ground arith)

-- Data of every type that is valid is written, takes less than 2 ^ 16 bytes, and is parsed back.
pub data_trip : (rdata : RData) → IsData rdata → (w : Writer) → IsRight w → DataTrip rdata w
unfolding Rdata.write parse_inner parse_matched parse_typed record_type_try_from record_type_code
data_trip (a octets) (a_valid e) w right =
    from_put (a octets) octets w refl (omega arith)
      (λ r later ahead inside. ground (
        arith,
        ap (λ (n : ℕ). read_bytes r n) e,
        read_bytes_ahead r octets later ahead (omega arith),
      ))
      right
data_trip (aaaa octets) (aaaa_valid e) w right =
    from_put (aaaa octets) octets w refl (omega arith)
      (λ r later ahead inside. ground (
        arith,
        ap (λ (n : ℕ). read_bytes r n) e,
        read_bytes_ahead r octets later ahead (omega arith),
      ))
      right
data_trip (ns name) (ns_valid h) w right = named name h ns (λ v. refl) (λ rdlen r. refl) w right
data_trip (cname name) (cname_valid h) w right =
    named name h cname (λ v. refl) (λ rdlen r. refl) w right
data_trip (ptr name) (ptr_valid h) w right = named name h ptr (λ v. refl) (λ rdlen r. refl) w right
data_trip (soa mname rname serial refresh retry expire minimum) (soa_valid hm hr h₁ h₂ h₃ h₄ h₅) w
      right =
    from_codes _ _ 530 (omega arith) (λ rdlen r. refl)
      (soa-Codes mname rname serial refresh retry expire minimum hm hr h₁ h₂ h₃ h₄ h₅) w right
data_trip (mx preference exchange) (mx_valid h₁ h₂) w right =
    from_codes _ _ 257 (omega arith) (λ rdlen r. refl) (mx-Codes preference exchange h₁ h₂) w right
data_trip (txt chunks) (txt_valid h fits) w right =
    let n : ℕ = length (chunks_bytes chunks) in
    from_put (txt chunks) (chunks_bytes chunks) w (write_chunks-bytes chunks w h) fits
      (λ r later ahead inside.
        rw (txt_loop-chunks chunks (suc n) n [] r later refl (omega arith) ahead inside) refl)
      right
data_trip (srv priority weight port target) (srv_valid h₁ h₂ h₃ h₄) w right =
    from_codes _ _ 261 (omega arith) (λ rdlen r. refl)
      (srv-Codes priority weight port target h₁ h₂ h₃ h₄) w right
data_trip (opt options) (opt_valid h fits) w right =
    let n : ℕ = length (options_bytes options) in
    from_put (opt options) (options_bytes options) w (ap ok (write_options-bytes options w h)) fits
      (λ r later ahead inside.
        rw (opt_loop-options options (suc n) n [] r later h refl (omega arith) ahead inside) refl)
      right
data_trip (unknown rtype payload) (unknown_valid h untyped fits) w right =
    from_put (unknown rtype payload) payload w refl fits
      (λ r later ahead inside.
        untyped_payload (record_type_try_from rtype) rtype (length payload) r untyped
        ∙ rw (read_bytes_ahead r payload later ahead (omega arith)))
      right
