-- ===== src/Proto/Record/Edns.antt =====
-- The octets of an OPT record's ttl: the extended RCODE, the version, the flags.
use dnser.Base.{
  ℕ, ◌+◌, ◌*◌, ◌/◌, ◌%◌, ◌^◌, ◌<◌, ◌≡◌, refl, ap, sym, ◌∙◌, true, some, arith, bit_and, bit_or,
}
use dnser.Base.Bits.{and_low, or_fields}
use dnser.Base.Octets.{or_octet, and_octet, and_full_octet}
use dnser.Proto.Record.{
  ResourceRecord, is_opt, edns_extended_rcode, edns_version, set_edns_extended_rcode,
  set_edns_version,
}

zero_or : (n : ℕ) → n < 256 → bit_or 0 n ≡ n
zero_or n h = omega (arith, or_fields 8 0 n h)

rcode_octet :
    (t e : ℕ)
    → e < 256
    → bit_or (bit_and t 0x00FF_FFFF) (e * 2 ^ 24 % 2 ^ 32) ≡ e * 2 ^ 24 + t % 2 ^ 24
rcode_octet t e h =
    ap (λ (n : ℕ). bit_or n (e * 2 ^ 24 % 2 ^ 32)) (and_low 24 t 0x00FF_FFFF refl)
    ∙ ap (bit_or (t % 2 ^ 24)) (regroup e h)
    ∙ omega (
      arith,
      or_octet (t % 2 ^ 24) (e * 256 * 256),
      or_octet (t % 2 ^ 24 / 256) (e * 256),
      or_octet (t % 2 ^ 24 / 256 / 256) e,
      ap (λ (n : ℕ). bit_or n e) (none_above t),
      zero_or e h,
    )
  where
    regroup : (n : ℕ) → n < 256 → n * 2 ^ 24 % 2 ^ 32 ≡ n * 256 * 256 * 256
    regroup n p = omega arith

    none_above : (n : ℕ) → n % 2 ^ 24 / 256 / 256 / 256 ≡ 0
    none_above n = omega arith

version_mask : (t : ℕ) → bit_and t 0xFF00_FFFF ≡ (t / 2 ^ 24 % 256) * 2 ^ 24 + t % 2 ^ 16
version_mask t = omega (
  arith,
  and_full_octet t 0xFF00FF,
  and_full_octet (t / 256) 0xFF00,
  and_octet (t / 256 / 256) 0xFF,
  and_low 8 (t / 256 / 256 / 256) 0xFF refl,
)

version_octet :
    (t v : ℕ)
    → v < 256
    → bit_or (bit_and t 0xFF00_FFFF) (v * 2 ^ 16 % 2 ^ 32)
      ≡ (t / 2 ^ 24 % 256) * 2 ^ 24 + v * 2 ^ 16 + t % 2 ^ 16
version_octet t v h =
    ap (λ (n : ℕ). bit_or n (v * 2 ^ 16 % 2 ^ 32)) (version_mask t)
    ∙ ap (bit_or ((t / 2 ^ 24 % 256) * 2 ^ 24 + t % 2 ^ 16)) (regroup v h)
    ∙ omega (
      arith,
      or_octet ((t / 2 ^ 24 % 256) * 2 ^ 24 + t % 2 ^ 16) (v * 256),
      or_octet (((t / 2 ^ 24 % 256) * 2 ^ 24 + t % 2 ^ 16) / 256) v,
      ap (λ (n : ℕ). bit_or n v) (above (t / 2 ^ 24 % 256) (t % 2 ^ 16) (omega arith)),
      or_fields 8 (t / 2 ^ 24 % 256) v h,
    )
  where
    regroup : (n : ℕ) → n < 256 → n * 2 ^ 16 % 2 ^ 32 ≡ n * 256 * 256
    regroup n p = omega arith

    above : (n low : ℕ) → low < 2 ^ 16 → (n * 2 ^ 24 + low) / 256 / 256 ≡ n * 2 ^ 8
    above n low p = omega arith

opt_rcode :
    (rr : ResourceRecord) → is_opt rr ≡ true → edns_extended_rcode rr ≡ some (rr.ttl / 2 ^ 24 % 256)
unfolding edns_extended_rcode
opt_rcode rr is = rw is (ap some (omega (arith, and_low 8 (rr.ttl / 2 ^ 24) 0xFF refl)))

opt_version :
    (rr : ResourceRecord) → is_opt rr ≡ true → edns_version rr ≡ some (rr.ttl / 2 ^ 16 % 256)
unfolding edns_version
opt_version rr is = rw is (ap some (omega (arith, and_low 8 (rr.ttl / 2 ^ 16) 0xFF refl)))

ttl-set_edns_extended_rcode :
    (rr : ResourceRecord) (n : ℕ)
    → is_opt rr ≡ true
    → n < 256
    → (is_opt (set_edns_extended_rcode rr n) ≡ true)
      × ((set_edns_extended_rcode rr n).ttl ≡ n * 2 ^ 24 + rr.ttl % 2 ^ 24)
unfolding set_edns_extended_rcode is_opt
ttl-set_edns_extended_rcode rr n is small = (ground (arith, is), rw is (rcode_octet rr.ttl n small))

ttl-set_edns_version :
    (rr : ResourceRecord) (n : ℕ)
    → is_opt rr ≡ true
    → n < 256
    → (is_opt (set_edns_version rr n) ≡ true)
      × ((set_edns_version rr n).ttl
          ≡ (rr.ttl / 2 ^ 24 % 256) * 2 ^ 24 + n * 2 ^ 16 + rr.ttl % 2 ^ 16)
unfolding set_edns_version is_opt
ttl-set_edns_version rr n is small = (ground (arith, is), rw is (version_octet rr.ttl n small))

-- On an OPT record each setter sets what its accessor reads and leaves the other field and the 16 flags
-- as they were.
pub edns_setters :
    (rr : ResourceRecord) (n : ℕ)
    → is_opt rr ≡ true
    → n < 256
    → (edns_extended_rcode (set_edns_extended_rcode rr n) ≡ some n)
      × (edns_version (set_edns_extended_rcode rr n) ≡ edns_version rr)
      × ((set_edns_extended_rcode rr n).ttl % 2 ^ 16 ≡ rr.ttl % 2 ^ 16)
      × (edns_version (set_edns_version rr n) ≡ some n)
      × (edns_extended_rcode (set_edns_version rr n) ≡ edns_extended_rcode rr)
      × ((set_edns_version rr n).ttl % 2 ^ 16 ≡ rr.ttl % 2 ^ 16)
edns_setters rr n is small =
    let a : ResourceRecord = set_edns_extended_rcode rr n in
    let b : ResourceRecord = set_edns_version rr n in
    let (is_a, ttl_a) = ttl-set_edns_extended_rcode rr n is small in
    let (is_b, ttl_b) = ttl-set_edns_version rr n is small in
    (
      opt_rcode a is_a ∙ ap some (omega (arith, ttl_a, small)),
      opt_version a is_a
          ∙ ap some {x = a.ttl / 2 ^ 16 % 256} {y = rr.ttl / 2 ^ 16 % 256} (omega (arith, ttl_a))
          ∙ sym (opt_version rr is),
      omega (arith, ttl_a),
      opt_version b is_b ∙ ap some (omega (arith, ttl_b, small)),
      opt_rcode b is_b
          ∙ ap some {x = b.ttl / 2 ^ 24 % 256} {y = rr.ttl / 2 ^ 24 % 256}
              (omega (arith, ttl_b, small))
          ∙ sym (opt_rcode rr is),
      omega (arith, ttl_b),
    )
