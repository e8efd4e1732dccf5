-- ===== src/Proto/Header/Replies.antt =====
-- `Header::reply_to`, digit by digit, and the accessors as the digits of the flags.
use mathlib.Core.Path.{ap₂}
use native.Mathlib.Nat.{one-le-pow}
use dnser.Base.{
  sym, ==_iff, ◌||◌, ℕ, suc, zero, ◌+◌, ◌*◌, ◌%◌, ◌^◌, ◌≤◌, ◌<◌, min, max, ◌≡◌, refl, ap, ◌∙◌, true,
  not, ◌==◌, arith, bit_and, bit_or,
}
use dnser.Base.Bits.{bit, bit-and, bit-or, and_single, and_low, bit-le-one}
use dnser.Proto.Codes.{rcode_try_from}
use dnser.Proto.Header.{
  Header, reply_to, qr, rd, is_response, is_truncated, recursion_desired, recursion_available,
  rcode, checking_disabled, is_authoritative, authentic_data, default,
}

digit_test : (b p v : ℕ) → b ≤ 1 → 0 < p → v ≡ b * p → not (v == 0) ≡ (b == 1)
digit_test zero p v h q e = ground arith
digit_test (suc zero) p v h q e = ground arith
digit_test (suc (suc b)) p v h q e = absurd (omega arith)

-- `flags & mask != 0` for a mask of one digit.
pub flag_test : (flags k : ℕ) → not (bit_and flags (2 ^ k) == 0) ≡ (bit flags k == 1)
flag_test flags k =
    digit_test (bit flags k) (2 ^ k) (bit_and flags (2 ^ k)) (bit-le-one flags k)
      (one-le-pow k 2 (omega arith)) (and_single flags k)

-- Each digit of a reply's flags: that of QR or of the caller's flags, or, at RD, that of the query.
pub reply_bits :
    (query : Header) (extra k : ℕ)
    → bit (reply_to query extra).flags k
      ≡ max (max (bit qr k) (bit extra k)) (min (bit query.flags k) (bit rd k))
unfolding reply_to
reply_bits query extra k =
    bit-or (bit_or qr extra) (bit_and query.flags rd) k
    ∙ ap (λ (n : ℕ). max n (bit (bit_and query.flags rd) k)) (bit-or qr extra k)
    ∙ ap (λ (n : ℕ). max (max (bit qr k) (bit extra k)) n) (bit-and query.flags rd k)

-- A digit that neither QR nor RD sets is the caller's.
own_digit :
    (query : Header) (extra k : ℕ)
    → bit qr k ≡ 0
    → bit rd k ≡ 0
    → bit (reply_to query extra).flags k ≡ bit extra k
own_digit query extra k h₁ h₂ = omega (arith, reply_bits query extra k)

own_flag :
    (query : Header) (extra k : ℕ)
    → bit qr k ≡ 0
    → bit rd k ≡ 0
    → not (bit_and (reply_to query extra).flags (2 ^ k) == 0) ≡ not (bit_and extra (2 ^ k) == 0)
own_flag query extra k h₁ h₂ =
    flag_test (reply_to query extra).flags k
    ∙ ap (λ (n : ℕ). n == 1) (own_digit query extra k h₁ h₂)
    ∙ sym (flag_test extra k)

or_test : (n e q : ℕ) → n ≡ max (max 0 e) (min q 1) → e ≤ 1 → q ≤ 1 → (n == 1) ≡ (e == 1 || q == 1)
or_test n zero zero h p q = ground arith
or_test n zero (suc zero) h p q = ground arith
or_test n (suc zero) zero h p q = ground arith
or_test n (suc zero) (suc zero) h p q = ground arith
or_test n (suc (suc e)) q h p r = absurd (omega arith)
or_test n e (suc (suc q)) h p r = absurd (omega arith)

low_four : (query : Header) (extra : ℕ) → (reply_to query extra).flags % 2 ^ 4 ≡ extra % 2 ^ 4
low_four query extra = omega (
  arith,
  own_digit query extra 0 refl refl,
  own_digit query extra 1 refl refl,
  own_digit query extra 2 refl refl,
  own_digit query extra 3 refl refl,
)

-- A header with the caller's flags alone.
abbrev pub with_flags : ℕ → Header
with_flags flags = record default { flags = flags }

pub reply_to_lem :
    (query : Header) (extra : ℕ)
    → ((reply_to query extra).id ≡ query.id)
      × ((reply_to query extra).qd_count ≡ query.qd_count)
      × ((reply_to query extra).an_count
            + (reply_to query extra).ns_count
            + (reply_to query extra).ar_count
          ≡ 0)
      × (is_response (reply_to query extra) ≡ true)
      × (recursion_desired (reply_to query extra)
          ≡ recursion_desired (with_flags extra) || recursion_desired query)
      × (is_truncated (reply_to query extra) ≡ is_truncated (with_flags extra))
      × (is_authoritative (reply_to query extra) ≡ is_authoritative (with_flags extra))
      × (recursion_available (reply_to query extra) ≡ recursion_available (with_flags extra))
      × (authentic_data (reply_to query extra) ≡ authentic_data (with_flags extra))
      × (checking_disabled (reply_to query extra) ≡ checking_disabled (with_flags extra))
      × (rcode (reply_to query extra) ≡ rcode (with_flags extra))
unfolding is_response recursion_desired is_truncated is_authoritative recursion_available
    authentic_data checking_disabled rcode
reply_to_lem query extra = (
  unfold reply_to in refl,
  unfold reply_to in refl,
  unfold reply_to in refl,
  flag_test (reply_to query extra).flags 15
      ∙ (==_iff _ 1).1 (omega (arith, reply_bits query extra 15)),
  flag_test (reply_to query extra).flags 8
      ∙ or_test _ (bit extra 8) (bit query.flags 8) (reply_bits query extra 8) (bit-le-one extra 8)
          (bit-le-one query.flags 8)
      ∙ ap₂ ◌||◌ (sym (flag_test extra 8)) (sym (flag_test query.flags 8)),
  own_flag query extra 9 refl refl,
  own_flag query extra 10 refl refl,
  own_flag query extra 7 refl refl,
  own_flag query extra 5 refl refl,
  own_flag query extra 4 refl refl,
  ap (λ (n : ℕ). rcode_try_from (n % 256))
      (and_low 4 (reply_to query extra).flags 15 refl
        ∙ low_four query extra
        ∙ sym (and_low 4 extra 15 refl)),
)
