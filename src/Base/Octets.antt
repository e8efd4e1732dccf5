-- ===== src/Base/Octets.antt =====
-- `&` and `|` octet by octet, from the lowest up.
use Prim.Native.Nat.{ℕ, ◌+◌, ◌*◌, ◌/◌, ◌%◌, bit_and, bit_or}
use mathlib.Core.Path.{◌≡◌, ap}
use native.Mathlib.Omega.{arith}
use dnser.Base.Bits.{or_even, and_even, and_odd}

eighth : (b : ℕ) → b / 2 / 2 / 2 / 2 / 2 / 2 / 2 / 2 ≡ b / 256
eighth b = omega arith

-- The octet of the mask is 0.
pub or_octet : (a m : ℕ) → bit_or a (m * 256) ≡ bit_or (a / 256) m * 256 + a % 256
or_octet a m = omega (
  arith,
  ap (bit_or a) (regroup m),
  or_even a (m * 2 * 2 * 2 * 2 * 2 * 2 * 2),
  or_even (a / 2) (m * 2 * 2 * 2 * 2 * 2 * 2),
  or_even (a / 2 / 2) (m * 2 * 2 * 2 * 2 * 2),
  or_even (a / 2 / 2 / 2) (m * 2 * 2 * 2 * 2),
  or_even (a / 2 / 2 / 2 / 2) (m * 2 * 2 * 2),
  or_even (a / 2 / 2 / 2 / 2 / 2) (m * 2 * 2),
  or_even (a / 2 / 2 / 2 / 2 / 2 / 2) (m * 2),
  or_even (a / 2 / 2 / 2 / 2 / 2 / 2 / 2) m,
  ap (λ (t : ℕ). bit_or t m) (eighth a),
)
  where
    regroup : (n : ℕ) → n * 256 ≡ n * 2 * 2 * 2 * 2 * 2 * 2 * 2 * 2
    regroup n = omega arith

pub and_octet : (a m : ℕ) → bit_and a (m * 256) ≡ bit_and (a / 256) m * 256
and_octet a m = omega (
  arith,
  ap (bit_and a) (regroup m),
  and_even a (m * 2 * 2 * 2 * 2 * 2 * 2 * 2),
  and_even (a / 2) (m * 2 * 2 * 2 * 2 * 2 * 2),
  and_even (a / 2 / 2) (m * 2 * 2 * 2 * 2 * 2),
  and_even (a / 2 / 2 / 2) (m * 2 * 2 * 2 * 2),
  and_even (a / 2 / 2 / 2 / 2) (m * 2 * 2 * 2),
  and_even (a / 2 / 2 / 2 / 2 / 2) (m * 2 * 2),
  and_even (a / 2 / 2 / 2 / 2 / 2 / 2) (m * 2),
  and_even (a / 2 / 2 / 2 / 2 / 2 / 2 / 2) m,
  ap (λ (t : ℕ). bit_and t m) (eighth a),
)
  where
    regroup : (n : ℕ) → n * 256 ≡ n * 2 * 2 * 2 * 2 * 2 * 2 * 2 * 2
    regroup n = omega arith

-- The octet of the mask is 0xFF.
pub and_full_octet : (a m : ℕ) → bit_and a (m * 256 + 255) ≡ bit_and (a / 256) m * 256 + a % 256
and_full_octet a m = omega (
  arith,
  ap (bit_and a) (regroup m),
  and_odd a (((((((m * 2 + 1) * 2 + 1) * 2 + 1) * 2 + 1) * 2 + 1) * 2 + 1) * 2 + 1),
  and_odd (a / 2) ((((((m * 2 + 1) * 2 + 1) * 2 + 1) * 2 + 1) * 2 + 1) * 2 + 1),
  and_odd (a / 2 / 2) (((((m * 2 + 1) * 2 + 1) * 2 + 1) * 2 + 1) * 2 + 1),
  and_odd (a / 2 / 2 / 2) ((((m * 2 + 1) * 2 + 1) * 2 + 1) * 2 + 1),
  and_odd (a / 2 / 2 / 2 / 2) (((m * 2 + 1) * 2 + 1) * 2 + 1),
  and_odd (a / 2 / 2 / 2 / 2 / 2) ((m * 2 + 1) * 2 + 1),
  and_odd (a / 2 / 2 / 2 / 2 / 2 / 2) (m * 2 + 1),
  and_odd (a / 2 / 2 / 2 / 2 / 2 / 2 / 2) m,
  ap (λ (t : ℕ). bit_and t m) (eighth a),
)
  where
    regroup :
        (n : ℕ)
        → n * 256 + 255
          ≡ (((((((n * 2 + 1) * 2 + 1) * 2 + 1) * 2 + 1) * 2 + 1) * 2 + 1) * 2 + 1) * 2 + 1
    regroup n = omega arith
