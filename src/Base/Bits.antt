-- ===== src/Base/Bits.antt =====
-- `&` and `|` on words of every width, as facts about their binary digits.
mod Step
use Step.{bit_and_step, bit_or_step}
use Prim.Native.Nat.{ℕ, zero, suc, ◌+◌, ◌*◌, ◌/◌, ◌%◌, ◌^◌, ◌≤◌, ◌<◌, min, max, bit_and, bit_or}
use mathlib.Core.Path.{◌≡◌, refl, ap, ◌∙◌}
use mathlib.Core.Bool.{Bool, true, false, ◌&&◌}
use dnser.Base.Tests.{◌==◌}
use native.Mathlib.Omega.{arith}
use native.Mathlib.Nat.{pow-suc, div-add-mod', mod-lt, one-le-pow}

-- Digit `k` of a number, 0 or 1.
abbrev pub bit : ℕ → ℕ → ℕ
bit a zero = a % 2
bit a (suc k) = bit (a / 2) k

pub bit-le-one : (a k : ℕ) → bit a k ≤ 1
bit-le-one a zero = omega arith
bit-le-one a (suc k) = bit-le-one (a / 2) k

half_and : (a b : ℕ) → bit_and a b / 2 ≡ bit_and (a / 2) (b / 2)
half_and a b = omega (arith, bit_and_step a b)

half_or : (a b : ℕ) → bit_or a b / 2 ≡ bit_or (a / 2) (b / 2)
half_or a b = omega (arith, bit_or_step a b)

pub bit-and : (a b k : ℕ) → bit (bit_and a b) k ≡ min (bit a k) (bit b k)
bit-and a b zero = omega (arith, bit_and_step a b)
bit-and a b (suc k) = rw half_and (bit-and (a / 2) (b / 2) k)

pub bit-or : (a b k : ℕ) → bit (bit_or a b) k ≡ max (bit a k) (bit b k)
bit-or a b zero = omega (arith, bit_or_step a b)
bit-or a b (suc k) = rw half_or (bit-or (a / 2) (b / 2) k)

-- Fuel in place of strong induction on `a`.
and-zero_fuel : (n a : ℕ) → a ≤ n → bit_and a 0 ≡ 0
and-zero_fuel zero a h = omega (arith, bit_and_step a 0, ap (λ (t : ℕ). bit_and t 0) (le_zero a h))
  where
    le_zero : (b : ℕ) → b ≤ 0 → b ≡ 0
    le_zero b p = omega arith
and-zero_fuel (suc n) zero h = refl
and-zero_fuel (suc n) (suc a) h =
    omega (arith, bit_and_step (suc a) 0, and-zero_fuel n (suc a / 2) (omega arith))

pub and-zero : (a : ℕ) → bit_and a 0 ≡ 0
and-zero a = and-zero_fuel a a (omega arith)

or-zero_fuel : (n a : ℕ) → a ≤ n → bit_or a 0 ≡ a
or-zero_fuel zero zero h = refl
or-zero_fuel zero (suc a) h = absurd (omega arith)
or-zero_fuel (suc n) zero h = refl
or-zero_fuel (suc n) (suc a) h =
    omega (arith, bit_or_step (suc a) 0, or-zero_fuel n (suc a / 2) (omega arith))

pub or-zero : (a : ℕ) → bit_or a 0 ≡ a
or-zero a = or-zero_fuel a a (omega arith)

-- A mask of one digit.
pub and_single : (a k : ℕ) → bit_and a (2 ^ k) ≡ bit a k * 2 ^ k
and_single a zero = omega (arith, bit_and_step a 1, and-zero (a / 2))
and_single a (suc k) = omega (
  arith,
  bit_and_step a (2 ^ suc k),
  half_pow k,
  ap (λ (t : ℕ). bit_and (a / 2) t) (half_pow k),
  and_single (a / 2) k,
  pow-suc 2 k,
  ap (λ (t : ℕ). bit (a / 2) k * t) (pow-suc 2 k),
)
  where
    half_pow : (j : ℕ) → 2 ^ suc j / 2 ≡ 2 ^ j
    half_pow j = omega (arith, pow-suc 2 j)

-- `|` of disjoint fields is their sum.
pub or_fields : (k high low : ℕ) → low < 2 ^ k → bit_or (high * 2 ^ k) low ≡ high * 2 ^ k + low
or_fields zero high low h =
    omega (arith, ap (λ (t : ℕ). bit_or (high * 1) t) (lt_one low h), or-zero (high * 1))
  where
    lt_one : (b : ℕ) → b < 1 → b ≡ 0
    lt_one b p = omega arith
or_fields (suc k) high low h = omega (
  arith,
  bit_or_step (high * 2 ^ suc k) low,
  doubled,
  ap (λ (t : ℕ). bit_or t (low / 2)) (halved (high * 2 ^ suc k) (high * 2 ^ k) doubled),
  or_fields k high (low / 2) (omega (arith, pow-suc 2 k)),
)
  where
    doubled : high * 2 ^ suc k ≡ 2 * (high * 2 ^ k)
    doubled = omega (arith, ap (λ (t : ℕ). high * t) (pow-suc 2 k))

    halved : (x y : ℕ) → x ≡ 2 * y → x / 2 ≡ y
    halved x y e = omega arith

and_low_fields :
    (k high low mask : ℕ) → low < 2 ^ k → mask + 1 ≡ 2 ^ k → bit_and (high * 2 ^ k + low) mask ≡ low
and_low_fields zero high low mask h e =
    omega (
      arith,
      ap (λ (t : ℕ). bit_and (high * 1 + low) t) (no_mask mask e),
      and-zero (high * 1 + low),
    )
  where
    no_mask : (b : ℕ) → b + 1 ≡ 1 → b ≡ 0
    no_mask b p = omega arith
and_low_fields (suc k) high low mask h e = omega (
  arith,
  bit_and_step (high * 2 ^ suc k + low) mask,
  doubled,
  pow-suc 2 k,
  ap (λ (t : ℕ). bit_and t (mask / 2)) halved,
  and_low_fields k high (low / 2) (mask / 2) (omega (arith, pow-suc 2 k))
      (omega (arith, pow-suc 2 k)),
)
  where
    doubled : high * 2 ^ suc k ≡ 2 * (high * 2 ^ k)
    doubled = omega (arith, ap (λ (t : ℕ). high * t) (pow-suc 2 k))

    halved : (high * 2 ^ suc k + low) / 2 ≡ high * 2 ^ k + low / 2
    halved = omega (arith, doubled)

-- A mask of the `k` lowest digits is the remainder by `2 ^ k`.
pub and_low : (k a mask : ℕ) → mask + 1 ≡ 2 ^ k → bit_and a mask ≡ a % 2 ^ k
and_low k a mask e =
    let split : a ≡ a / 2 ^ k * 2 ^ k + a % 2 ^ k = omega (arith, div-add-mod' a (2 ^ k)) in
    ap (λ (t : ℕ). bit_and t mask) split
    ∙ and_low_fields k (a / 2 ^ k) (a % 2 ^ k) mask (mod-lt a (one-le-pow k 2 (omega arith))) e

-- Two functions that agree on every number below `n`, by evaluation.
module _ (f g : ℕ → ℕ) where
  same_upto : ℕ → Bool
  same_upto zero = true
  same_upto (suc n) = f n == g n && same_upto n

  same_upto_sound : (n : ℕ) → same_upto n ≡ true → (x : ℕ) → x < n → f x ≡ g x
  unfolding same_upto
  same_upto_sound zero e x h = absurd (omega arith)
  same_upto_sound (suc n) e x h = ground (arith, same_upto_sound n (ground arith) x)

-- The two top bits of a byte.
pub top_two_bits : (b : ℕ) → b < 256 → bit_and b 0b1100_0000 ≡ b / 64 * 64
unfolding same_upto
top_two_bits = same_upto_sound (λ b. bit_and b 0b1100_0000) (λ b. b / 64 * 64) 256 refl

-- The lowest digit, where the other number has none there.
pub or_even : (a b : ℕ) → bit_or a (b * 2) ≡ bit_or (a / 2) b * 2 + a % 2
or_even a b = omega (arith, bit_or_step a (b * 2), ap (λ (t : ℕ). bit_or (a / 2) t) (halved b))
  where
    halved : (c : ℕ) → c * 2 / 2 ≡ c
    halved c = omega arith

pub and_even : (a b : ℕ) → bit_and a (b * 2) ≡ bit_and (a / 2) b * 2
and_even a b = omega (arith, bit_and_step a (b * 2), ap (λ (t : ℕ). bit_and (a / 2) t) (halved b))
  where
    halved : (c : ℕ) → c * 2 / 2 ≡ c
    halved c = omega arith

pub and_odd : (a b : ℕ) → bit_and a (b * 2 + 1) ≡ bit_and (a / 2) b * 2 + a % 2
and_odd a b =
    omega (arith, bit_and_step a (b * 2 + 1), ap (λ (t : ℕ). bit_and (a / 2) t) (halved b))
  where
    halved : (c : ℕ) → (c * 2 + 1) / 2 ≡ c
    halved c = omega arith

-- A digit at place 8 is set in the high byte; the low byte stays.
pub or_256 : (a : ℕ) → bit_or a 256 ≡ bit_or (a / 256) 1 * 256 + a % 256
or_256 a = omega (
  arith,
  or_even a 128,
  or_even (a / 2) 64,
  or_even (a / 2 / 2) 32,
  or_even (a / 2 / 2 / 2) 16,
  or_even (a / 2 / 2 / 2 / 2) 8,
  or_even (a / 2 / 2 / 2 / 2 / 2) 4,
  or_even (a / 2 / 2 / 2 / 2 / 2 / 2) 2,
  or_even (a / 2 / 2 / 2 / 2 / 2 / 2 / 2) 1,
  ap (λ (t : ℕ). bit_or t 1) (eighth a),
)
  where
    eighth : (b : ℕ) → b / 2 / 2 / 2 / 2 / 2 / 2 / 2 / 2 ≡ b / 256
    eighth b = omega arith

pub or_one-lt : (a : ℕ) → a < 256 → bit_or a 1 < 256
or_one-lt a h = omega (arith, bit_or_step a 1, or-zero (a / 2))
