-- ===== src/Base/Bits/Step.antt =====
-- The lowest digit of `&` and `|`, from the definitions that the native operations stand for.
use Prim.Native.Nat.{ℕ, zero, suc, ◌+◌, ◌*◌, ◌/◌, ◌%◌, ◌≤◌, min, max}
use Prim.Native.Nat.{bit_and, bit_or, digits, bit_and-bitwise, bit_or-bitwise}
use mathlib.Core.Path.{◌≡◌, refl}
use native.Mathlib.Omega.{arith}

-- `digits` counts down from its first number; any count that is large enough gives the same.
module _ (last : ℕ → ℕ) (on_digit : ℕ → ℕ → ℕ) where
  count_suffices :
      (a b n k : ℕ) → a ≤ n → a ≤ k → digits last on_digit n a b ≡ digits last on_digit k a b
  count_suffices zero b zero zero hn hk = refl
  count_suffices zero b zero (suc k) hn hk = refl
  count_suffices zero b (suc n) zero hn hk = refl
  count_suffices zero b (suc n) (suc k) hn hk = refl
  count_suffices (suc a) b zero k hn hk = absurd (omega arith)
  count_suffices (suc a) b (suc n) zero hn hk = absurd (omega arith)
  count_suffices (suc a) b (suc n) (suc k) hn hk =
      rw (count_suffices (suc a / 2) (b / 2) n k (omega arith) (omega arith))

  pub lowest_digit :
      (a b : ℕ)
      → digits last on_digit (suc a) (suc a) b
        ≡ digits last on_digit (suc a / 2) (suc a / 2) (b / 2) * 2 + on_digit (suc a % 2) (b % 2)
  lowest_digit a b =
      rw (count_suffices (suc a / 2) (b / 2) a (suc a / 2) (omega arith) (omega arith))

pub bit_and_step : (a b : ℕ) → bit_and a b ≡ bit_and (a / 2) (b / 2) * 2 + min (a % 2) (b % 2)
bit_and_step zero b = omega (arith, bit_and-bitwise 0 b, bit_and-bitwise 0 (b / 2))
bit_and_step (suc a) b = omega (
  arith,
  bit_and-bitwise (suc a) b,
  bit_and-bitwise (suc a / 2) (b / 2),
  lowest_digit (λ y. 0) min a b,
)

pub bit_or_step : (a b : ℕ) → bit_or a b ≡ bit_or (a / 2) (b / 2) * 2 + max (a % 2) (b % 2)
bit_or_step zero b = omega (arith, bit_or-bitwise 0 b, bit_or-bitwise 0 (b / 2))
bit_or_step (suc a) b = omega (
  arith,
  bit_or-bitwise (suc a) b,
  bit_or-bitwise (suc a / 2) (b / 2),
  lowest_digit (λ y. y) max a b,
)
