-- ===== src/Common/Bits.antt =====
-- `|` of two numbers whose binary digits do not overlap is their sum.
use Prim.Native.Nat.{
  ℕ, zero, suc, ◌+◌, ◌*◌, ◌/◌, ◌%◌, ◌^◌, ◌≤◌, ◌<◌, max, bit_or, digits, bit_or-bitwise,
}
use mathlib.Core.Path.{◌≡◌, refl, ap}
use native.Mathlib.Nat.{le_refl, pow-suc}
use native.Mathlib.Omega.{arith}

-- The recursion on digits takes any fuel from the first argument on.
or_digits_fuel :
    (n m a b : ℕ) → a ≤ n → a ≤ m → digits (λ y. y) max n a b ≡ digits (λ y. y) max m a b
or_digits_fuel zero zero a b p q = refl
or_digits_fuel zero (suc m) zero b p q = refl
or_digits_fuel zero (suc m) (suc a) b p q = absurd (omega arith)
or_digits_fuel (suc n) zero zero b p q = refl
or_digits_fuel (suc n) zero (suc a) b p q = absurd (omega arith)
or_digits_fuel (suc n) (suc m) zero b p q = refl
or_digits_fuel (suc n) (suc m) (suc a) b p q =
    rw (or_digits_fuel n m (suc a / 2) (b / 2) (omega arith) (omega arith))

or_step : (a b : ℕ) → bit_or a b ≡ bit_or (a / 2) (b / 2) * 2 + max (a % 2) (b % 2)
or_step zero b = simp bit_or-bitwise (omega arith)
or_step (suc a) b =
    simp bit_or-bitwise
      (omega (arith, or_digits_fuel a (suc a / 2) (suc a / 2) (b / 2) (omega arith) (le_refl _)))

or_low_zero : (b : ℕ) → bit_or 0 b ≡ b
or_low_zero b = simp bit_or-bitwise (omega arith)

double_shift : (g k : ℕ) → g * 2 ^ suc k ≡ 2 * (g * 2 ^ k)
double_shift g k = omega (arith, ap (λ (t : ℕ). g * t) (pow-suc 2 k))

pub bit_or-disjoint : (k a g : ℕ) → a < 2 ^ k → bit_or a (g * 2 ^ k) ≡ a + g * 2 ^ k
bit_or-disjoint zero a g h = ground (arith, or_low_zero g)
bit_or-disjoint (suc k) a g h = ground (
  arith,
  or_step a (g * 2 ^ suc k),
  double_shift g k,
  pow-suc 2 k,
  bit_or-disjoint k (a / 2) g (omega (arith, pow-suc 2 k)),
)
