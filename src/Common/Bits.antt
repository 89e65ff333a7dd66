-- ===== src/Common/Bits.antt =====
-- `bit_or` of a multiple of 2 ^ k with k ones is a sum.
use Prim.Native.Nat.{
  ℕ, zero, suc, ◌+◌, ◌-◌, ◌*◌, ◌/◌, ◌%◌, ◌^◌, ◌≤◌, ◌<◌, max, bit_or, digits, bit_or-bitwise,
}
use mathlib.Core.Path.{◌≡◌, refl, ◌∙◌}
use native.Mathlib.Nat.{pow-suc}
use native.Mathlib.Omega.{arith}

abbrev or_digits : ℕ → ℕ → ℕ → ℕ
or_digits n a b = digits (λ b. b) max n a b

or_digits_fuel : (n m a b : ℕ) → a ≤ n → a ≤ m → or_digits n a b ≡ or_digits m a b
or_digits_fuel zero zero a b p q = refl
or_digits_fuel zero (suc m) zero b p q = refl
or_digits_fuel zero (suc m) (suc a) b p q = absurd (omega arith)
or_digits_fuel (suc n) zero zero b p q = refl
or_digits_fuel (suc n) zero (suc a) b p q = absurd (omega arith)
or_digits_fuel (suc n) (suc m) zero b p q = refl
or_digits_fuel (suc n) (suc m) (suc a) b p q =
    omega (arith, or_digits_fuel n m (suc a / 2) (b / 2) (omega arith) (omega arith))

pub zero-bit_or : (b : ℕ) → bit_or 0 b ≡ b
zero-bit_or b = bit_or-bitwise 0 b

pub bit_or_step : (a b : ℕ) → bit_or a b ≡ bit_or (a / 2) (b / 2) * 2 + max (a % 2) (b % 2)
bit_or_step zero b = omega (arith, zero-bit_or b, zero-bit_or (b / 2))
bit_or_step (suc a) b = omega (
  arith,
  bit_or-bitwise (suc a) b,
  bit_or-bitwise (suc a / 2) (b / 2),
  or_digits_fuel a (suc a / 2) (suc a / 2) (b / 2) (omega arith) (omega arith),
)

bit_or-zero_fuel : (n a : ℕ) → a ≤ n → bit_or a 0 ≡ a
bit_or-zero_fuel n zero h = refl
bit_or-zero_fuel zero (suc a) h = absurd (omega arith)
bit_or-zero_fuel (suc n) (suc a) h =
    omega (arith, bit_or_step (suc a) 0, bit_or-zero_fuel n (suc a / 2) (omega arith))

pub pow_pos : (k : ℕ) → 0 < 2 ^ k
pow_pos zero = omega arith
pow_pos (suc k) = rw pow-suc (omega (arith, pow_pos k))

-- One more low bit: from the halves to the whole.
bit_or_double :
    (t a : ℕ)
    → 0 < t
    → bit_or a (t - 1) ≡ a + (t - 1)
    → bit_or (a * 2) (t * 2 - 1) ≡ a * 2 + (t * 2 - 1)
bit_or_double t a pos h =
    let low : (a * 2) / 2 ≡ a = omega arith in
    let ones : (t * 2 - 1) / 2 ≡ t - 1 = omega arith in
    bit_or_step (a * 2) (t * 2 - 1) ∙ rw (low, ones, h) (omega arith)

-- x | (2^k - 1) fills the low k bits of a multiple of 2^k.
pub bit_or_ones : (k q : ℕ) → bit_or (q * 2 ^ k) (2 ^ k - 1) ≡ q * 2 ^ k + (2 ^ k - 1)
bit_or_ones zero q = omega (arith, bit_or-zero_fuel (q * 1) (q * 1))
bit_or_ones (suc k) q =
    let shift : q * (2 ^ k * 2) ≡ q * 2 ^ k * 2 = omega arith in
    rw (pow-suc, shift) (bit_or_double (2 ^ k) (q * 2 ^ k) (pow_pos k) (bit_or_ones k q))
