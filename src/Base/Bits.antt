-- ===== src/Base/Bits.antt =====
-- `|` of numbers that share no bits is their sum.
use Prim.Native.Nat.{
  ℕ, zero, suc, ◌+◌, ◌*◌, ◌/◌, ◌%◌, ◌^◌, ◌≤◌, ◌<◌, max, bit_or, digits, bit_or-bitwise,
}
use mathlib.Core.Path.{◌≡◌, refl, ◌∙◌}
use native.Mathlib.Omega.{arith}
use native.Mathlib.Nat.{pow-suc}

-- The digits of `a | b`, lowest last, on enough fuel.
abbrev or_digits : ℕ → ℕ → ℕ → ℕ
or_digits n a b = digits (λ b. b) max n a b

or_digits_fuel : (n m a b : ℕ) → a ≤ n → a ≤ m → or_digits n a b ≡ or_digits m a b
or_digits_fuel zero zero a b p q = refl
or_digits_fuel zero (suc m) zero b p q = refl
or_digits_fuel zero (suc m) (suc a) b p q = absurd (omega arith)
or_digits_fuel (suc n) zero zero b p q = refl
or_digits_fuel (suc n) zero (suc a) b p q = absurd (omega arith)
or_digits_fuel (suc n) (suc m) zero b p q = refl
or_digits_fuel (suc n) (suc m) (suc a) b p q =
    omega (arith, or_digits_fuel n m (suc a / 2) (b / 2) (omega arith) (omega arith))

pub zero-bit_or : (b : ℕ) → bit_or 0 b ≡ b
zero-bit_or b = bit_or-bitwise 0 b

bit_or_step : (a b : ℕ) → bit_or a b ≡ bit_or (a / 2) (b / 2) * 2 + max (a % 2) (b % 2)
bit_or_step zero b = omega (arith, zero-bit_or b, zero-bit_or (b / 2))
bit_or_step (suc a) b = omega (
  arith,
  bit_or-bitwise (suc a) b,
  bit_or-bitwise (suc a / 2) (b / 2),
  or_digits_fuel a (suc a / 2) (suc a / 2) (b / 2) (omega arith) (omega arith),
)

bit_or-zero_below : (n a : ℕ) → a ≤ n → bit_or a 0 ≡ a
bit_or-zero_below zero zero h = refl
bit_or-zero_below zero (suc a) h = absurd (omega arith)
bit_or-zero_below (suc n) zero h = refl
bit_or-zero_below (suc n) (suc a) h =
    omega (arith, bit_or_step (suc a) 0, bit_or-zero_below n (suc a / 2) (omega arith))

bit_or_double : (x b : ℕ) → bit_or x (b / 2) ≡ x + b / 2 → bit_or (x * 2) b ≡ x * 2 + b
bit_or_double x b h =
    let half : x * 2 / 2 ≡ x = omega arith in
    let step : bit_or (x * 2) b ≡ bit_or x (b / 2) * 2 + max (x * 2 % 2) (b % 2) =
      bit_or_step (x * 2) b ∙ rw half in
    omega arith

-- A number below `2 ^ k` beside a multiple of `2 ^ k`.
pub bit_or_disjoint : (k a b : ℕ) → b < 2 ^ k → bit_or (a * 2 ^ k) b ≡ a * 2 ^ k + b
bit_or_disjoint zero a b h =
    let none_left : b ≡ 0 = omega arith in
    let one : a * 2 ^ 0 ≡ a = omega arith in
    rw (none_left, one) (bit_or-zero_below a a (omega arith) ∙ omega arith)
bit_or_disjoint (suc k) a b h =
    let twice : a * 2 ^ suc k ≡ a * 2 ^ k * 2 = rw pow-suc (omega arith) in
    let below : b < 2 ^ k * 2 = rw pow-suc at h in
    rw twice (bit_or_double (a * 2 ^ k) b (bit_or_disjoint k a (b / 2) (omega arith)))

double_bit_or : (x b : ℕ) → bit_or (b / 2) x ≡ b / 2 + x → bit_or b (x * 2) ≡ b + x * 2
double_bit_or x b h =
    let half : x * 2 / 2 ≡ x = omega arith in
    let step : bit_or b (x * 2) ≡ bit_or (b / 2) x * 2 + max (b % 2) (x * 2 % 2) =
      bit_or_step b (x * 2) ∙ rw half in
    omega arith

-- The same, the lower number first.
pub disjoint_bit_or : (k a b : ℕ) → b < 2 ^ k → bit_or b (a * 2 ^ k) ≡ b + a * 2 ^ k
disjoint_bit_or zero a b h =
    let none_left : b ≡ 0 = omega arith in
    let one : a * 2 ^ 0 ≡ a = omega arith in rw (none_left, one) (zero-bit_or a ∙ omega arith)
disjoint_bit_or (suc k) a b h =
    let twice : a * 2 ^ suc k ≡ a * 2 ^ k * 2 = rw pow-suc (omega arith) in
    let below : b < 2 ^ k * 2 = rw pow-suc at h in
    rw twice (double_bit_or (a * 2 ^ k) b (disjoint_bit_or k a (b / 2) (omega arith)))
