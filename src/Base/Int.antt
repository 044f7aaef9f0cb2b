-- ===== src/Base/Int.antt =====
-- C integers under LP64: signed values as ℤ, unsigned ones as the numbers below their modulus.
use Prim.Native.Nat.{ℕ, ◌+◌, ◌-◌, ◌%◌, ◌^◌, ◌≤◌, ◌<◌}
use mathlib.Core.Path.{◌≡◌}
use mathlib.Core.Bool.{Bool, true, false}
use native.Mathlib.Omega.{arith}
use hdfmonkey.Base.Tests.{ltb, if◌then◌else◌}

-- `negsuc n` is -(n + 1).
pub data ℤ : Type 0 where
  pos : ℕ → ℤ
  negsuc : ℕ → ℤ

abbrev pub minus_one : ℤ
minus_one = negsuc 0

abbrev pub is_negative : ℤ → Bool
is_negative (pos n) = false
is_negative (negsuc n) = true

abbrev pub int_modulus : ℕ
int_modulus = 2 ^ 32

abbrev pub word_modulus : ℕ
word_modulus = 2 ^ 64

-- The conversion of a non-negative value to `int`: its low 32 bits, read as two's complement.
unfoldable pub to_int : ℕ → ℤ
to_int n =
    let low = n % int_modulus in
    if ltb low (2 ^ 31) then pos low else negsuc (int_modulus - low - 1)

-- The conversion of a signed value to `unsigned long` or `size_t`.
unfoldable pub to_word : ℤ → ℕ
to_word (pos n) = n % word_modulus
to_word (negsuc n) = word_modulus - 1 - n % word_modulus

-- `a - b` on `size_t`.
unfoldable pub sub_word : ℕ → ℕ → ℕ
sub_word a b = (a + word_modulus - b % word_modulus) % word_modulus

pub to_int_small : (n : ℕ) → n < 2 ^ 31 → to_int n ≡ pos n
unfolding to_int
to_int_small n h = ground arith

-- Bit 31 becomes the sign.
pub to_int_large : (n : ℕ) → 2 ^ 31 ≤ n % 2 ^ 32 → is_negative (to_int n) ≡ true
unfolding to_int
to_int_large n h = ground arith

pub sub_word_small : (a b : ℕ) → b ≤ a → a < 2 ^ 64 → sub_word a b ≡ a - b
unfolding sub_word
sub_word_small a b h k = omega arith

-- As a `size_t` it is then no size that fits 32 bits.
pub to_word-to_int_large : (n : ℕ) → 2 ^ 31 ≤ n % 2 ^ 32 → 2 ^ 32 ≤ to_word (to_int n)
unfolding to_int to_word
to_word-to_int_large n h = ground arith
