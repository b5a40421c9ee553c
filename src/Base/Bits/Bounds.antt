-- ===== src/Base/Bits/Bounds.antt =====
-- How large `&` and `|` of two words are.
use Prim.Native.Nat.{ℕ, zero, suc, ◌/◌, ◌^◌, ◌≤◌, ◌<◌, bit_and, bit_or, bit_and-bitwise}
use native.Mathlib.Nat.{pow-suc}
use native.Mathlib.Omega.{arith}
use elf_hook_test.Base.Bits.Digit.{bit_and_digit, bit_or_digit}

bit_and-le_below : (n a b : ℕ) → a < n → bit_and a b ≤ b
bit_and-le_below zero a b h = elim h [ ]
bit_and-le_below (suc n) zero b h = omega (arith, bit_and-bitwise 0 b)
bit_and-le_below (suc n) (suc a) b h =
    omega (arith, bit_and_digit (suc a) b, bit_and-le_below n (suc a / 2) (b / 2) (omega arith))

-- A mask bounds what it lets through.
pub bit_and-le : (a b : ℕ) → bit_and a b ≤ b
bit_and-le a b = bit_and-le_below (suc a) a b (omega arith)

-- `|` of two words of `k` bits has `k` bits.
pub bit_or-lt : (k a b : ℕ) → a < 2 ^ k → b < 2 ^ k → bit_or a b < 2 ^ k
bit_or-lt zero zero zero p q = omega arith
bit_or-lt zero zero (suc b) p q = absurd (omega arith)
bit_or-lt zero (suc a) b p q = absurd (omega arith)
bit_or-lt (suc k) a b p q = omega (
  arith,
  pow-suc 2 k,
  bit_or_digit a b,
  bit_or-lt k (a / 2) (b / 2) (omega (arith, pow-suc 2 k)) (omega (arith, pow-suc 2 k)),
)
