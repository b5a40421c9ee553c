-- ===== src/Base/Bits.antt =====
-- `&` with a field mask and `|` of disjoint fields, as arithmetic, for a field at any position.
pub mod Digit
pub mod Bounds
use Digit.{bit_and_digit, bit_or_digit}
use Prim.Native.Nat.{ℕ, zero, suc, ◌+◌, ◌-◌, ◌*◌, ◌/◌, ◌%◌, ◌^◌, ◌≤◌, ◌<◌, min}
use Prim.Native.Nat.{bit_and, bit_or}
use mathlib.Core.Path.{◌≡◌, refl, sym, ap, ◌≡⟨◌⟩◌, ◌∎}
use native.Mathlib.Nat.{pow-suc, one-le-pow, div-add-mod, div-div-eq-div-mul}
use native.Mathlib.Omega.{arith}

-- Bounded by a number that falls: each step halves the word.
bit_and-zero_below : (n a : ℕ) → a < n → bit_and a 0 ≡ 0
bit_and-zero_below zero a h = elim h [ ]
bit_and-zero_below (suc n) zero h = refl
bit_and-zero_below (suc n) (suc a) h =
    omega (arith, bit_and_digit (suc a) 0, bit_and-zero_below n (suc a / 2) (omega arith))

pub bit_and-zero : (a : ℕ) → bit_and a 0 ≡ 0
bit_and-zero a = bit_and-zero_below (suc a) a (omega arith)

bit_or-zero_below : (n a : ℕ) → a < n → bit_or a 0 ≡ a
bit_or-zero_below zero a h = elim h [ ]
bit_or-zero_below (suc n) zero h = refl
bit_or-zero_below (suc n) (suc a) h =
    omega (arith, bit_or_digit (suc a) 0, bit_or-zero_below n (suc a / 2) (omega arith))

pub bit_or-zero : (a : ℕ) → bit_or a 0 ≡ a
bit_or-zero a = bit_or-zero_below (suc a) a (omega arith)

pub zero-bit_or : (a : ℕ) → bit_or 0 a ≡ a
zero-bit_or a = zero-bit_or_below (suc a) a (omega arith)
  where
    zero-bit_or_below : (n a : ℕ) → a < n → bit_or 0 a ≡ a
    zero-bit_or_below zero a h = elim h [ ]
    zero-bit_or_below (suc n) zero h = refl
    zero-bit_or_below (suc n) (suc a) h =
        omega (arith, bit_or_digit 0 (suc a), zero-bit_or_below n (suc a / 2) (omega arith))

bit_or_comm_below : (n a b : ℕ) → a < n → bit_or a b ≡ bit_or b a
bit_or_comm_below zero a b h = elim h [ ]
bit_or_comm_below (suc n) zero b h = omega (arith, zero-bit_or b, bit_or-zero b)
bit_or_comm_below (suc n) (suc a) b h = omega (
  arith,
  bit_or_digit (suc a) b,
  bit_or_digit b (suc a),
  bit_or_comm_below n (suc a / 2) (b / 2) (omega arith),
)

pub bit_or_comm : (a b : ℕ) → bit_or a b ≡ bit_or b a
bit_or_comm a b = bit_or_comm_below (suc a) a b (omega arith)

pub mul-two-pow : (q k : ℕ) → q * 2 ^ suc k ≡ 2 * (q * 2 ^ k)
mul-two-pow q k = omega (arith, ap (λ (t : ℕ). q * t) (pow-suc 2 k))

-- A field below the rest: `r | q << k` is a sum when `r` fits `k` bits.
pub bit_or_high : (k r q : ℕ) → r < 2 ^ k → bit_or r (q * 2 ^ k) ≡ r + q * 2 ^ k
bit_or_high zero r q h = ground (arith, zero-bit_or q)
bit_or_high (suc k) r q h =
    ground
      (arith, pow-suc 2 k, mul-two-pow q k, bit_or_digit r (q * 2 ^ suc k), bit_or_high k (r / 2) q)

-- The same with the field above written first.
pub bit_or_low : (k q r : ℕ) → r < 2 ^ k → bit_or (q * 2 ^ k) r ≡ q * 2 ^ k + r
bit_or_low k q r h = omega (arith, bit_or_comm (q * 2 ^ k) r, bit_or_high k r q h)

-- The quotient and the remainder by twice a number, from those of the half.
div-two-mul : (a m : ℕ) → a / (2 * m) ≡ a / 2 / m
div-two-mul a m = sym (div-div-eq-div-mul a 2 m)

mod-two-mul : (a m : ℕ) → a % (2 * m) ≡ a / 2 % m * 2 + a % 2
mod-two-mul a m = omega (
  arith,
  div-two-mul a m,
  div-add-mod a (2 * m),
  div-add-mod (a / 2) m,
  ap (λ (t : ℕ). 2 * m * t) (div-two-mul a m),
)

two-pow-suc : (k : ℕ) → 2 ^ suc k ≡ 2 * 2 ^ k
two-pow-suc k = omega (arith, pow-suc 2 k)

mask_half : (k : ℕ) → ((2 ^ suc k - 1) / 2 ≡ 2 ^ k - 1) × ((2 ^ suc k - 1) % 2 ≡ 1)
mask_half k = omega (arith, pow-suc 2 k, one-le-pow k 2)

-- A mask of `k` ones keeps the remainder by `2 ^ k`.
pub bit_and_mask : (k a : ℕ) → bit_and a (2 ^ k - 1) ≡ a % 2 ^ k
bit_and_mask zero a = omega (arith, bit_and-zero a)
bit_and_mask (suc k) a =
    bit_and a (2 ^ suc k - 1)
    ≡⟨ bit_and_digit a (2 ^ suc k - 1) ⟩
      bit_and (a / 2) ((2 ^ suc k - 1) / 2) * 2 + min (a % 2) ((2 ^ suc k - 1) % 2)
    ≡⟨ (rw ((mask_half k).0, (mask_half k).1)) ⟩ bit_and (a / 2) (2 ^ k - 1) * 2 + min (a % 2) 1
    ≡⟨ omega (arith, bit_and_mask k (a / 2), mod-two-mul a (2 ^ k)) ⟩ a % (2 * 2 ^ k)
    ≡⟨ (rw (two-pow-suc k)) ⟩ a % 2 ^ suc k ∎

-- A mask of `k` ones from bit `j` on keeps that field, in its place.
pub bit_and_field : (j k a : ℕ) → bit_and a ((2 ^ k - 1) * 2 ^ j) ≡ (a / 2 ^ j % 2 ^ k) * 2 ^ j
bit_and_field zero k a = ground (arith, bit_and_mask k a)
bit_and_field (suc j) k a =
    bit_and a ((2 ^ k - 1) * 2 ^ suc j)
    ≡⟨ ap (bit_and a) (mul-two-pow (2 ^ k - 1) j) ⟩ bit_and a (2 * ((2 ^ k - 1) * 2 ^ j))
    ≡⟨ bit_and_double a ((2 ^ k - 1) * 2 ^ j) ⟩ bit_and (a / 2) ((2 ^ k - 1) * 2 ^ j) * 2
    ≡⟨ ap (λ (t : ℕ). t * 2) (bit_and_field j k (a / 2)) ⟩ a / 2 / 2 ^ j % 2 ^ k * 2 ^ j * 2
    ≡⟨ (rw (← div-two-mul a (2 ^ j), ← two-pow-suc j)) ⟩ a / 2 ^ suc j % 2 ^ k * 2 ^ j * 2
    ≡⟨ omega (arith, mul-two-pow (a / 2 ^ suc j % 2 ^ k) j) ⟩ a / 2 ^ suc j % 2 ^ k * 2 ^ suc j ∎
  where
    bit_and_double : (a m : ℕ) → bit_and a (2 * m) ≡ bit_and (a / 2) m * 2
    bit_and_double a m =
        bit_and a (2 * m)
        ≡⟨ bit_and_digit a (2 * m) ⟩ bit_and (a / 2) (2 * m / 2) * 2 + min (a % 2) (2 * m % 2)
        ≡⟨ (rw (half, even)) ⟩ bit_and (a / 2) m * 2 + min (a % 2) 0
        ≡⟨ omega arith ⟩ bit_and (a / 2) m * 2 ∎
      where
        half : 2 * m / 2 ≡ m
        half = omega arith

        even : 2 * m % 2 ≡ 0
        even = omega arith

-- `|` digit by digit below bit `k` and above it.
pub bit_or_split :
    (k r q m : ℕ) → r < 2 ^ k → bit_or (r + q * 2 ^ k) (m * 2 ^ k) ≡ r + bit_or q m * 2 ^ k
bit_or_split zero r q m h = ground (arith)
bit_or_split (suc k) r q m h = ground (
  arith,
  pow-suc 2 k,
  mul-two-pow q k,
  mul-two-pow m k,
  mul-two-pow (bit_or q m) k,
  bit_or_digit (r + q * 2 ^ suc k) (m * 2 ^ suc k),
  bit_or_split k (r / 2) q m,
)

-- `&` with a mask of two parts keeps the sum of what each part keeps.
pub bit_and_split :
    (k a r q : ℕ)
    → r < 2 ^ k
    → bit_and a (r + q * 2 ^ k) ≡ bit_and a r + bit_and (a / 2 ^ k) q * 2 ^ k
bit_and_split zero a zero q h = ground (arith, bit_and-zero a)
bit_and_split zero a (suc r) q h = absurd (omega arith)
bit_and_split (suc k) a r q h = ground (
  arith,
  pow-suc 2 k,
  mul-two-pow q k,
  mul-two-pow (bit_and (a / 2 ^ suc k) q) k,
  ap (λ (t : ℕ). a / t) (two-pow-suc k),
  div-two-mul a (2 ^ k),
  bit_and_digit a (r + q * 2 ^ suc k),
  bit_and_digit a r,
  bit_and_split k (a / 2) (r / 2) q,
)
