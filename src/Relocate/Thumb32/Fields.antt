-- ===== src/Relocate/Thumb32/Fields.antt =====
-- The bit fields of 32-bit Thumb branches, and the decoder's masks on them, as arithmetic.
use elf_hook_test.Base.{
  ℕ, ◌+◌, ◌-◌, ap, ◌*◌, ◌%◌, ◌/◌, ◌^◌, ◌<◌, ◌≡◌, zero, suc, refl, arith, bit_and, bit_or, add32,
  ◌<<<◌, ◌>>>◌,
}
use elf_hook_test.Base.Bits.{bit_and_mask, bit_and_split, bit_and_field, bit_or_high, bit_or_low}
use native.Mathlib.Nat.{div-one}
use elf_hook_test.Relocate.{align_pc}
use elf_hook_test.Relocate.Target.{displaced, field, far_imm, near_imm, not_xor, aligned}
use elf_hook_test.Relocate.Thumb32.{i_bit, far_field, near_field, far_offset, near_offset}

i_bit_lem : (j s : ℕ) → j < 2 → s < 2 → i_bit j s ≡ not_xor j s
i_bit_lem zero zero p q = refl
i_bit_lem zero (suc zero) p q = refl
i_bit_lem (suc zero) zero p q = refl
i_bit_lem (suc zero) (suc zero) p q = refl
i_bit_lem (suc (suc j)) s p q = absurd (omega arith)
i_bit_lem zero (suc (suc s)) p q = absurd (omega arith)
i_bit_lem (suc zero) (suc (suc s)) p q = absurd (omega arith)

-- Five fields side by side, joined by `|` from the left.
five_fields :
    (a b c d e : ℕ)
    → b < 2
    → c < 2
    → d < 2 ^ 10
    → e < 2 ^ 12
    → bit_or (bit_or (bit_or (bit_or (a <<< 24) (b <<< 23)) (c <<< 22)) (d <<< 12)) e
      ≡ a * 2 ^ 24 + b * 2 ^ 23 + c * 2 ^ 22 + d * 2 ^ 12 + e
five_fields a b c d e hb hc hd he = ground (
  arith,
  bit_or_low 24 a (b * 2 ^ 23),
  bit_or_low 23 (a * 2 + b) (c * 2 ^ 22),
  bit_or_low 22 (a * 4 + b * 2 + c) (d * 2 ^ 12),
  bit_or_low 12 (a * 4096 + b * 2048 + c * 1024 + d) e,
)

-- The single bits that the source shifts down.
bits_of :
    (high low : ℕ)
    → (bit_and high 0x400 >>> 10 ≡ field 10 1 high)
      × (bit_and low 0x2000 >>> 13 ≡ field 13 1 low)
      × (bit_and low 0x800 >>> 11 ≡ field 11 1 low)
bits_of high low =
    omega (arith, bit_and_field 10 1 high, bit_and_field 13 1 low, bit_and_field 11 1 low)

low_field : (k a : ℕ) → bit_and a (2 ^ k - 1) ≡ field 0 k a
low_field k a = omega (arith, bit_and_mask k a, ap (λ (t : ℕ). t % 2 ^ k) (div-one a))

not_xor-lt : (j s : ℕ) → not_xor j s < 2
not_xor-lt j s = ground arith

far_field_lem : (high low : ℕ) → far_field 0x7FF high low ≡ far_imm high low
unfolding far_field
far_field_lem high low =
    rw
      (
        (bits_of high low).0,
        (bits_of high low).1,
        (bits_of high low).2,
        i_bit_lem (field 13 1 low) (field 10 1 high) (omega arith) (omega arith),
        i_bit_lem (field 11 1 low) (field 10 1 high) (omega arith) (omega arith),
        low_field 10 high,
        low_field 11 low,
      )
      (five_fields (field 10 1 high) (not_xor (field 13 1 low) (field 10 1 high))
        (not_xor (field 11 1 low) (field 10 1 high)) (field 0 10 high) (field 0 11 low * 2)
        (not_xor-lt _ _) (not_xor-lt _ _) (omega arith) (omega arith))

pub far_offset_lem :
    (a high low : ℕ)
    → a < 2 ^ 32
    → add32 a (far_offset 0x7FF high low) ≡ displaced 25 a (far_imm high low)
unfolding far_offset
far_offset_lem a high low h =
    ground (arith, far_field_lem high low, bits_of high low, bit_or_high 25 (far_imm high low) 127)

near_fields :
    (a b c d e : ℕ)
    → b < 2
    → c < 2
    → d < 2 ^ 6
    → e < 2 ^ 12
    → bit_or (bit_or (bit_or (bit_or (a <<< 20) (b <<< 19)) (c <<< 18)) (d <<< 12)) e
      ≡ a * 2 ^ 20 + b * 2 ^ 19 + c * 2 ^ 18 + d * 2 ^ 12 + e
near_fields a b c d e hb hc hd he = ground (
  arith,
  bit_or_low 20 a (b * 2 ^ 19),
  bit_or_low 19 (a * 2 + b) (c * 2 ^ 18),
  bit_or_low 18 (a * 4 + b * 2 + c) (d * 2 ^ 12),
  bit_or_low 12 (a * 256 + b * 128 + c * 64 + d) e,
)

near_field_lem : (high low : ℕ) → near_field high low ≡ near_imm high low
unfolding near_field
near_field_lem high low =
    rw
      (
        (bits_of high low).0,
        (bits_of high low).1,
        (bits_of high low).2,
        low_field 6 high,
        low_field 11 low,
      )
      (near_fields (field 10 1 high) (field 11 1 low) (field 13 1 low) (field 0 6 high)
        (field 0 11 low * 2) (omega arith) (omega arith) (omega arith) (omega arith))

pub near_offset_lem :
    (a high low : ℕ)
    → a < 2 ^ 32
    → add32 a (near_offset high low) ≡ displaced 21 a (near_imm high low)
unfolding near_offset
near_offset_lem a high low h =
    ground
      (arith, near_field_lem high low, bits_of high low, bit_or_high 21 (near_imm high low) 2047)

pub align_pc_lem : (pc : ℕ) → pc < 2 ^ 32 → align_pc pc ≡ aligned pc
align_pc_lem pc h = omega (arith, bit_and_field 2 30 pc)

-- The mask 0xD000 on the whole instruction sees bits 12, 14 and 15 of the second halfword.
low_mask :
    (high low : ℕ)
    → low < 2 ^ 16
    → bit_and (high * 2 ^ 16 + low) 0xD000 ≡ field 12 1 low * 4096 + field 14 2 low * 16384
low_mask high low h = omega (
  arith,
  bit_and_split 14 (high * 2 ^ 16 + low) 0x1000 3 (omega arith),
  bit_and_field 12 1 (high * 2 ^ 16 + low),
  bit_and_mask 2 ((high * 2 ^ 16 + low) / 2 ^ 14),
)

-- A mask with 0xD000 below is the two masks on the two halfwords.
pub wide_mask :
    (high low m : ℕ)
    → low < 2 ^ 16
    → bit_and (bit_or (high <<< 16) low) (0xD000 + m * 2 ^ 16)
      ≡ field 12 1 low * 4096 + field 14 2 low * 16384 + bit_and high m * 2 ^ 16
wide_mask high low m h = ground (
  arith,
  bit_or_low 16 high low,
  bit_and_split 16 (high * 2 ^ 16 + low) 0xD000 m,
  low_mask high low,
)
