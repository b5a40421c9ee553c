-- ===== src/Relocate/Thumb32/Branch.antt =====
-- The addresses that rewritten 32-bit Thumb branches load.
use elf_hook_test.Base.{ℕ, ◌+◌, ◌%◌, ◌^◌, ◌<◌, ◌≡◌, ◌≢◌, arith, ◌∷◌, bit_and, bit_or, add32, ◌<<<◌}
use elf_hook_test.Base.Bits.{bit_and_mask, bit_and_field}
use elf_hook_test.Relocate.Target.{displaced, field, far_imm, near_imm, jump, aligned}
use elf_hook_test.Relocate.Decode.{get_type_in_thumb32}
use elf_hook_test.Relocate.{b1_thumb32, b2_thumb32, bl_thumb32}
use elf_hook_test.Relocate.Thumb32.{relocate_instruction_in_thumb32}
use elf_hook_test.Relocate.Thumb32.Fields.{far_offset_lem, near_offset_lem, align_pc_lem, wide_mask}

-- A branch is told by bits 11 to 15 of the first halfword and bits 12, 14 and 15 of the second.
module _ (high low : ℕ) (fits : low < 2 ^ 16) (is_branch : field 11 5 high ≡ 0x1E) where
  decode_bl :
      field 14 2 low ≡ 3
      → field 12 1 low ≡ 1
      → get_type_in_thumb32 (bit_or (high <<< 16) low) ≡ bl_thumb32
  unfolding get_type_in_thumb32
  decode_bl p q =
      ground (arith, wide_mask high low 0xFFF0, wide_mask high low 0xF800, bit_and_field 11 5 high)

  decode_b2 :
      field 14 2 low ≡ 2
      → field 12 1 low ≡ 1
      → get_type_in_thumb32 (bit_or (high <<< 16) low) ≡ b2_thumb32
  unfolding get_type_in_thumb32
  decode_b2 p q =
      ground (arith, wide_mask high low 0xFFF0, wide_mask high low 0xF800, bit_and_field 11 5 high)

  decode_b1 :
      field 14 2 low ≡ 2
      → field 12 1 low ≡ 0
      → bit_and high 0xFFF0 ≢ 0xF3B0
      → get_type_in_thumb32 (bit_or (high <<< 16) low) ≡ b1_thumb32
  unfolding get_type_in_thumb32
  decode_b1 p q r =
      ground (arith, wide_mask high low 0xFFF0, wide_mask high low 0xF800, bit_and_field 11 5 high)

-- BL, 0b11110 on top of the first halfword and bits 15, 14 and 12 of the second set: LR is set,
-- and the jump loads the address that S:I1:I2:imm10:imm11:0, sign-extended, names from the aligned
-- `pc`, plus one for Thumb.
pub relocate_instruction_in_thumb32-bl :
    (high low : ℕ) (load32 : ℕ → ℕ) (pc : ℕ)
    → low < 2 ^ 16
    → field 11 5 high ≡ 0x1E
    → pc < 2 ^ 32
    → field 14 2 low ≡ 3
    → field 12 1 low ≡ 1
    → (relocate_instruction_in_thumb32 load32 pc high low).code
      ≡ 0xF20F ∷ 0x0E09 ∷ jump ((displaced 25 (aligned pc) (far_imm high low) + 1) % 2 ^ 32)
unfolding relocate_instruction_in_thumb32
relocate_instruction_in_thumb32-bl high low load32 pc fits is_branch h p q = rw (
  decode_bl high low fits is_branch p q,
  align_pc_lem pc h,
  far_offset_lem (aligned pc) high low (omega arith),
  bit_and_mask 16 (add32 (displaced 25 (aligned pc) (far_imm high low)) 1),
)

-- B.W, with bit 15 of the second halfword set, bit 14 clear and bit 12 set, jumps to the address
-- that its 25-bit offset names from the aligned `pc`, plus one for Thumb.
pub relocate_instruction_in_thumb32-b2 :
    (high low : ℕ) (load32 : ℕ → ℕ) (pc : ℕ)
    → low < 2 ^ 16
    → field 11 5 high ≡ 0x1E
    → pc < 2 ^ 32
    → field 14 2 low ≡ 2
    → field 12 1 low ≡ 1
    → (relocate_instruction_in_thumb32 load32 pc high low).code
      ≡ jump ((displaced 25 (aligned pc) (far_imm high low) + 1) % 2 ^ 32)
unfolding relocate_instruction_in_thumb32
relocate_instruction_in_thumb32-b2 high low load32 pc fits is_branch h p q = rw (
  decode_b2 high low fits is_branch p q,
  align_pc_lem pc h,
  far_offset_lem (aligned pc) high low (omega arith),
  bit_and_mask 16 (add32 (displaced 25 (aligned pc) (far_imm high low)) 1),
)

-- Conditional B.W, with bits 15, 14 and 12 of the second halfword 1, 0 and 0, keeps its condition in
-- a 16-bit branch over the skip, and jumps to the address that its 21-bit offset names from the
-- aligned `pc`, plus one for Thumb, unless its first halfword is that of a special operation.
pub relocate_instruction_in_thumb32-b1 :
    (high low : ℕ) (load32 : ℕ → ℕ) (pc : ℕ)
    → low < 2 ^ 16
    → field 11 5 high ≡ 0x1E
    → pc < 2 ^ 32
    → field 14 2 low ≡ 2
    → field 12 1 low ≡ 0
    → bit_and high 0xFFF0 ≢ 0xF3B0
    → (relocate_instruction_in_thumb32 load32 pc high low).code
      ≡ bit_or 0xD000 (bit_and high 0x3C0 <<< 2)
        ∷ 0xE003
        ∷ jump ((displaced 21 (aligned pc) (near_imm high low) + 1) % 2 ^ 32)
unfolding relocate_instruction_in_thumb32
relocate_instruction_in_thumb32-b1 high low load32 pc fits is_branch h p q r = rw (
  decode_b1 high low fits is_branch p q r,
  align_pc_lem pc h,
  near_offset_lem (aligned pc) high low (omega arith),
  bit_and_mask 16 (add32 (displaced 21 (aligned pc) (near_imm high low)) 1),
)
