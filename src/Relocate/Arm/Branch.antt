-- ===== src/Relocate/Arm/Branch.antt =====
-- The address that a rewritten ARM branch loads is the one that the instruction names.
use elf_hook_test.Base.{
  ℕ, ◌+◌, ◌*◌, ◌%◌, ◌/◌, ◌^◌, ◌<◌, ◌≡◌, ◌≢◌, arith, [], ◌∷◌, bit_and, bit_or, add32,
}
use elf_hook_test.Base.Bits.{bit_and_mask, bit_and_field, bit_or_high, bit_or_low}
use elf_hook_test.Relocate.{b_arm, bl_arm, blx_arm}
use elf_hook_test.Relocate.Target.{displaced, field}
use elf_hook_test.Relocate.Arm.{branch_offset, relocate_arm}

b_offset :
    (pc i : ℕ) → pc < 2 ^ 32 → add32 pc (branch_offset b_arm i) ≡ displaced 26 pc (field 0 24 i * 4)
unfolding branch_offset
b_offset pc i h = ground (arith, bit_and_mask 24 i, bit_or_high 26 (i % 2 ^ 24 * 4) 63)

bl_offset :
    (pc i : ℕ)
    → pc < 2 ^ 32
    → add32 pc (branch_offset bl_arm i) ≡ displaced 26 pc (field 0 24 i * 4)
unfolding branch_offset
bl_offset pc i h = ground (arith, bit_and_mask 24 i, bit_or_high 26 (i % 2 ^ 24 * 4) 63)

blx_field :
    (i : ℕ)
    → bit_or (bit_and i 0xFFFFFF * 4) (bit_and i 0x1000000 / 2 ^ 23)
      ≡ field 0 24 i * 4 + field 24 1 i * 2
blx_field i =
    ground (
      arith,
      bit_and_mask 24 i,
      bit_and_field 24 1 i,
      bit_or_low 2 (i % 2 ^ 24) (i / 2 ^ 24 % 2 * 2),
    )

blx_offset :
    (pc i : ℕ)
    → pc < 2 ^ 32
    → add32 pc (branch_offset blx_arm i) ≡ displaced 26 pc (field 0 24 i * 4 + field 24 1 i * 2)
unfolding branch_offset
blx_offset pc i h =
    rw (blx_field i) (ground (arith, bit_or_high 26 (field 0 24 i * 4 + field 24 1 i * 2) 63))

-- B, with 0b1010 in bits 24 to 27 and no BLX, becomes LDR PC, [PC, #-4] and the address that
-- lies its sign-extended 24-bit field, times four, from `pc`. What the condition in bits 28 to 31
-- was does not show in the result.
pub relocate_arm-b :
    (load32 : ℕ → ℕ) (pc i : ℕ)
    → pc < 2 ^ 32
    → field 25 7 i ≢ 0x7D
    → field 24 4 i ≡ 0xA
    → relocate_arm load32 pc i ≡ 0xE51FF004 ∷ displaced 26 pc (field 0 24 i * 4) ∷ []
unfolding relocate_arm
relocate_arm-b load32 pc i h not_blx is_b =
    ground (arith, bit_and_field 25 7 i, bit_and_field 24 4 i, b_offset pc i)

-- BL, with 0b1011 in bits 24 to 27 and no BLX, sets LR and jumps to the address that it names.
pub relocate_arm-bl :
    (load32 : ℕ → ℕ) (pc i : ℕ)
    → pc < 2 ^ 32
    → field 25 7 i ≢ 0x7D
    → field 24 4 i ≡ 0xB
    → relocate_arm load32 pc i ≡ 0xE28FE004 ∷ 0xE51FF004 ∷ displaced 26 pc (field 0 24 i * 4) ∷ []
unfolding relocate_arm
relocate_arm-bl load32 pc i h not_blx is_bl =
    ground (arith, bit_and_field 25 7 i, bit_and_field 24 4 i, bl_offset pc i)

-- BLX, with 0b1111101 in bits 25 to 31, sets LR and jumps to the address that its 24-bit field
-- and its halfword bit 24 name, plus one for Thumb.
pub relocate_arm-blx :
    (load32 : ℕ → ℕ) (pc i : ℕ)
    → pc < 2 ^ 32
    → field 25 7 i ≡ 0x7D
    → relocate_arm load32 pc i
      ≡ 0xE28FE004
        ∷ 0xE51FF004
        ∷ add32 (displaced 26 pc (field 0 24 i * 4 + field 24 1 i * 2)) 1
        ∷ []
unfolding relocate_arm
relocate_arm-blx load32 pc i h is_blx = ground (arith, bit_and_field 25 7 i, blx_offset pc i)
