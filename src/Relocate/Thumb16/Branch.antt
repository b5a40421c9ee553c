-- ===== src/Relocate/Thumb16/Branch.antt =====
-- The addresses that rewritten 16-bit Thumb branches load.
use elf_hook_test.Base.{ℕ, ◌+◌, ◌*◌, ◌%◌, ◌/◌, ◌^◌, ◌<◌, ◌≤◌, ◌≡◌, arith, ◌∷◌, bit_and, bit_or}
use elf_hook_test.Base.Bits.{bit_and_mask, bit_and_split, bit_and_field, bit_or_split, bit_or_low}
use elf_hook_test.Base.Bits.Bounds.{bit_and-le}
use elf_hook_test.Relocate.Target.{displaced, field, jump}
use elf_hook_test.Relocate.Thumb16.{
  b1_target, b2_target, cb_target, relocate_instruction_in_thumb16,
}

b1_target_lem : (pc i : ℕ) → pc < 2 ^ 32 → b1_target pc i ≡ displaced 9 pc (field 0 8 i * 2)
unfolding b1_target
b1_target_lem pc i h =
    ground (arith, bit_and_mask 8 i, bit_or_split 8 (i % 2 ^ 8 * 2 % 256) 1 16777215)

b2_target_lem : (pc i : ℕ) → pc < 2 ^ 32 → b2_target pc i ≡ displaced 12 pc (field 0 11 i * 2)
unfolding b2_target
b2_target_lem pc i h =
    ground (arith, bit_and_mask 11 i, bit_or_split 11 (i % 2 ^ 11 * 2 % 2048) 1 2097151)

-- The masks of the decoder, by the four bits at the top and the rest.
top_mask :
    (i m : ℕ)
    → m < 4096
    → (bit_and i (m + 0xF000) ≡ bit_and i m + field 12 4 i * 4096) × (bit_and i m ≤ m)
top_mask i m h =
    (omega (arith, bit_and_split 12 i m 15 h, bit_and_mask 4 (i / 4096)), bit_and-le i m)

cb_mask : (i : ℕ) → bit_and i 0x500 ≡ field 8 1 i * 256 + field 10 1 i * 1024
cb_mask i = omega (
  arith,
  bit_and_split 10 i 0x100 1 (omega arith),
  bit_and_field 8 1 i,
  bit_and_mask 1 (i / 2 ^ 10),
)

cb_target_lem : (pc i : ℕ) → cb_target pc i ≡ (pc + field 9 1 i * 64 + field 3 5 i * 2 + 1) % 2 ^ 32
unfolding cb_target
cb_target_lem pc i =
    ground (
      arith,
      bit_and_field 9 1 i,
      bit_and_field 3 5 i,
      bit_or_low 6 (field 9 1 i) (field 3 5 i * 2),
    )

thumb_bit : (a : ℕ) → a % 2 ≡ 0 → bit_or a 1 ≡ a + 1
thumb_bit a h = ground (arith, bit_or_low 1 (a / 2) 1)

-- A conditional B, 0b1101 at the top: the condition stays, in a branch over the two-halfword
-- skip, and the jump loads the address that the sign-extended 8-bit field, times two, names from
-- an even `pc`, with the Thumb bit.
pub relocate_instruction_in_thumb16-b1 :
    (load32 : ℕ → ℕ) (pc i : ℕ)
    → pc < 2 ^ 32
    → pc % 2 ≡ 0
    → field 12 4 i ≡ 0xD
    → (relocate_instruction_in_thumb16 load32 pc i).code
      ≡ bit_and i 0xFF00 ∷ 0xE003 ∷ jump (displaced 9 pc (field 0 8 i * 2) + 1)
unfolding relocate_instruction_in_thumb16
relocate_instruction_in_thumb16-b1 load32 pc i h even is_b1 = ground (
  arith,
  bit_and_field 12 4 i,
  b1_target_lem pc i,
  thumb_bit (displaced 9 pc (field 0 8 i * 2)),
  bit_and_mask 16 (displaced 9 pc (field 0 8 i * 2) + 1),
)

-- An unconditional B, 0b11100 at the top, becomes a jump to the address that its sign-extended
-- 11-bit field, times two, names from an even `pc`, with the Thumb bit.
pub relocate_instruction_in_thumb16-b2 :
    (load32 : ℕ → ℕ) (pc i : ℕ)
    → pc < 2 ^ 32
    → pc % 2 ≡ 0
    → field 11 5 i ≡ 0x1C
    → (relocate_instruction_in_thumb16 load32 pc i).code
      ≡ jump (displaced 12 pc (field 0 11 i * 2) + 1)
unfolding relocate_instruction_in_thumb16
relocate_instruction_in_thumb16-b2 load32 pc i h even is_b2 = ground (
  arith,
  bit_and_field 12 4 i,
  bit_and_field 11 5 i,
  b2_target_lem pc i,
  thumb_bit (displaced 12 pc (field 0 11 i * 2)),
  bit_and_mask 16 (displaced 12 pc (field 0 11 i * 2) + 1),
)

-- CBZ and CBNZ, 0b1011 at the top with bit 10 clear and bit 8 set, keep their register and sense
-- in a branch over the skip, and the jump loads `pc` plus their unsigned offset, with the Thumb
-- bit.
pub relocate_instruction_in_thumb16-cb :
    (load32 : ℕ → ℕ) (pc i : ℕ)
    → field 12 4 i ≡ 0xB
    → field 10 1 i ≡ 0
    → field 8 1 i ≡ 1
    → (relocate_instruction_in_thumb16 load32 pc i).code
      ≡ bit_and i 0xFD07 ∷ 0xE003 ∷ jump ((pc + field 9 1 i * 64 + field 3 5 i * 2 + 1) % 2 ^ 32)
unfolding relocate_instruction_in_thumb16
relocate_instruction_in_thumb16-cb load32 pc i is_cb unset set = ground (
  arith,
  cb_mask i,
  bit_and_field 12 4 i,
  top_mask i 0xFF8,
  top_mask i 0xF78,
  top_mask i 0x800,
  top_mask i 0x500,
  cb_target_lem pc i,
  bit_and_mask 16 ((pc + field 9 1 i * 64 + field 3 5 i * 2 + 1) % 2 ^ 32),
)
