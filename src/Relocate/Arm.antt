-- ===== src/Relocate/Arm.antt =====
-- The body of relocateInstructionInArm's loop: what one ARM instruction is rewritten to.
pub mod Units
pub mod Branch
use elf_hook_test.Base.{
  ℕ, List, [], ◌∷◌, ◌==◌, if◌then◌else◌, bit_and, bit_or, ◌||◌, ◌<<<◌, ◌>>>◌, shl32, add32, sub32,
}
use elf_hook_test.Relocate.{
  InstructionType, blx_arm, bl_arm, b_arm, bx_arm, add_arm, adr1_arm, adr2_arm, mov_arm, ldr_arm,
  pick_register,
}
use elf_hook_test.Relocate.Decode.{get_type_in_arm}

-- `x` of each branch: the offset before its sign is extended.
unfoldable pub branch_field : InstructionType → ℕ → ℕ
branch_field blx_arm i = bit_or (bit_and i 0xFFFFFF <<< 2) (bit_and i 0x1000000 >>> 23)
branch_field bl_arm i = bit_and i 0xFFFFFF <<< 2
branch_field b_arm i = bit_and i 0xFFFFFF <<< 2
branch_field _ i = 0

unfoldable pub branch_offset : InstructionType → ℕ → ℕ
unfolding branch_field
branch_offset type i =
    let x = branch_field type i in
    let top_bit = x >>> 25 in if top_bit == 0 then x else bit_or x (shl32 0xFFFFFFFF 26)

unfoldable pub add_code : ℕ → ℕ → List ℕ
unfolding pick_register
add_code pc i =
    let rd = bit_and i 0xF000 >>> 12 in
    let rm = bit_and i 0xF in
    let r = pick_register (λ r. r == rd || r == rm) 12 in
    bit_or 0xE52D0004 (r <<< 12)
    ∷ bit_or 0xE59F0008 (r <<< 12)
    ∷ bit_or (bit_and i 0xFFF0FFFF) (r <<< 16)
    ∷ bit_or 0xE49D0004 (r <<< 12)
    ∷ 0xE28FF000
    ∷ pc
    ∷ []

-- LDR Rr, [PC] of a value stored behind a branch.
unfoldable pub load_code : ℕ → ℕ → List ℕ
load_code i value =
    let r = bit_and i 0xF000 >>> 12 in bit_or 0xE51F0000 (r <<< 12) ∷ 0xE28FF000 ∷ value ∷ []

unfoldable pub ldr_address : ℕ → ℕ → ℕ
ldr_address pc i =
    let imm32 = bit_and i 0xFFF in
    let is_add = bit_and i 0x800000 >>> 23 in if is_add == 0 then sub32 pc imm32 else add32 pc imm32

-- The words stored for an instruction of each type; every store advances `trampoline_pos`.
unfoldable pub arm_code : (ℕ → ℕ) → InstructionType → ℕ → ℕ → List ℕ
unfolding branch_offset add_code load_code ldr_address
arm_code load32 blx_arm pc i =
    0xE28FE004 ∷ 0xE51FF004 ∷ add32 (add32 pc (branch_offset blx_arm i)) 1 ∷ []
arm_code load32 bl_arm pc i = 0xE28FE004 ∷ 0xE51FF004 ∷ add32 pc (branch_offset bl_arm i) ∷ []
arm_code load32 b_arm pc i = 0xE51FF004 ∷ add32 pc (branch_offset b_arm i) ∷ []
arm_code load32 bx_arm pc i = 0xE51FF004 ∷ add32 pc (branch_offset bx_arm i) ∷ []
arm_code load32 add_arm pc i = add_code pc i
arm_code load32 adr1_arm pc i = load_code i (add32 pc (bit_and i 0xFFF))
arm_code load32 adr2_arm pc i = load_code i (sub32 pc (bit_and i 0xFFF))
arm_code load32 ldr_arm pc i = load_code i (load32 (ldr_address pc i))
arm_code load32 mov_arm pc i = load_code i pc
arm_code load32 _ pc i = i ∷ []

unfoldable pub relocate_arm : (ℕ → ℕ) → ℕ → ℕ → List ℕ
unfolding get_type_in_arm arm_code
relocate_arm load32 pc i = arm_code load32 (get_type_in_arm i) pc i
