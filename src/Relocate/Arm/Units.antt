-- ===== src/Relocate/Arm/Units.antt =====
-- How many words one ARM instruction is rewritten to.
use elf_hook_test.Base.{◌≡◌, refl, ℕ, ◌≤◌, arith, length}
use elf_hook_test.Relocate.{
  InstructionType, blx_arm, bl_arm, b_arm, bx_arm, add_arm, adr1_arm, adr2_arm, mov_arm, ldr_arm,
}
use elf_hook_test.Relocate.Decode.{get_type_in_arm}
use elf_hook_test.Relocate.Arm.{arm_code, relocate_arm}

abbrev IsShort : ℕ → Type 0
IsShort n = (1 ≤ n) × (n ≤ 6)

arm_code-IsShort :
    (load32 : ℕ → ℕ) (t : InstructionType) (pc i : ℕ) → IsShort (length (arm_code load32 t pc i))
unfolding arm_code
arm_code-IsShort load32 blx_arm pc i = omega arith
arm_code-IsShort load32 bl_arm pc i = omega arith
arm_code-IsShort load32 b_arm pc i = omega arith
arm_code-IsShort load32 bx_arm pc i = omega arith
arm_code-IsShort load32 add_arm pc i = omega arith
arm_code-IsShort load32 adr1_arm pc i = omega arith
arm_code-IsShort load32 adr2_arm pc i = omega arith
arm_code-IsShort load32 ldr_arm pc i = omega arith
arm_code-IsShort load32 mov_arm pc i = omega arith
arm_code-IsShort load32 _ pc i = omega arith

pub relocate_arm-length :
    (load32 : ℕ → ℕ) (pc i : ℕ)
    → (1 ≤ length (relocate_arm load32 pc i)) × (length (relocate_arm load32 pc i) ≤ 6)
unfolding relocate_arm
relocate_arm-length load32 pc i = arm_code-IsShort load32 (get_type_in_arm i) pc i

-- The words that an instruction of each type takes in the trampoline.
abbrev words_of : InstructionType → ℕ
words_of blx_arm = 3
words_of bl_arm = 3
words_of b_arm = 2
words_of bx_arm = 2
words_of add_arm = 6
words_of adr1_arm = 3
words_of adr2_arm = 3
words_of ldr_arm = 3
words_of mov_arm = 3
words_of _ = 1

abbrev pub size : ℕ → ℕ
size i = words_of (get_type_in_arm i)

length-arm_code :
    (load32 : ℕ → ℕ) (t : InstructionType) (pc i : ℕ) → length (arm_code load32 t pc i) ≡ words_of t
unfolding arm_code
length-arm_code load32 blx_arm pc i = refl
length-arm_code load32 bl_arm pc i = refl
length-arm_code load32 b_arm pc i = refl
length-arm_code load32 bx_arm pc i = refl
length-arm_code load32 add_arm pc i = refl
length-arm_code load32 adr1_arm pc i = refl
length-arm_code load32 adr2_arm pc i = refl
length-arm_code load32 ldr_arm pc i = refl
length-arm_code load32 mov_arm pc i = refl
length-arm_code load32 _ pc i = refl

pub relocate_arm-size : (load32 : ℕ → ℕ) (pc i : ℕ) → length (relocate_arm load32 pc i) ≡ size i
unfolding relocate_arm
relocate_arm-size load32 pc i = length-arm_code load32 (get_type_in_arm i) pc i
