-- ===== src/Tests/Machine.antt =====
-- Relocated ARM instructions, run where they stand.
use elf_hook_test.Base.{
  ℕ, zero, suc, ◌+◌, ◌-◌, refl, arith, List, [], ◌∷◌, ◌==◌, if◌then◌else◌, add32, sub32, true,
  false,
}
use elf_hook_test.Relocate.Arm.{relocate_arm}
use elf_hook_test.Relocate.Machine.{Machine, ldr, add_reg, decode, perform, run, Placed}
use elf_hook_test.Relocate.Machine.Literal.{Agree, relocate_arm-run}
use elf_hook_test.Relocate.Machine.Add.{AgreeBut, relocate_arm-run_add}
use elf_hook_test.Relocate.Machine.Branch.{b, Jumped, destination, relocate_arm-run_branch}

-- Words at 0x9000, and 77 elsewhere.
abbrev words_at : List ℕ → ℕ → ℕ
words_at [] a = 77
words_at (c ∷ cs) a = if a == 0x9000 then c else words_at cs (a - 4)

abbrev machine : List ℕ → Machine
machine code = record { regs = λ n. n + 0x100; words = words_at code; pc = 0x8000 }

-- LDR R0, [PC, #8].
abbrev load_code : List ℕ
load_code = 0xE51F0000 ∷ 0xE28FF000 ∷ 77 ∷ []

load_code-Placed : Placed (machine load_code) 0x9000 load_code
load_code-Placed zero c e = cc
load_code-Placed (suc zero) c e = cc
load_code-Placed (suc (suc zero)) c e = cc
load_code-Placed (suc (suc (suc j))) c e = absurd cc

relocate_arm-run_example :
    Agree
      (machine load_code)
      0x9000
      0xE59F0008
      (omega arith)
      (omega arith)
      (ldr true 0 8)
      (run 2 (record (machine load_code) { pc = 0x9000 }))
unfolding decode relocate_arm
relocate_arm-run_example =
    relocate_arm-run (machine load_code) 0x9000 0xE59F0008 (omega arith) (omega arith)
      (ldr true 0 8) refl (omega arith) load_code-Placed

-- ADD R0, PC, R1, with R2 to R12 free.
abbrev add_words : List ℕ
add_words = 0xE52DC004 ∷ 0xE59FC008 ∷ 0xE08C0001 ∷ 0xE49DC004 ∷ 0xE28FF000 ∷ 0x8008 ∷ []

add_words-Placed : Placed (machine add_words) 0x9000 add_words
add_words-Placed zero c e = cc
add_words-Placed (suc zero) c e = cc
add_words-Placed (suc (suc zero)) c e = cc
add_words-Placed (suc (suc (suc zero))) c e = cc
add_words-Placed (suc (suc (suc (suc zero)))) c e = cc
add_words-Placed (suc (suc (suc (suc (suc zero))))) c e = cc
add_words-Placed (suc (suc (suc (suc (suc (suc j)))))) c e = absurd cc

relocate_arm-run_add_example :
    AgreeBut
      (perform (add_reg 0 15 1) (machine add_words))
      (sub32 0x10D 4)
      0x9000
      (run 5 (record (machine add_words) { pc = 0x9000 }))
unfolding decode relocate_arm
relocate_arm-run_add_example =
    relocate_arm-run_add (machine add_words) 0x9000 0xE08F0001 0 1 (omega arith) refl (omega arith)
      (omega arith) (omega arith, λ e. omega (arith, e)) (omega arith, λ e. omega (arith, e))
      (λ j h e. omega (arith, h, e)) add_words-Placed

-- B, eight bytes on.
abbrev jump_words : List ℕ
jump_words = 0xE51FF004 ∷ 0x8010 ∷ []

jump_words-Placed : Placed (machine jump_words) 0x9000 jump_words
jump_words-Placed zero c e = cc
jump_words-Placed (suc zero) c e = cc
jump_words-Placed (suc (suc j)) c e = absurd cc

relocate_arm-run_branch_example :
    Jumped
      (machine jump_words)
      false
      (add32 0x9000 12)
      (destination b 0x8008 0xEA000002)
      (run 1 (record (machine jump_words) { pc = 0x9000 }))
unfolding relocate_arm
relocate_arm-run_branch_example =
    relocate_arm-run_branch (machine jump_words) 0x9000 0xEA000002 b (omega arith)
      (omega arith, refl) jump_words-Placed
