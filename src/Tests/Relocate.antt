-- ===== src/Tests/Relocate.antt =====
-- Single instructions through the relocators of inline32/relocate.c.
use elf_hook_test.Base.{ℕ, ◌+◌, ◌*◌, ◌%◌, ◌^◌, ◌≡◌, refl, arith, [], ◌∷◌, bit_or, bit_and, ◌<<<◌}
use elf_hook_test.Relocate.{IsEmission}
use elf_hook_test.Relocate.Target.{displaced, field, far_imm, near_imm, jump, aligned}
use elf_hook_test.Relocate.Thumb16.{relocate_instruction_in_thumb16}
use elf_hook_test.Relocate.Thumb16.Branch.{
  relocate_instruction_in_thumb16-b1, relocate_instruction_in_thumb16-b2,
  relocate_instruction_in_thumb16-cb,
}
use elf_hook_test.Relocate.Thumb16.Units.{relocate_instruction_in_thumb16-IsEmission}
use elf_hook_test.Relocate.Thumb32.{relocate_instruction_in_thumb32}
use elf_hook_test.Relocate.Thumb32.Branch.{
  relocate_instruction_in_thumb32-bl, relocate_instruction_in_thumb32-b1,
}
use elf_hook_test.Relocate.Thumb32.Units.{relocate_instruction_in_thumb32-IsEmission}

abbrev blank : ℕ → ℕ
blank a = 0

-- BNE, B and CBZ R0.
relocate_instruction_in_thumb16-b1_example :
    (relocate_instruction_in_thumb16 blank 0x8004 0xD1FE).code
    ≡ bit_and 0xD1FE 0xFF00 ∷ 0xE003 ∷ jump (displaced 9 0x8004 (field 0 8 0xD1FE * 2) + 1)
relocate_instruction_in_thumb16-b1_example =
    relocate_instruction_in_thumb16-b1 blank 0x8004 0xD1FE (omega arith) refl refl

relocate_instruction_in_thumb16-b2_example :
    (relocate_instruction_in_thumb16 blank 0x8004 0xE7FE).code
    ≡ jump (displaced 12 0x8004 (field 0 11 0xE7FE * 2) + 1)
relocate_instruction_in_thumb16-b2_example =
    relocate_instruction_in_thumb16-b2 blank 0x8004 0xE7FE (omega arith) refl refl

relocate_instruction_in_thumb16-cb_example :
    (relocate_instruction_in_thumb16 blank 0x8004 0xB108).code
    ≡ bit_and 0xB108 0xFD07
      ∷ 0xE003
      ∷ jump ((0x8004 + field 9 1 0xB108 * 64 + field 3 5 0xB108 * 2 + 1) % 2 ^ 32)
relocate_instruction_in_thumb16-cb_example =
    relocate_instruction_in_thumb16-cb blank 0x8004 0xB108 refl refl refl

relocate_instruction_in_thumb16-IsEmission_example :
    IsEmission 8 (relocate_instruction_in_thumb16 blank 0x8004 0x4478)
relocate_instruction_in_thumb16-IsEmission_example =
    relocate_instruction_in_thumb16-IsEmission blank 0x8004 0x4478

relocate_instruction_in_thumb32-bl_example :
    (relocate_instruction_in_thumb32 blank 0x8004 0xF7FF 0xFFFE).code
    ≡ 0xF20F ∷ 0x0E09 ∷ jump ((displaced 25 (aligned 0x8004) (far_imm 0xF7FF 0xFFFE) + 1) % 2 ^ 32)
relocate_instruction_in_thumb32-bl_example =
    relocate_instruction_in_thumb32-bl 0xF7FF 0xFFFE blank 0x8004 (omega arith) refl (omega arith)
      refl refl

relocate_instruction_in_thumb32-b1_example :
    (relocate_instruction_in_thumb32 blank 0x8004 0xF43F 0xAFFE).code
    ≡ bit_or 0xD000 (bit_and 0xF43F 0x3C0 <<< 2)
      ∷ 0xE003
      ∷ jump ((displaced 21 (aligned 0x8004) (near_imm 0xF43F 0xAFFE) + 1) % 2 ^ 32)
relocate_instruction_in_thumb32-b1_example =
    relocate_instruction_in_thumb32-b1 0xF43F 0xAFFE blank 0x8004 (omega arith) refl (omega arith)
      refl refl (omega arith)

relocate_instruction_in_thumb32-IsEmission_example :
    IsEmission 14 (relocate_instruction_in_thumb32 blank 0x8004 0xE8DF 0xF001)
relocate_instruction_in_thumb32-IsEmission_example =
    relocate_instruction_in_thumb32-IsEmission blank 0x8004 0xE8DF 0xF001

-- An aligned LDR that is no branch keeps its two halfwords apart.
thumb32_plain :
    (relocate_instruction_in_thumb32 blank 0x8004 0xF8D0 0x1004).code ≡ 0xF8D0 ∷ 0x1004 ∷ []
unfolding relocate_instruction_in_thumb32
thumb32_plain = refl
