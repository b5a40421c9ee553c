-- ===== src/Relocate/Thumb16/Units.antt =====
-- What relocateInstructionInThumb16 returns is the number of halfwords that it stored.
use elf_hook_test.Base.{ℕ, arith}
use elf_hook_test.Relocate.{
  InstructionType, b1_thumb16, b2_thumb16, bx_thumb16, add_thumb16, mov_thumb16, adr_thumb16,
  ldr_thumb16, cb_thumb16, IsEmission,
}
use elf_hook_test.Relocate.Decode.{get_type_in_thumb16}
use elf_hook_test.Relocate.Thumb16.{thumb16_code, relocate_instruction_in_thumb16}

thumb16_code-IsEmission :
    (load32 : ℕ → ℕ) (t : InstructionType) (pc i : ℕ) → IsEmission 8 (thumb16_code load32 t pc i)
unfolding thumb16_code
thumb16_code-IsEmission load32 b1_thumb16 pc i = omega arith
thumb16_code-IsEmission load32 b2_thumb16 pc i = omega arith
thumb16_code-IsEmission load32 bx_thumb16 pc i = omega arith
thumb16_code-IsEmission load32 add_thumb16 pc i = omega arith
thumb16_code-IsEmission load32 mov_thumb16 pc i = omega arith
thumb16_code-IsEmission load32 adr_thumb16 pc i = omega arith
thumb16_code-IsEmission load32 ldr_thumb16 pc i = omega arith
thumb16_code-IsEmission load32 cb_thumb16 pc i = omega arith
thumb16_code-IsEmission load32 _ pc i = omega arith

-- For every 16-bit instruction the returned offset is the number of halfwords stored, and these
-- are at least two and at most eight.
pub relocate_instruction_in_thumb16-IsEmission :
    (load32 : ℕ → ℕ) (pc i : ℕ) → IsEmission 8 (relocate_instruction_in_thumb16 load32 pc i)
unfolding relocate_instruction_in_thumb16
relocate_instruction_in_thumb16-IsEmission load32 pc i =
    thumb16_code-IsEmission load32 (get_type_in_thumb16 i) pc i
