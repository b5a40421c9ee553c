-- ===== src/Relocate/Thumb32/Units.antt =====
-- What relocateInstructionInThumb32 returns is the number of halfwords that it stored.
use elf_hook_test.Base.{ℕ, ◌<<<◌, arith, bit_or}
use elf_hook_test.Relocate.{
  InstructionType, blx_thumb32, bl_thumb32, b1_thumb32, b2_thumb32, adr1_thumb32, adr2_thumb32,
  ldr_thumb32, tbb_thumb32, tbh_thumb32, IsEmission,
}
use elf_hook_test.Relocate.Decode.{get_type_in_thumb32}
use elf_hook_test.Relocate.Thumb32.{thumb32_code, relocate_instruction_in_thumb32}

thumb32_code-IsEmission :
    (load32 : ℕ → ℕ) (t : InstructionType) (pc high low : ℕ)
    → IsEmission 14 (thumb32_code load32 t pc high low)
unfolding thumb32_code
thumb32_code-IsEmission load32 blx_thumb32 pc high low = omega arith
thumb32_code-IsEmission load32 bl_thumb32 pc high low = omega arith
thumb32_code-IsEmission load32 b1_thumb32 pc high low = omega arith
thumb32_code-IsEmission load32 b2_thumb32 pc high low = omega arith
thumb32_code-IsEmission load32 adr1_thumb32 pc high low = omega arith
thumb32_code-IsEmission load32 adr2_thumb32 pc high low = omega arith
thumb32_code-IsEmission load32 ldr_thumb32 pc high low = omega arith
thumb32_code-IsEmission load32 tbb_thumb32 pc high low = omega arith
thumb32_code-IsEmission load32 tbh_thumb32 pc high low = omega arith
thumb32_code-IsEmission load32 _ pc high low = omega arith

-- For every 32-bit instruction the returned offset is the number of halfwords stored, and these
-- are at least two and at most fourteen.
pub relocate_instruction_in_thumb32-IsEmission :
    (load32 : ℕ → ℕ) (pc high low : ℕ)
    → IsEmission 14 (relocate_instruction_in_thumb32 load32 pc high low)
unfolding relocate_instruction_in_thumb32
relocate_instruction_in_thumb32-IsEmission load32 pc high low =
    thumb32_code-IsEmission load32 (get_type_in_thumb32 (bit_or (high <<< 16) low)) pc high low
