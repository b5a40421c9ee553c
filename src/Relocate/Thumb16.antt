-- ===== src/Relocate/Thumb16.antt =====
-- relocateInstructionInThumb16. `load32` is the word that the program's memory holds at an
-- address; a store of a halfword cuts it to 16 bits, written only where the value can be wider.
pub mod Branch
pub mod Units
use elf_hook_test.Base.{
  ℕ, List, [], ◌∷◌, ◌==◌, if◌then◌else◌, bit_and, bit_or, ◌<<<◌, ◌>>>◌, shl32, add32,
}
use elf_hook_test.Relocate.{
  InstructionType, b1_thumb16, b2_thumb16, bx_thumb16, add_thumb16, mov_thumb16, adr_thumb16,
  ldr_thumb16, cb_thumb16, Emitted, nothing, ◌⊳◌, align_pc, pick_register,
}
use elf_hook_test.Relocate.Decode.{get_type_in_thumb16}

-- LDR.W PC, [PC], and the address that it loads.
jump_to : Emitted → ℕ → Emitted
jump_to e value = e ⊳ 0xF8DF ⊳ 0xF000 ⊳ bit_and value 0xFFFF ⊳ value >>> 16

-- B <label>, conditional.
unfoldable pub b1_target : ℕ → ℕ → ℕ
b1_target pc instruction =
    let x = bit_and instruction 0xFF <<< 1 in
    let top_bit = x >>> 8 in
    let imm32 = if top_bit == 0 then x else bit_or x (shl32 0xFFFFFFFF 8) in add32 pc imm32

-- B <label>.
unfoldable pub b2_target : ℕ → ℕ → ℕ
b2_target pc instruction =
    let x = bit_and instruction 0x7FF <<< 1 in
    let top_bit = x >>> 11 in
    let imm32 = if top_bit == 0 then x else bit_or x (shl32 0xFFFFFFFF 11) in add32 pc imm32

-- ADD Rdn, PC through a register that is saved around it.
unfoldable pub add_code : ℕ → ℕ → List ℕ
unfolding pick_register
add_code pc instruction =
    let rdn = bit_or (bit_and instruction 0x80 >>> 4) (bit_and instruction 0x7) in
    let r = pick_register (λ r. r == rdn) 7 in
    bit_or 0xB400 (1 <<< r)
    ∷ bit_or 0x4802 (r <<< 8)
    ∷ bit_or (bit_and instruction 0xFF87) (r <<< 3)
    ∷ bit_or 0xBC00 (1 <<< r)
    ∷ 0xE002
    ∷ 0xBF00
    ∷ bit_and pc 0xFFFF
    ∷ (pc >>> 16)
    ∷ []

-- LDR Rd, [PC] of a value stored behind a branch.
unfoldable pub load_code : ℕ → ℕ → List ℕ
load_code r value = bit_or 0x4800 (r <<< 8) ∷ 0xE001 ∷ bit_and value 0xFFFF ∷ (value >>> 16) ∷ []

-- CB{N}Z Rn, <label>.
unfoldable pub cb_target : ℕ → ℕ → ℕ
cb_target pc instruction =
    let imm32 = bit_or (bit_and instruction 0x200 >>> 3) (bit_and instruction 0xF8 >>> 2) in
    add32 (add32 pc imm32) 1

-- The rewriting of an instruction of each type. `+` binds tighter than `<<` in the source's
-- `ALIGN_PC(pc) + (instruction & 0xFF) << 2`.
unfoldable pub thumb16_code : (ℕ → ℕ) → InstructionType → ℕ → ℕ → Emitted
unfolding jump_to b1_target b2_target add_code load_code cb_target
thumb16_code load32 b1_thumb16 pc i =
    jump_to (nothing ⊳ bit_and i 0xFF00 ⊳ 0xE003) (bit_or (b1_target pc i) 1)
thumb16_code load32 b2_thumb16 pc i = jump_to nothing (bit_or (b2_target pc i) 1)
thumb16_code load32 bx_thumb16 pc i = jump_to nothing (bit_or pc 1)
thumb16_code load32 add_thumb16 pc i = record { code = add_code pc i; offset = 8 }
thumb16_code load32 mov_thumb16 pc i = record { code = load_code (bit_and i 0x7) pc; offset = 4 }
thumb16_code load32 adr_thumb16 pc i = record {
  code = load_code (bit_and i 0x700 >>> 8) (shl32 (add32 (align_pc pc) (bit_and i 0xFF)) 2);
  offset = 4;
}
thumb16_code load32 ldr_thumb16 pc i = record {
  code = load_code (bit_and i 0x700 >>> 8) (load32 (add32 (align_pc pc) (bit_and i 0xFF <<< 2)));
  offset = 4;
}
thumb16_code load32 cb_thumb16 pc i =
    let value = cb_target pc i in
    record {
      code =
          bit_and i 0xFD07 ∷ 0xE003 ∷ 0xF8DF ∷ 0xF000 ∷ bit_and value 0xFFFF ∷ (value >>> 16) ∷ [];
      offset = 6;
    }
thumb16_code load32 _ pc i = record { code = i ∷ 0xBF00 ∷ []; offset = 2 }

unfoldable pub relocate_instruction_in_thumb16 : (ℕ → ℕ) → ℕ → ℕ → Emitted
unfolding get_type_in_thumb16 thumb16_code
relocate_instruction_in_thumb16 load32 pc i = thumb16_code load32 (get_type_in_thumb16 i) pc i
