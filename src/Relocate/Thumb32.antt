-- ===== src/Relocate/Thumb32.antt =====
-- relocateInstructionInThumb32. `high` and `low` are the two halfwords in memory order.
pub mod Units
pub mod Fields
pub mod Branch
use elf_hook_test.Base.{
  ℕ, List, [], ◌∷◌, ◌==◌, if◌then◌else◌, bit_and, bit_or, bit_xor, ◌||◌, ◌<<<◌, ◌>>>◌, shl32, add32,
  sub32,
}
use elf_hook_test.Relocate.{
  InstructionType, blx_thumb32, bl_thumb32, b1_thumb32, b2_thumb32, adr1_thumb32, adr2_thumb32,
  ldr_thumb32, tbb_thumb32, tbh_thumb32, Emitted, nothing, ◌⊳◌, align_pc, pick_register,
}
use elf_hook_test.Relocate.Decode.{get_type_in_thumb32}

-- The bit fields that a branch is made of. `!` of C is 1 at 0 and 0 elsewhere.
abbrev pub j1_bit : ℕ → ℕ
j1_bit low = bit_and low 0x2000 >>> 13

abbrev pub j2_bit : ℕ → ℕ
j2_bit low = bit_and low 0x800 >>> 11

abbrev pub s_bit : ℕ → ℕ
s_bit high = bit_and high 0x400 >>> 10

abbrev pub i_bit : ℕ → ℕ → ℕ
i_bit j s = if bit_xor j s == 0 then 1 else 0

-- `s ? (x | (0xFFFFFFFF << n)) : x`.
abbrev pub extend_by : ℕ → ℕ → ℕ → ℕ
extend_by s n x = if s == 0 then x else bit_or x (shl32 0xFFFFFFFF n)

-- `x` of BL, BLX and the unconditional B.W, whose low field is `low_mask` wide.
unfoldable pub far_field : ℕ → ℕ → ℕ → ℕ
far_field low_mask high low =
    let s = s_bit high in
    let i1 = i_bit (j1_bit low) s in
    let i2 = i_bit (j2_bit low) s in
    bit_or (bit_or (bit_or (bit_or (s <<< 24) (i1 <<< 23)) (i2 <<< 22)) (bit_and high 0x3FF <<< 12))
      (bit_and low low_mask <<< 1)

unfoldable pub far_offset : ℕ → ℕ → ℕ → ℕ
far_offset low_mask high low = extend_by (s_bit high) 25 (far_field low_mask high low)

-- `x` of the conditional B.W.
unfoldable pub near_field : ℕ → ℕ → ℕ
near_field high low =
    bit_or
      (bit_or (bit_or (bit_or (s_bit high <<< 20) (j2_bit low <<< 19)) (j1_bit low <<< 18))
        (bit_and high 0x3F <<< 12))
      (bit_and low 0x7FF <<< 1)

unfoldable pub near_offset : ℕ → ℕ → ℕ
near_offset high low = extend_by (s_bit high) 21 (near_field high low)

-- LDR.W PC, [PC], and the address that it loads.
jump_to : Emitted → ℕ → Emitted
jump_to e value = e ⊳ 0xF8DF ⊳ 0xF000 ⊳ bit_and value 0xFFFF ⊳ value >>> 16

-- ADD.W LR, PC, #9.
link : Emitted
link = nothing ⊳ 0xF20F ⊳ 0x0E09

-- LDR.W Rr, [PC, 2] of a value stored behind a branch.
unfoldable pub wide_load_code : ℕ → ℕ → List ℕ
wide_load_code r value =
    0xF8DF ∷ bit_or (r <<< 12) 4 ∷ 0xBF00 ∷ 0xE001 ∷ bit_and value 0xFFFF ∷ (value >>> 16) ∷ []

unfoldable pub adr_imm32 : ℕ → ℕ → ℕ
adr_imm32 high low =
    let i = bit_and high 0x400 >>> 10 in
    let imm3 = bit_and low 0x7000 >>> 12 in
    let imm8 = bit_and (bit_or (high <<< 16) low) 0xFF in
    bit_or (bit_or (shl32 i 31) (shl32 imm3 30)) (shl32 imm8 27)

unfoldable pub ldr_address : ℕ → ℕ → ℕ → ℕ
ldr_address pc high low =
    let is_add = bit_and high 0x80 >>> 7 in
    let imm32 = bit_and low 0xFFF in
    if is_add == 0 then sub32 (align_pc pc) imm32 else add32 (align_pc pc) imm32

-- TBB and TBH differ in the shift of the index and in the width of the load.
unfoldable pub table_code : ℕ → ℕ → ℕ → ℕ → List ℕ
unfolding pick_register
table_code shift load_op pc low =
    let rm = bit_and low 0xF in
    let r = pick_register (λ r. r == rm) 7 in
    let rx = pick_register (λ x. x == rm || x == r) 7 in
    bit_or 0xB400 (1 <<< rx)
    ∷ bit_or 0x4805 (r <<< 8)
    ∷ bit_or (bit_or 0x4600 (rm <<< 3)) rx
    ∷ bit_or 0xEB00 r
    ∷ bit_or (bit_or shift (rx <<< 8)) rx
    ∷ bit_or (bit_or load_op (rx <<< 3)) rx
    ∷ bit_or 0xEB00 r
    ∷ bit_or (bit_or 0x0040 (r <<< 8)) rx
    ∷ bit_or 0x3001 (r <<< 8)
    ∷ bit_or 0xBC00 (1 <<< rx)
    ∷ bit_or 0x4700 (r <<< 3)
    ∷ 0xBF00
    ∷ bit_and pc 0xFFFF
    ∷ (pc >>> 16)
    ∷ []

unfoldable pub thumb32_code : (ℕ → ℕ) → InstructionType → ℕ → ℕ → ℕ → Emitted
unfolding far_offset far_field near_offset near_field jump_to link wide_load_code adr_imm32
    ldr_address table_code
thumb32_code load32 blx_thumb32 pc high low =
    jump_to link (add32 (align_pc pc) (far_offset 0x7FE high low))
thumb32_code load32 bl_thumb32 pc high low =
    jump_to link (add32 (add32 (align_pc pc) (far_offset 0x7FF high low)) 1)
thumb32_code load32 b1_thumb32 pc high low =
    jump_to (nothing ⊳ bit_or 0xD000 (bit_and high 0x3C0 <<< 2) ⊳ 0xE003)
      (add32 (add32 (align_pc pc) (near_offset high low)) 1)
thumb32_code load32 b2_thumb32 pc high low =
    jump_to nothing (add32 (add32 (align_pc pc) (far_offset 0x7FF high low)) 1)
thumb32_code load32 adr1_thumb32 pc high low = record {
  code = wide_load_code (bit_and low 0xF00 >>> 8) (add32 (align_pc pc) (adr_imm32 high low));
  offset = 6;
}
thumb32_code load32 adr2_thumb32 pc high low = record {
  code = wide_load_code (bit_and low 0xF00 >>> 8) (sub32 (align_pc pc) (adr_imm32 high low));
  offset = 6;
}
thumb32_code load32 ldr_thumb32 pc high low = record {
  code = wide_load_code (low >>> 12) (load32 (ldr_address pc high low));
  offset = 6;
}
thumb32_code load32 tbb_thumb32 pc high low = record {
  code = table_code 0x0000 0x7800 pc low;
  offset = 14;
}
thumb32_code load32 tbh_thumb32 pc high low = record {
  code = table_code 0x0040 0x8800 pc low;
  offset = 14;
}
thumb32_code load32 _ pc high low = record { code = high ∷ low ∷ []; offset = 2 }

unfoldable pub relocate_instruction_in_thumb32 : (ℕ → ℕ) → ℕ → ℕ → ℕ → Emitted
unfolding get_type_in_thumb32 thumb32_code
relocate_instruction_in_thumb32 load32 pc high low =
    let instruction = bit_or (high <<< 16) low in
    thumb32_code load32 (get_type_in_thumb32 instruction) pc high low
