-- ===== src/Relocate/Decode.antt =====
-- The decoders of relocate.c: getTypeInThumb16, getTypeInThumb32 and getTypeInArm. Each is a
-- chain of mask tests whose order matters.
use elf_hook_test.Base.{ℕ, ◌==◌, if◌then◌else◌, bit_and}
use elf_hook_test.Relocate.{
  InstructionType, b1_thumb16, b2_thumb16, bx_thumb16, add_thumb16, mov_thumb16, adr_thumb16,
  ldr_thumb16, cb_thumb16, blx_thumb32, bl_thumb32, b1_thumb32, b2_thumb32, adr1_thumb32,
  adr2_thumb32, ldr_thumb32, tbb_thumb32, tbh_thumb32, blx_arm, bl_arm, b_arm, bx_arm, add_arm,
  adr1_arm, adr2_arm, mov_arm, ldr_arm, undefine,
}

unfoldable pub get_type_in_thumb16 : ℕ → InstructionType
get_type_in_thumb16 i =
    if bit_and i 0xF000 == 0xD000
    then b1_thumb16
    else if bit_and i 0xF800 == 0xE000
    then b2_thumb16
    else if bit_and i 0xFFF8 == 0x4778
    then bx_thumb16
    else if bit_and i 0xFF78 == 0x4478
    then add_thumb16
    else if bit_and i 0xFF78 == 0x4678
    then mov_thumb16
    else if bit_and i 0xF800 == 0xA000
    then adr_thumb16
    else if bit_and i 0xF800 == 0x4800
    then ldr_thumb16
    else if bit_and i 0xF500 == 0xB100
    then cb_thumb16
    else undefine

unfoldable pub get_type_in_thumb32 : ℕ → InstructionType
get_type_in_thumb32 i =
    if bit_and i 0xFFF0D000 == 0xF3B08000
    then undefine
    else if bit_and i 0xF800D000 == 0xF000C000
    then blx_thumb32
    else if bit_and i 0xF800D000 == 0xF000D000
    then bl_thumb32
    else if bit_and i 0xF800D000 == 0xF0008000
    then b1_thumb32
    else if bit_and i 0xF800D000 == 0xF0009000
    then b2_thumb32
    else if bit_and i 0xFBFF8000 == 0xF2AF0000
    then adr1_thumb32
    else if bit_and i 0xFBFF8000 == 0xF20F0000
    then adr2_thumb32
    else if bit_and i 0xFF7F0000 == 0xF85F0000
    then ldr_thumb32
    else if bit_and i 0xFFFF00F0 == 0xE8DF0000
    then tbb_thumb32
    else if bit_and i 0xFFFF00F0 == 0xE8DF0010
    then tbh_thumb32
    else undefine

unfoldable pub get_type_in_arm : ℕ → InstructionType
get_type_in_arm i =
    if bit_and i 0xFE000000 == 0xFA000000
    then blx_arm
    else if bit_and i 0xF000000 == 0xB000000
    then bl_arm
    else if bit_and i 0xF000000 == 0xA000000
    then b_arm
    else if bit_and i 0xFF000FF == 0x120001F
    then bx_arm
    else if bit_and i 0xFEF0010 == 0x8F0000
    then add_arm
    else if bit_and i 0xFFF0000 == 0x28F0000
    then adr1_arm
    else if bit_and i 0xFFF0000 == 0x24F0000
    then adr2_arm
    else if bit_and i 0xE5F0000 == 0x41F0000
    then ldr_arm
    else if bit_and i 0xFE00FFF == 0x1A0000F
    then mov_arm
    else undefine
