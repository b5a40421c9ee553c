-- ===== src/Relocate/Machine/Decode.antt =====
-- The decoder of relocate.c agrees with the architecture on the instructions that it replaces, and the
-- words that it stores mean what their comments say.
use elf_hook_test.Base.{
  ℕ, ◌+◌, ◌*◌, ◌/◌, ◌%◌, ◌<◌, ◌≡◌, arith, refl, true, false, some, bit_and, bit_or, ◌<<<◌,
}
use native.Mathlib.Nat.{zero-add}
use elf_hook_test.Base.Bits.{
  bit_and-zero, bit_and_mask, bit_and_field, bit_and_split, bit_or_low, bit_or_split,
}
use elf_hook_test.Base.Bits.Bounds.{bit_and-le}
use elf_hook_test.Relocate.{ldr_arm, adr1_arm, adr2_arm, mov_arm, add_arm}
use elf_hook_test.Relocate.Decode.{get_type_in_arm}
use elf_hook_test.Relocate.Target.{field}
use elf_hook_test.Relocate.Machine.{ldr, add_imm, add_reg, push, pop, decode}

-- The masks, upper half first.
module _ (i high : ℕ) (top : i / 65536 ≡ high) where
  split : (r q : ℕ) → r < 65536 → bit_and i (r + q * 65536) ≡ bit_and i r + bit_and high q * 65536
  split r q h = rw (← top) (bit_and_split 16 i r q h)

  high_only : (q : ℕ) → bit_and i (q * 65536) ≡ bit_and high q * 65536
  high_only q = rw (bit_and-zero i, zero-add, zero-add) at (split 0 q (omega arith))

pub ldr_down_type : (i : ℕ) → i / 65536 ≡ 0xE51F → get_type_in_arm i ≡ ldr_arm
unfolding get_type_in_arm
ldr_down_type i top = ground (
  arith,
  high_only i 0xE51F top 0xFE00,
  high_only i 0xE51F top 0xF00,
  split i 0xE51F top 0xFF 0xFF0 (omega arith),
  bit_and-le i 0xFF,
  split i 0xE51F top 0x10 0xFEF (omega arith),
  bit_and-le i 0x10,
  high_only i 0xE51F top 0xFFF,
  high_only i 0xE51F top 0xE5F,
)

pub ldr_up_type : (i : ℕ) → i / 65536 ≡ 0xE59F → get_type_in_arm i ≡ ldr_arm
unfolding get_type_in_arm
ldr_up_type i top = ground (
  arith,
  high_only i 0xE59F top 0xFE00,
  high_only i 0xE59F top 0xF00,
  split i 0xE59F top 0xFF 0xFF0 (omega arith),
  bit_and-le i 0xFF,
  split i 0xE59F top 0x10 0xFEF (omega arith),
  bit_and-le i 0x10,
  high_only i 0xE59F top 0xFFF,
  high_only i 0xE59F top 0xE5F,
)

pub adr_up_type : (i : ℕ) → i / 65536 ≡ 0xE28F → get_type_in_arm i ≡ adr1_arm
unfolding get_type_in_arm
adr_up_type i top = ground (
  arith,
  high_only i 0xE28F top 0xFE00,
  high_only i 0xE28F top 0xF00,
  split i 0xE28F top 0xFF 0xFF0 (omega arith),
  bit_and-le i 0xFF,
  split i 0xE28F top 0x10 0xFEF (omega arith),
  bit_and-le i 0x10,
  high_only i 0xE28F top 0xFFF,
)

pub adr_down_type : (i : ℕ) → i / 65536 ≡ 0xE24F → get_type_in_arm i ≡ adr2_arm
unfolding get_type_in_arm
adr_down_type i top = ground (
  arith,
  high_only i 0xE24F top 0xFE00,
  high_only i 0xE24F top 0xF00,
  split i 0xE24F top 0xFF 0xFF0 (omega arith),
  bit_and-le i 0xFF,
  split i 0xE24F top 0x10 0xFEF (omega arith),
  bit_and-le i 0x10,
  high_only i 0xE24F top 0xFFF,
)

pub mov_type : (i : ℕ) → i / 65536 ≡ 0xE1A0 → i % 4096 ≡ 15 → get_type_in_arm i ≡ mov_arm
unfolding get_type_in_arm
mov_type i top low = ground (
  arith,
  high_only i 0xE1A0 top 0xFE00,
  high_only i 0xE1A0 top 0xF00,
  split i 0xE1A0 top 0xFF 0xFF0 (omega arith),
  bit_and-le i 0xFF,
  split i 0xE1A0 top 0x10 0xFEF (omega arith),
  bit_and-le i 0x10,
  high_only i 0xE1A0 top 0xFFF,
  high_only i 0xE1A0 top 0xE5F,
  split i 0xE1A0 top 0xFFF 0xFE0 (omega arith),
  bit_and_mask 12 i,
)

pub add_type : (i : ℕ) → i / 65536 ≡ 0xE08F → i / 16 % 2 ≡ 0 → get_type_in_arm i ≡ add_arm
unfolding get_type_in_arm
add_type i top low = ground (
  arith,
  high_only i 0xE08F top 0xFE00,
  high_only i 0xE08F top 0xF00,
  split i 0xE08F top 0xFF 0xFF0 (omega arith),
  bit_and-le i 0xFF,
  split i 0xE08F top 0x10 0xFEF (omega arith),
  bit_and-le i 0x10,
  bit_and_field 4 1 i,
)

pub decode-load : (r : ℕ) → r < 16 → decode (bit_or 0xE51F0000 (r <<< 12)) ≡ some (ldr false r 0)
unfolding decode
decode-load r h = rw (bit_or_low 16 0xE51F (r * 4096) (omega arith)) (ground arith)

pub decode-skip : decode 0xE28FF000 ≡ some (add_imm true 15 15 0)
unfolding decode
decode-skip = refl

or_high :
    (q low r : ℕ)
    → low < 4096
    → r < 16
    → bit_or (low + (q * 16) * 4096) (r * 4096) ≡ low + (q * 16 + r) * 4096
or_high q low r h k = omega (arith, bit_or_split 12 low (q * 16) r h, bit_or_low 4 q r k)

pub decode-load_far : (r : ℕ) → r < 16 → decode (bit_or 0xE59F0008 (r <<< 12)) ≡ some (ldr true r 8)
unfolding decode
decode-load_far r h = rw (or_high 0xE59F 8 r (omega arith) h) (ground arith)

pub decode-push : (r : ℕ) → r < 16 → decode (bit_or 0xE52D0004 (r <<< 12)) ≡ some (push r)
unfolding decode
decode-push r h = rw (or_high 0xE52D 4 r (omega arith) h) (ground arith)

pub decode-pop : (r : ℕ) → r < 16 → decode (bit_or 0xE49D0004 (r <<< 12)) ≡ some (pop r)
unfolding decode
decode-pop r h = rw (or_high 0xE49D 4 r (omega arith) h) (ground arith)

-- The instruction with another first operand.
pub decode-add :
    (i r : ℕ)
    → r < 15
    → i / 65536 ≡ 0xE08F
    → field 4 8 i ≡ 0
    → decode (bit_or (bit_and i 0xFFF0FFFF) (r <<< 16))
      ≡ some (add_reg (field 12 4 i) r (field 0 4 i))
unfolding decode
decode-add i r h top low =
    rw
      (
        bit_and_split 16 i 0xFFFF 0xFFF0 (omega arith),
        top,
        bit_and_mask 16 i,
        bit_or_split 16 (i % 65536) 0xE080 r (omega arith),
        bit_or_low 4 0xE08 r (omega arith),
      )
      (ground arith)
