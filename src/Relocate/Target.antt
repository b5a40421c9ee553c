-- ===== src/Relocate/Target.antt =====
-- The architecture's reading of a branch, which relocate.c's bit operations are compared with.
use elf_hook_test.Base.{ℕ, ◌+◌, ◌-◌, ◌*◌, ◌/◌, ◌%◌, ◌^◌, ltb, ◌==◌, if◌then◌else◌, List, [], ◌∷◌}

-- The address `x` bytes from `pc`, where `x` is a two's complement number of `w` bits.
abbrev pub displaced : ℕ → ℕ → ℕ → ℕ
displaced w pc x =
    if ltb x (2 ^ (w - 1)) then (pc + x) % 2 ^ 32 else (pc + 2 ^ 32 - (2 ^ w - x)) % 2 ^ 32

-- Bits `j` to `j + k - 1` of a word.
abbrev pub field : ℕ → ℕ → ℕ → ℕ
field j k i = i / 2 ^ j % 2 ^ k

-- I1 and I2 of a far Thumb branch: NOT (J EOR S).
abbrev pub not_xor : ℕ → ℕ → ℕ
not_xor j s = if j == s then 1 else 0

-- The offset of BL, BLX and B.W (encoding T4), S:I1:I2:imm10:imm11:0, from the two halfwords.
abbrev pub far_imm : ℕ → ℕ → ℕ
far_imm high low =
    let s = field 10 1 high in
    s * 2 ^ 24
    + not_xor (field 13 1 low) s * 2 ^ 23
    + not_xor (field 11 1 low) s * 2 ^ 22
    + field 0 10 high * 2 ^ 12
    + field 0 11 low * 2

-- The offset of B.W (encoding T3), S:J2:J1:imm6:imm11:0.
abbrev pub near_imm : ℕ → ℕ → ℕ
near_imm high low =
    field 10 1 high * 2 ^ 20
    + field 11 1 low * 2 ^ 19
    + field 13 1 low * 2 ^ 18
    + field 0 6 high * 2 ^ 12
    + field 0 11 low * 2

-- LDR.W PC, [PC], and the address that it loads.
abbrev pub jump : ℕ → List ℕ
jump t = 0xF8DF ∷ 0xF000 ∷ (t % 65536) ∷ (t / 65536) ∷ []

-- `pc` with its two lowest bits cleared.
abbrev pub aligned : ℕ → ℕ
aligned pc = pc / 4 * 4
