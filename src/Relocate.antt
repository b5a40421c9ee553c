-- ===== src/Relocate.antt =====
-- inline32/relocate.c: rewriting the ARM and Thumb instructions that a hook displaces.
-- Here stand the shared types; the children hold the decoders, the three rewriters and the two
-- loops that drive them.
pub mod Scratch
pub mod Target
pub mod Decode
pub mod Thumb16
pub mod Thumb32
pub mod Arm
pub mod Drive
pub mod Machine
use elf_hook_test.Base.{
  ℕ, suc, ◌+◌, List, [], ◌∷◌, ◌++◌, Bool, if◌then◌else◌, bit_and, zero, length, ◌≡◌, ◌≤◌,
}

-- `enum INSTRUCTION_TYPE`.
pub data InstructionType : Type 0 where
  b1_thumb16 b2_thumb16 bx_thumb16 add_thumb16 mov_thumb16 adr_thumb16 : InstructionType
  ldr_thumb16 cb_thumb16 : InstructionType
  blx_thumb32 bl_thumb32 b1_thumb32 b2_thumb32 adr1_thumb32 adr2_thumb32 : InstructionType
  ldr_thumb32 tbb_thumb32 tbh_thumb32 : InstructionType
  blx_arm bl_arm b_arm bx_arm add_arm adr1_arm adr2_arm mov_arm ldr_arm : InstructionType
  undefine : InstructionType

-- What a rewriter leaves: the units stored from `trampoline_instructions[0]` on, and the number
-- of units that it returns.
pub record Emitted : Type 0 where
  pub code : List ℕ
  pub offset : ℕ

abbrev pub nothing : Emitted
nothing = record { code = []; offset = 0 }

-- `trampoline_instructions[idx++] = v`.
infixl 20 ◌⊳◌
abbrev pub ◌⊳◌ : Emitted → ℕ → Emitted
e ⊳ v = record { code = e.code ++ v ∷ []; offset = e.offset + 1 }

-- The returned number counts the stored units, of which there are two to `limit`.
pub record IsEmission (limit : ℕ) (e : Emitted) : Type 0 where
  pub counted : e.offset ≡ length e.code
  pub some_units : 2 ≤ e.offset
  pub few_units : e.offset ≤ limit

-- ALIGN_PC.
abbrev pub align_pc : ℕ → ℕ
align_pc pc = bit_and pc 0xFFFFFFFC

-- `for (r = top; ; --r) if (r is free) break;`. The callers use at most two registers and start
-- at 7 or 12, so register 0 is never passed.
pub pick_register : (ℕ → Bool) → ℕ → ℕ
pick_register used zero = zero
pick_register used (suc r) =
    let lower = pick_register used r in if used (suc r) then lower else suc r
