-- ===== src/Relocate/Machine.antt =====
-- A part of the ARM instruction set, as the architecture describes it: the instructions that load or
-- compute an address from the pc and those that relocateInstructionInArm puts in their place.
pub mod Decode
pub mod Literal
pub mod Add
pub mod Branch
use elf_hook_test.Base.{
  ℕ, zero, suc, ◌+◌, ◌*◌, Bool, true, false, ◌&&◌, Option, none, some, List, ◌==◌, ltb,
  if◌then◌else◌, add32, sub32, ◌≡◌, get_elem?,
}
use elf_hook_test.Relocate.Target.{field}

-- The registers but the pc, the words of memory, and the address of the next instruction.
pub record Machine : Type 0 where
  pub regs : ℕ → ℕ
  pub words : ℕ → ℕ
  pub pc : ℕ

-- LDR from an address near the pc, ADD and SUB of an immediate value without rotation, ADD and MOV of
-- registers, and the PUSH and POP of one register. All are unconditional and leave the flags.
pub data Instr : Type 0 where
  ldr : (is_add : Bool) (rd imm : ℕ) → Instr
  add_imm : (is_add : Bool) (rd rn imm : ℕ) → Instr
  add_reg : (rd rn rm : ℕ) → Instr
  mov : (rd rm : ℕ) → Instr
  push pop : (r : ℕ) → Instr

unfoldable pub decode : ℕ → Option Instr
decode i =
    if field 16 16 i == 0xE51F
    then some (ldr false (field 12 4 i) (field 0 12 i))
    else if field 16 16 i == 0xE59F
    then some (ldr true (field 12 4 i) (field 0 12 i))
    else if field 16 16 i == 0xE28F && ltb (field 0 12 i) 256
    then some (add_imm true (field 12 4 i) 15 (field 0 12 i))
    else if field 16 16 i == 0xE24F && ltb (field 0 12 i) 256
    then some (add_imm false (field 12 4 i) 15 (field 0 12 i))
    else if field 20 12 i == 0xE08 && field 4 8 i == 0
    then some (add_reg (field 12 4 i) (field 16 4 i) (field 0 4 i))
    else if field 16 16 i == 0xE1A0 && field 4 8 i == 0
    then some (mov (field 12 4 i) (field 0 4 i))
    else if field 16 16 i == 0xE52D && field 0 12 i == 4
    then some (push (field 12 4 i))
    else if field 16 16 i == 0xE49D && field 0 12 i == 4
    then some (pop (field 12 4 i))
    else none

-- The pc reads as the address of the instruction plus 8, and a write to it is a jump.
abbrev pub read : Machine → ℕ → ℕ
read m n = if n == 15 then add32 m.pc 8 else m.regs n

abbrev pub update : (ℕ → ℕ) → ℕ → ℕ → ℕ → ℕ
update f n v k = if k == n then v else f k

abbrev pub write : Machine → ℕ → ℕ → Machine
write m n v =
    if n == 15
    then record m { pc = v }
    else record m { regs = update m.regs n v; pc = add32 m.pc 4 }

abbrev pub offset_by : Bool → ℕ → ℕ → ℕ
offset_by is_add a b = if is_add then add32 a b else sub32 a b

-- Register 13 is the stack pointer.
unfoldable pub perform : Instr → Machine → Machine
perform (ldr is_add rd imm) m = write m rd (m.words (offset_by is_add (read m 15) imm))
perform (add_imm is_add rd rn imm) m = write m rd (offset_by is_add (read m rn) imm)
perform (add_reg rd rn rm) m = write m rd (add32 (read m rn) (read m rm))
perform (mov rd rm) m = write m rd (read m rm)
perform (push r) m =
    let sp = sub32 (m.regs 13) 4 in
    record m { regs = update m.regs 13 sp; words = update m.words sp (read m r); pc = add32 m.pc 4 }
perform (pop r) m =
    write (record m { regs = update m.regs 13 (add32 (m.regs 13) 4) }) r (m.words (m.regs 13))

-- A number of instructions, one after the other; `none` is one that is not described here.
unfoldable pub run : ℕ → Machine → Option Machine
unfolding decode
run zero m = some m
run (suc n) m = elim (decode (m.words m.pc)) [ none ↦ none | some d ↦ run n (perform d m) ]

-- The words of `code` stand at `start`.
abbrev pub Placed : Machine → ℕ → List ℕ → Type 0
Placed m start code = (j c : ℕ) → get_elem? code j ≡ some c → m.words (add32 start (4 * j)) ≡ c
