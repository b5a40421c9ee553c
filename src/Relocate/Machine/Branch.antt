-- ===== src/Relocate/Machine/Branch.antt =====
-- What relocateInstructionInArm stores for B, BL and BLX jumps where the instruction does.
use elf_hook_test.Base.{
  ℕ, ◌+◌, ◌*◌, ◌^◌, ◌<◌, ◌≡◌, ◌≢◌, refl, ap, subst, ◌∙◌, arith, Bool, true, false, Option, none,
  some, [], ◌∷◌, if◌then◌else◌, add32,
}
use elf_hook_test.Relocate.Target.{displaced, field}
use elf_hook_test.Relocate.Arm.{relocate_arm}
use elf_hook_test.Relocate.Arm.Branch.{relocate_arm-b, relocate_arm-bl, relocate_arm-blx}
use elf_hook_test.Relocate.Machine.{Machine, ldr, add_imm, decode, perform, run, update, Placed}
use elf_hook_test.Relocate.Machine.Add.{then_run}

pub data Kind : Type 0 where
  b bl blx : Kind

-- The encodings; the condition in bits 28 to 31 plays no part.
abbrev pub IsBranch : Kind → ℕ → Type 0
IsBranch b i = (field 25 7 i ≢ 0x7D) × (field 24 4 i ≡ 0xA)
IsBranch bl i = (field 25 7 i ≢ 0x7D) × (field 24 4 i ≡ 0xB)
IsBranch blx i = field 25 7 i ≡ 0x7D

-- The address that the architecture jumps to from `pc`, with bit 0 set for Thumb.
abbrev pub destination : Kind → (pc i : ℕ) → ℕ
destination b pc i = displaced 26 pc (field 0 24 i * 4)
destination bl pc i = displaced 26 pc (field 0 24 i * 4)
destination blx pc i = add32 (displaced 26 pc (field 0 24 i * 4 + field 24 1 i * 2)) 1

abbrev pub links : Kind → Bool
links b = false
links bl = true
links blx = true

abbrev pub rounds : Kind → ℕ
rounds b = 1
rounds bl = 2
rounds blx = 2

-- The jump is made, LR holds `behind` where the instruction links, and nothing else has changed.
abbrev pub Jumped : Machine → Bool → (behind target : ℕ) → Option Machine → Type 0
Jumped m link behind target none = ⊥
Jumped m link behind target (some t) =
    (t.pc ≡ target)
    × ((a : ℕ) → t.words a ≡ m.words a)
    × ((n : ℕ) → t.regs n ≡ (if link then update m.regs 14 behind n else m.regs n))

load_decoded : decode 0xE51FF004 ≡ some (ldr false 15 4)
unfolding decode
load_decoded = refl

link_decoded : decode 0xE28FE004 ≡ some (add_imm true 14 15 4)
unfolding decode
link_decoded = refl

module _ (start target : ℕ) (fits : start < 2 ^ 32) where
  -- LDR PC, [PC, #-4] and the address.
  load_step :
      (s : Machine) (n : ℕ)
      → s.pc ≡ add32 start n
      → n < 32
      → s.words (add32 start (n + 4)) ≡ target
      → perform (ldr false 15 4) s ≡ record s { pc = target }
  unfolding perform
  load_step s n p lt value = ap (λ v. record s { pc = v }) (ap s.words (omega (arith, p)) ∙ value)

  jump_run :
      (s : Machine) (n : ℕ)
      → s.pc ≡ add32 start n
      → n < 32
      → s.words (add32 start n) ≡ 0xE51FF004
      → s.words (add32 start (n + 4)) ≡ target
      → run 1 s ≡ some (record s { pc = target })
  unfolding run
  jump_run s n p lt code value =
      then_run 0 s (record s { pc = target }) 0xE51FF004 (ldr false 15 4) (ap s.words p ∙ code)
        load_decoded (load_step s n p lt value)

  jump-Jumped :
      (m : Machine)
      → Placed m start (0xE51FF004 ∷ target ∷ [])
      → Jumped m false (add32 start 12) target (run 1 (record m { pc = start }))
  jump-Jumped m placed =
      rw
        (jump_run (record m { pc = start }) 0 (omega arith) (omega arith) (placed 0 _ refl)
          (placed 1 _ refl))
        (refl, λ a. refl, λ n. refl)

  abbrev linked : Machine → Machine
  linked m = record m { regs = update m.regs 14 (add32 start 12); pc = add32 start 4 }

  link_step : (m : Machine) → perform (add_imm true 14 15 4) (record m { pc = start }) ≡ linked m
  unfolding perform
  link_step m = ap (λ v. record m { regs = update m.regs 14 v; pc = add32 start 4 }) (omega arith)

  link-Jumped :
      (m : Machine)
      → Placed m start (0xE28FE004 ∷ 0xE51FF004 ∷ target ∷ [])
      → Jumped m true (add32 start 12) target (run 2 (record m { pc = start }))
  link-Jumped m placed =
      rw
        (
          then_run 1 (record m { pc = start }) (linked m) 0xE28FE004 (add_imm true 14 15 4)
              (ap m.words (omega arith) ∙ placed 0 _ refl) link_decoded (link_step m),
          jump_run (linked m) 4 refl (omega arith) (placed 1 _ refl) (placed 2 _ refl),
        )
        (refl, λ a. refl, λ n. refl)

-- What relocateInstructionInArm stores for B, BL and BLX: run from where it stands, it jumps to the
-- address that the architecture gives the instruction at its own place, whatever its condition; BL
-- and BLX leave in LR the address just behind the stored words; no other register changes, nor memory.
pub relocate_arm-run_branch :
    (m : Machine) (start i : ℕ) (kind : Kind)
    → start < 2 ^ 32
    → IsBranch kind i
    → Placed m start (relocate_arm m.words (add32 m.pc 8) i)
    → Jumped m
        (links kind)
        (add32 start 12)
        (destination kind (add32 m.pc 8) i)
        (run (rounds kind) (record m { pc = start }))
relocate_arm-run_branch m start i b fits (other, is) placed =
    jump-Jumped start (destination b (add32 m.pc 8) i) fits m (
      subst (Placed m start) (relocate_arm-b m.words (add32 m.pc 8) i (omega arith) other is)
        placed)
relocate_arm-run_branch m start i bl fits (other, is) placed =
    link-Jumped start (destination bl (add32 m.pc 8) i) fits m (
      subst (Placed m start) (relocate_arm-bl m.words (add32 m.pc 8) i (omega arith) other is)
        placed)
relocate_arm-run_branch m start i blx fits is placed =
    link-Jumped start (destination blx (add32 m.pc 8) i) fits m
      (subst (Placed m start) (relocate_arm-blx m.words (add32 m.pc 8) i (omega arith) is) placed)
