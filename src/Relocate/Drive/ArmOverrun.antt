-- ===== src/Relocate/Drive/ArmOverrun.antt =====
-- What relocateInstructionInArm does where the boundary arrays have no room.
use elf_hook_test.Base.{
  ℕ, zero, suc, ◌+◌, ◌*◌, ◌/◌, ◌<◌, ◌≤◌, ◌≡◌, ◌⊎◌, inl, inr, arith, List, length, length-set, add32,
}
use elf_hook_test.Base.Run.{fault}
use elf_hook_test.Base.Memory.{Memory}
use elf_hook_test.Relocate.Drive.{
  Boundaries, Progress, arm_round, arm_loop, relocate_instruction_in_arm,
}
use elf_hook_test.Relocate.Drive.Mark.{mark-fault}
use elf_hook_test.Relocate.Drive.ArmLoop.{next, arm_round_lem}

le_or_gt : (a b : ℕ) → (a ≤ b) ⊎ (b < a)
le_or_gt a b = omega arith

module _ (trampoline : ℕ) (insns : List ℕ) where
  round-fault :
      (s : Progress) → length s.bounds.orig ≤ s.bounds.count → arm_round trampoline insns s ≡ fault
  unfolding arm_round
  round-fault s full = rw (mark-fault s.bounds (s.orig_pos * 4) (s.tp * 4) full)

  arm_loop-overrun :
      (left : ℕ) (s : Progress)
      → s.orig_pos + left ≤ length insns
      → s.bounds.count ≤ length s.bounds.orig
      → length s.bounds.orig < s.bounds.count + left
      → length s.bounds.orig ≤ length s.bounds.trampoline
      → arm_loop trampoline insns left s ≡ fault
  unfolding arm_loop
  arm_loop-overrun zero s fits full over more = absurd (omega arith)
  arm_loop-overrun (suc left) s fits full over more =
      elim (le_or_gt (length s.bounds.orig) s.bounds.count) [
        | inl no_room ↦ rw (round-fault s no_room)
        | inr room ↦ rw (arm_round_lem trampoline insns s (omega arith) room (omega arith)) (
            arm_loop-overrun left (next trampoline insns s) (omega arith)
              (rw length-set (omega arith)) (rw length-set (omega arith))
              (rw length-set (rw length-set more)))
      ]

-- relocateInstructionInArm never resets `*count`: where the count that it is given and the words
-- to rewrite add up to more than `orig_boundaries` holds, it stores over the array's end.
pub relocate_instruction_in_arm-overrun :
    (trampoline target : ℕ) (insns : List ℕ) (len : ℕ) (m : Memory) (b : Boundaries)
    → len / 4 ≤ length insns
    → b.count ≤ length b.orig
    → length b.orig < b.count + len / 4
    → length b.orig ≤ length b.trampoline
    → relocate_instruction_in_arm trampoline target insns len m b ≡ fault
unfolding relocate_instruction_in_arm
relocate_instruction_in_arm-overrun trampoline target insns len m b fits full over more = rw (
    arm_loop-overrun trampoline insns (len / 4)
      (record { orig_pos = 0; tp = 0; pc = add32 target 8; memory = m; bounds = b }) (omega arith)
      full over more)
