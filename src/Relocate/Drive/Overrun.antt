-- ===== src/Relocate/Drive/Overrun.antt =====
-- What relocateInstructionInThumb does where the boundary arrays have no room.
use elf_hook_test.Base.{
  ℕ, zero, suc, ◌+◌, ◌*◌, ◌/◌, ◌<◌, ◌≤◌, ◌≡◌, ◌⊎◌, arith, List, length, get_or, add32, leb, false,
  inl, inr, length-set,
}
use elf_hook_test.Base.Run.{fault}
use elf_hook_test.Base.Run.Laws.{read_at_lem}
use elf_hook_test.Base.Memory.{Memory, load32}
use elf_hook_test.Relocate.{Emitted}
use elf_hook_test.Relocate.Thumb16.{relocate_instruction_in_thumb16}
use elf_hook_test.Relocate.Drive.{
  Boundaries, Progress, is_wide, thumb_advance, thumb_round, thumb_loop,
  relocate_instruction_in_thumb,
}
use elf_hook_test.Relocate.Drive.Mark.{marked, mark_lem, mark-fault}

le_or_gt : (a b : ℕ) → (a ≤ b) ⊎ (b < a)
le_or_gt a b = omega arith

module _ (trampoline : ℕ) (insns : List ℕ) (limit : ℕ) (fits : limit ≤ length insns)
    (all_narrow : (k : ℕ) → k < limit → is_wide (get_or insns k 0) ≡ false) where
  overrun_loop :
      (fuel : ℕ) (s : Progress)
      → limit ≤ s.orig_pos + fuel
      → s.orig_pos < limit
      → length s.bounds.orig + s.orig_pos < s.bounds.count + limit
      → s.bounds.count ≤ length s.bounds.orig
      → length s.bounds.orig ≤ length s.bounds.trampoline
      → thumb_loop trampoline insns limit fuel s ≡ fault
  unfolding thumb_loop thumb_round
  overrun_loop zero s enough inside over full more = absurd (omega arith)
  overrun_loop (suc fuel) s enough inside over full more =
      elim (le_or_gt (length s.bounds.orig) s.bounds.count) [
        | inl no_room ↦ rw (mark-fault s.bounds (s.orig_pos * 2) (s.tp * 2) no_room, thumb_round)
        | inr room ↦
            rw
              (
                mark_lem s.bounds (s.orig_pos * 2) (s.tp * 2) room (omega arith),
                read_at_lem insns s.orig_pos 0 (omega arith),
                all_narrow s.orig_pos inside,
                thumb_round,
              )
              (rw (not_yet room) (
                overrun_loop fuel (thumb_advance trampoline s here 1 emitted) (omega arith)
                  (omega arith) (rw length-set (omega arith)) (rw length-set (omega arith))
                  (rw (length-set, length-set) more)))
      ]
    where
      here : Boundaries
      here = marked s.bounds (s.orig_pos * 2) (s.tp * 2)

      emitted : Emitted
      emitted = relocate_instruction_in_thumb16 (load32 s.memory) s.pc (get_or insns s.orig_pos 0)

      not_yet : s.bounds.count < length s.bounds.orig → leb limit (s.orig_pos + 1) ≡ false
      not_yet room = ground arith

-- With 16-bit instructions only, one boundary is stored for each of them: more halfwords than
-- there is room for in `orig_boundaries` behind `*count` run over the array's end.
pub relocate_instruction_in_thumb-overrun :
    (trampoline target : ℕ) (insns : List ℕ) (len : ℕ) (m : Memory) (b : Boundaries)
    → len / 2 ≤ length insns
    → ((k : ℕ) → k < len / 2 → is_wide (get_or insns k 0) ≡ false)
    → length b.orig < b.count + len / 2
    → b.count ≤ length b.orig
    → length b.orig ≤ length b.trampoline
    → 0 < len / 2
    → relocate_instruction_in_thumb trampoline target insns len m b ≡ fault
unfolding relocate_instruction_in_thumb
relocate_instruction_in_thumb-overrun trampoline target insns len m b fits narrow over full more
      pos =
    rw (
      overrun_loop trampoline insns (len / 2) fits narrow (len / 2 + 1)
        (record { orig_pos = 0; tp = 0; pc = add32 target 4; memory = m; bounds = b }) (omega arith)
        pos (omega arith) full more)
