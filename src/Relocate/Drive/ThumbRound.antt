-- ===== src/Relocate/Drive/ThumbRound.antt =====
-- One round of relocateInstructionInThumb, when there is room in the boundary arrays.
use elf_hook_test.Base.{
  ℕ, ◌+◌, ◌*◌, ◌<◌, ◌≤◌, ◌≡◌, ◌⊎◌, refl, arith, List, length, get_or, leb, Bool, false, Bool-cases,
  inl, inr, length-set,
}
use elf_hook_test.Base.Run.{Returns}
use elf_hook_test.Base.Run.Laws.{read_at_lem}
use elf_hook_test.Base.Memory.{load32, store_halfwords-Outside}
use elf_hook_test.Relocate.{Emitted, IsEmission}
use elf_hook_test.Relocate.Thumb16.{relocate_instruction_in_thumb16}
use elf_hook_test.Relocate.Thumb16.Units.{relocate_instruction_in_thumb16-IsEmission}
use elf_hook_test.Relocate.Thumb32.{relocate_instruction_in_thumb32}
use elf_hook_test.Relocate.Thumb32.Units.{relocate_instruction_in_thumb32-IsEmission}
use elf_hook_test.Relocate.Drive.{Boundaries, Progress, is_wide, thumb_advance, thumb_round}
use elf_hook_test.Relocate.Drive.Mark.{marked, mark_lem}

-- What a stretch of the loop makes of its variables: one entry a round, at most eight halfwords
-- for each halfword walked over, and nothing written before or behind them.
pub record Onward (trampoline limit : ℕ) (s s' : Progress) : Type 0 where
  pub walked : s.orig_pos ≤ s'.orig_pos
  pub in_code : s'.orig_pos ≤ limit
  pub counted : s.bounds.count < s'.bounds.count
  pub few : s'.bounds.count + s.orig_pos ≤ s.bounds.count + limit
  pub forward : s.tp ≤ s'.tp
  pub within : s'.tp + s.orig_pos * 8 ≤ s.tp + s'.orig_pos * 8
  pub same_orig : length s'.bounds.orig ≡ length s.bounds.orig
  pub same_trampoline : length s'.bounds.trampoline ≡ length s.bounds.trampoline
  pub untouched :
      (a : ℕ)
      → (a < trampoline + s.tp * 2) ⊎ (trampoline + s'.tp * 2 ≤ a)
      → s'.memory a ≡ s.memory a

-- A round that does not break leaves code to walk over.
pub record Rounded (trampoline limit : ℕ) (s : Progress) (result : Progress × Bool) : Type 0 where
  pub onward : Onward trampoline limit s result.0
  pub one_mark : result.0.bounds.count ≡ s.bounds.count + 1
  pub goes_on : result.1 ≡ false → (s.orig_pos < result.0.orig_pos) × (result.0.orig_pos < limit)

module _ (trampoline : ℕ) (insns : List ℕ) (limit : ℕ) (s : Progress) where
  abbrev here : Boundaries
  here = marked s.bounds (s.orig_pos * 2) (s.tp * 2)

  abbrev high : ℕ
  high = get_or insns s.orig_pos 0

  abbrev low : ℕ
  low = get_or insns (s.orig_pos + 1) 0

  advance-Onward :
      (n bound : ℕ) (e : Emitted)
      → IsEmission bound e
      → 1 ≤ n
      → bound ≤ n * 8
      → s.orig_pos + n ≤ limit
      → Onward trampoline limit s (thumb_advance trampoline s here n e)
  unfolding thumb_advance
  advance-Onward n bound e v pos small fits = record {
    walked = omega arith;
    in_code = omega arith;
    counted = omega arith;
    few = omega arith;
    forward = omega arith;
    within = omega arith;
    same_orig = length-set s.bounds.orig s.bounds.count (s.orig_pos * 2);
    same_trampoline = length-set s.bounds.trampoline s.bounds.count (s.tp * 2);
    untouched =
        λ a o. store_halfwords-Outside s.memory (trampoline + s.tp * 2) e.code a (omega arith);
  }

  stay-Onward : s.orig_pos < limit → Onward trampoline limit s (record s { bounds = here })
  stay-Onward fits = record {
    walked = omega arith;
    in_code = omega arith;
    counted = omega arith;
    few = omega arith;
    forward = omega arith;
    within = omega arith;
    same_orig = length-set s.bounds.orig s.bounds.count (s.orig_pos * 2);
    same_trampoline = length-set s.bounds.trampoline s.bounds.count (s.tp * 2);
    untouched = λ a o. refl;
  }

  narrow_units : IsEmission 8 (relocate_instruction_in_thumb16 (load32 s.memory) s.pc high)
  narrow_units = relocate_instruction_in_thumb16-IsEmission (load32 s.memory) s.pc high

  wide_units : IsEmission 14 (relocate_instruction_in_thumb32 (load32 s.memory) s.pc high low)
  wide_units = relocate_instruction_in_thumb32-IsEmission (load32 s.memory) s.pc high low

  module _ (fits : limit ≤ length insns) (inside : s.orig_pos < limit)
      (in_orig : s.bounds.count < length s.bounds.orig)
      (in_trampoline : s.bounds.count < length s.bounds.trampoline) where
    pub thumb_round-Rounded :
        Returns (thumb_round trampoline insns limit s) (Rounded trampoline limit s)
    unfolding thumb_round
    thumb_round-Rounded =
        rw
          (
            mark_lem s.bounds (s.orig_pos * 2) (s.tp * 2) in_orig in_trampoline,
            read_at_lem insns s.orig_pos 0 (omega arith),
          )
          (elim (Bool-cases (is_wide high)) [
            | inr narrow ↦ rw narrow (record {
              onward = advance-Onward 1 8 _ narrow_units (omega arith) (omega arith) (omega arith);
              one_mark = unfold thumb_advance in refl;
              goes_on = unfold thumb_advance in λ e. ground arith;
            })
            | inl wide ↦ rw wide (elim (Bool-cases (leb (s.orig_pos + 2) limit)) [
              | inr cut ↦
                  rw cut
                    (record { onward = stay-Onward inside; one_mark = refl; goes_on = λ e. cc })
              | inl whole ↦
                  rw (whole, read_at_lem insns (s.orig_pos + 1) 0 (ground arith))
                    (record {
                      onward =
                          advance-Onward 2 14 _ wide_units (omega arith) (omega arith)
                            (ground arith);
                      one_mark = unfold thumb_advance in refl;
                      goes_on = unfold thumb_advance in λ e. ground arith;
                    })
            ])
          ])
