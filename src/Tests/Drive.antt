-- ===== src/Tests/Drive.antt =====
-- The loops over a displaced function of inline32/relocate.c.
use elf_hook_test.Base.{ℕ, zero, suc, false, ◌<◌, get_or, ◌/◌, ◌≡◌, refl, arith, List, [], ◌∷◌}
use elf_hook_test.Base.Run.{fault, Returns}
use elf_hook_test.Base.Memory.{Memory}
use elf_hook_test.Relocate.Drive.{
  Boundaries, is_wide, relocate_instruction_in_arm, relocate_instruction_in_thumb,
}
use elf_hook_test.Relocate.Drive.ArmLoop.{IsRelocated, relocate_instruction_in_arm-IsRelocated}
use elf_hook_test.Relocate.Drive.ThumbLoop.{
  IsRelocatedThumb, relocate_instruction_in_thumb-IsRelocated,
}
use elf_hook_test.Relocate.Drive.ArmOverrun.{relocate_instruction_in_arm-overrun}
use elf_hook_test.Relocate.Drive.Overrun.{relocate_instruction_in_thumb-overrun}

abbrev blank : Memory
blank a = 0

abbrev four : List ℕ
four = 0 ∷ 0 ∷ 0 ∷ 0 ∷ []

abbrev empty_bounds : Boundaries
empty_bounds = record { orig = four; trampoline = four; count = 0 }

abbrev used_bounds : Boundaries
used_bounds = record { orig = four; trampoline = four; count = 3 }

abbrev prologue : List ℕ
prologue = 0xE92D4010 ∷ 0xEBFFFFFE ∷ []

relocate_instruction_in_arm-IsRelocated_example :
    Returns
      (relocate_instruction_in_arm 0x1000 0x8000 prologue 8 blank empty_bounds)
      (IsRelocated 0x1000 0x8000 prologue 8 (8 / 4) blank empty_bounds)
relocate_instruction_in_arm-IsRelocated_example =
    relocate_instruction_in_arm-IsRelocated 0x1000 0x8000 prologue 8 blank empty_bounds
      (omega arith) (omega arith) (omega arith)

relocate_instruction_in_arm-overrun_example :
    relocate_instruction_in_arm 0x1000 0x8000 prologue 8 blank used_bounds ≡ fault
relocate_instruction_in_arm-overrun_example =
    relocate_instruction_in_arm-overrun 0x1000 0x8000 prologue 8 blank used_bounds (omega arith)
      (omega arith) (omega arith) (omega arith)

-- PUSH, BL and MOV.
abbrev thumb_prologue : List ℕ
thumb_prologue = 0xB510 ∷ 0xF7FF ∷ 0xFFFE ∷ 0x4604 ∷ []

relocate_instruction_in_thumb-IsRelocated_example :
    Returns
      (relocate_instruction_in_thumb 0x1000 0x8000 thumb_prologue 8 blank empty_bounds)
      (IsRelocatedThumb 0x1000 0x8000 (8 / 2) blank empty_bounds)
relocate_instruction_in_thumb-IsRelocated_example =
    relocate_instruction_in_thumb-IsRelocated 0x1000 0x8000 thumb_prologue 8 blank empty_bounds
      (omega arith) (omega arith) (omega arith) (omega arith)

-- Six MOV instructions, which doInlineHook's twelve bytes may hold.
abbrev moves : List ℕ
moves = 0x4604 ∷ 0x4604 ∷ 0x4604 ∷ 0x4604 ∷ 0x4604 ∷ 0x4604 ∷ []

moves_narrow : (k : ℕ) → k < 12 / 2 → is_wide (get_or moves k 0) ≡ false
unfolding is_wide
moves_narrow zero h = refl
moves_narrow (suc zero) h = refl
moves_narrow (suc (suc zero)) h = refl
moves_narrow (suc (suc (suc zero))) h = refl
moves_narrow (suc (suc (suc (suc zero)))) h = refl
moves_narrow (suc (suc (suc (suc (suc zero))))) h = refl
moves_narrow (suc (suc (suc (suc (suc (suc k)))))) h = absurd (omega arith)

relocate_instruction_in_thumb-overrun_example :
    relocate_instruction_in_thumb 0x1000 0x8002 moves 12 blank empty_bounds ≡ fault
relocate_instruction_in_thumb-overrun_example =
    relocate_instruction_in_thumb-overrun 0x1000 0x8002 moves 12 blank empty_bounds (omega arith)
      moves_narrow (omega arith) (omega arith) (omega arith) (omega arith)
