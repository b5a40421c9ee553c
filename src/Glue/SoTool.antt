-- ===== src/Glue/SoTool.antt =====
-- cpp/SoTool.c: the address of a library, from /proc/self/maps. The lines are what fgets reads, each
-- a text without its terminator; strstr, strtok and strtoul are the C library's.
pub mod Address
use elf_hook_test.Base.{
  ℕ, ◌+◌, List, [], ◌∷◌, Bool, true, false, Option, none, some, leb, ◌==◌, if◌then◌else◌, take,
  length,
}
use elf_hook_test.Base.Int.{ℤ, pos, negsuc}
use elf_hook_test.Base.Run.{Run, done, fault}

-- "r-xp", "-" and "0x".
abbrev pub r_xp : List ℕ
r_xp = 114 ∷ 45 ∷ 120 ∷ 112 ∷ []

abbrev pub dash : List ℕ
dash = 45 ∷ []

abbrev pub hex : List ℕ → List ℕ
hex text = 48 ∷ 120 ∷ text

module _ (strstr : List ℕ → List ℕ → Option ℕ) (strtoul : List ℕ → ℕ → ℕ) where
  -- `sprintf(num, "0x%s", cmdline)` into 32 bytes, and the number, with the file left open.
  unfoldable pub convert : List ℕ → Run (ℕ × Bool)
  convert text = if leb (length (hex text) + 1) 32 then done (strtoul (hex text) 0, true) else fault

  -- The loop of find_database_of: the address, and whether the file is still open.
  unfoldable pub find_in_lines : List (List ℕ) → (so_name : List ℕ) → Run (ℕ × Bool)
  unfolding convert
  find_in_lines [] so_name = done (0, false)
  find_in_lines (line ∷ lines) so_name =
      let rest = find_in_lines lines so_name in
      elim (strstr line so_name) [
        | none ↦ rest
        | some i ↦ elim (strstr line r_xp) [
          | none ↦ rest
          | some j ↦ elim (strstr line dash) [ none ↦ rest | some k ↦ convert (take k line) ]
        ]
      ]

  -- find_database_of; `none` where the file does not open.
  unfoldable pub find_database_of : Option (List (List ℕ)) → (so_name : List ℕ) → Run (ℕ × Bool)
  unfolding find_in_lines
  find_database_of none so_name = done (0, false)
  find_database_of (some lines) so_name = find_in_lines lines so_name

module _ (strstr : List ℕ → List ℕ → Option ℕ) (strtok : List ℕ → List ℕ → Option (List ℕ))
    (strtoul : List ℕ → ℕ → ℕ) where
  unfoldable pub find_in_lines2 : List (List ℕ) → (so_name : List ℕ) → ℕ
  find_in_lines2 [] so_name = 0
  find_in_lines2 (line ∷ lines) so_name =
      let rest = find_in_lines2 lines so_name in
      elim (strstr line so_name) [
        | none ↦ rest
        | some i ↦ elim (strtok line dash) [
          | none ↦ rest
          | some address ↦ let base = strtoul address 16 in if base == 0x8000 then 0 else base
        ]
      ]

  -- find_database_of2; `maps` is the file of the process itself or of another one. The file is closed
  -- on each way out.
  unfoldable pub find_database_of2 :
      (maps : Option ℕ → Option (List (List ℕ))) (pid : ℤ) → (so_name : List ℕ) → ℕ
  unfolding find_in_lines2
  find_database_of2 maps pid so_name =
      let of_pid : Option ℕ = elim pid [ pos n ↦ some n | negsuc n ↦ none ] in
      elim (maps of_pid) [ none ↦ 0 | some lines ↦ find_in_lines2 lines so_name ]
