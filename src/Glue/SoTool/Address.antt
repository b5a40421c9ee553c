-- ===== src/Glue/SoTool/Address.antt =====
-- Both searches find the same address.
use elf_hook_test.Base.{
  Bool, ℕ, zero, suc, ◌+◌, ◌≤◌, List, [], ◌∷◌, ◌++◌, true, Option, none, some, ◌≡◌, refl, arith, ap,
  ◌∙◌, leb, ◌&&◌, ◌||◌, ◌==◌, if◌then◌else◌, take, length, All,
}
use elf_hook_test.Base.Int.{negsuc}
use elf_hook_test.Base.Run.{done}
use elf_hook_test.Glue.SoTool.{
  r_xp, dash, hex, convert, find_in_lines, find_database_of, find_in_lines2, find_database_of2,
}

length-take_le : {A : Type 0} → (n : ℕ) (xs : List A) → length (take n xs) ≤ n
length-take_le zero xs = omega arith
length-take_le (suc n) [] = omega arith
length-take_le (suc n) (x ∷ xs) = omega (arith, length-take_le n xs)

room :
    {A : Type 0}
    → (n : ℕ) (xs : List A) → n ≤ 29
    → leb (suc (suc (length (take n xs))) + 1) 32 ≡ true
room n xs h = let short = length-take_le n xs in ground arith

-- Digits of a hexadecimal number, one at least.
abbrev is_digit : ℕ → Bool
is_digit c = (leb 48 c && leb c 57) || (leb 97 c && leb c 102)

abbrev pub IsNumber : List ℕ → Type 0
IsNumber [] = ⊥
IsNumber (c ∷ []) = is_digit c ≡ true
IsNumber (c ∷ d ∷ cs) = (is_digit c ≡ true) × IsNumber (d ∷ cs)

module _ (strstr : List ℕ → List ℕ → Option ℕ) (strtok : List ℕ → List ℕ → Option (List ℕ))
    (strtoul : List ℕ → ℕ → ℕ) (so_name line : List ℕ) (i j k : ℕ)
    (named : strstr line so_name ≡ some i) (executable : strstr line r_xp ≡ some j)
    (dashed : strstr line dash ≡ some k) where
  -- The lines before have nothing of the name.
  abbrev pub Lacks : List ℕ → Type 0
  Lacks other = strstr other so_name ≡ none

  find_in_lines_lem :
      (before after : List (List ℕ))
      → All Lacks before
      → k ≤ 29
      → find_in_lines strstr strtoul (before ++ line ∷ after) so_name
        ≡ done (strtoul (hex (take k line)) 0, true)
  unfolding find_in_lines convert
  find_in_lines_lem [] after lacks short =
      rw (find_in_lines, named, executable, dashed, convert, room k line short) refl
  find_in_lines_lem (other ∷ before) after lacks short =
      rw (find_in_lines, lacks.0) (find_in_lines_lem before after lacks.1 short)

  find_in_lines2_lem :
      (before after : List (List ℕ))
      → All Lacks before
      → strtok line dash ≡ some (take k line)
      → find_in_lines2 strstr strtok strtoul (before ++ line ∷ after) so_name
        ≡ (if strtoul (take k line) 16 == 0x8000 then 0 else strtoul (take k line) 16)
  unfolding find_in_lines2
  find_in_lines2_lem [] after lacks token = rw (find_in_lines2, named, token) refl
  find_in_lines2_lem (other ∷ before) after lacks token =
      rw (find_in_lines2, lacks.0) (find_in_lines2_lem before after lacks.1 token)

-- For a library whose first line in the file is its executable one: find_database_of and, with its own
-- process, find_database_of2 find the number in front of the first dash, which find_database_of2 takes
-- for 0 if it is 0x8000; and find_database_of leaves the file open. The lines are below the size of
-- both buffers and the text in front of the dash is a number of 1 to 29 hexadecimal digits. Of the C
-- library it is used that strtoul reads such digits alike behind "0x" with base 0 and alone with base
-- 16, and that strtok ends a text at its first dash where that is not its first character.
pub find_database_of2-find_database_of :
    (strstr : List ℕ → List ℕ → Option ℕ) (strtok : List ℕ → List ℕ → Option (List ℕ))
    (strtoul : List ℕ → ℕ → ℕ) (so_name line : List ℕ) (i j k n : ℕ) (before after : List (List ℕ))
    (maps : Option ℕ → Option (List (List ℕ)))
    → ((text : List ℕ) → IsNumber text → strtoul (hex text) 0 ≡ strtoul text 16)
    → ((text : List ℕ) (m : ℕ)
        → strstr text dash ≡ some (suc m)
        → strtok text dash ≡ some (take (suc m) text))
    → maps none ≡ some (before ++ line ∷ after)
    → All (λ other. strstr other so_name ≡ none) before
    → strstr line so_name ≡ some i
    → strstr line r_xp ≡ some j
    → strstr line dash ≡ some (suc k)
    → IsNumber (take (suc k) line)
    → suc k ≤ 29
    → (find_database_of strstr strtoul (maps none) so_name
        ≡ done (strtoul (take (suc k) line) 16, true))
      × (find_database_of2 strstr strtok strtoul maps (negsuc n) so_name ≡ (
          if strtoul (take (suc k) line) 16 == 0x8000 then 0 else strtoul (take (suc k) line) 16))
unfolding find_database_of find_database_of2
find_database_of2-find_database_of strstr strtok strtoul so_name line i j k n before after maps same
      token opens lacks named executable dashed digits short =
    (
      rw opens (
          find_in_lines_lem strstr strtok strtoul so_name line i j (suc k) named executable dashed
            before after lacks short
          ∙ ap (λ v. done (v, true)) (same (take (suc k) line) digits)),
      rw (find_database_of2, opens)
          (find_in_lines2_lem strstr strtok strtoul so_name line i j (suc k) named executable dashed
            before after lacks (token line k dashed)),
    )
