-- ===== src/Elf.antt =====
-- xHook/xh_elf.c: reading an ELF image in memory. Here stands the text test; the
-- children hold the relocation iterators, the header check and the symbol lookup.
pub mod Sleb
pub mod Packed
pub mod Header
pub mod Hash
pub mod Lookup
pub mod Image
pub mod Replace
pub mod Hook
use elf_hook_test.Base.{ℕ, List, [], ◌∷◌, Bool, true, false, ◌==◌, ◌&&◌}

-- strcmp(a, b) == 0.
abbrev pub same_text : List ℕ → List ℕ → Bool
same_text [] [] = true
same_text [] (y ∷ ys) = false
same_text (x ∷ xs) [] = false
same_text (x ∷ xs) (y ∷ ys) = x == y && same_text xs ys
