-- ===== src/Tests/Files.antt =====
-- The parts that read ELF files and /proc, and the printer.
use elf_hook_test.Base.{
  ℕ, ◌++◌, ◌≡◌, ◌%◌, ◌^◌, ◌⊎◌, refl, inr, arith, List, [], ◌∷◌, true, false, some,
}
use elf_hook_test.Base.Run.{done}
use elf_hook_test.Elf.Hash.{gnu_hash}
use elf_hook_test.Elf.Hash.Polynomial.{base33, gnu_hash-base33}
use elf_hook_test.Elf.Lookup.{Tables, find_symidx_by_name}
use elf_hook_test.Elf.Lookup.Sound.{Names, find_symidx_by_name-Names}
use elf_hook_test.MemProtect.{Line, get_mem_protect}
use elf_hook_test.MemProtect.Covered.{Backed, get_mem_protect-Backed}
use elf_hook_test.Printer.{init_get, string_append_to_buf}
use elf_hook_test.Printer.Buffer.{IsTerminated, string_append_to_buf-IsTerminated}

abbrev name : List ℕ
name = 0x70 ∷ 0x72 ∷ 0x69 ∷ 0x6E ∷ 0x74 ∷ 0x66 ∷ []

gnu_hash-base33_example : gnu_hash name ≡ base33 5381 name % 2 ^ 32
gnu_hash-base33_example = gnu_hash-base33 name

-- "printf" in both tables, behind the null symbol.
abbrev tables : Tables
tables = record {
  names = [] ∷ name ∷ [];
  bucket = 1 ∷ [];
  bucket_cnt = 1;
  chain = 0 ∷ 0 ∷ [];
  symoffset = 1;
  bloom = 0 ∷ [];
  bloom_sz = 1;
  bloom_shift = 5;
}

find_symidx_by_name-Names_example : Names tables name (find_symidx_by_name 32 false tables 2 name)
find_symidx_by_name-Names_example = find_symidx_by_name-Names tables name 32 false 2

-- The search does find it.
find_symidx_by_name_found : find_symidx_by_name 32 false tables 2 name ≡ done (some 1)
unfolding find_symidx_by_name elf_hook_test.Elf.Hash.elf_hash
find_symidx_by_name_found = refl

-- Two lines that follow on each other, the first read and write, the second read only.
abbrev lines : List Line
lines =
    record {
      matches = true;
      parses = true;
      start = 0x1000;
      stop = 0x2000;
      r = true;
      w = true;
      x = false;
      private = true;
    }
    ∷ record {
      matches = true;
      parses = true;
      start = 0x2000;
      stop = 0x3000;
      r = true;
      w = false;
      x = false;
      private = true;
    }
    ∷ []

get_mem_protect-Backed_example :
    Backed lines 0x2004 (record { read = true; write = false; exec = false })
unfolding get_mem_protect
get_mem_protect-Backed_example =
    get_mem_protect-Backed 32 lines 0x1FF0 0x20 0x2004
      (record { read = true; write = false; exec = false }) (omega arith) refl (omega arith)
      (omega arith)

string_append_to_buf-IsTerminated_example :
    let (good, b') = string_append_to_buf (λ n. true) init_get name in
    IsTerminated b' × ((good ≡ true) × (b'.text ≡ [] ++ name) ⊎ (good ≡ false) × (b' ≡ init_get))
string_append_to_buf-IsTerminated_example =
    string_append_to_buf-IsTerminated (λ n. true) init_get name (inr (refl, refl)) (omega arith)
