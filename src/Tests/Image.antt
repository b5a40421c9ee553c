-- ===== src/Tests/Image.antt =====
-- A library with a dynamic segment, for xh_elf_init, and the chains of its symbol table.
use elf_hook_test.Base.{
  ℕ, suc, zero, ◌≡◌, refl, inl, inr, ◌⊎◌, ◌<◌, arith, List, [], ◌∷◌, true, some, if◌then◌else◌,
  ◌==◌, get_elem?, length,
}
use elf_hook_test.Base.Run.{Returns}
use elf_hook_test.Elf.Hash.{elf_hash}
use elf_hook_test.Elf.Image.{Elf, Image, cleared, init, load, dynamic, null, strtab, symtab, hash}
use elf_hook_test.Elf.Image.Valid.{IsValid, init-IsValid}
use elf_hook_test.Elf.Lookup.{Tables, hash_lookup}
use elf_hook_test.Elf.Lookup.Complete.{Answers, hash_lookup-Answers}

-- The library stands at 0x1000, its dynamic segment at 0x1100.
abbrev image : Image
image = record {
  phoff = 52;
  phdrs =
      record { type = load; offset = 0; vaddr = 0; memsz = 0x1000 }
      ∷ record { type = dynamic; offset = 0x100; vaddr = 0x100; memsz = 32 }
      ∷ [];
  dyn_at = λ a.
      if a == 0x1100
      then record { tag = strtab; val = 0x200 }
      else if a == 0x1108
      then record { tag = symtab; val = 0x300 }
      else if a == 0x1110
      then record { tag = hash; val = 0x400 }
      else record { tag = null; val = 0 };
  word32 = λ a. 2;
  byte = λ a. 0;
}

abbrev pub accepted : Elf
accepted = record cleared {
  has_pathname = true;
  base_addr = 0x1000;
  bias_addr = 0x1000;
  ehdr = 0x1000;
  phdr = 0x1034;
  dyn = 0x1100;
  dyn_sz = 32;
  strtab = 0x1200;
  symtab = 0x1300;
  bucket_cnt = 2;
  chain_cnt = 2;
  bucket = 0x1408;
  chain = 0x1410;
}

init-IsValid_example : IsValid 32 image 0x1000 accepted
unfolding init
init-IsValid_example = init-IsValid 32 image cleared accepted 0x1000 true refl

abbrev pub printf : List ℕ
printf = 0x70 ∷ 0x72 ∷ 0x69 ∷ 0x6E ∷ 0x74 ∷ 0x66 ∷ []

-- "printf" behind the null symbol, in a chain of one.
abbrev pub chained : Tables
chained = record {
  names = [] ∷ printf ∷ [];
  bucket = 1 ∷ [];
  bucket_cnt = 1;
  chain = 0 ∷ 0 ∷ [];
  symoffset = 1;
  bloom = 0 ∷ [];
  bloom_sz = 1;
  bloom_shift = 5;
}

chained-links :
    (i j : ℕ)
    → get_elem? chained.chain i ≡ some j
    → (j ≡ 0) ⊎ ((j < length chained.chain) × (0 < 0))
chained-links zero j e = inl cc
chained-links (suc zero) j e = inl cc
chained-links (suc (suc i)) j e = absurd cc

hash_lookup-Answers_example : Returns (hash_lookup chained 3 printf) (Answers chained printf 1)
unfolding elf_hash
hash_lookup-Answers_example =
    hash_lookup-Answers chained (λ n. 0) (record { named = refl; links = chained-links }) printf 3 1
      refl (inr (omega arith, omega arith)) (omega arith)
