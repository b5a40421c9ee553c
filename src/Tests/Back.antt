-- ===== src/Tests/Back.antt =====
-- A thread in the displaced bytes of a hook, and the numbers of packed relocations.
use elf_hook_test.Base.{List, ℕ, ◌-◌, ◌^◌, ◌≡◌, arith, [], ◌∷◌, true, some, length, ◌++◌}
use elf_hook_test.Base.Int.{negsuc}
use elf_hook_test.InlineHook.{Item, World, Thread, hooked}
use elf_hook_test.InlineHook.Tids.{get_all_tids}
use elf_hook_test.InlineHook.Tids.Listed.{Answers, get_all_tids-Answers}
use elf_hook_test.Tests.InlineHook.{one_hook, sevens}
use elf_hook_test.Elf.Sleb.{sleb128_decoder_next}
use elf_hook_test.Elf.Sleb.RoundTrip.{sleb128_encode, sleb128_decoder_next-encode}

-- Two ARM instructions at 0x8000, which take twelve bytes and four at 0x6000.
abbrev arm_hook : Item
arm_hook = record {
  target = 0x8000;
  new = 0x9001;
  proto = 0x7000;
  orig = 7 ∷ 7 ∷ 7 ∷ 7 ∷ 7 ∷ 7 ∷ 7 ∷ 7 ∷ [];
  bounds = record { orig = 0 ∷ 4 ∷ 0 ∷ []; trampoline = 0 ∷ 12 ∷ 0 ∷ []; count = 2 };
  trampoline = 0x6000;
  len = 8;
  status = hooked;
}

-- One thread stands at the second instruction, and one elsewhere.
abbrev inside : Thread
inside = record { pc = 0x8004; attaches = true; reads = true }

abbrev outside : Thread
outside = record { pc = 0x1000; attaches = true; reads = true }

abbrev two_threads : World
two_threads = record {
  info = one_hook;
  memory = sevens;
  threads = inside ∷ outside ∷ [];
  forks = true;
}

-- -201 takes two bytes.
sleb128_decoder_next-encode_example :
    sleb128_decoder_next 32 (sleb128_encode 1 (negsuc 200) ++ 5 ∷ [])
    ≡ some (2 ^ 32 - 1 - 200, 5 ∷ [])
sleb128_decoder_next-encode_example =
    sleb128_decoder_next-encode 32 1 (negsuc 200) (5 ∷ []) (omega arith) (omega arith) (omega arith)

-- The directory of threads 7 and 9, from thread 7, with its own entry; a name has as many characters
-- as its number says.
abbrev seven : List ℕ
seven = 1 ∷ 1 ∷ 1 ∷ 1 ∷ 1 ∷ 1 ∷ 1 ∷ []

abbrev nine : List ℕ
nine = 1 ∷ 1 ∷ seven

get_all_tids-Answers_example :
    Answers
      (λ name. length name)
      7
      (9 ∷ [])
      (0 ∷ 0 ∷ [])
      (get_all_tids (λ name. length name) 7 (some ([] ∷ seven ∷ nine ∷ [])) (0 ∷ 0 ∷ []))
get_all_tids-Answers_example =
    get_all_tids-Answers (λ name. length name) 7 ([] ∷ seven ∷ nine ∷ []) (0 ∷ 0 ∷ [])
