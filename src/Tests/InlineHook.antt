-- ===== src/Tests/InlineHook.antt =====
-- A table with one hook, for inline32/inlineHook.c.
use elf_hook_test.Base.{
  ℕ, ◌+◌, ◌-◌, ◌≡◌, ◌≢◌, refl, arith, inr, ◌⊎◌, List, [], ◌∷◌, true, replicate, get_elem?, zero,
  suc,
}
use elf_hook_test.Base.Run.{Returns}
use elf_hook_test.Base.Memory.{Memory, load_bytes}
use elf_hook_test.InlineHook.{Item, Info, World, clear_bit0, registered, hooked}
use elf_hook_test.InlineHook.Patch.{patch, publish, restore}
use elf_hook_test.InlineHook.Patch.Restore.{restore-patch, saved_len}
use elf_hook_test.InlineHook.Threads.{freeze}
use elf_hook_test.InlineHook.Table.{delete_inline_hook_item}
use elf_hook_test.InlineHook.Table.Valid.{IsValid, Holds, delete_inline_hook_item-IsValid}
use elf_hook_test.InlineHook.Calls.{inline_unhook_all}
use elf_hook_test.InlineHook.Calls.UnhookAll.{NoneHooked, inline_unhook_all-NoneHooked}

abbrev pub sevens : Memory
sevens a = 7

abbrev four : List ℕ
four = 0 ∷ 0 ∷ 0 ∷ 0 ∷ []

-- A hook of the Thumb function at 0x8002, so that the patch has its NOP.
abbrev thumb_hook : Item
thumb_hook = record {
  target = 0x8003;
  new = 0x9001;
  proto = 0x7000;
  orig = load_bytes sevens (clear_bit0 0x8003) (saved_len 0x8003);
  bounds = record { orig = four; trampoline = four; count = 0 };
  trampoline = 0x6000;
  len = 12;
  status = hooked;
}

restore-patch_example :
    restore thumb_hook (patch thumb_hook (publish thumb_hook sevens)) 0x8004 ≡ sevens 0x8004
restore-patch_example =
    restore-patch thumb_hook sevens 0x8004 (omega arith) (λ c. omega arith) refl
      (inr (inr (omega arith)))

abbrev pub one_hook : Info
one_hook = record { items = thumb_hook ∷ replicate 1023 thumb_hook; size = 1 }

abbrev world : World
world = record { info = one_hook; memory = sevens; threads = []; forks = true }

only_first : (j : ℕ) (x : Item) → Holds one_hook j x → j ≡ 0
only_first j x h = omega (arith, h.0)

in_stage : (j : ℕ) (x : Item) → Holds one_hook j x → (x.status ≡ registered) ⊎ (x.status ≡ hooked)
in_stage zero x h = inr (cc h.1)
in_stage (suc j) x h = absurd (omega (arith, h.0))

one_hook-IsValid : IsValid one_hook
one_hook-IsValid = record {
  slots = refl;
  in_use = omega arith;
  distinct = λ j k x y h h' e. omega (arith, only_first j x h, only_first k y h');
  stage = in_stage;
}

delete_inline_hook_item-IsValid_example : Returns (delete_inline_hook_item one_hook 0) (λ info'.
    IsValid info'
    × (info'.size + 1 ≡ one_hook.size)
    × (get_elem? info'.items 0 ≡ get_elem? one_hook.items (one_hook.size - 1))
    × ((j : ℕ) → j ≢ 0 → get_elem? info'.items j ≡ get_elem? one_hook.items j))
delete_inline_hook_item-IsValid_example =
    delete_inline_hook_item-IsValid one_hook 0 one_hook-IsValid (omega arith)

inline_unhook_all-NoneHooked_example :
    Returns (inline_unhook_all world) (λ w'. IsValid w'.info × NoneHooked w'.info)
unfolding freeze
inline_unhook_all-NoneHooked_example =
    inline_unhook_all-NoneHooked world world one_hook-IsValid refl
