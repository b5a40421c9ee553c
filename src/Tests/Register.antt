-- ===== src/Tests/Register.antt =====
-- registerInlineHook of a first ARM function, and a hook that is taken back.
use elf_hook_test.Base.{
  ℕ, ◌≡◌, ◌⊎◌, refl, arith, inl, List, [], ◌∷◌, true, some, replicate, zero, suc,
}
use elf_hook_test.Base.Run.{Returns, ◌>>=◌, done}
use elf_hook_test.Base.Memory.{Memory, load_bytes}
use elf_hook_test.InlineHook.{Item, Info, World, MapLine, clear_bit0, ok, registered, hooked}
use elf_hook_test.InlineHook.Threads.{freeze, enable}
use elf_hook_test.InlineHook.Patch.Restore.{saved_len}
use elf_hook_test.InlineHook.Table.Valid.{IsValid, Holds}
use elf_hook_test.InlineHook.Table.{is_executable_addr}
use elf_hook_test.InlineHook.Calls.{register_inline_hook, inline_hook, inline_unhook}
use elf_hook_test.InlineHook.Calls.Register.{IsRegistered, register_inline_hook-IsRegistered}
use elf_hook_test.InlineHook.Calls.RoundTrip.{IsBack, inline_unhook-inline_hook, hooked_world}

-- Memory of ANDEQ r0, r0, r0.
abbrev pushes : Memory
pushes a = 0

abbrev four : List ℕ
four = 0 ∷ 0 ∷ 0 ∷ 0 ∷ []

abbrev unused : Item
unused = record {
  target = 0;
  new = 0;
  proto = 0;
  orig = [];
  bounds = record { orig = four; trampoline = four; count = 0 };
  trampoline = 0;
  len = 0;
  status = registered;
}

abbrev no_hooks : Info
no_hooks = record { items = replicate 1024 unused; size = 0 }

no_hooks-IsValid : IsValid no_hooks
no_hooks-IsValid = record {
  slots = refl;
  in_use = omega arith;
  distinct = λ j k x y h h' e. absurd (omega (arith, h.0));
  stage = λ j x h. absurd (omega (arith, h.0));
}

abbrev fresh : World
fresh = record { info = no_hooks; memory = pushes; threads = []; forks = true }

abbrev maps : List MapLine
maps = record { executable = true; start = 0x8000; stop = 0xA000 } ∷ []

register_inline_hook-IsRegistered_example :
    Returns
      (register_inline_hook fresh (some maps) 0x8004 0x9000 0x7000 0x6000)
      (λ (status, w'). (status ≡ ok) × IsRegistered fresh 0x8004 0x9000 0x7000 0x6000 w')
unfolding is_executable_addr
register_inline_hook-IsRegistered_example =
    register_inline_hook-IsRegistered fresh 0x8004 0x9000 0x7000 0x6000 unused no_hooks-IsValid refl
      refl (omega arith) (omega arith) (omega arith) (λ j y h. absurd (omega (arith, h.0)))
      (some maps) refl refl

-- The function at 0x8004, registered.
abbrev ready : Item
ready = record unused {
  target = 0x8004;
  new = 0x9000;
  proto = 0x7000;
  orig = load_bytes pushes (clear_bit0 0x8004) (saved_len 0x8004);
  trampoline = 0x6000;
  len = 8;
}

abbrev one_ready : World
one_ready = record fresh { info = record { items = ready ∷ replicate 1023 unused; size = 1 } }

first_only : (j : ℕ) (x : Item) → Holds one_ready.info j x → j ≡ 0
first_only j x h = omega (arith, h.0)

is_ready :
    (j : ℕ) (x : Item) → Holds one_ready.info j x → (x.status ≡ registered) ⊎ (x.status ≡ hooked)
is_ready zero x h = inl (cc h.1)
is_ready (suc j) x h = absurd (omega (arith, h.0))

one_ready-IsValid : IsValid one_ready.info
one_ready-IsValid = record {
  slots = refl;
  in_use = omega arith;
  distinct = λ j k x y h h' e. omega (arith, first_only j x h, first_only k y h');
  stage = is_ready;
}

freezes : freeze one_ready (some ready) enable ≡ done one_ready
unfolding freeze
freezes = refl

inline_unhook-inline_hook_example :
    Returns (inline_hook one_ready 0x8004 >>= λ r. inline_unhook r.1 0x8004) (λ (status, w').
      (status ≡ ok)
      × IsBack one_ready one_ready 0 ready one_ready-IsValid (omega arith, refl) refl freezes w')
unfolding freeze
inline_unhook-inline_hook_example =
    inline_unhook-inline_hook one_ready one_ready 0 ready one_ready-IsValid (omega arith, refl) refl
      freezes (hooked_world one_ready 0 ready) refl (omega arith) (λ c. omega arith) refl
