-- ===== src/Tests/Core.antt =====
-- A library with two lines, for xHook/xh_core.c.
use elf_hook_test.Base.{ℕ, ◌≡◌, refl, List, [], ◌∷◌, true, false, some}
use elf_hook_test.Elf.{same_text}
use elf_hook_test.HookCore.{HookInfo, IgnoreInfo, Core}
use elf_hook_test.HookCore.Match.{hook_impl}
use elf_hook_test.HookCore.Match.Wanted.{wanted, hook_impl-wanted}
use elf_hook_test.HookCore.Refresh.{System, MapsLine}

abbrev path : List ℕ
path = 0x2F ∷ 0x61 ∷ []

abbrev hook_of : ℕ → HookInfo
hook_of symbol = record {
  pathname_regex = path;
  symbol = symbol ∷ [];
  new_func = 0x900;
  old_func = 0;
}

abbrev ignore_one : IgnoreInfo
ignore_one = record { pathname_regex = path; symbol = some (1 ∷ []) }

hook_impl-wanted_example :
    hook_impl same_text (ignore_one ∷ []) path (hook_of 1 ∷ hook_of 2 ∷ [])
    ≡ wanted same_text (ignore_one ∷ []) path (hook_of 1 ∷ hook_of 2 ∷ [])
hook_impl-wanted_example =
    hook_impl-wanted same_text (ignore_one ∷ []) path (hook_of 1 ∷ hook_of 2 ∷ [])

-- Only the second hook is left.
hook_impl_second :
    hook_impl same_text (ignore_one ∷ []) path (hook_of 1 ∷ hook_of 2 ∷ []) ≡ hook_of 2 ∷ []
unfolding hook_impl
hook_impl_second = refl

abbrev core : Core
core = record {
  sigsegv_enable = true;
  hooks = hook_of 2 ∷ [];
  ignores = ignore_one ∷ [];
  maps = [];
  inited = true;
  init_ok = true;
  async_inited = false;
  async_init_ok = false;
  thread_running = false;
  thread_do = false;
  handler = true;
}

abbrev pub system : System
system = record {
  regexec = same_text;
  check_elfheader = λ a. some true;
  elf_init = λ m. true;
  bears = λ m. some 0;
  memory = λ p. true;
}

abbrev pub line_at : ℕ → MapsLine
line_at a = record {
  parses = true;
  base_addr = a;
  perm = 0x72 ∷ 0x2D ∷ 0x78 ∷ 0x70 ∷ [];
  offset = 0;
  text = 0x20 ∷ 0x2F ∷ 0x61 ∷ 10 ∷ [];
}
