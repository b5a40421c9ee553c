-- ===== src/HookCore/Steps.antt =====
-- The calls of xh_core.c and the rounds of its refresh thread, in any order.
pub mod Invariant
pub mod Contract
pub mod Async
use elf_hook_test.Base.{ℕ, List, [], Bool, true, false, Option, some, ◌≡◌}
use elf_hook_test.Base.Run.{Run, done}
use elf_hook_test.HookCore.{HookInfo, Core}
use elf_hook_test.HookCore.Refresh.{System, MapsLine}
use elf_hook_test.HookCore.Entry.{
  Errno, register, ignore, refresh, refresh_thread_round, clear, enable_sigsegv_protection,
}

-- The static variables before the first call.
abbrev pub initial : Core
initial = record {
  sigsegv_enable = true;
  hooks = [];
  ignores = [];
  maps = [];
  inited = false;
  init_ok = false;
  async_inited = false;
  async_init_ok = false;
  thread_running = false;
  thread_do = false;
  handler = false;
}

-- One call, whatever its arguments and the system's answers, or one round of the thread. A call that
-- raises SIGSEGV has no state behind it.
pub data Step (sys : System) : Core → Core → Type 0 where
  registers :
      (regcomp : List ℕ → Bool) (memory : Bool) (c c' : Core) (regex symbol : Option (List ℕ))
      (new_func : Option ℕ) (old_func : ℕ)
      → (register regcomp memory c regex symbol new_func old_func).1 ≡ c'
      → Step sys c c'
  ignores :
      (regcomp : List ℕ → Bool) (memory : Bool) (c c' : Core) (regex symbol : Option (List ℕ))
      → (ignore regcomp memory c regex symbol).1 ≡ c'
      → Step sys c c'
  refreshes :
      (sigaction creates : Bool) (c c' : Core) (async : Bool) (lines : List MapsLine) (e : Errno)
      (calls : List (List ℕ × HookInfo))
      → refresh sys sigaction creates c async lines ≡ done (e, c', calls)
      → Step sys c c'
  rounds :
      (c c' : Core) (lines : List MapsLine) (calls : List (List ℕ × HookInfo))
      → refresh_thread_round sys c lines ≡ done (some (c', calls))
      → Step sys c c'
  clears : (c c' : Core) → clear c ≡ c' → Step sys c c'
  protects : (c c' : Core) (flag : Bool) → enable_sigsegv_protection c flag ≡ c' → Step sys c c'

-- The states that steps lead to from the first one.
pub data Reaches (sys : System) : Core → Type 0 where
  starts : Reaches sys initial
  goes : (c c' : Core) → Reaches sys c → Step sys c c' → Reaches sys c'
