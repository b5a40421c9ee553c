-- ===== src/HookCore/Steps/Async.antt =====
-- An asynchronous refresh is carried out by the thread.
use elf_hook_test.Base.{ℕ, List, true, false, Option, none, some, ◌≡◌}
use elf_hook_test.Base.Run.{Run}
use elf_hook_test.HookCore.{HookInfo, Core}
use elf_hook_test.HookCore.Refresh.Paths.{IsTree}

-- A round that carried out a refresh: the thread goes on, nothing is left to do, and no path is in the
-- tree twice.
abbrev pub CarriedOut : Option (Core × List (List ℕ × HookInfo)) → Type 0
CarriedOut none = ⊥
CarriedOut (some (c, calls)) = (c.thread_running ≡ true) × (c.thread_do ≡ false) × IsTree c.maps
