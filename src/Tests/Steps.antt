-- ===== src/Tests/Steps.antt =====
-- A refresh in the background, as the first call.
use elf_hook_test.Base.{◌≡◌, refl, [], true}
use elf_hook_test.Base.Run.{done}
use elf_hook_test.HookCore.{Core}
use elf_hook_test.HookCore.Entry.{good, refresh}
use elf_hook_test.HookCore.Steps.{initial, refreshes, starts, goes}
use elf_hook_test.HookCore.Steps.Invariant.{IsConsistent, Reaches-IsConsistent}
use elf_hook_test.HookCore.Steps.Contract.{Moves, refreshing, fresh, threaded, Reaches-Moves}
use elf_hook_test.Tests.Core.{system}

abbrev background : Core
background = record initial {
  inited = true;
  init_ok = true;
  async_inited = true;
  async_init_ok = true;
  thread_running = true;
  thread_do = true;
  handler = true;
}

first_refresh : refresh system true true initial true [] ≡ done (good, background, [])
unfolding refresh
first_refresh = refl

Reaches-IsConsistent_example : IsConsistent background
Reaches-IsConsistent_example = Reaches-IsConsistent (
    goes initial background starts
      (refreshes true true initial background true [] good [] first_refresh))

Reaches-Moves_example : Moves (refreshing true good) fresh [] threaded []
Reaches-Moves_example =
    Reaches-Moves system initial background starts
      (refreshes true true initial background true [] good [] first_refresh)
