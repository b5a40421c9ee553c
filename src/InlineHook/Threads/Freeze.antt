-- ===== src/InlineHook/Threads/Freeze.antt =====
-- Stopping the threads changes nothing but their `pc`.
use elf_hook_test.Base.{◌≡◌, arith, Option}
use elf_hook_test.Base.Run.{done}
use elf_hook_test.InlineHook.{Item, World}
use elf_hook_test.InlineHook.Threads.{Action, freeze}

pub freeze-info :
    (w frozen : World) (item : Option Item) (action : Action)
    → freeze w item action ≡ done frozen
    → (frozen.info ≡ w.info) × (frozen.memory ≡ w.memory)
unfolding freeze
freeze-info w frozen item action h = ground arith
