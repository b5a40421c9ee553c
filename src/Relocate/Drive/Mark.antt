-- ===== src/Relocate/Drive/Mark.antt =====
-- The two stores that open each round, and the array bound that they must respect.
use elf_hook_test.Base.{ℕ, ◌+◌, ◌<◌, ◌≤◌, ◌≡◌, set, length}
use elf_hook_test.Base.Run.{done, fault}
use elf_hook_test.Base.Run.Laws.{store_at_lem, store_at-fault}
use elf_hook_test.Relocate.Drive.{Boundaries, mark}

abbrev pub marked : Boundaries → ℕ → ℕ → Boundaries
marked b o t = record {
  orig = set b.orig b.count o;
  trampoline = set b.trampoline b.count t;
  count = b.count + 1;
}

pub mark_lem :
    (b : Boundaries) (o t : ℕ)
    → b.count < length b.orig
    → b.count < length b.trampoline
    → mark b o t ≡ done (marked b o t)
unfolding mark
mark_lem b o t p q = rw (store_at_lem b.orig b.count o p, store_at_lem b.trampoline b.count t q)

pub mark-fault : (b : Boundaries) (o t : ℕ) → length b.orig ≤ b.count → mark b o t ≡ fault
unfolding mark
mark-fault b o t p = rw (store_at-fault b.orig b.count o p)
