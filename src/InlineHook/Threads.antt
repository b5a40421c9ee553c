-- ===== src/InlineHook/Threads.antt =====
-- doProcessThreadPC, processThreadPC and freeze: each stopped thread that stands on an
-- instruction boundary of a hook is moved to the same instruction on the other side.
pub mod Freeze
pub mod Back
use elf_hook_test.Base.{
  leb, length, ℕ, zero, suc, ◌+◌, List, [], ◌∷◌, ◌&&◌, Option, none, some, ◌==◌, if◌then◌else◌,
  add32, sub32, take,
}
use elf_hook_test.Base.Run.{Run, done, fault, ◌>>=◌, read_at}
use elf_hook_test.InlineHook.{Item, Info, Thread, World, clear_bit0}

-- ACTION_ENABLE and ACTION_DISABLE.
pub data Action : Type 0 where
  enable disable : Action

-- `for (i = 0; i < count; ++i) if (offset == from[i]) return base + to[i];`, with the rounds
-- that are left.
unfoldable pub match_boundary : List ℕ → List ℕ → ℕ → ℕ → ℕ → ℕ → Run (Option ℕ)
match_boundary from to base offset zero i = done none
match_boundary from to base offset (suc left) i = do
  b ← read_at from i
  if offset == b
      then (do t ← read_at to i; done (some (add32 base t)))
      else match_boundary from to base offset left (i + 1)

-- doProcessThreadPC: the new `pc`, or `none` where it returns false.
unfoldable pub do_process_thread_pc : Item → ℕ → Action → Run (Option ℕ)
unfolding match_boundary
do_process_thread_pc i pc enable =
    match_boundary i.bounds.orig i.bounds.trampoline i.trampoline (sub32 pc (clear_bit0 i.target))
      i.bounds.count 0
do_process_thread_pc i pc disable =
    match_boundary i.bounds.trampoline i.bounds.orig (clear_bit0 i.target) (sub32 pc i.trampoline)
      i.bounds.count 0

-- The loop of processThreadPC over all hooks in use, up to the first that moves the thread.
unfoldable pub process_all : List Item → ℕ → Action → Run ℕ
unfolding do_process_thread_pc
process_all [] pc action = done pc
process_all (i ∷ is) pc action = do
  moved ← do_process_thread_pc i pc action
  elim moved [ some pc' ↦ done pc' | none ↦ process_all is pc action ]

-- processThreadPC, for one hook or, with a null item, for all of them.
unfoldable pub process_thread_pc : Info → Option Item → ℕ → Action → Run ℕ
unfolding process_all
process_thread_pc info none pc action = process_all (take info.size info.items) pc action
process_thread_pc info (some i) pc action = do_process_thread_pc i pc action >>= λ moved.
    elim moved [ some pc' ↦ done pc' | none ↦ done pc ]

-- The loop of freeze's child over the other threads.
unfoldable pub process_threads : Info → Option Item → List Thread → Action → Run (List Thread)
unfolding process_thread_pc
process_threads info item [] action = done []
process_threads info item (t ∷ ts) action = do
  pc ← (if t.attaches && t.reads then process_thread_pc info item t.pc action else done t.pc)
  rest ← process_threads info item ts action
  done (record t { pc = pc } ∷ rest)

-- `pid_t tids[1024]` of freeze.
abbrev pub max_tids : ℕ
max_tids = 1024

-- freeze, from which the threads come back stopped, with their new `pc`; unFreeze lets them run.
-- Before fork() getAllTids stores each of the threads in the array; InlineHook/Tids has that loop, and
-- one thread more than the array has entries is a store behind it. Where fork() fails no thread is moved.
unfoldable pub freeze : World → Option Item → Action → Run World
unfolding process_threads
freeze w item action =
    if leb (length w.threads) max_tids
    then (if w.forks
        then (process_threads w.info item w.threads action >>= λ ts.
            done (record w { threads = ts }))
        else done w)
    else fault
