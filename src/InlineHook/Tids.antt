-- ===== src/InlineHook/Tids.antt =====
-- getAllTids: the threads of the process but the calling one, which freeze stops.
pub mod Listed
use elf_hook_test.Base.{ℕ, ◌+◌, List, [], ◌∷◌, not, ◌&&◌, ◌==◌, Option, none, some, if◌then◌else◌}
use elf_hook_test.Base.Run.{Run, done, ◌>>=◌, store_at}

module _ (atoi : List ℕ → ℕ) (exclude_tid : ℕ) where
  -- The loop over the names that readdir gives, with the count and the array.
  unfoldable pub tid_loop : List (List ℕ) → ℕ → List ℕ → Run (ℕ × List ℕ)
  tid_loop [] i tids = done (i, tids)
  tid_loop (name ∷ names) i tids =
      let tid = atoi name in
      if not (tid == 0) && not (tid == exclude_tid)
      then (store_at tids i tid >>= λ tids'. tid_loop names (i + 1) tids')
      else tid_loop names i tids

  -- getAllTids; `none` where the directory does not open.
  unfoldable pub get_all_tids : Option (List (List ℕ)) → List ℕ → Run (ℕ × List ℕ)
  unfolding tid_loop
  get_all_tids none tids = done (0, tids)
  get_all_tids (some names) tids = tid_loop names 0 tids
