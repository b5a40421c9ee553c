-- ===== src/HookCore/Refresh/Paths.antt =====
-- The tree that a refresh leaves.
use elf_hook_test.Base.{
  ℕ, List, [], ◌∷◌, Bool, true, false, Option, none, some, ◌≡◌, ◌&&◌, if◌then◌else◌,
}
use elf_hook_test.Base.Run.{Run, done, fault, Returns}
use elf_hook_test.HookCore.{HookInfo, MapInfo, Core}
use elf_hook_test.HookCore.Refresh.{System, Refreshing, rb_find, check_elf_header, hook}

-- No path stands twice in the list.
abbrev pub IsTree : List MapInfo → Type 0
IsTree [] = Unit
IsTree (m ∷ ms) = (rb_find m.pathname ms ≡ none) × IsTree ms

abbrev Kept : Run Refreshing → Type 0
Kept r = Returns r (λ s. IsTree s.refreshed)

module _ (sys : System) (core : Core) (protected : core.sigsegv_enable && core.handler ≡ true) where
  survives :
      (o : Option ℕ) (n : Run (List HookInfo)) (y : ℕ → List HookInfo)
      → Returns n (λ hs. Unit)
      → Returns
          (elim o [
            | none ↦ n
            | some k ↦ if core.sigsegv_enable && core.handler then done (y k) else fault
          ])
          (λ hs. Unit)
  survives none n y h = h
  survives (some k) n y h = rw protected tt

  pub hook-Returns : (mi : MapInfo) → Returns (hook sys core mi) (λ hs. Unit)
  unfolding hook
  hook-Returns mi = survives (sys.bears mi) _ _ tt

  survives_check :
      (o : Option Bool)
      → Returns
          (elim o [
            | some good ↦ done good
            | none ↦ if core.sigsegv_enable && core.handler then done false else fault
          ])
          (λ b. Unit)
  survives_check none = rw protected tt
  survives_check (some good) = tt

  pub check_elf_header-Returns : (a : ℕ) → Returns (check_elf_header sys core a) (λ b. Unit)
  unfolding check_elf_header
  check_elf_header-Returns a = survives_check (sys.check_elfheader a)
