-- ===== src/HookCore/Match.antt =====
-- xh_core_hook_impl, and the test that decides whether a path is looked at at all. `regexec` says
-- whether a regex matches a path.
pub mod Wanted
use elf_hook_test.Base.{ℕ, List, [], ◌∷◌, Bool, true, false, Option, none, some, if◌then◌else◌}
use elf_hook_test.Elf.{same_text}
use elf_hook_test.HookCore.{HookInfo, IgnoreInfo}

-- How the inner loop over the ignores ends: at one for all symbols, at one for the symbol, or
-- behind the last.
pub data Verdict : Type 0 where
  stop skip go : Verdict

module _ (regexec : List ℕ → List ℕ → Bool) where
  -- The inner loop, the same in both functions.
  unfoldable pub scan_ignores : List IgnoreInfo → List ℕ → List ℕ → Verdict
  scan_ignores [] pathname symbol = go
  scan_ignores (ii ∷ is) pathname symbol =
      let rest = scan_ignores is pathname symbol in
      if regexec ii.pathname_regex pathname
      then elim ii.symbol [ none ↦ stop | some s ↦ if same_text s symbol then skip else rest ]
      else rest

  -- The loop of xh_core_hook_impl: the hooks that xh_elf_hook is called for, in order.
  unfoldable pub hook_impl : List IgnoreInfo → List ℕ → List HookInfo → List HookInfo
  unfolding scan_ignores
  hook_impl is pathname [] = []
  hook_impl is pathname (hi ∷ hs) =
      let rest = hook_impl is pathname hs in
      if regexec hi.pathname_regex pathname
      then elim (scan_ignores is pathname hi.symbol) [ stop ↦ [] | skip ↦ rest | go ↦ hi ∷ rest ]
      else rest

  -- `match` of xh_core_refresh_impl, which the first hook for the path decides.
  unfoldable pub check_match : List IgnoreInfo → List ℕ → List HookInfo → Bool
  unfolding scan_ignores
  check_match is pathname [] = false
  check_match is pathname (hi ∷ hs) =
      let rest = check_match is pathname hs in
      if regexec hi.pathname_regex pathname
      then elim (scan_ignores is pathname hi.symbol) [ stop ↦ false | skip ↦ false | go ↦ true ]
      else rest
