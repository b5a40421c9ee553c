-- ===== src/HookCore/Match/Wanted.antt =====
-- Which hooks a library gets.
use elf_hook_test.Base.{
  ℕ, List, [], ◌∷◌, Bool, true, false, not, ◌&&◌, ◌||◌, Option, none, some, if◌then◌else◌, ◌≡◌,
  refl, arith,
}
use elf_hook_test.Elf.{same_text}
use elf_hook_test.HookCore.{HookInfo, IgnoreInfo}
use elf_hook_test.HookCore.Match.{stop, skip, go, scan_ignores, hook_impl}

-- The ignore is for all symbols or for this one.
abbrev covers : Option (List ℕ) → List ℕ → Bool
covers none symbol = true
covers (some s) symbol = same_text s symbol

module _ (regexec : List ℕ → List ℕ → Bool) where
  -- Some ignore, wherever it stands, is for the path and the symbol.
  abbrev pub is_ignored : List IgnoreInfo → List ℕ → List ℕ → Bool
  is_ignored [] pathname symbol = false
  is_ignored (ii ∷ is) pathname symbol =
      (regexec ii.pathname_regex pathname && covers ii.symbol symbol)
      || is_ignored is pathname symbol

  -- The hooks for the path that no ignore is for.
  abbrev pub wanted : List IgnoreInfo → List ℕ → List HookInfo → List HookInfo
  wanted is pathname [] = []
  wanted is pathname (hi ∷ hs) =
      if regexec hi.pathname_regex pathname && not (is_ignored is pathname hi.symbol)
      then hi ∷ wanted is pathname hs
      else wanted is pathname hs

  scan_ignores-go :
      (is : List IgnoreInfo) (p s : List ℕ)
      → scan_ignores regexec is p s ≡ go
      → is_ignored is p s ≡ false
  unfolding scan_ignores
  scan_ignores-go [] p s h = refl
  scan_ignores-go (ii ∷ is) p s h = ground (arith, scan_ignores-go is p s)

  scan_ignores-skip :
      (is : List IgnoreInfo) (p s : List ℕ)
      → scan_ignores regexec is p s ≡ skip
      → is_ignored is p s ≡ true
  unfolding scan_ignores
  scan_ignores-skip [] p s h = cc
  scan_ignores-skip (ii ∷ is) p s h = ground (arith, scan_ignores-skip is p s)

  -- An ignore for all symbols is for every symbol.
  scan_ignores-stop :
      (is : List IgnoreInfo) (p s t : List ℕ)
      → scan_ignores regexec is p s ≡ stop
      → is_ignored is p t ≡ true
  unfolding scan_ignores
  scan_ignores-stop [] p s t h = cc
  scan_ignores-stop (ii ∷ is) p s t h = ground (arith, scan_ignores-stop is p s t)

  wanted-none :
      (is : List IgnoreInfo) (p : List ℕ) (hs : List HookInfo)
      → ((t : List ℕ) → is_ignored is p t ≡ true)
      → wanted is p hs ≡ []
  wanted-none is p [] all = refl
  wanted-none is p (hi ∷ hs) all = ground (arith, all hi.symbol, wanted-none is p hs all)

  -- xh_core_hook_impl calls xh_elf_hook for the registered hooks whose regex matches the path and
  -- that no ignore is for, in their order, and for no other, wherever its loops are left early.
  pub hook_impl-wanted :
      (is : List IgnoreInfo) (p : List ℕ) (hs : List HookInfo)
      → hook_impl regexec is p hs ≡ wanted is p hs
  unfolding hook_impl
  hook_impl-wanted is p [] = refl
  hook_impl-wanted is p (hi ∷ hs) = ground (
    arith,
    hook_impl-wanted is p hs,
    scan_ignores-go is p hi.symbol,
    scan_ignores-skip is p hi.symbol,
    scan_ignores-stop is p hi.symbol hi.symbol,
    λ (e : scan_ignores regexec is p hi.symbol ≡ stop).
        wanted-none is p hs (λ t. scan_ignores-stop is p hi.symbol t e),
  )
