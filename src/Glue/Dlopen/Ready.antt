-- ===== src/Glue/Dlopen/Ready.antt =====
-- What dlopenhook registers, and the state that its refresh leaves.
use mathlib.Core.List.{append_assoc, append-nil}
use elf_hook_test.Base.{
  ◌&&◌, ℕ, List, [], ◌∷◌, ◌++◌, Bool, true, false, none, ◌≡◌, refl, sym, ap, ◌∙◌, leb, Bool-cases,
  inl, inr, All,
}
use elf_hook_test.Base.Run.{Run, done, ◌>>=◌, Returns}
use elf_hook_test.Base.Run.Laws.{Returns_mono}
use elf_hook_test.HookCore.{HookInfo, Core}
use elf_hook_test.HookCore.Match.{check_match, scan_ignores}
use elf_hook_test.HookCore.Match.Wanted.{wanted}
use elf_hook_test.HookCore.Refresh.{MapsLine, rb_find, refresh_impl}
use elf_hook_test.HookCore.Refresh.Grows.{Apart, refresh_impl-Absent}
use elf_hook_test.HookCore.Entry.{Errno, good, register, refresh, init_once}
use elf_hook_test.Glue.Dlopen.{
  Setup, Proxy, Row, so_regex, rows_for, so_load_o, so_load_n, so_load, register_row, register_rows,
}

-- The hook that each row asks for.
abbrev pub hooks_of : List Row → List HookInfo
hooks_of [] = []
hooks_of (r ∷ rs) =
    record {
      pathname_regex = so_regex;
      symbol = r.symbol;
      new_func = r.new_func;
      old_func = r.old_func;
    }
    ∷ hooks_of rs

-- Nothing has been called yet, and the protection from SIGSEGV is on.
pub record IsFresh (c : Core) : Type 0 where
  pub inited : c.inited ≡ false
  pub hooks : c.hooks ≡ []
  pub ignores : c.ignores ≡ []
  pub maps : c.maps ≡ []
  pub protected : c.sigsegv_enable ≡ true

module _ (regexec : List ℕ → List ℕ → Bool) (path : List ℕ)
    (is_so : regexec so_regex path ≡ true) where
  pub wanted_lem : (rows : List Row) → wanted regexec [] path (hooks_of rows) ≡ hooks_of rows
  wanted_lem [] = refl
  wanted_lem (r ∷ rs) = rw (is_so, wanted_lem rs) refl

  module _ (new_func old_func : Proxy → ℕ) where
    pub rows_for_match :
        (api_level : ℕ)
        → check_match regexec [] path (hooks_of (rows_for new_func old_func api_level)) ≡ true
    unfolding rows_for so_load_o so_load_n so_load check_match scan_ignores
    rows_for_match api_level = elim (Bool-cases (leb 26 api_level)) [
      | inl above ↦ rw (rows_for, above, so_load_o, check_match, is_so) refl
      | inr below ↦ elim (Bool-cases (leb 24 api_level)) [
        | inl above ↦ rw (rows_for, below, above, so_load_n, check_match, is_so) refl
        | inr older ↦ rw (rows_for, below, older, so_load, check_match, is_so) refl
      ]
    ]

module _ (setup : Setup) (compiles : setup.regcomp so_regex ≡ true)
    (memory : (s : List ℕ) → setup.memory s ≡ true) where
  register_row_lem :
      (r : Row) (c : Core)
      → register_row setup r c ≡ record c { hooks = c.hooks ++ hooks_of (r ∷ []) }
  unfolding register_row register
  register_row_lem r c = rw (register_row, compiles, memory r.symbol) refl

  pub register_rows_lem :
      (rows : List Row) (c : Core)
      → register_rows setup rows c ≡ record c { hooks = c.hooks ++ hooks_of rows }
  unfolding register_rows
  register_rows_lem [] c = ap (λ hs. record c { hooks = hs }) (sym (append-nil c.hooks))
  register_rows_lem (r ∷ rs) c =
      rw
        (
          register_rows,
          register_row_lem r c,
          register_rows_lem rs (record c { hooks = c.hooks ++ hooks_of (r ∷ []) }),
        )
        (ap (λ hs. record c { hooks = hs })
          (append_assoc c.hooks (hooks_of (r ∷ [])) (hooks_of rs)))

-- What dlopenhook leaves, as long as no line is for `path`.
pub record IsReady (path : List ℕ) (due : List HookInfo) (c : Core) : Type 0 where
  pub inited : c.inited ≡ true
  pub init_ok : c.init_ok ≡ true
  pub hooks : c.hooks ≡ due
  pub ignores : c.ignores ≡ []
  pub absent : rb_find path c.maps ≡ none
  pub protected : c.sigsegv_enable && c.handler ≡ true

abbrev Answer : Type 0
Answer = Errno × Core × List (List ℕ × HookInfo)

module _ (setup : Setup) (lines : List MapsLine) where
  abbrev pub refreshed : Core → Run Answer
  refreshed c = ◌>>=◌ {B = Answer} (refresh_impl setup.sys c lines) (λ r. done (good, r.0, r.1))

  pub refresh-ready :
      (c : Core)
      → c.inited ≡ true
      → c.init_ok ≡ true
      → refresh setup.sys setup.sigaction setup.creates c false lines ≡ refreshed c
  unfolding refresh init_once
  refresh-ready c inited ok = rw (refresh, init_once, inited, ok) refl

  abbrev pub started : Core → Core
  started c = record c { inited = true; init_ok = true; handler = true }

  pub refresh-fresh :
      (c : Core)
      → c.inited ≡ false
      → c.sigsegv_enable ≡ true
      → setup.sigaction ≡ true
      → refresh setup.sys setup.sigaction setup.creates c false lines ≡ refreshed (started c)
  unfolding refresh init_once
  refresh-fresh c inited protected caught = rw (refresh, init_once, inited, protected, caught) refl

  pub refresh_impl-IsReady :
      (c : Core) (path : List ℕ)
      → IsFresh c
      → All (Apart path) lines
      → (due : List HookInfo)
      → Returns
          (refresh_impl setup.sys (started (record c { hooks = due })) lines)
          (λ r. IsReady path due r.0)
  unfolding rb_find
  refresh_impl-IsReady c path fresh apart due =
      Returns_mono _ _ (refresh_impl setup.sys (started (record c { hooks = due })) lines)
        (refresh_impl-Absent setup.sys (started (record c { hooks = due }))
          (rw fresh.protected refl) path lines (rw fresh.maps refl) apart)
        (λ r h. record {
          inited = ap (λ c'. c'.inited) h.0;
          init_ok = ap (λ c'. c'.init_ok) h.0;
          hooks = ap (λ c'. c'.hooks) h.0;
          ignores = ap (λ c'. c'.ignores) h.0 ∙ fresh.ignores;
          absent = h.1;
          protected = ap (λ c'. c'.sigsegv_enable && c'.handler) h.0 ∙ rw fresh.protected refl;
        })
