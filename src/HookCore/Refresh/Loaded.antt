-- ===== src/HookCore/Refresh/Loaded.antt =====
-- A library that is new in /proc/self/maps gets its hooks.
use mathlib.Core.List.{append_assoc}
use elf_hook_test.Base.{◌&&◌, ℕ, List, [], ◌∷◌, ◌++◌, true, none, some, ◌≡◌, refl, ap, ◌∙◌, All}
use elf_hook_test.Base.Run.{done, ◌>>=◌, Returns}
use elf_hook_test.Base.Run.Laws.{>>=-Returns, Returns_mono}
use elf_hook_test.HookCore.{HookInfo, Core}
use elf_hook_test.HookCore.Match.{check_match}
use elf_hook_test.HookCore.Match.Wanted.{wanted, hook_impl-wanted}
use elf_hook_test.HookCore.Refresh.{
  System, MapsLine, Refreshing, tag, rb_find, rb_insert, check_elf_header, hook, refresh_create,
  refresh_path, refresh_line, refresh_lines, refresh_impl,
}
use elf_hook_test.HookCore.Refresh.Grows.{
  named, Absent, Grows, Passes, Apart, refresh_line_lem, refresh_line-Passes, refresh_lines-Grows,
}

-- Among the calls are those for the hooks of the library, one behind the other.
abbrev pub Hooked : List ℕ → List HookInfo → List (List ℕ × HookInfo) → Type 0
Hooked p due calls =
    (earlier : List (List ℕ × HookInfo)) × (later : List (List ℕ × HookInfo)) × (calls
      ≡ earlier ++ (tag p due ++ later))

module _ (sys : System) (core : Core) (protected : core.sigsegv_enable && core.handler ≡ true) where
  module _ (p : List ℕ) (l : MapsLine) (is_named : named l ≡ some p)
      (matches : check_match sys.regexec core.ignores p core.hooks ≡ true)
      (good : sys.check_elfheader l.base_addr ≡ some true) (has_memory : sys.memory p ≡ true)
      (opens : sys.elf_init (record { pathname = p; base_addr = l.base_addr }) ≡ true)
      (bears : sys.bears (record { pathname = p; base_addr = l.base_addr }) ≡ none) where
    abbrev due : List HookInfo
    due = wanted sys.regexec core.ignores p core.hooks

    hook_lem : hook sys core (record { pathname = p; base_addr = l.base_addr }) ≡ done due
    unfolding hook
    hook_lem = rw (hook, bears, opens, hook_impl-wanted sys.regexec core.ignores p core.hooks) refl

    refresh_create_lem :
        (s : Refreshing)
        → rb_find p s.refreshed ≡ none
        → (s' : Refreshing) × (refresh_create sys core s p l.base_addr ≡ done s')
          × (s'.calls ≡ s.calls ++ tag p due)
    unfolding refresh_create rb_insert
    refresh_create_lem s absent = (
      record {
        old = s.old;
        refreshed = record { pathname = p; base_addr = l.base_addr } ∷ s.refreshed;
        calls = s.calls ++ tag p due;
      },
      rw (refresh_create, has_memory, rb_insert, absent, hook_lem, ◌>>=◌) refl,
      refl,
    )

    refresh_line-new :
        (s : Refreshing)
        → Absent p s
        → (s' : Refreshing) × (refresh_line sys core s l ≡ done s')
          × (s'.calls ≡ s.calls ++ tag p due)
    unfolding refresh_path check_elf_header
    refresh_line-new s absent =
        let (s', e, f) = refresh_create_lem s absent.1 in
        (
          s',
          rw
              (
                refresh_line_lem sys core protected s l,
                is_named,
                refresh_path,
                matches,
                check_elf_header,
                good,
                ◌>>=◌,
                absent.0,
              )
              e,
          f,
        )

    new_line :
        (s : Refreshing) (after : List MapsLine)
        → Absent p s
        → Returns (refresh_lines sys core s (l ∷ after)) (λ s'. Hooked p due s'.calls)
    unfolding refresh_lines
    new_line s after absent =
        let (t, e, f) = refresh_line-new s absent in
        rw (refresh_lines, e, ◌>>=◌)
          (Returns_mono (Grows t) (λ s'. Hooked p due s'.calls) (refresh_lines sys core t after)
            (refresh_lines-Grows sys core protected t after)
            (λ u g.
              (s.calls, g.0, g.1 ∙ ap (λ xs. xs ++ g.0) f ∙ append_assoc s.calls (tag p due) g.0)))

    refresh_lines-Hooked :
        (s : Refreshing) (before after : List MapsLine)
        → Absent p s
        → All (Apart p) before
        → Returns (refresh_lines sys core s (before ++ l ∷ after)) (λ s'. Hooked p due s'.calls)
    unfolding refresh_lines
    refresh_lines-Hooked s [] after absent apart = new_line s after absent
    refresh_lines-Hooked s (k ∷ before) after absent apart =
        >>=-Returns (Passes s k) (λ s'. Hooked p due s'.calls) (refresh_line sys core s k) _
          (refresh_line-Passes sys core protected s k)
          (λ t n. refresh_lines-Hooked t before after (n.1 p apart.0 absent) apart.1)

    -- A refresh for a library whose path is not in the tree of libraries.
    pub refresh_impl-Hooked :
        (before after : List MapsLine)
        → rb_find p core.maps ≡ none
        → All (Apart p) before
        → Returns
            (refresh_impl sys core (before ++ l ∷ after))
            (λ r. Hooked p (wanted sys.regexec core.ignores p core.hooks) r.1)
    unfolding refresh_impl rb_find
    refresh_impl-Hooked before after absent apart =
        >>=-Returns (λ s. Hooked p due s.calls) (λ r. Hooked p due r.1)
          (refresh_lines sys core (record { old = core.maps; refreshed = []; calls = [] })
            (before ++ l ∷ after))
          _
          (refresh_lines-Hooked (record { old = core.maps; refreshed = []; calls = [] }) before
            after (absent, refl) apart)
          (λ s h. h)
