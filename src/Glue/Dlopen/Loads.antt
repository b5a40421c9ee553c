-- ===== src/Glue/Dlopen/Loads.antt =====
-- Behind dlopenhook, a library that is loaded gets the hooks of dlopen.
use mathlib.Core.List.{append_assoc}
use elf_hook_test.Base.{ℕ, List, ◌∷◌, ◌++◌, true, none, some, ◌≡◌, refl, sym, ap, ◌∙◌, subst, All}
use elf_hook_test.Base.Run.{Run, done, ◌>>=◌, Returns}
use elf_hook_test.Base.Run.Laws.{>>=-Returns}
use elf_hook_test.HookCore.{HookInfo, Core}
use elf_hook_test.HookCore.Match.{check_match}
use elf_hook_test.HookCore.Match.Wanted.{wanted}
use elf_hook_test.HookCore.Refresh.{System, MapsLine, refresh_impl}
use elf_hook_test.HookCore.Refresh.Grows.{named, Apart}
use elf_hook_test.HookCore.Refresh.Loaded.{Hooked, refresh_impl-Hooked}
use elf_hook_test.Glue.Dlopen.{
  Process, Setup, Origins, Proxy, dlopen_o, dlopen_n, dlopen_any, android_dlopen_o,
  android_dlopen_n, so_regex, rows_for, dynamic_hook_so_test, load_and_hook, dlopen_proxy_o,
  dlopen_proxy_n, dlopen_proxy, android_dlopen_proxy_o, android_dlopen_proxy_n, register_rows,
  dlopenhook,
}
use elf_hook_test.Glue.Dlopen.Ready.{
  hooks_of, IsFresh, IsReady, wanted_lem, rows_for_match, register_rows_lem, refreshed,
  refresh-ready, started, refresh-fresh, refresh_impl-IsReady,
}

-- The arguments that a proxy may get.
pub record Args : Type 0 where
  pub filename : ℕ
  pub flags : ℕ
  pub extinfo : ℕ
  pub caller_addr : ℕ

-- The function behind a proxy, and the proxy.
abbrev pub origin_of : Origins → Proxy → Args → Process → Run (ℕ × Process)
origin_of o dlopen_o a = o.dlopen_origin_o a.filename a.flags a.caller_addr
origin_of o dlopen_n a = o.dlopen_origin_n a.filename a.flags
origin_of o dlopen_any a = o.dlopen_origin a.filename a.flags
origin_of o android_dlopen_o a =
    o.android_dlopen_origin_o a.filename a.flags a.extinfo a.caller_addr
origin_of o android_dlopen_n a = o.android_dlopen_origin_n a.filename a.flags a.extinfo

abbrev pub through : Setup → Origins → Proxy → Args → Process → Run (ℕ × Process)
through s o dlopen_o a = dlopen_proxy_o s o a.filename a.flags a.caller_addr
through s o dlopen_n a = dlopen_proxy_n s o a.filename a.flags
through s o dlopen_any a = dlopen_proxy s o a.filename a.flags
through s o android_dlopen_o a =
    android_dlopen_proxy_o s o a.filename a.flags a.extinfo a.caller_addr
through s o android_dlopen_n a = android_dlopen_proxy_n s o a.filename a.flags a.extinfo

through_lem :
    (s : Setup) (o : Origins) (proxy : Proxy) (a : Args) (p : Process)
    → through s o proxy a p ≡ load_and_hook s (origin_of o proxy a) p
unfolding dlopen_proxy_o dlopen_proxy_n dlopen_proxy android_dlopen_proxy_o android_dlopen_proxy_n
through_lem s o dlopen_o a p = refl
through_lem s o dlopen_n a p = refl
through_lem s o dlopen_any a p = refl
through_lem s o android_dlopen_o a p = refl
through_lem s o android_dlopen_n a p = refl

-- What the system says of a library: it opens, it has an ELF header, and no hook of it raises SIGSEGV.
pub record IsSound (sys : System) (l : MapsLine) (path : List ℕ) : Type 0 where
  pub is_named : named l ≡ some path
  pub is_so : sys.regexec so_regex path ≡ true
  pub good : sys.check_elfheader l.base_addr ≡ some true
  pub memory : sys.memory path ≡ true
  pub opens : sys.elf_init (record { pathname = path; base_addr = l.base_addr }) ≡ true
  pub bears : sys.bears (record { pathname = path; base_addr = l.base_addr }) ≡ none

module _ (setup : Setup) (new_func old_func : Proxy → ℕ) (api_level : ℕ) (path : List ℕ) where
  abbrev due : List HookInfo
  due = hooks_of (rows_for new_func old_func api_level)

  dynamic_hook_so_test-IsReady :
      (p : Process) (c : Core)
      → setup.sigaction ≡ true
      → IsFresh c
      → All (Apart path) p.maps
      → Returns
          (dynamic_hook_so_test setup (record p { core = record c { hooks = due } }))
          (λ q. IsReady path due q.core)
  unfolding dynamic_hook_so_test
  dynamic_hook_so_test-IsReady p c caught fresh apart =
      rw
        (
          dynamic_hook_so_test,
          refresh-fresh setup p.maps (record c { hooks = due }) fresh.inited fresh.protected caught,
        )
        (>>=-Returns (λ r. IsReady path due r.1) (λ q. IsReady path due q.core)
          (refreshed setup p.maps (started setup p.maps (record c { hooks = due }))) _
          (>>=-Returns (λ r. IsReady path due r.0) (λ r. IsReady path due r.1)
            (refresh_impl setup.sys (started setup p.maps (record c { hooks = due })) p.maps) _
            (refresh_impl-IsReady setup p.maps c path fresh apart due) (λ r v. v))
          (λ r v. v))

  dlopenhook-IsReady :
      (p : Process)
      → setup.regcomp so_regex ≡ true
      → ((s : List ℕ) → setup.memory s ≡ true)
      → setup.sigaction ≡ true
      → IsFresh p.core
      → All (Apart path) p.maps
      → Returns (dlopenhook setup new_func old_func api_level p) (λ q. IsReady path due q.core)
  unfolding dlopenhook
  dlopenhook-IsReady p compiles memory caught fresh apart =
      let core_lem : register_rows setup (rows_for new_func old_func api_level) p.core
          ≡ record p.core { hooks = due } =
        register_rows_lem setup compiles memory (rows_for new_func old_func api_level) p.core
        ∙ ap (λ hs. record p.core { hooks = hs ++ due }) fresh.hooks in
      subst
        (λ c.
          Returns (dynamic_hook_so_test setup (record p { core = c }))
            (λ q. IsReady path due q.core))
        (sym core_lem) (dynamic_hook_so_test-IsReady p p.core caught fresh apart)

  module _ (l : MapsLine) (sound : IsSound setup.sys l path) (before after : List MapsLine)
      (apart : All (Apart path) before) where
    refresh_impl-due :
        (c : Core)
        → IsReady path due c
        → Returns (refresh_impl setup.sys c (before ++ l ∷ after)) (λ r. Hooked path due r.1)
    refresh_impl-due c ready =
        let match : check_match setup.sys.regexec c.ignores path c.hooks ≡ true =
          rw (ready.ignores, ready.hooks)
            (rows_for_match setup.sys.regexec path sound.is_so new_func old_func api_level) in
        let same : wanted setup.sys.regexec c.ignores path c.hooks ≡ due =
          rw (ready.ignores, ready.hooks)
            (wanted_lem setup.sys.regexec path sound.is_so
              (rows_for new_func old_func api_level)) in
        subst
          (λ hs. Returns (refresh_impl setup.sys c (before ++ l ∷ after)) (λ r. Hooked path hs r.1))
          same
          (refresh_impl-Hooked setup.sys c ready.protected path l sound.is_named match sound.good
            sound.memory sound.opens sound.bears before after ready.absent apart)

    behind :
        (calls more : List (List ℕ × HookInfo))
        → Hooked path due more
        → Hooked path due (calls ++ more)
    behind calls more (earlier, later, e) =
        (calls ++ earlier, later, ap (λ xs. calls ++ xs) e ∙ sym (append_assoc calls earlier _))

    load_and_hook-Hooked :
        (origin : Process → Run (ℕ × Process)) (p : Process) (result : ℕ)
        → IsReady path due p.core
        → origin p ≡ done (result, record p { maps = before ++ l ∷ after })
        → Returns
            (load_and_hook setup origin p)
            (λ out. (out.0 ≡ result) × Hooked path due out.1.calls)
    unfolding load_and_hook dynamic_hook_so_test
    load_and_hook-Hooked origin p result ready loads =
        rw
          (
            load_and_hook,
            loads,
            ◌>>=◌,
            dynamic_hook_so_test,
            refresh-ready setup (before ++ l ∷ after) p.core ready.inited ready.init_ok,
          )
          (>>=-Returns (λ q. Hooked path due q.calls) _
            (refreshed setup (before ++ l ∷ after) p.core >>= λ r.
              done (record p { core = r.1; maps = before ++ l ∷ after; calls = p.calls ++ r.2 }))
            _
            (>>=-Returns (λ r. Hooked path due r.2) _ (refreshed setup (before ++ l ∷ after) p.core)
              _
              (>>=-Returns (λ r. Hooked path due r.1) _
                (refresh_impl setup.sys p.core (before ++ l ∷ after)) _
                (refresh_impl-due p.core ready) (λ r h. h))
              (λ r h. behind p.calls r.2 h))
            (λ q h. (refl, h)))

-- On a fresh process, dlopenhook at any API level and then a load through any of the five proxies:
-- both refreshes end, the caller gets what the original function answers, and xh_elf_hook has been
-- called, one after the other, for each dlopen symbol of that level and the library that is new. The
-- protection from SIGSEGV is on; memory, regex and signal handler are there; the library's file name
-- ends in ".so" for the regex, it opens, and no line before its own is for its path; the original
-- function changes nothing but the lines of /proc/self/maps.
pub through-dlopenhook :
    (setup : Setup) (origins : Origins) (new_func old_func : Proxy → ℕ) (api_level : ℕ)
    (proxy : Proxy) (a : Args) (p : Process) (path : List ℕ) (l : MapsLine)
    (before after : List MapsLine) (result : ℕ)
    → setup.regcomp so_regex ≡ true
    → ((s : List ℕ) → setup.memory s ≡ true)
    → setup.sigaction ≡ true
    → IsFresh p.core
    → IsSound setup.sys l path
    → All (Apart path) p.maps
    → All (Apart path) before
    → ((q : Process)
        → origin_of origins proxy a q ≡ done (result, record q { maps = before ++ l ∷ after }))
    → Returns
        (dlopenhook setup new_func old_func api_level p >>= λ q. through setup origins proxy a q)
        (λ out.
          (out.0 ≡ result)
          × Hooked path (hooks_of (rows_for new_func old_func api_level)) out.1.calls)
through-dlopenhook setup origins new_func old_func api_level proxy a p path l before after result
      compiles memory caught fresh sound apart apart' loads =
    >>=-Returns (λ q. IsReady path (hooks_of (rows_for new_func old_func api_level)) q.core) _
      (dlopenhook setup new_func old_func api_level p) _
      (dlopenhook-IsReady setup new_func old_func api_level path p compiles memory caught fresh
        apart)
      (λ q ready. rw (through_lem setup origins proxy a q) (
        load_and_hook-Hooked setup new_func old_func api_level path l sound before after apart'
          (origin_of origins proxy a) q result ready (loads q)))
