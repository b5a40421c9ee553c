-- ===== src/HookCore/Entry.antt =====
-- The functions of xh_core.c that xhook.c passes on.
use elf_hook_test.Base.{
  ℕ, List, [], ◌∷◌, ◌++◌, Bool, true, false, not, ◌&&◌, Option, none, some, if◌then◌else◌,
}
use elf_hook_test.Base.Run.{Run, done, ◌>>=◌}
use elf_hook_test.HookCore.{HookInfo, IgnoreInfo, Core}
use elf_hook_test.HookCore.Refresh.{System, MapsLine, refresh_impl}

-- 0 and the errors of xh_errno.h that these functions return.
pub data Errno : Type 0 where
  good unknown inval nomem : Errno

-- xh_core_register. A null argument is `none`; `regcomp` says which regexes compile, `memory`
-- whether malloc and strdup succeed.
unfoldable pub register :
    (regcomp : List ℕ → Bool) (memory : Bool)
    → Core
    → Option (List ℕ)
    → Option (List ℕ)
    → Option ℕ
    → ℕ
    → Errno × Core
register regcomp memory c (some regex) (some symbol) (some new_func) old_func =
    let hi : HookInfo = record {
      pathname_regex = regex;
      symbol = symbol;
      new_func = new_func;
      old_func = old_func;
    } in
    if regcomp regex
    then (if memory then (good, record c { hooks = c.hooks ++ hi ∷ [] }) else (nomem, c))
    else (inval, c)
register regcomp memory c _ _ _ old_func = (inval, c)

-- xh_core_ignore.
unfoldable pub ignore :
    (regcomp : List ℕ → Bool) (memory : Bool)
    → Core
    → Option (List ℕ)
    → Option (List ℕ)
    → Errno × Core
ignore regcomp memory c none symbol = (inval, c)
ignore regcomp memory c (some regex) symbol =
    let ii : IgnoreInfo = record { pathname_regex = regex; symbol = symbol } in
    if c.inited
    then (inval, c)
    else (if regcomp regex
        then (if memory then (good, record c { ignores = c.ignores ++ ii ∷ [] }) else (nomem, c))
        else (inval, c))

-- xh_core_init_once; `sigaction` says whether the handler of SIGSEGV can be set.
unfoldable pub init_once : (sigaction : Bool) → Core → Core
init_once sigaction c =
    if c.inited
    then c
    else (if not c.sigsegv_enable
        then record c { inited = true; init_ok = true }
        else (if sigaction
            then record c { inited = true; init_ok = true; handler = true }
            else record c { inited = true }))

-- xh_core_init_async_once; `creates` says whether the thread starts.
unfoldable pub init_async_once : (creates : Bool) → Core → Core
init_async_once creates c =
    if c.async_inited
    then c
    else (if creates
        then record c { async_inited = true; async_init_ok = true; thread_running = true }
        else record c { async_inited = true; thread_running = false })

-- xh_core_refresh, and the calls of a synchronous refresh.
unfoldable pub refresh :
    System
    → (sigaction creates : Bool) → Core
    → (async : Bool) → List MapsLine
    → Run (Errno × Core × List (List ℕ × HookInfo))
unfolding init_once init_async_once refresh_impl
refresh sys sigaction creates c true lines =
    let c1 = init_once sigaction c in
    let c2 = init_async_once creates c1 in
    if c1.init_ok
    then (if c2.async_init_ok
        then done (good, record c2 { thread_do = true }, [])
        else done (unknown, c2, []))
    else done (unknown, c1, [])
refresh sys sigaction creates c false lines =
    let c1 = init_once sigaction c in
    if c1.init_ok
    then (refresh_impl sys c1 lines >>= λ r. done (good, r.0, r.1))
    else done (unknown, c1, [])

-- One round of the refresh thread; `none` is its end.
unfoldable pub refresh_thread_round :
    System → Core → List MapsLine → Run (Option (Core × List (List ℕ × HookInfo)))
unfolding refresh_impl
refresh_thread_round sys c lines =
    if c.thread_running
    then (if c.thread_do
        then (refresh_impl sys (record c { thread_do = false }) lines >>= λ r. done (some r))
        else done (some (c, [])))
    else done none

-- xh_core_clear.
unfoldable pub clear : Core → Core
clear c = record c {
  thread_running = if c.async_init_ok then false else c.thread_running;
  async_init_ok = false;
  async_inited = false;
  handler = if c.init_ok && c.sigsegv_enable then false else c.handler;
  init_ok = false;
  inited = false;
  maps = [];
  hooks = [];
  ignores = [];
}

-- xh_core_enable_sigsegv_protection.
unfoldable pub enable_sigsegv_protection : Core → Bool → Core
enable_sigsegv_protection c flag = record c { sigsegv_enable = flag }
