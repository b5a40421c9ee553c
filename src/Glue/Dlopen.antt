-- ===== src/Glue/Dlopen.antt =====
-- cpp/HookProxy.h: the hooks of dlopen, which look at the libraries again behind each load.
pub mod Loads
pub mod Ready
use elf_hook_test.Base.{ℕ, List, [], ◌∷◌, ◌++◌, Bool, true, false, some, leb, if◌then◌else◌}
use elf_hook_test.Base.Run.{Run, done, ◌>>=◌}
use elf_hook_test.HookCore.{HookInfo, Core}
use elf_hook_test.HookCore.Refresh.{System, MapsLine}
use elf_hook_test.HookCore.Entry.{register, refresh}

-- The state of xh_core.c, what /proc/self/maps holds, and the calls of xh_elf_hook up to now.
pub record Process : Type 0 where
  pub core : Core
  pub maps : List MapsLine
  pub calls : List (List ℕ × HookInfo)

-- The system beside what a refresh asks of it: which regexes compile, for which symbols there is
-- memory, whether SIGSEGV can be caught and whether a thread starts.
pub record Setup : Type 0 where
  pub sys : System
  pub regcomp : List ℕ → Bool
  pub memory : List ℕ → Bool
  pub sigaction : Bool
  pub creates : Bool

-- The functions that the proxies call, with their arguments. A load may run the constructors of the
-- library, and those may load others.
pub record Origins : Type 0 where
  pub dlopen_origin_o : (filename flags caller_addr : ℕ) → Process → Run (ℕ × Process)
  pub dlopen_origin_n : (filename flags : ℕ) → Process → Run (ℕ × Process)
  pub dlopen_origin : (filename flags : ℕ) → Process → Run (ℕ × Process)
  pub android_dlopen_origin_o :
      (filename flags extinfo caller_addr : ℕ) → Process → Run (ℕ × Process)
  pub android_dlopen_origin_n : (filename flags extinfo : ℕ) → Process → Run (ℕ × Process)

-- The proxies.
pub data Proxy : Type 0 where
  dlopen_o dlopen_n dlopen_any android_dlopen_o android_dlopen_n : Proxy

-- A row of sSoLoad_O, sSoLoad_N and sSoLoad.
pub record Row : Type 0 where
  pub symbol : List ℕ
  pub new_func : ℕ
  pub old_func : ℕ

-- ".*\.so$".
abbrev pub so_regex : List ℕ
so_regex = 46 ∷ 42 ∷ 92 ∷ 46 ∷ 115 ∷ 111 ∷ 36 ∷ []

-- "dlopen", "android_dlopen_ext", "__loader_" and "abort".
abbrev pub dlopen_text : List ℕ
dlopen_text = 100 ∷ 108 ∷ 111 ∷ 112 ∷ 101 ∷ 110 ∷ []

abbrev pub android_dlopen_ext_text : List ℕ
android_dlopen_ext_text =
    97 ∷ 110 ∷ 100 ∷ 114 ∷ 111 ∷ 105 ∷ 100 ∷ 95 ∷ (dlopen_text ++ 95 ∷ 101 ∷ 120 ∷ 116 ∷ [])

abbrev pub loader_text : List ℕ → List ℕ
loader_text name = 95 ∷ 95 ∷ 108 ∷ 111 ∷ 97 ∷ 100 ∷ 101 ∷ 114 ∷ 95 ∷ name

abbrev pub abort_text : List ℕ
abort_text = 97 ∷ 98 ∷ 111 ∷ 114 ∷ 116 ∷ []

-- The addresses of a proxy and of the pointer to its origin.
module _ (new_func old_func : Proxy → ℕ) where
  abbrev pub row : List ℕ → Proxy → Row
  row symbol proxy = record {
    symbol = symbol;
    new_func = new_func proxy;
    old_func = old_func proxy;
  }

  unfoldable pub so_load_o : List Row
  so_load_o =
      row (loader_text android_dlopen_ext_text) android_dlopen_o
      ∷ row (loader_text dlopen_text) dlopen_o
      ∷ []

  unfoldable pub so_load_n : List Row
  so_load_n = row android_dlopen_ext_text android_dlopen_n ∷ row dlopen_text dlopen_n ∷ []

  unfoldable pub so_load : List Row
  so_load = row dlopen_text dlopen_any ∷ []

  unfoldable pub rows_for : (api_level : ℕ) → List Row
  unfolding so_load_o so_load_n so_load
  rows_for api_level =
      if leb 26 api_level then so_load_o else (if leb 24 api_level then so_load_n else so_load)

module _ (setup : Setup) where
  -- dynamicHookSoTest, which is xhook_refresh(0).
  unfoldable pub dynamic_hook_so_test : Process → Run Process
  unfolding refresh
  dynamic_hook_so_test p =
      refresh setup.sys setup.sigaction setup.creates p.core false p.maps >>= λ r.
      done (record p { core = r.1; calls = p.calls ++ r.2 })

  -- `void *result = origin(...); dynamicHookSoTest(filename); return result;`
  unfoldable pub load_and_hook : (Process → Run (ℕ × Process)) → Process → Run (ℕ × Process)
  unfolding dynamic_hook_so_test
  load_and_hook origin p = do
    loaded ← origin p
    p' ← dynamic_hook_so_test loaded.1
    done (loaded.0, p')

  module _ (origins : Origins) where
    unfoldable pub dlopen_proxy_o : (filename flags caller_addr : ℕ) → Process → Run (ℕ × Process)
    unfolding load_and_hook
    dlopen_proxy_o filename flags caller_addr =
        load_and_hook (origins.dlopen_origin_o filename flags caller_addr)

    unfoldable pub dlopen_proxy_n : (filename flags : ℕ) → Process → Run (ℕ × Process)
    unfolding load_and_hook
    dlopen_proxy_n filename flags = load_and_hook (origins.dlopen_origin_n filename flags)

    unfoldable pub dlopen_proxy : (filename flags : ℕ) → Process → Run (ℕ × Process)
    unfolding load_and_hook
    dlopen_proxy filename flags = load_and_hook (origins.dlopen_origin filename flags)

    unfoldable pub android_dlopen_proxy_o :
        (filename flags extinfo caller_addr : ℕ) → Process → Run (ℕ × Process)
    unfolding load_and_hook
    android_dlopen_proxy_o filename flags extinfo caller_addr =
        load_and_hook (origins.android_dlopen_origin_o filename flags extinfo caller_addr)

    unfoldable pub android_dlopen_proxy_n :
        (filename flags extinfo : ℕ) → Process → Run (ℕ × Process)
    unfolding load_and_hook
    android_dlopen_proxy_n filename flags extinfo =
        load_and_hook (origins.android_dlopen_origin_n filename flags extinfo)

  -- xhook_register(".*\\.so$", ...), whose answer is not looked at.
  unfoldable pub register_row : Row → Core → Core
  unfolding register
  register_row row c =
      (register setup.regcomp (setup.memory row.symbol) c (some so_regex) (some row.symbol)
        (some row.new_func) row.old_func).1

  unfoldable pub register_rows : List Row → Core → Core
  unfolding register_row
  register_rows [] c = c
  register_rows (row ∷ rows) c = register_rows rows (register_row row c)

  -- dlopenhook; __ANDROID_API_O__ is 26, __ANDROID_API_N__ 24.
  unfoldable pub dlopenhook :
      (new_func old_func : Proxy → ℕ) (api_level : ℕ) → Process → Run Process
  unfolding register_rows dynamic_hook_so_test
  dlopenhook new_func old_func api_level p =
      dynamic_hook_so_test
        (record p { core = register_rows (rows_for new_func old_func api_level) p.core })

  -- hookAbort.
  unfoldable pub hook_abort : (abort_proxy abort_old : ℕ) → Process → Run Process
  unfolding register_row dynamic_hook_so_test
  hook_abort abort_proxy abort_old p = dynamic_hook_so_test (record p {
    core =
        register_row (record { symbol = abort_text; new_func = abort_proxy; old_func = abort_old })
          p.core;
  })
