-- ===== src/HookCore.antt =====
-- xHook/xh_core.c: the hooks and ignores that are registered, the libraries that are loaded, and
-- the refresh that brings both together.
pub mod Match
pub mod Refresh
pub mod Entry
pub mod Steps
use elf_hook_test.Base.{ℕ, List, Bool, Option}

-- xh_core_hook_info_t. A compiled regex is its text; `old_func` is the address of the pointer.
pub record HookInfo : Type 0 where
  pub pathname_regex : List ℕ
  pub symbol : List ℕ
  pub new_func : ℕ
  pub old_func : ℕ

-- xh_core_ignore_info_t; `none` is for all symbols.
pub record IgnoreInfo : Type 0 where
  pub pathname_regex : List ℕ
  pub symbol : Option (List ℕ)

-- xh_core_map_info_t.
pub record MapInfo : Type 0 where
  pub pathname : List ℕ
  pub base_addr : ℕ

-- The static variables. The trees are lists of their entries; `handler` says whether SIGSEGV
-- comes to this file, `spawned` whether the refresh thread was started.
pub record Core : Type 0 where
  pub sigsegv_enable : Bool
  pub hooks : List HookInfo
  pub ignores : List IgnoreInfo
  pub maps : List MapInfo
  pub inited : Bool
  pub init_ok : Bool
  pub async_inited : Bool
  pub async_init_ok : Bool
  pub thread_running : Bool
  pub thread_do : Bool
  pub handler : Bool
