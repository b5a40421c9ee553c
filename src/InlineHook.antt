-- ===== src/InlineHook.antt =====
-- inline32/inlineHook.c: the table of hooks, the patch that a hook writes over a function, and
-- the stopped threads whose `pc` is moved between a function and its trampoline.
pub mod Patch
pub mod Threads
pub mod Tids
pub mod Table
pub mod Calls
use elf_hook_test.Base.{ℕ, List, Bool, replicate, bit_and, bit_or}
use elf_hook_test.Base.Memory.{Memory}
use elf_hook_test.Relocate.Drive.{Boundaries}

-- `enum ele7en_status`; the codes that no function returns are left out.
pub data Status : Type 0 where
  error_unknown ok not_executable not_registered not_hooked : Status
  already_registered already_hooked : Status

-- `enum hook_status`, stored in an `int`.
abbrev pub registered : ℕ
registered = 0

abbrev pub hooked : ℕ
hooked = 1

-- `struct inlineHookItem`. `orig` holds the bytes of the malloc'ed `orig_instructions`; a null
-- `proto` is 0. The field `mode` is not used by the code.
pub record Item : Type 0 where
  pub target : ℕ
  pub new : ℕ
  pub proto : ℕ
  pub orig : List ℕ
  pub bounds : Boundaries
  pub trampoline : ℕ
  pub len : ℕ
  pub status : ℕ

-- `info`: 1024 slots, of which the first `size` are in use. The others keep what was last
-- written to them.
pub record Info : Type 0 where
  pub items : List Item
  pub size : ℕ

-- A thread of the process: whether ptrace attaches to it and reads its registers, and its `pc`.
pub record Thread : Type 0 where
  pub attaches : Bool
  pub reads : Bool
  pub pc : ℕ

-- A line of /proc/self/maps: whether it holds "r-xp" or "rwxp", and its two addresses.
pub record MapLine : Type 0 where
  pub executable : Bool
  pub start : ℕ
  pub stop : ℕ

-- What the functions of the file read and change. `threads` are the others of the process, as its
-- directory lists them, none where that does not open; `forks` says whether fork() gives a child.
pub record World : Type 0 where
  pub info : Info
  pub memory : Memory
  pub threads : List Thread
  pub forks : Bool

-- CLEAR_BIT0 and SET_BIT0 of a 32-bit address.
abbrev pub clear_bit0 : ℕ → ℕ
clear_bit0 a = bit_and a 0xFFFFFFFE

abbrev pub set_bit0 : ℕ → ℕ
set_bit0 a = bit_or a 1

abbrev pub max_items : ℕ
max_items = 1024
