-- ===== src/MemProtect.antt =====
-- xHook/xh_util.c: the protection of a range of memory, from the lines of /proc/self/maps.
pub mod Covered
use elf_hook_test.Base.{
  ℕ, ◌+◌, ◌-◌, ◌*◌, ◌/◌, ◌%◌, ◌^◌, List, [], ◌∷◌, Bool, true, false, ◌&&◌, not, Option, none, some,
  leb, ltb, if◌then◌else◌,
}

-- A line: whether it holds the path name that is asked for (true where none is), whether sscanf
-- reads its three fields, and what it reads. `private` is a 'p' in the fourth place.
pub record Line : Type 0 where
  pub matches : Bool
  pub parses : Bool
  pub start : ℕ
  pub stop : ℕ
  pub r : Bool
  pub w : Bool
  pub x : Bool
  pub private : Bool

-- PROT_READ, PROT_WRITE and PROT_EXEC of `*prot`.
pub record Prot : Type 0 where
  pub read : Bool
  pub write : Bool
  pub exec : Bool

-- `continue` is taken where this is false.
abbrev pub is_used : Line → ℕ → Bool
is_used l a = l.matches && (l.parses && (l.private && (leb l.start a && ltb a l.stop)))

-- The first segment sets the bits, the others clear them.
abbrev pub narrow : Bool → Prot → Line → Prot
narrow true p l = record {
  read = if l.r then true else p.read;
  write = if l.w then true else p.write;
  exec = if l.x then true else p.exec;
}
narrow false p l = record { read = p.read && l.r; write = p.write && l.w; exec = p.exec && l.x }

-- The loop, at `start_addr`, `load0` and `*prot`; `none` is XH_ERRNO_SEGVERR.
unfoldable pub protect_loop : ℕ → List Line → ℕ → Bool → Prot → Option Prot
protect_loop end_addr [] a load0 p = none
protect_loop end_addr (l ∷ ls) a load0 p =
    let p' = narrow load0 p l in
    let on = protect_loop end_addr ls l.stop false p' in
    let past = protect_loop end_addr ls a load0 p in
    if is_used l a then (if leb end_addr l.stop then some p' else on) else past

-- xh_util_get_mem_protect on addresses of `bits` bits, where the file opens.
unfoldable pub get_mem_protect : (bits : ℕ) → List Line → (addr len : ℕ) → Option Prot
unfolding protect_loop
get_mem_protect bits lines addr len =
    protect_loop ((addr + len) % 2 ^ bits) lines addr true
      (record { read = false; write = false; exec = false })

-- xh_util_get_addr_protect: the range of one pointer.
unfoldable pub get_addr_protect : (bits : ℕ) → List Line → ℕ → Option Prot
unfolding get_mem_protect
get_addr_protect bits lines addr = get_mem_protect bits lines addr (bits / 8)
