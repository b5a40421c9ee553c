-- ===== src/Elf/Replace.antt =====
-- xh_elf_replace_function: one slot of a library's tables gets another function, and its page the
-- permissions that this needs.
pub mod Slot
pub mod Readable
use elf_hook_test.Base.{
  ℕ, ◌+◌, ◌-◌, ◌*◌, ◌/◌, List, [], ◌∷◌, Bool, true, false, Option, none, some, ◌==◌, leb, ltb, ◌&&◌,
  ◌||◌, not, if◌then◌else◌,
}
use elf_hook_test.Base.Run.{Run, done, fault, ◌>>=◌}
use elf_hook_test.MemProtect.{Line, Prot, get_addr_protect}
use elf_hook_test.Elf.Image.{Code, good, segverr, refused}

-- The pointers in memory, by their addresses, and the lines of /proc/self/maps, read for the path
-- name of the library. A pointer is aligned, so that one line holds it.
pub record Process : Type 0 where
  pub slots : ℕ → ℕ
  pub lines : List Line

-- The system: the width of an address, and mprotect, which leaves other lines or fails.
pub record Kernel : Type 0 where
  pub bits : ℕ
  pub mprotect : List Line → (start len : ℕ) → Prot → Option (List Line)

abbrev pub page_start : ℕ → ℕ
page_start a = a / 4096 * 4096

-- PAGE_COVER.
abbrev pub page_cover : ℕ → ℕ → ℕ
page_cover bits a = page_start (a + bits / 8 - 1) + 4096 - page_start a

-- xh_util_set_addr_protect; `none` is the errno.
unfoldable pub set_addr_protect : Kernel → Process → ℕ → Prot → Option Process
set_addr_protect k p addr prot =
    elim (k.mprotect p.lines (page_start addr) (page_cover k.bits addr) prot) [
      | none ↦ none
      | some lines ↦ some (record p { lines = lines })
    ]

-- Some line holds the address with the permission.
abbrev pub permits : (Line → Bool) → List Line → ℕ → Bool
permits perm [] a = false
permits perm (l ∷ ls) a = (perm l && (leb l.start a && ltb a l.stop)) || permits perm ls a

-- `*(void **)addr`, and the assignment to it; both raise SIGSEGV where the page forbids them.
unfoldable pub load_slot : Process → ℕ → Run ℕ
load_slot p addr = if permits (λ l. l.r) p.lines addr then done (p.slots addr) else fault

abbrev pub update : (ℕ → ℕ) → ℕ → ℕ → ℕ → ℕ
update slots a v b = if a == b then v else slots b

unfoldable pub store_slot : Process → ℕ → ℕ → Run Process
store_slot p addr v =
    if permits (λ l. l.w) p.lines addr
    then done (record p { slots = update p.slots addr v })
    else fault

-- `if(NULL != old_func) *old_func = old_addr;`, a variable of the caller.
abbrev pub save_old : Process → Option ℕ → ℕ → Process
save_old p none v = p
save_old p (some o) v = record p { slots = update p.slots o v }

-- PROT_READ | PROT_WRITE.
abbrev pub need_prot : Prot
need_prot = record { read = true; write = true; exec = false }

abbrev pub same_prot : Prot → Prot → Bool
same_prot p q =
    (if p.read then q.read else not q.read)
    && (if p.write then q.write else not q.write)
    && (if p.exec then q.exec else not q.exec)

-- The two assignments.
unfoldable pub swap_slot : Process → (addr new_func : ℕ) → Option ℕ → Run Process
unfolding load_slot store_slot
swap_slot p addr new_func old_func = do
  old_addr ← load_slot p addr
  store_slot (save_old p old_func old_addr) addr new_func

-- From `old_prot` on.
unfoldable pub replace_under :
    Kernel → Process → (addr new_func : ℕ) → Option ℕ → Prot → Run (Code × Process)
unfolding set_addr_protect swap_slot
replace_under k p addr new_func old_func old_prot =
    if same_prot old_prot need_prot
    then (swap_slot p addr new_func old_func >>= λ p'. done (good, p'))
    else elim (set_addr_protect k p addr need_prot) [
      | none ↦ done (refused, p)
      | some p1 ↦ swap_slot p1 addr new_func old_func >>= λ p2.
          elim (set_addr_protect k p2 addr old_prot) [
            | none ↦ done (good, p2)
            | some p3 ↦ done (good, p3)
          ]
    ]

unfoldable pub replace_function :
    Kernel → Process → (addr new_func : ℕ) → Option ℕ → Run (Code × Process)
unfolding load_slot replace_under
replace_function k p addr new_func old_func = load_slot p addr >>= λ v.
    if v == new_func then done (good, p) else elim (get_addr_protect k.bits p.lines addr) [
      | none ↦ done (segverr, p)
      | some old_prot ↦ replace_under k p addr new_func old_func old_prot
    ]
