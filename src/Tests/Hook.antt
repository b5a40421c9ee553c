-- ===== src/Tests/Hook.antt =====
-- A library with one slot for "printf", for xh_elf_hook.
use elf_hook_test.Base.{
  ℕ, ◌+◌, ◌/◌, ◌%◌, ◌^◌, ◌≤◌, ◌≡◌, ◌≢◌, refl, sym, ap, subst, arith, List, [], ◌∷◌, Bool, true,
  false, Option, none, some, if◌then◌else◌, ◌==◌, leb,
}
use elf_hook_test.Base.Run.{Returns}
use elf_hook_test.MemProtect.{Line, Prot, get_addr_protect}
use elf_hook_test.Elf.Sleb.{plain_init}
use elf_hook_test.Elf.Image.{Elf}
use elf_hook_test.Elf.Lookup.{find_symidx_by_name}
use elf_hook_test.Elf.Replace.{Process, Kernel, replace_function, permits}
use elf_hook_test.Elf.Replace.Slot.{Protects, IsReplaced, replace_function-IsReplaced}
use elf_hook_test.Elf.Replace.Readable.{IsReadable}
use elf_hook_test.Elf.Hook.{Arch, RelocationTables, hook, next_plain}
use elf_hook_test.Elf.Hook.Loop.{IsHooked}
use elf_hook_test.Elf.Hook.Tables.{hook-IsHooked}
use elf_hook_test.Tests.Image.{printf, chained, accepted}

-- One line for all of the 32-bit addresses.
abbrev whole : Bool → Bool → Bool → Line
whole r w x = record {
  matches = true;
  parses = true;
  start = 0;
  stop = 2 ^ 32;
  r = r;
  w = w;
  x = x;
  private = true;
}

-- An mprotect that changes the permissions everywhere, and fails for a range that is too long.
abbrev kernel : Kernel
kernel = record {
  bits = 32;
  mprotect = λ ls start len prot.
      if leb (start + len) (2 ^ 32) then some (whole prot.read prot.write prot.exec ∷ []) else none;
}

by_range :
    (b : Bool) (ls ls' : List Line)
    → (if b then some ls else none) ≡ some ls'
    → (b ≡ true) × (ls ≡ ls')
by_range true ls ls' e = (refl, cc)
by_range false ls ls' e = absurd cc

kernel-Protects : Protects kernel
kernel-Protects ls ls' start len a prot e low high =
    let (fits, same) =
      by_range (leb (start + len) (2 ^ 32)) (whole prot.read prot.write prot.exec ∷ []) ls' e in
    let below : start + len ≤ 2 ^ 32 = ground arith in
    subst (λ ls. (permits (λ l. l.r) ls a ≡ prot.read) × (permits (λ l. l.w) ls a ≡ prot.write))
      same (ground arith, ground arith)

-- The slot, and the lines that leave it readable.
abbrev IsSlot : ℕ → Type 0
IsSlot a = a ≡ 0x2010

abbrev AreReadable : List Line → Type 0
AreReadable ls = (w : Bool) × (x : Bool) × (ls ≡ whole true w x ∷ [])

reports-read :
    (w x : Bool) (q : Prot)
    → get_addr_protect 32 (whole true w x ∷ []) 0x2010 ≡ some q
    → q.read ≡ true
unfolding get_addr_protect
reports-read w x q e = ap (λ o. elim o [ none ↦ true | some p ↦ p.read ]) (sym e)

IsSlot-IsReadable : IsReadable kernel IsSlot AreReadable
IsSlot-IsReadable = record {
  fits = λ a t. omega arith;
  reads = λ ls a (w, x, same) t. rw (same, t) refl;
  reports = λ ls a q (w, x, same) t e. reports-read w x q (rw (same, t) at e);
  keeps = λ ls ls' start len q s e r.
      let (fits, same) =
        by_range (leb (start + len) (2 ^ 32)) (whole q.read q.write q.exec ∷ []) ls' e in
      (q.write, q.exec, subst (λ b. ls' ≡ whole b q.write q.exec ∷ []) r (sym same));
}

-- The variable for the old function.
abbrev caller : Option ℕ
caller = some 0x40

-- The slot holds 5, and the page is read only.
abbrev process : Process
process = record { slots = λ a. if a == 0x2010 then 5 else 0; lines = whole true false false ∷ [] }

replace_function-IsReplaced_example :
    Returns (replace_function kernel process 0x2010 9 caller) (IsReplaced 0x2010 9 caller process)
replace_function-IsReplaced_example =
    replace_function-IsReplaced kernel kernel-Protects 0x2010 9 caller (omega arith) process
      (omega arith) refl

elsewhere : caller ≢ some 0x2010
elsewhere e = cc e

abbrev arm : Arch
arm = record {
  r_sym = λ i. i / 256;
  r_type = λ i. i % 256;
  jump_slot = 22;
  glob_dat = 21;
  abs = 2;
  rel = 8;
  rela = 12;
}

-- One relocation in .rel.plt, for the symbol 1.
abbrev library : Elf
library = record accepted { relplt = 0x1500; relplt_sz = 8 }

abbrev relocations : RelocationTables
relocations = record {
  plain_at = λ a. record { offset = 0x1010; info = 278; addend = none };
  packed = [];
}

hook-IsHooked_example :
    Returns
      (hook arm kernel library relocations chained 3 (some printf) 9 caller process)
      (λ r. IsHooked (0x2010 ∷ []) 9 caller process r × AreReadable r.1.lines)
unfolding find_symidx_by_name next_plain plain_init elf_hook_test.Elf.Hash.elf_hash
hook-IsHooked_example =
    hook-IsHooked arm kernel library relocations 9 caller 1 kernel-Protects (omega arith) IsSlot
      AreReadable IsSlot-IsReadable (omega arith, omega arith) chained 3 printf process refl
      (omega arith) refl (false, false, refl) ((refl, tt), (elsewhere, tt)) (tt, tt) (tt, tt)
