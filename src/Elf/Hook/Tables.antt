-- ===== src/Elf/Hook/Tables.antt =====
-- The three loops together: what xh_elf_hook does to a library.
use elf_hook_test.Base.{
  ℕ, ◌+◌, ◌-◌, ◌/◌, ◌<◌, ◌≡◌, ◌≢◌, ◌⊎◌, inl, inr, refl, arith, List, [], ◌++◌, Bool, true, false,
  Option, none, some, ◌==◌, leb, Bool-cases, if◌then◌else◌, All,
}
use elf_hook_test.Base.Run.{Run, done, Returns}
use elf_hook_test.Base.Run.Laws.{>>=-Returns, Returns_mono}
use elf_hook_test.MemProtect.{Line}
use elf_hook_test.Elf.Sleb.{PlainIterator, plain_init, plain_next}
use elf_hook_test.Elf.Packed.{Relocation, PackedIterator, packed_init, packed_next}
use elf_hook_test.Elf.Packed.Count.{packed_next_lem}
use elf_hook_test.Elf.Lookup
use elf_hook_test.Elf.Lookup.{find_symidx_by_name}
use elf_hook_test.Elf.Image.{Code, good, Elf}
use elf_hook_test.Elf.Replace.{Process, Kernel}
use elf_hook_test.Elf.Replace.Slot.{Protects}
use elf_hook_test.Elf.Replace.Readable.{IsReadable}
use elf_hook_test.Elf.Hook.{
  Arch, is_good, is_wanted, RelocationTables, next_plain, hook_plain, hook_packed, then_next,
  hook_tables, hook,
}
use elf_hook_test.Elf.Hook.Loop.{
  yields, ends-measure, due, IsHooked, nothing-IsHooked, IsHooked-then, IsHooked-stop, is_good-bad,
  good_or, targets, replace_all-Hooks,
}

module _ (m : Arch) (k : Kernel) (self : Elf) (tables : RelocationTables) where
  -- The relocations of a plain table and of the packed one.
  abbrev pub plain_relocations : (rel rel_sz : ℕ) → List Relocation
  plain_relocations rel rel_sz =
      if rel == 0
      then []
      else yields (next_plain m k self tables) (rel_sz + 1) (plain_init rel rel_sz self.is_use_rela)

  abbrev pub packed_relocations : List Relocation
  packed_relocations =
      let it = (packed_init k.bits tables.packed self.is_use_rela).1 in
      if self.relandroid == 0 then [] else yields (packed_next k.bits) (it.relocation_count + 1) it

  -- Those of a symbol that are replaced: the first in .rel(a).plt, and all in the other two.
  abbrev pub plt_due : ℕ → List Relocation
  plt_due symidx = due (is_wanted m true symidx) true (plain_relocations self.relplt self.relplt_sz)

  abbrev pub dyn_due : ℕ → List Relocation
  dyn_due symidx =
      due (is_wanted m false symidx) false (plain_relocations self.reldyn self.reldyn_sz)

  abbrev pub android_due : ℕ → List Relocation
  android_due symidx = due (is_wanted m false symidx) false packed_relocations

  -- Each relocation brings an iterator nearer to its end.
  next_plain_falls :
      0 < m.rel
      → 0 < m.rela
      → (it : PlainIterator)
      → ((next_plain m k self tables it).0 ≡ none)
        ⊎ ((next_plain m k self tables it).1.stop - (next_plain m k self tables it).1.cur
            < it.stop - it.cur)
  unfolding next_plain plain_next
  next_plain_falls h h' it = elim (Bool-cases (leb it.stop it.cur)) [
    | inl end ↦ rw (end, next_plain) (inl refl)
    | inr more ↦ rw (more, next_plain) (inr (ground arith))
  ]

  packed_next_falls :
      (it : PackedIterator)
      → ((packed_next k.bits it).0 ≡ none)
        ⊎ ((packed_next k.bits it).1.relocation_count - (packed_next k.bits it).1.relocation_index
            < it.relocation_count - it.relocation_index)
  packed_next_falls it = elim (packed_next_lem k.bits it) [
    | inl e ↦ inl e
    | inr (lt, c, i) ↦ inr (omega arith)
  ]

plain_size :
    (rel rel_sz : ℕ) (rela : Bool)
    → (plain_init rel rel_sz rela).stop - (plain_init rel rel_sz rela).cur < rel_sz + 1
unfolding plain_init
plain_size rel rel_sz rela = omega arith

module _ (m : Arch) (k : Kernel) (self : Elf) (tables : RelocationTables) (new_func : ℕ)
    (old_func : Option ℕ) (symidx : ℕ) (law : Protects k) (pos : 0 < k.bits / 8) (T : ℕ → Type 0)
    (S : List Line → Type 0) (readable : IsReadable k T S)
    (sizes : (0 < m.rel) × (0 < m.rela)) where
  -- A part that replaces the relocations `rs`.
  abbrev Part : List Relocation → (Process → Run (Code × Process)) → Type 0
  Part rs f =
      (p : Process)
      → S p.lines
      → Returns (f p) (λ r. IsHooked (targets k self rs) new_func old_func p r × S r.1.lines)

  abbrev pub Apart : List Relocation → Type 0
  Apart rs = All T (targets k self rs) × All (λ a. old_func ≢ some a) (targets k self rs)

  hook_plain-Part :
      (is_plt stops : Bool) (rel rel_sz : ℕ)
      → Apart (due (is_wanted m is_plt symidx) stops (plain_relocations m k self tables rel rel_sz))
      → Part
          (due (is_wanted m is_plt symidx) stops (plain_relocations m k self tables rel rel_sz))
          (hook_plain m k self tables is_plt stops rel rel_sz new_func old_func symidx)
  unfolding hook_plain
  hook_plain-Part is_plt stops rel rel_sz apart p s = elim (Bool-cases (rel == 0)) [
    | inl z ↦ rw z (nothing-IsHooked new_func old_func p good, s)
    | inr nz ↦ rw nz (
        replace_all-Hooks m k self new_func old_func symidx law pos T S readable is_plt stops
          (next_plain m k self tables) (rel_sz + 1) (plain_init rel rel_sz self.is_use_rela) p
          (ends-measure (next_plain m k self tables) (λ it. it.stop - it.cur)
            (next_plain_falls m k self tables sizes.0 sizes.1) (rel_sz + 1)
            (plain_init rel rel_sz self.is_use_rela) (plain_size rel rel_sz self.is_use_rela))
          s (rw nz at apart))
  ]

  hook_packed-Part :
      Apart (due (is_wanted m false symidx) false (packed_relocations m k self tables))
      → Part
          (due (is_wanted m false symidx) false (packed_relocations m k self tables))
          (hook_packed m k self tables new_func old_func symidx)
  unfolding hook_packed
  hook_packed-Part apart p s =
      let it = (packed_init k.bits tables.packed self.is_use_rela).1 in
      elim (Bool-cases (self.relandroid == 0)) [
        | inl z ↦ rw z (nothing-IsHooked new_func old_func p good, s)
        | inr nz ↦ rw nz (
            replace_all-Hooks m k self new_func old_func symidx law pos T S readable false false
              (packed_next k.bits) (it.relocation_count + 1) it p
              (ends-measure (packed_next k.bits) (λ i. i.relocation_count - i.relocation_index)
                (packed_next_falls m k self tables) (it.relocation_count + 1) it (omega arith))
              s (rw nz at apart))
      ]

  -- One part behind another, as `if(0 != r) return r` joins them.
  module _ (hit more : List ℕ) (apart : All (λ a. old_func ≢ some a) hit) (p : Process) where
    abbrev Ends : List ℕ → Process → Code × Process → Type 0
    Ends hit' p' r = IsHooked hit' new_func old_func p' r × S r.1.lines

    after_good :
        (g : Process → Run (Code × Process)) (p1 : Process)
        → ((p' : Process) → S p'.lines → Returns (g p') (Ends more p'))
        → Ends hit p (good, p1)
        → Returns (g p1) (Ends (hit ++ more) p)
    after_good g p1 rest h =
        Returns_mono (Ends more p1) (Ends (hit ++ more) p) (g p1) (rest p1 h.1)
          (λ q hq. (IsHooked-then hit more new_func old_func p p1 q apart h.0 hq.0, hq.1))

    after_one :
        (g : Process → Run (Code × Process)) (c : Code) (p1 : Process)
        → ((p' : Process) → S p'.lines → Returns (g p') (Ends more p'))
        → (c ≡ good) ⊎ (c ≢ good)
        → Ends hit p (c, p1)
        → Returns (if is_good c then g p1 else done (c, p1)) (Ends (hit ++ more) p)
    after_one g c p1 rest (inl e) h = rw e (after_good g p1 rest (rw e at h))
    after_one g c p1 rest (inr bad) h =
        rw (is_good-bad c bad) (IsHooked-stop hit more new_func old_func p (c, p1) bad h.0, h.1)

    then_next-Ends :
        (r : Run (Code × Process)) (g : Process → Run (Code × Process))
        → Returns r (Ends hit p)
        → ((p' : Process) → S p'.lines → Returns (g p') (Ends more p'))
        → Returns (then_next m k self tables r g) (Ends (hit ++ more) p)
    then_next-Ends r g h rest =
        >>=-Returns (Ends hit p) (Ends (hit ++ more) p) r _ h
          (λ q hq. after_one g q.0 q.1 rest (good_or q.0) hq)

  -- The slots of all relocations that are due.
  abbrev pub hits : List ℕ
  hits =
      targets k self (plt_due m k self tables symidx)
      ++ (targets k self (dyn_due m k self tables symidx)
          ++ targets k self (android_due m k self tables symidx))

  hook_tables-IsHooked :
      (p : Process)
      → S p.lines
      → Apart (plt_due m k self tables symidx)
      → Apart (dyn_due m k self tables symidx)
      → Apart (android_due m k self tables symidx)
      → Returns
          (hook_tables m k self tables new_func old_func symidx p)
          (λ r. IsHooked hits new_func old_func p r × S r.1.lines)
  unfolding hook_tables
  hook_tables-IsHooked p s a1 a2 a3 =
      let plt = targets k self (plt_due m k self tables symidx) in
      let dyn = targets k self (dyn_due m k self tables symidx) in
      let android = targets k self (android_due m k self tables symidx) in
      let hook_dyn =
        hook_plain m k self tables false false self.reldyn self.reldyn_sz new_func old_func
          symidx in
      let hook_android = hook_packed m k self tables new_func old_func symidx in
      then_next-Ends plt (dyn ++ android) a1.1 p
        (hook_plain m k self tables true true self.relplt self.relplt_sz new_func old_func symidx p)
        (λ p1. then_next m k self tables (hook_dyn p1) hook_android)
        (hook_plain-Part true true self.relplt self.relplt_sz a1 p s)
        (λ p1 s1.
          then_next-Ends dyn android a2.1 p1 (hook_dyn p1) hook_android
            (hook_plain-Part false false self.reldyn self.reldyn_sz a2 p1 s1)
            (λ p2 s2. hook_packed-Part a3 p2 s2))

  -- xh_elf_hook of a symbol that is found, in a structure with a path name and with a new function that
  -- is not null, comes to an end without touching memory that it may not. With 0 the first relocation
  -- of the symbol in the PLT table and all in the other two have the new function in their slots. Other
  -- slots keep what they held, and the caller's variable does not come to hold the new function. The
  -- slots are readable, mprotect keeps its word, and none of them is the variable.
  pub hook-IsHooked :
      (symbols : Lookup.Tables) (fuel : ℕ) (symbol : List ℕ) (p : Process)
      → self.has_pathname ≡ true
      → new_func ≢ 0
      → find_symidx_by_name k.bits self.is_use_gnu_hash symbols fuel symbol ≡ done (some symidx)
      → S p.lines
      → Apart (plt_due m k self tables symidx)
      → Apart (dyn_due m k self tables symidx)
      → Apart (android_due m k self tables symidx)
      → Returns
          (hook m k self tables symbols fuel (some symbol) new_func old_func p)
          (λ r. IsHooked hits new_func old_func p r × S r.1.lines)
  unfolding hook
  hook-IsHooked symbols fuel symbol p named there found s a1 a2 a3 =
      let nz : new_func == 0 ≡ false = ground arith in
      rw (named, nz, found) (hook_tables-IsHooked p s a1 a2 a3)
