-- ===== src/Elf/Hook.antt =====
-- xh_elf_hook: the relocations of a symbol, in the three tables of a library, get another function.
pub mod Loop
pub mod Tables
use elf_hook_test.Base.{
  ℕ, zero, suc, ◌+◌, ◌%◌, ◌^◌, List, [], ◌∷◌, Bool, true, false, Option, none, some, ◌==◌, ltb,
  ◌&&◌, ◌||◌, not, if◌then◌else◌,
}
use elf_hook_test.Base.Run.{Run, done, out_of_fuel, ◌>>=◌}
use elf_hook_test.Elf.Sleb.{PlainIterator, plain_init, plain_next}
use elf_hook_test.Elf.Packed.{Relocation, PackedIterator, packed_init, packed_next}
use elf_hook_test.Elf.Lookup.{find_symidx_by_name}
use elf_hook_test.Elf.Lookup
use elf_hook_test.Elf.Image.{Code, good, inval, format, not_inited, segverr, refused, Elf}
use elf_hook_test.Elf.Replace.{Process, Kernel, replace_function}

-- What the build fixes: the parts of `r_info`, the types of relocations, and the sizes of entries.
pub record Arch : Type 0 where
  pub r_sym : ℕ → ℕ
  pub r_type : ℕ → ℕ
  pub jump_slot : ℕ
  pub glob_dat : ℕ
  pub abs : ℕ
  pub rel : ℕ
  pub rela : ℕ

abbrev pub is_good : Code → Bool
is_good good = true
is_good _ = false

-- The tests of xh_elf_find_and_replace_func.
abbrev pub is_wanted : Arch → (is_plt : Bool) → (symidx : ℕ) → Relocation → Bool
is_wanted m is_plt symidx r =
    m.r_sym r.info == symidx
    && (if is_plt
        then m.r_type r.info == m.jump_slot
        else (m.r_type r.info == m.glob_dat || m.r_type r.info == m.abs))

-- The address that a relocation is for.
abbrev pub target : Kernel → Elf → Relocation → ℕ
target k self r = (self.bias_addr + r.offset) % 2 ^ k.bits

module _ (m : Arch) (k : Kernel) (self : Elf) (new_func : ℕ) (old_func : Option ℕ)
    (symidx : ℕ) where
  -- xh_elf_find_and_replace_func: the result, `*found`, and the memory.
  unfoldable pub find_and_replace_func : Bool → Relocation → Process → Run (Code × Bool × Process)
  find_and_replace_func is_plt r p =
      if not (is_wanted m is_plt symidx r)
      then done (good, false, p)
      else if ltb (target k self r) self.base_addr
      then done (format, true, p)
      else (replace_function k p (target k self r) new_func old_func >>= λ q. done (q.0, true, q.1))

  -- A loop over one table; `stops` is for `if(found) break`.
  module _ {It : Type 0} (next : It → Option Relocation × It) (is_plt stops : Bool) where
    unfoldable pub replace_all : ℕ → It → Process → Run (Code × Process)
    unfolding find_and_replace_func
    replace_all zero it p = out_of_fuel
    replace_all (suc fuel) it p = elim (next it).0 [
      | none ↦ done (good, p)
      | some r ↦ find_and_replace_func is_plt r p >>= λ q.
          (if is_good q.0
            then elim (stops && q.1) [
              | true ↦ done (good, q.2)
              | false ↦ replace_all fuel (next it).1 q.2
            ]
            else done (q.0, q.2))
    ]

-- The tables in memory: the plain relocation at an address, and the packed bytes.
pub record RelocationTables : Type 0 where
  pub plain_at : ℕ → Relocation
  pub packed : List ℕ

module _ (m : Arch) (k : Kernel) (self : Elf) (tables : RelocationTables) where
  -- xh_elf_plain_reloc_iterator_next, with what stands at the address.
  unfoldable pub next_plain : PlainIterator → Option Relocation × PlainIterator
  unfolding plain_next
  next_plain it = elim (plain_next m.rel m.rela it).0 [
    | none ↦ (none, (plain_next m.rel m.rela it).1)
    | some a ↦ (some (tables.plain_at a), (plain_next m.rel m.rela it).1)
  ]

  -- The replacing of one table, where it is there.
  unfoldable pub hook_plain :
      (is_plt stops : Bool)
      → (rel rel_sz : ℕ) → (new_func : ℕ) → Option ℕ
      → ℕ
      → Process
      → Run (Code × Process)
  unfolding next_plain replace_all plain_init
  hook_plain is_plt stops rel rel_sz new_func old_func symidx p =
      if rel == 0
      then done (good, p)
      else replace_all m k self new_func old_func symidx next_plain is_plt stops (rel_sz + 1)
          (plain_init rel rel_sz self.is_use_rela) p

  unfoldable pub hook_packed : (new_func : ℕ) → Option ℕ → ℕ → Process → Run (Code × Process)
  unfolding replace_all packed_init packed_next
  hook_packed new_func old_func symidx p =
      let it = (packed_init k.bits tables.packed self.is_use_rela).1 in
      if self.relandroid == 0
      then done (good, p)
      else replace_all m k self new_func old_func symidx (packed_next k.bits) false false
          (it.relocation_count + 1) it p

  -- `if(0 != r) return r`.
  abbrev pub then_next :
      Run (Code × Process) → (Process → Run (Code × Process)) → Run (Code × Process)
  then_next r f = r >>= λ q. (if is_good q.0 then f q.1 else done q)

  -- The three tables in turn.
  unfoldable pub hook_tables : (new_func : ℕ) → Option ℕ → ℕ → Process → Run (Code × Process)
  unfolding hook_plain hook_packed
  hook_tables new_func old_func symidx p =
      then_next (hook_plain true true self.relplt self.relplt_sz new_func old_func symidx p) λ p1.
        then_next (hook_plain false false self.reldyn self.reldyn_sz new_func old_func symidx p1)
          λ p2. hook_packed new_func old_func symidx p2

  -- xh_elf_hook. A null symbol is `none`; `symbols` and `fuel` are for the lookup.
  unfoldable pub hook :
      Lookup.Tables
      → (fuel : ℕ) → Option (List ℕ)
      → (new_func : ℕ) → Option ℕ
      → Process
      → Run (Code × Process)
  unfolding hook_tables
  hook symbols fuel none new_func old_func p =
      if self.has_pathname then done (inval, p) else done (not_inited, p)
  hook symbols fuel (some symbol) new_func old_func p =
      if not self.has_pathname
      then done (not_inited, p)
      else if new_func == 0
      then done (inval, p)
      else (find_symidx_by_name k.bits self.is_use_gnu_hash symbols fuel symbol >>= λ found.
          elim found [
            | none ↦ done (good, p)
            | some symidx ↦ hook_tables new_func old_func symidx p
          ])
