-- ===== src/InlineHook/Threads/Back.antt =====
-- A thread that is moved to the trampoline is moved back to where it stood.
use elf_hook_test.Base.{
  ℕ, ◌+◌, ◌^◌, ◌<◌, ◌≤◌, ◌≡◌, ◌≢◌, List, Option, none, some, length, get_elem?, add32, sub32,
}
use elf_hook_test.Base.Run.{Run}
use elf_hook_test.InlineHook.{Item, clear_bit0}

-- The search for an offset among `from`, from `i` on.
module _ (from to : List ℕ) (base offset : ℕ) where
  -- It has found nothing, or the first place `k`.
  abbrev Search : (left i : ℕ) → Option ℕ → Type 0
  Search left i none = (j : ℕ) → i ≤ j → j < i + left → get_elem? from j ≢ some offset
  Search left i (some v) =
      (k t : ℕ) × (i ≤ k)
      × (k < i + left)
      × (get_elem? from k ≡ some offset)
      × (get_elem? to k ≡ some t)
      × (v ≡ add32 base t)

-- What the relocation leaves in an item: both arrays hold `count` entries, which are words, and no
-- boundary of the trampoline is there twice.
pub record IsPaired (i : Item) : Type 0 where
  pub room : (i.bounds.count ≤ length i.bounds.orig) × (i.bounds.count ≤ length i.bounds.trampoline)
  pub words : (k t : ℕ) → k < i.bounds.count → get_elem? i.bounds.trampoline k ≡ some t → t < 2 ^ 32
  pub distinct :
      (j k t : ℕ)
      → j < i.bounds.count
      → k < i.bounds.count
      → get_elem? i.bounds.trampoline j ≡ some t
      → get_elem? i.bounds.trampoline k ≡ some t
      → j ≡ k

-- The `pc` is at no boundary of the trampoline.
abbrev pub OutsideTrampoline : Item → ℕ → Type 0
OutsideTrampoline i pc =
    (k : ℕ) → k < i.bounds.count → get_elem? i.bounds.trampoline k ≢ some (sub32 pc i.trampoline)

module _ (i : Item) (paired : IsPaired i) (fits : i.trampoline < 2 ^ 32) where
  abbrev Moved : ℕ → Option ℕ → Type 0
  Moved pc o =
      Search i.bounds.orig i.bounds.trampoline i.trampoline (sub32 pc (clear_bit0 i.target))
        i.bounds.count 0 o

  abbrev Restored : ℕ → Option ℕ → Type 0
  Restored pc o =
      Search i.bounds.trampoline i.bounds.orig (clear_bit0 i.target) (sub32 pc i.trampoline)
        i.bounds.count 0 o

  -- The `pc` after a search that may have moved it.
  abbrev or_stay : ℕ → Option ℕ → ℕ
  or_stay pc none = pc
  or_stay pc (some v) = v
