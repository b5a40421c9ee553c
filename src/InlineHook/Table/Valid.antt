-- ===== src/InlineHook/Table/Valid.antt =====
-- The invariant of the table, and that its changes keep it.
use elf_hook_test.Base.{
  ℕ, ◌+◌, ◌-◌, ◌<◌, ◌≤◌, ◌≡◌, ◌≢◌, ◌⊎◌, ◌∙◌, sym, arith, some, get_elem?, set, length,
  get_elem?-set, get_elem?-set_self, get_elem?-some, length-set,
}
use elf_hook_test.Base.Run.{Returns}
use elf_hook_test.Base.Run.Laws.{read_at-some, store_at_lem}
use elf_hook_test.InlineHook.{Item, Info, max_items, registered, hooked}
use elf_hook_test.InlineHook.Table.{delete_inline_hook_item}

-- The slot `j` is in use and holds `x`.
abbrev pub Holds : Info → ℕ → Item → Type 0
Holds info j x = (j < info.size) × (get_elem? info.items j ≡ some x)

-- All 1024 slots are there, no target is in the table twice, and every item in use is
-- registered or hooked.
pub record IsValid (info : Info) : Type 0 where
  pub slots : length info.items ≡ max_items
  pub in_use : info.size ≤ max_items
  pub distinct :
      (j k : ℕ) (x y : Item) → Holds info j x → Holds info k y → x.target ≡ y.target → j ≡ k
  pub stage : (j : ℕ) (x : Item) → Holds info j x → (x.status ≡ registered) ⊎ (x.status ≡ hooked)

-- An item that keeps its target may change.
pub set-IsValid :
    (info : Info) (pos : ℕ) (x x' : Item)
    → IsValid info
    → Holds info pos x
    → x'.target ≡ x.target
    → (x'.status ≡ registered) ⊎ (x'.status ≡ hooked)
    → IsValid (record info { items = set info.items pos x' })
set-IsValid info pos x x' v held same fine = record {
  slots = length-set info.items pos x' ∙ v.slots;
  in_use = v.in_use;
  distinct = λ j k y z hj hk e. ground (
    arith,
    v.slots,
    v.in_use,
    held,
    get_elem?-set info.items pos j x',
    get_elem?-set info.items pos k x',
    v.distinct pos k x z,
    v.distinct j pos y x,
    v.distinct j k y z,
  );
  stage = λ j y hj.
      ground (arith, v.slots, v.in_use, held, get_elem?-set info.items pos j x', v.stage j y);
}

-- deleteInlineHookItem of an item in use ends with a valid table that is one item shorter: the slot
-- of the item has what the last one had, and every other slot is as it was.
pub delete_inline_hook_item-IsValid :
    (info : Info) (pos : ℕ)
    → IsValid info
    → pos < info.size
    → Returns (delete_inline_hook_item info pos) (λ info'.
      IsValid info'
      × (info'.size + 1 ≡ info.size)
      × (get_elem? info'.items pos ≡ get_elem? info.items (info.size - 1))
      × ((j : ℕ) → j ≢ pos → get_elem? info'.items j ≡ get_elem? info.items j))
unfolding delete_inline_hook_item
delete_inline_hook_item-IsValid info pos v lt =
    rw
      (
        read_at-some info.items (info.size - 1) last.1,
        store_at_lem info.items pos last.0 (omega (arith, v.slots, v.in_use)),
      )
      (
        record {
          slots = length-set info.items pos last.0 ∙ v.slots;
          in_use = omega (arith, v.in_use);
          distinct = λ j k y z hj hk e. ground (
            arith,
            v.slots,
            v.in_use,
            last.1,
            get_elem?-set info.items pos j last.0,
            get_elem?-set info.items pos k last.0,
            v.distinct (info.size - 1) k last.0 z,
            v.distinct j (info.size - 1) y last.0,
            v.distinct j k y z,
          );
          stage = λ j y hj. ground (
            arith,
            v.slots,
            v.in_use,
            last.1,
            get_elem?-set info.items pos j last.0,
            v.stage (info.size - 1) last.0,
            v.stage j y,
          );
        },
        omega arith,
        get_elem?-set_self info.items pos last.0 (omega (arith, v.slots, v.in_use)) ∙ sym last.1,
        λ j ne. ground (arith, v.slots, v.in_use, get_elem?-set info.items pos j last.0),
      )
  where
    last : (x : Item) × (get_elem? info.items (info.size - 1) ≡ some x)
    last = get_elem?-some info.items (info.size - 1) (omega (arith, v.slots, v.in_use))

-- A new item with a target that no item in use has may take the next slot.
pub add-IsValid :
    (info : Info) (x : Item)
    → IsValid info
    → info.size < max_items
    → ((j : ℕ) (y : Item) → Holds info j y → y.target ≢ x.target)
    → x.status ≡ registered
    → IsValid (record { items = set info.items info.size x; size = info.size + 1 })
add-IsValid info x v room fresh stage = record {
  slots = length-set info.items info.size x ∙ v.slots;
  in_use = omega (arith, room);
  distinct = λ j k y z hj hk e. ground (
    arith,
    v.slots,
    get_elem?-set info.items info.size j x,
    get_elem?-set info.items info.size k x,
    fresh j y,
    fresh k z,
    v.distinct j k y z,
  );
  stage = λ j y hj. ground (arith, v.slots, get_elem?-set info.items info.size j x, v.stage j y);
}
