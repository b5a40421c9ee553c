-- ===== src/InlineHook/Calls/Register.antt =====
-- registerInlineHook of ARM code.
use elf_hook_test.Base.{
  ℕ, ◌+◌, ◌<◌, ◌≤◌, ◌≡◌, ◌≢◌, inl, inr, refl, arith, List, true, false, Option, none, some, ◌==◌,
  bit_and, length, get_elem?, get_elem?-set_self, get_elem?-set, Option-cases, leb,
}
use elf_hook_test.Base.Run.{Returns}
use elf_hook_test.Base.Run.Laws.{>>=-Returns, read_at-some, store_at_lem}
use elf_hook_test.Base.Memory.{Memory, Outside, load_bytes}
use elf_hook_test.Relocate.Drive.{Boundaries, words, relocate_instruction}
use elf_hook_test.Relocate.Drive.ArmLoop.{IsRelocated, relocate_instruction_in_arm-IsRelocated}
use elf_hook_test.InlineHook.{ok, Item, Info, MapLine, World, clear_bit0, registered, max_items}
use elf_hook_test.InlineHook.Table.{
  is_executable_addr, find_inline_hook_item, find_slot, add_inline_hook_item,
}
use elf_hook_test.InlineHook.Table.Find.{find_slot-some}
use elf_hook_test.InlineHook.Table.Valid.{IsValid, Holds, add-IsValid}
use elf_hook_test.InlineHook.Calls.{fill_item, register_inline_hook}

-- The slot that registration takes, after it.
pub record IsRegistered (w : World) (target new proto page : ℕ) (w' : World) : Type 0 where
  pub valid : IsValid w'.info
  pub one_more : w'.info.size ≡ w.info.size + 1
  pub others : (j : ℕ) → j < w.info.size → get_elem? w'.info.items j ≡ get_elem? w.info.items j
  pub item : Item
  pub held : Holds w'.info w.info.size item
  pub fields :
      (item.target ≡ target)
      × (item.new ≡ new)
      × (item.proto ≡ proto)
      × (item.trampoline ≡ page)
      × (item.status ≡ registered)
  pub saved : item.orig ≡ load_bytes w.memory (clear_bit0 target) 8
  pub outside : (a : ℕ) → Outside page 56 a → w'.memory a ≡ w.memory a

length-words : (m : Memory) (a : ℕ) → length (words (load_bytes m a 8)) ≡ 2
unfolding words load_bytes
length-words m a = refl

module _ (w : World) (target new proto page : ℕ) (old : Item) (v : IsValid w.info)
    (arm : bit_and target 1 ≡ 0) (slot : get_elem? w.info.items w.info.size ≡ some old)
    (room : w.info.size < max_items) (room_orig : old.bounds.count + 2 ≤ length old.bounds.orig)
    (room_trampoline : old.bounds.count + 2 ≤ length old.bounds.trampoline)
    (absent : (j : ℕ) (y : Item) → Holds w.info j y → y.target ≢ target) where
  abbrev bytes : List ℕ
  bytes = load_bytes w.memory (clear_bit0 target) 8

  abbrev taken : Info
  taken = record { items = w.info.items; size = w.info.size + 1 }

  relocated :
      Returns
        (relocate_instruction target bytes 8 page w.memory old.bounds)
        (IsRelocated page target (words bytes) 8 2 w.memory old.bounds)
  unfolding relocate_instruction
  relocated = rw arm (
      relocate_instruction_in_arm-IsRelocated page target (words bytes) 8 w.memory old.bounds
        (omega (arith, length-words w.memory (clear_bit0 target))) room_orig room_trampoline)

  abbrev filled : Memory → Boundaries → Item
  filled m b = record {
    target = target;
    new = new;
    proto = proto;
    orig = bytes;
    bounds = b;
    trampoline = page;
    len = 8;
    status = registered;
  }

  fill_item-IsRegistered :
      Returns
        (fill_item w taken w.info.size target new proto page)
        (IsRegistered w target new proto page)
  unfolding fill_item
  fill_item-IsRegistered =
      rw (read_at-some w.info.items w.info.size slot, arm)
        (>>=-Returns (IsRelocated page target (words bytes) 8 2 w.memory old.bounds)
          (IsRegistered w target new proto page)
          (relocate_instruction target bytes 8 page w.memory old.bounds) _ relocated
          (λ (m, b) r.
            rw (store_at_lem w.info.items w.info.size (filled m b) (omega (arith, v.slots)))
              record {
                valid = add-IsValid w.info (filled m b) v room absent refl;
                one_more = refl;
                others = λ j lt.
                    ground (arith, v.slots, get_elem?-set w.info.items w.info.size j (filled m b));
                item = filled m b;
                held = (
                  omega arith,
                  get_elem?-set_self w.info.items w.info.size (filled m b) (omega (arith, v.slots)),
                );
                fields = (refl, refl, refl, refl, refl);
                saved = refl;
                outside = λ a o. r.outside a o;
              }))

  absent_lem : find_inline_hook_item w.info target ≡ none
  unfolding find_inline_hook_item
  absent_lem =
      elim (Option-cases (find_slot (λ i. i.target == target) w.info.items w.info.size 0)) [
        | inl e ↦ e
        | inr (k, e) ↦
            let f = find_slot-some (λ i. i.target == target) w.info.items w.info.size 0 k e in
            absurd (absent f.steps f.item (f.below, f.held) (ground (arith, f.passes)))
      ]

  -- registerInlineHook of an even, executable target that the table does not hold, where there is a
  -- free slot whose boundary arrays have room for two entries more, answers ELE7EN_OK. The table stays
  -- valid and has a new item at its end, with the arguments, the status REGISTERED and the 8 bytes that
  -- stand at the target; memory changes only in the first 56 bytes of the new page.
  pub register_inline_hook-IsRegistered :
      (maps : Option (List MapLine))
      → is_executable_addr maps target ≡ true
      → is_executable_addr maps new ≡ true
      → Returns
          (register_inline_hook w maps target new proto page)
          (λ (status, w'). (status ≡ ok) × IsRegistered w target new proto page w')
  unfolding register_inline_hook add_inline_hook_item
  register_inline_hook-IsRegistered maps e1 e2 =
      let free : leb max_items w.info.size ≡ false = ground arith in
      rw (e1, e2, absent_lem, free)
        (>>=-Returns (IsRegistered w target new proto page)
          (λ (status, w'). (status ≡ ok) × IsRegistered w target new proto page w')
          (fill_item w taken w.info.size target new proto page) _ fill_item-IsRegistered
          (λ w' h. (refl, h)))
