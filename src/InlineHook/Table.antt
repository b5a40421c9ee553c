-- ===== src/InlineHook/Table.antt =====
-- The table of hooks: isExecutableAddr, findInlineHookItem, addInlineHookItem and
-- deleteInlineHookItem.
pub mod Valid
pub mod Find
use elf_hook_test.Base.{
  ℕ, zero, suc, ◌+◌, ◌-◌, List, [], ◌∷◌, Bool, false, ◌&&◌, ◌||◌, Option, none, some, ◌==◌, leb,
  if◌then◌else◌,
}
use elf_hook_test.Base.Run.{Run, done, ◌>>=◌, read_at, store_at}
use elf_hook_test.InlineHook.{Item, Info, MapLine, max_items}

-- The loop over the lines. It takes a region's end for an address of the region.
unfoldable pub is_executable : List MapLine → ℕ → Bool
is_executable [] addr = false
is_executable (l ∷ ls) addr =
    (l.executable && (leb l.start addr && leb addr l.stop)) || is_executable ls addr

-- isExecutableAddr; `none` is a /proc/self/maps that does not open.
unfoldable pub is_executable_addr : Option (List MapLine) → ℕ → Bool
unfolding is_executable
is_executable_addr none addr = false
is_executable_addr (some lines) addr = is_executable lines addr

-- The first of `left` slots from `i` on that passes the test, as in each loop over the table.
unfoldable pub find_slot : (Item → Bool) → List Item → ℕ → ℕ → Option ℕ
find_slot test items zero i = none
find_slot test [] (suc left) i = none
find_slot test (x ∷ xs) (suc left) i =
    let rest = find_slot test xs left (i + 1) in if test x then some i else rest

-- findInlineHookItem, as an index.
unfoldable pub find_inline_hook_item : Info → ℕ → Option ℕ
unfolding find_slot
find_inline_hook_item info target = find_slot (λ i. i.target == target) info.items info.size 0

-- addInlineHookItem: the index of the new item, none for NULL.
unfoldable pub add_inline_hook_item : Info → Option (ℕ × Info)
add_inline_hook_item info =
    if leb max_items info.size then none else some (info.size, record info { size = info.size + 1 })

-- deleteInlineHookItem: the last item takes the place of the one that goes.
unfoldable pub delete_inline_hook_item : Info → ℕ → Run Info
delete_inline_hook_item info pos = do
  last ← read_at info.items (info.size - 1)
  items ← store_at info.items pos last
  done (record { items = items; size = info.size - 1 })
