-- ===== src/InlineHook/Calls.antt =====
-- The functions that inlineHook.h declares, and doInlineHook and doInlineUnHook.
pub mod UnhookAll
pub mod Register
pub mod RoundTrip
use elf_hook_test.Base.{
  ℕ, zero, suc, ◌+◌, List, Bool, true, false, not, ◌&&◌, ◌||◌, Option, none, some, ◌==◌, ltb,
  if◌then◌else◌, bit_and,
}
use elf_hook_test.Base.Run.{Run, done, fault, out_of_fuel, ◌>>=◌, read_at, store_at}
use elf_hook_test.Base.Memory.{load_bytes}
use elf_hook_test.Relocate.Drive.{relocate_instruction}
use elf_hook_test.InlineHook.{
  Status, error_unknown, ok, not_executable, not_registered, not_hooked, already_registered,
  already_hooked, registered, hooked, Item, Info, MapLine, World, clear_bit0,
}
use elf_hook_test.InlineHook.Patch.{publish, patch, restore}
use elf_hook_test.InlineHook.Threads.{enable, disable, freeze}
use elf_hook_test.InlineHook.Table.{
  is_executable_addr, find_slot, find_inline_hook_item, add_inline_hook_item,
  delete_inline_hook_item,
}

-- What registerInlineHook answers for a target that the table holds.
unfoldable pub present_status : ℕ → Status
present_status status =
    if status == registered
    then already_registered
    else if status == hooked
    then already_hooked
    else error_unknown

-- The rest of registerInlineHook, on the slot that it takes. The slot's old boundaries and count
-- go into relocateInstruction as they are. `page` is what mmap returns.
unfoldable pub fill_item : World → Info → ℕ → (target new proto page : ℕ) → Run World
fill_item w info slot target new proto page = do
  old ← read_at info.items slot
  let len = if bit_and target 1 == 0 then 8 else 12
  let bytes = load_bytes w.memory (clear_bit0 target) len
  (memory, bounds) ← relocate_instruction target bytes len page w.memory old.bounds
  let item : Item = record {
    target = target;
    new = new;
    proto = proto;
    orig = bytes;
    bounds = bounds;
    trampoline = page;
    len = len;
    status = registered;
  }
  items ← store_at info.items slot item
  done (record w { info = record info { items = items }; memory = memory })

-- registerInlineHook. Where addInlineHookItem returns NULL the code goes on to write through it.
unfoldable pub register_inline_hook :
    World → Option (List MapLine) → (target new proto page : ℕ) → Run (Status × World)
unfolding is_executable_addr find_inline_hook_item add_inline_hook_item present_status fill_item
register_inline_hook w maps target new proto page =
    if not (is_executable_addr maps target) || not (is_executable_addr maps new)
    then done (not_executable, w)
    else elim (find_inline_hook_item w.info target) [
      | some pos ↦ read_at w.info.items pos >>= λ i. done (present_status i.status, w)
      | none ↦ elim (add_inline_hook_item w.info) [
        | none ↦ fault
        | some (slot, info) ↦ fill_item w info slot target new proto page >>= λ w'. done (ok, w')
      ]
    ]

-- doInlineHook on the slot `pos`.
unfoldable pub do_inline_hook : World → ℕ → Run World
unfolding publish patch
do_inline_hook w pos = do
  i ← read_at w.info.items pos
  items ← store_at w.info.items pos (record i { status = hooked })
  done (record w {
    info = record { items = items; size = w.info.size };
    memory = patch i (publish i w.memory);
  })

-- doInlineUnHook on the slot `pos`.
unfoldable pub do_inline_unhook : World → ℕ → Run World
unfolding restore delete_inline_hook_item
do_inline_unhook w pos = do
  i ← read_at w.info.items pos
  info ← delete_inline_hook_item w.info pos
  done (record w { info = info; memory = restore i w.memory })

unfoldable pub inline_hook : World → ℕ → Run (Status × World)
unfolding find_inline_hook_item freeze do_inline_hook
inline_hook w target = elim (find_inline_hook_item w.info target) [
  | none ↦ done (not_registered, w)
  | some pos ↦ do
    i ← read_at w.info.items pos
    if i.status == registered
        then (do frozen ← freeze w (some i) enable; w' ← do_inline_hook frozen pos; done (ok, w'))
        else done ((if i.status == hooked then already_hooked else error_unknown), w)
]

-- The test of inlineUnHook's loop.
unfoldable pub is_hooked_at : ℕ → Item → Bool
is_hooked_at target i = i.target == target && i.status == hooked

unfoldable pub inline_unhook : World → ℕ → Run (Status × World)
unfolding find_slot is_hooked_at freeze do_inline_unhook
inline_unhook w target = elim (find_slot (is_hooked_at target) w.info.items w.info.size 0) [
  | none ↦ done (not_hooked, w)
  | some pos ↦ do
    i ← read_at w.info.items pos
    frozen ← freeze w (some i) disable
    w' ← do_inline_unhook frozen pos
    done (ok, w')
]

-- The loop of inlineUnHookAll: a hook that goes leaves its slot to the last one, so `i` stays.
unfoldable pub unhook_from : ℕ → ℕ → World → Run World
unfolding do_inline_unhook
unhook_from zero i w = out_of_fuel
unhook_from (suc fuel) i w = elim (ltb i w.info.size) [
  | false ↦ done w
  | true ↦ do
    item ← read_at w.info.items i
    elim (item.status == hooked) [
      | true ↦ do_inline_unhook w i >>= λ w'. unhook_from fuel i w'
      | false ↦ unhook_from fuel (i + 1) w
    ]
]

unfoldable pub inline_unhook_all : World → Run World
unfolding freeze unhook_from
inline_unhook_all w =
    freeze w none disable >>= λ frozen. unhook_from (frozen.info.size + 1) 0 frozen

-- The loop of inlineHookAll, with the rounds that are left.
unfoldable pub hook_from : ℕ → ℕ → World → Run World
unfolding do_inline_hook
hook_from zero i w = done w
hook_from (suc left) i w = do
  item ← read_at w.info.items i
  w' ← (if item.status == registered then do_inline_hook w i else done w)
  hook_from left (i + 1) w'

unfoldable pub inline_hook_all : World → Run World
unfolding freeze hook_from
inline_hook_all w = freeze w none enable >>= λ frozen. hook_from frozen.info.size 0 frozen
