-- ===== src/InlineHook/Patch.antt =====
-- The memory that doInlineHook and doInlineUnHook write. mprotect, munmap, free and cacheflush
-- change nothing that is modelled.
pub mod Restore
use elf_hook_test.Base.{ℕ, ◌%◌, List, [], ◌∷◌, ◌++◌, ◌==◌, if◌then◌else◌, bit_and, ◌>>>◌}
use elf_hook_test.Base.Memory.{Memory, store_bytes, store_halfwords, store_words, store32}
use elf_hook_test.InlineHook.{Item, clear_bit0, set_bit0}

-- `*(item->proto_addr) = ...`: how the hook calls the function that it replaces.
unfoldable pub publish : Item → Memory → Memory
publish i m =
    if i.proto == 0
    then m
    else store32 m i.proto (if bit_and i.target 1 == 0 then i.trampoline else set_bit0 i.trampoline)

-- A NOP where the jump would not be aligned, then LDR.W PC, [PC] and the new address.
unfoldable pub thumb_patch : Item → List ℕ
thumb_patch i =
    (if clear_bit0 i.target % 4 == 0 then [] else 0xBF00 ∷ [])
    ++ 0xF8DF ∷ 0xF000 ∷ bit_and i.new 0xFFFF ∷ (i.new >>> 16) ∷ []

-- LDR PC, [PC, #-4] and the new address.
unfoldable pub arm_patch : Item → List ℕ
arm_patch i = 0xe51ff004 ∷ i.new ∷ []

unfoldable pub patch : Item → Memory → Memory
unfolding thumb_patch arm_patch
patch i m =
    if bit_and i.target 1 == 0
    then store_words m i.target (arm_patch i)
    else store_halfwords m (clear_bit0 i.target) (thumb_patch i)

-- The memcpy of doInlineUnHook.
unfoldable pub restore : Item → Memory → Memory
restore i m = store_bytes m (clear_bit0 i.target) i.orig
