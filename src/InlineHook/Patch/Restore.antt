-- ===== src/InlineHook/Patch/Restore.antt =====
-- The patch lies inside the saved code, so writing the saved bytes back undoes it.
use elf_hook_test.Base.{
  ℕ, ◌*◌, ◌/◌, ◌%◌, ◌^◌, ◌<◌, ◌≡◌, ◌⊎◌, arith, [], ◌∷◌, ◌==◌, if◌then◌else◌, bit_and, ◌∙◌,
}
use elf_hook_test.Base.Bits.{bit_and_mask, bit_and_field}
use elf_hook_test.Base.Memory.{
  Memory, Outside, load_bytes, store_bytes-load_bytes, store_halfwords-Outside, store_words-Outside,
  store32-Outside,
}
use elf_hook_test.InlineHook.{Item, clear_bit0, set_bit0}
use elf_hook_test.InlineHook.Patch.{publish, patch, restore, thumb_patch, arm_patch}

pub bit0_lem : (a : ℕ) → bit_and a 1 ≡ a % 2
bit0_lem a = bit_and_mask 1 a

pub clear_bit0_lem : (a : ℕ) → a < 2 ^ 32 → clear_bit0 a ≡ a / 2 * 2
clear_bit0_lem a h = omega (arith, bit_and_field 1 31 a)

-- The length that registerInlineHook saves: 12 bytes of Thumb code, 8 of ARM code.
abbrev pub saved_len : ℕ → ℕ
saved_len target = if bit_and target 1 == 0 then 8 else 12

patch-Outside :
    (i : Item) (m : Memory) (b : ℕ)
    → i.target < 2 ^ 32
    → Outside (clear_bit0 i.target) (saved_len i.target) b
    → patch i m b ≡ m b
unfolding patch thumb_patch arm_patch
patch-Outside i m b h o = ground (
  arith,
  bit0_lem i.target,
  clear_bit0_lem i.target,
  store_words-Outside m i.target (0xe51ff004 ∷ i.new ∷ []) b,
  store_halfwords-Outside m (clear_bit0 i.target) (thumb_patch i) b,
)

publish-Outside :
    (i : Item) (m : Memory) (b : ℕ) → (i.proto ≡ 0) ⊎ Outside i.proto 4 b → publish i m b ≡ m b
unfolding publish
publish-Outside i m b o = ground (
  arith,
  store32-Outside m i.proto
      (if bit_and i.target 1 == 0 then i.trampoline else set_bit0 i.trampoline) b,
)

-- Unhooking undoes hooking: with the bytes that registerInlineHook saved, the memory written by
-- doInlineHook comes back at every address, but for the pointer published in `*proto_addr`.
pub restore-patch :
    (i : Item) (m : Memory) (b : ℕ)
    → i.target < 2 ^ 32
    → ((c : ℕ) → m c < 256)
    → i.orig ≡ load_bytes m (clear_bit0 i.target) (saved_len i.target)
    → (i.proto ≡ 0) ⊎ Outside i.proto 4 b
    → restore i (patch i (publish i m)) b ≡ m b
unfolding restore
restore-patch i m b h bytes saved o = simp saved (
    store_bytes-load_bytes (saved_len i.target) (patch i (publish i m)) m (clear_bit0 i.target) b
      bytes (λ out. patch-Outside i (publish i m) b h out ∙ publish-Outside i m b o))
