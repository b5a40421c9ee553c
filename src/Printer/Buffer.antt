-- ===== src/Printer/Buffer.antt =====
-- The buffer has room for its text and the byte that ends it.
use elf_hook_test.Base.{
  ℕ, ◌+◌, ◌^◌, ◌<◌, ◌≡◌, ◌⊎◌, refl, arith, List, [], ◌∷◌, ◌++◌, Bool, true, false, length,
  length-append, append_nil, sym, inl,
}
use elf_hook_test.Base.Bits.{bit_and_field}
use elf_hook_test.Printer.{GetBuffer, new_cap, string_append_to_buf}

-- Text and terminator fit, or nothing was allocated yet.
abbrev pub IsTerminated : GetBuffer → Type 0
IsTerminated b = (length b.text < b.cap) ⊎ ((b.cap ≡ 0) × (b.text ≡ []))

new_cap_lem : (cap n : ℕ) → cap + n < 2 ^ 32 → cap + n < new_cap cap n
unfolding new_cap
new_cap_lem cap n h = omega (arith, bit_and_field 10 22 (cap + n))

-- xu_printer_string_append_to_buf on a sound buffer below 4 GiB leaves a sound buffer: on
-- success its text is the old one with the string behind it, and otherwise it is unchanged.
pub string_append_to_buf-IsTerminated :
    (grows : ℕ → Bool) (b : GetBuffer) (str : List ℕ)
    → IsTerminated b
    → b.cap + length str < 2 ^ 32
    → let (good, b') = string_append_to_buf grows b str in
      IsTerminated b' × ((good ≡ true) × (b'.text ≡ b.text ++ str) ⊎ (good ≡ false) × (b' ≡ b))
unfolding string_append_to_buf
string_append_to_buf-IsTerminated grows b [] v small = (v, inl (refl, sym (append_nil b.text)))
string_append_to_buf-IsTerminated grows b (c ∷ str) v small =
    ground (arith, length-append b.text (c ∷ str), new_cap_lem b.cap (length (c ∷ str)) small)
