-- ===== src/Elf/Sleb.antt =====
-- The plain relocation iterator and the SLEB128 decoder. Words are of `bits` bits, 32 or 64.
pub mod RoundTrip
use elf_hook_test.Base.{
  ℕ, ◌+◌, ◌-◌, ◌*◌, ◌%◌, ◌^◌, List, [], ◌∷◌, Bool, Option, none, some, ◌==◌, ltb, leb, ◌&&◌, not,
  if◌then◌else◌, bit_and, bit_or,
}

-- xh_elf_plain_reloc_iterator_t.
pub record PlainIterator : Type 0 where
  pub cur : ℕ
  pub stop : ℕ
  pub is_use_rela : Bool

unfoldable pub plain_init : ℕ → ℕ → Bool → PlainIterator
plain_init rel rel_sz is_use_rela = record {
  cur = rel;
  stop = rel + rel_sz;
  is_use_rela = is_use_rela;
}

-- xh_elf_plain_reloc_iterator_next, with the sizes of a Rel and a Rela entry.
unfoldable pub plain_next : (rel rela : ℕ) → PlainIterator → Option ℕ × PlainIterator
plain_next rel rela it =
    if leb it.stop it.cur
    then (none, it)
    else (some it.cur, record it { cur = it.cur + (if it.is_use_rela then rela else rel) })

module _ (bits : ℕ) where
  -- The do-while loop: the bytes from `cur` to `end`, the value and the shift so far. `none` is
  -- XH_ERRNO_FORMAT, or a shift by the width of the word or more, which C leaves undefined.
  unfoldable pub sleb_loop : List ℕ → ℕ → ℕ → Option (ℕ × ℕ × ℕ × List ℕ)
  sleb_loop [] value shift = none
  sleb_loop (byte ∷ rest) value shift =
      let value' = bit_or value (bit_and byte 127 * 2 ^ shift % 2 ^ bits) in
      let more = sleb_loop rest value' (shift + 7) in
      if leb bits shift
      then none
      else (if bit_and byte 128 == 0 then some (value', shift + 7, byte, rest) else more)

  -- xh_elf_sleb128_decoder_next: the value as a `size_t`, and the bytes that are left.
  unfoldable pub sleb128_decoder_next : List ℕ → Option (ℕ × List ℕ)
  unfolding sleb_loop
  sleb128_decoder_next bytes = elim (sleb_loop bytes 0 0) [
    | none ↦ none
    | some (value, shift, byte, rest) ↦
        if ltb shift bits && not (bit_and byte 64 == 0)
        then some (bit_or value (2 ^ bits - 2 ^ shift), rest)
        else some (value, rest)
  ]
