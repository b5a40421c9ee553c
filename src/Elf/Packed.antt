-- ===== src/Elf/Packed.antt =====
-- The iterator over the packed relocations of Android. The decoder is the bytes that are left.
pub mod Count
use elf_hook_test.Base.{
  ℕ, ◌+◌, ◌%◌, ◌^◌, List, [], Bool, true, false, Option, none, some, ◌==◌, leb, ◌&&◌, not,
  if◌then◌else◌, bit_and,
}
use elf_hook_test.Elf.Sleb.{sleb128_decoder_next}

-- xh_elf_packed_reloc_iterator_t. `rel` and `rela` are what `next` returns.
pub record PackedIterator : Type 0 where
  pub decoder : List ℕ
  pub relocation_count : ℕ
  pub group_size : ℕ
  pub group_flags : ℕ
  pub group_r_offset_delta : ℕ
  pub relocation_index : ℕ
  pub relocation_group_index : ℕ
  pub r_offset : ℕ
  pub r_info : ℕ
  pub r_addend : ℕ
  pub is_use_rela : Bool

-- A relocation; the addend of a Rel entry is none.
pub record Relocation : Type 0 where
  pub offset : ℕ
  pub info : ℕ
  pub addend : Option ℕ

-- `self->group_flags & flag`.
abbrev pub has_flag : PackedIterator → ℕ → Bool
has_flag it flag = not (bit_and it.group_flags flag == 0)

abbrev pub grouped_by_info : ℕ
grouped_by_info = 1

abbrev pub grouped_by_offset_delta : ℕ
grouped_by_offset_delta = 2

abbrev pub grouped_by_addend : ℕ
grouped_by_addend = 4

abbrev pub group_has_addend : ℕ
group_has_addend = 8

-- A call answers whether it succeeds, and leaves the iterator changed either way.
abbrev pub Step : Type 0
Step = PackedIterator → Bool × PackedIterator

infixl 5 ◌>>>=◌
abbrev pub ◌>>>=◌ : Step → Step → Step
◌>>>=◌ f g it = let (good, it') = f it in if good then g it' else (false, it')

abbrev pub when : (PackedIterator → Bool) → Step → Step
when test f it = if test it then f it else (true, it)

module _ (bits : ℕ) where
  -- One number off the decoder, stored by `put`. It fails when the bytes
  -- run out, with none left.
  unfoldable pub decode : (ℕ → PackedIterator → PackedIterator) → Step
  decode put it = elim (sleb128_decoder_next bits it.decoder) [
    | none ↦ (false, record it { decoder = [] })
    | some (value, rest) ↦ (true, put value (record it { decoder = rest }))
  ]

  unfoldable pub add_addend : ℕ → PackedIterator → PackedIterator
  add_addend v it = record it { r_addend = (it.r_addend + v) % 2 ^ bits }

  -- The addend part of the group's fields.
  unfoldable pub read_group_addend : Step
  unfolding decode add_addend
  read_group_addend it =
      if has_flag it group_has_addend && has_flag it grouped_by_addend
      then (if it.is_use_rela then decode add_addend it else (false, it))
      else if has_flag it group_has_addend
      then (true, it)
      else (true, record it { r_addend = 0 })

  -- xh_elf_packed_reloc_iterator_read_group_fields.
  unfoldable pub read_group_fields : Step
  unfolding decode read_group_addend
  read_group_fields =
      decode (λ v it. record it { group_size = v })
      >>>= decode (λ v it. record it { group_flags = v })
      >>>= when (λ it. has_flag it grouped_by_offset_delta)
          (decode (λ v it. record it { group_r_offset_delta = v }))
      >>>= when (λ it. has_flag it grouped_by_info) (decode (λ v it. record it { r_info = v }))
      >>>= read_group_addend
      >>>= λ it. (true, record it { relocation_group_index = 0 })

  -- xh_elf_packed_reloc_iterator_init, on an iterator that memset cleared.
  unfoldable pub packed_init : List ℕ → Bool → Bool × PackedIterator
  unfolding decode
  packed_init bytes is_use_rela =
      let cleared : PackedIterator = record {
        decoder = bytes;
        relocation_count = 0;
        group_size = 0;
        group_flags = 0;
        group_r_offset_delta = 0;
        relocation_index = 0;
        relocation_group_index = 0;
        r_offset = 0;
        r_info = 0;
        r_addend = 0;
        is_use_rela = is_use_rela;
      } in
      (decode (λ v it. record it { relocation_count = v })
          >>>= decode (λ v it. record it { r_offset = v }))
        cleared

  unfoldable pub add_offset : ℕ → PackedIterator → PackedIterator
  add_offset v it = record it { r_offset = (it.r_offset + v) % 2 ^ bits }

  -- The part of xh_elf_packed_reloc_iterator_next that reads the entry's fields.
  unfoldable pub read_entry : Step
  unfolding decode read_group_fields add_offset add_addend
  read_entry =
      when (λ it. it.relocation_group_index == it.group_size) read_group_fields
      >>>= (λ it.
          if has_flag it grouped_by_offset_delta
          then (true, add_offset it.group_r_offset_delta it)
          else decode add_offset it)
      >>>= when (λ it. not (has_flag it grouped_by_info))
          (decode (λ v it. record it { r_info = v }))
      >>>= when
          (λ it.
            it.is_use_rela && (has_flag it group_has_addend && not (has_flag it grouped_by_addend)))
          (decode add_addend)
      >>>= λ it. (
        true,
        record it {
          relocation_index = it.relocation_index + 1;
          relocation_group_index = it.relocation_group_index + 1;
        },
      )

  -- xh_elf_packed_reloc_iterator_next.
  unfoldable pub packed_next : PackedIterator → Option Relocation × PackedIterator
  unfolding read_entry
  packed_next it =
      if leb it.relocation_count it.relocation_index
      then (none, it)
      else (let (good, it') = read_entry it in
          if good
          then (
            some (record {
              offset = it'.r_offset;
              info = it'.r_info;
              addend = if it'.is_use_rela then some it'.r_addend else none;
            }),
            it',
          )
          else (none, it'))
