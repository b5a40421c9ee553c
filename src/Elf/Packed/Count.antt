-- ===== src/Elf/Packed/Count.antt =====
-- The packed iterator comes to its end: each relocation raises the index by one.
use elf_hook_test.Base.{
  ℕ, ◌+◌, ◌<◌, ◌≡◌, ◌⊎◌, inl, inr, refl, arith, List, [], Bool, true, false, Option, none, some,
  ◌==◌, leb, ◌&&◌, not, Bool-cases, if◌then◌else◌,
}
use elf_hook_test.Elf.Sleb.{sleb128_decoder_next}
use elf_hook_test.Elf.Packed.{
  PackedIterator, Step, ◌>>>=◌, when, decode, add_addend, read_group_addend, read_group_fields,
  add_offset, read_entry, packed_next, has_flag, grouped_by_info, grouped_by_offset_delta,
  grouped_by_addend, group_has_addend,
}

-- Count and index are as they were.
abbrev Counts : PackedIterator → PackedIterator → Type 0
Counts it it' =
    (it'.relocation_count ≡ it.relocation_count) × (it'.relocation_index ≡ it.relocation_index)

abbrev Keeps : Step → Type 0
Keeps f = (it : PackedIterator) → Counts it (f it).1

Keeps->>>= : (f g : Step) → Keeps f → Keeps g → Keeps (f >>>= g)
Keeps->>>= f g hf hg it = elim (Bool-cases (f it).0) [
  | inl on ↦ rw on (ground (arith, hf it, hg (f it).1))
  | inr off ↦ rw off (hf it)
]

Keeps-when : (test : PackedIterator → Bool) (f : Step) → Keeps f → Keeps (when test f)
Keeps-when test f h it = ground (arith, h it)

abbrev numbered :
    Option (ℕ × List ℕ)
    → (ℕ → PackedIterator → PackedIterator)
    → PackedIterator
    → Bool × PackedIterator
numbered o put it = elim o [
  | none ↦ (false, record it { decoder = [] })
  | some (value, rest) ↦ (true, put value (record it { decoder = rest }))
]

module _ (bits : ℕ) where
  by_number :
      (o : Option (ℕ × List ℕ)) (put : ℕ → PackedIterator → PackedIterator) (it : PackedIterator)
      → ((v : ℕ) (x : PackedIterator) → Counts x (put v x))
      → Counts it (numbered o put it).1
  by_number none put it h = (refl, refl)
  by_number (some (v, rest)) put it h = h v (record it { decoder = rest })

  decode-Keeps :
      (put : ℕ → PackedIterator → PackedIterator)
      → ((v : ℕ) (x : PackedIterator) → Counts x (put v x))
      → Keeps (decode bits put)
  unfolding decode
  decode-Keeps put h it = by_number (sleb128_decoder_next bits it.decoder) put it h

  read_group_addend-Keeps : Keeps (read_group_addend bits)
  unfolding read_group_addend add_addend
  read_group_addend-Keeps it =
      ground (arith, decode-Keeps (add_addend bits) (λ v x. (refl, refl)) it)

  abbrev Put : Type 0
  Put = ℕ → PackedIterator → PackedIterator

  read_group_fields-Keeps : Keeps (read_group_fields bits)
  unfolding read_group_fields
  read_group_fields-Keeps =
      let p1 : Put = λ v it. record it { group_size = v } in
      let p2 : Put = λ v it. record it { group_flags = v } in
      let p3 : Put = λ v it. record it { group_r_offset_delta = v } in
      let p4 : Put = λ v it. record it { r_info = v } in
      let t3 : PackedIterator → Bool = λ it. has_flag it grouped_by_offset_delta in
      let t4 : PackedIterator → Bool = λ it. has_flag it grouped_by_info in
      let size = decode bits p1 in
      let flags = decode bits p2 in
      let delta = when t3 (decode bits p3) in
      let info = when t4 (decode bits p4) in
      let last : Step = λ it. (true, record it { relocation_group_index = 0 }) in
      let k2 =
        Keeps->>>= size flags (decode-Keeps p1 (λ v x. (refl, refl)))
          (decode-Keeps p2 (λ v x. (refl, refl))) in
      let k3 =
        Keeps->>>= (size >>>= flags) delta k2
          (Keeps-when t3 (decode bits p3) (decode-Keeps p3 (λ v x. (refl, refl)))) in
      let k4 =
        Keeps->>>= (size >>>= flags >>>= delta) info k3
          (Keeps-when t4 (decode bits p4) (decode-Keeps p4 (λ v x. (refl, refl)))) in
      let k5 =
        Keeps->>>= (size >>>= flags >>>= delta >>>= info) (read_group_addend bits) k4
          read_group_addend-Keeps in
      Keeps->>>= (size >>>= flags >>>= delta >>>= info >>>= read_group_addend bits) last k5
        (λ it. (refl, refl))

  -- All of read_entry but its last step.
  abbrev fields : Step
  fields =
      when (λ it. it.relocation_group_index == it.group_size) (read_group_fields bits)
      >>>= (λ it.
          if has_flag it grouped_by_offset_delta
          then (true, add_offset bits it.group_r_offset_delta it)
          else decode bits (add_offset bits) it)
      >>>= when (λ it. not (has_flag it grouped_by_info))
          (decode bits (λ v it. record it { r_info = v }))
      >>>= when
          (λ it.
            it.is_use_rela && (has_flag it group_has_addend && not (has_flag it grouped_by_addend)))
          (decode bits (add_addend bits))

  add_offset-Counts : (v : ℕ) (it : PackedIterator) → Counts it (add_offset bits v it)
  unfolding add_offset
  add_offset-Counts v it = (refl, refl)

  add_addend-Counts : (v : ℕ) (it : PackedIterator) → Counts it (add_addend bits v it)
  unfolding add_addend
  add_addend-Counts v it = (refl, refl)

  fields-Keeps : Keeps fields
  fields-Keeps =
      let p3 : Put = λ v it. record it { r_info = v } in
      let t1 : PackedIterator → Bool = λ it. it.relocation_group_index == it.group_size in
      let t3 : PackedIterator → Bool = λ it. not (has_flag it grouped_by_info) in
      let t4 : PackedIterator → Bool = λ it.
        it.is_use_rela && (has_flag it group_has_addend && not (has_flag it grouped_by_addend)) in
      let group = when t1 (read_group_fields bits) in
      let offset : Step = λ it.
        if has_flag it grouped_by_offset_delta
        then (true, add_offset bits it.group_r_offset_delta it)
        else decode bits (add_offset bits) it in
      let info = when t3 (decode bits p3) in
      let addend = when t4 (decode bits (add_addend bits)) in
      let offset_Keeps : Keeps offset = λ it. ground (
        arith,
        add_offset-Counts it.group_r_offset_delta it,
        decode-Keeps (add_offset bits) add_offset-Counts it,
      ) in
      let k2 =
        Keeps->>>= group offset (Keeps-when t1 (read_group_fields bits) read_group_fields-Keeps)
          offset_Keeps in
      let k3 =
        Keeps->>>= (group >>>= offset) info k2
          (Keeps-when t3 (decode bits p3) (decode-Keeps p3 (λ v x. (refl, refl)))) in
      Keeps->>>= (group >>>= offset >>>= info) addend k3 (
        Keeps-when t4 (decode bits (add_addend bits))
          (decode-Keeps (add_addend bits) add_addend-Counts))

  -- xh_elf_packed_reloc_iterator_next ends the iteration or raises the index by one, below the count,
  -- which it leaves.
  pub packed_next_lem :
      (it : PackedIterator)
      → ((packed_next bits it).0 ≡ none)
        ⊎ ((it.relocation_index < it.relocation_count)
            × ((packed_next bits it).1.relocation_count ≡ it.relocation_count)
            × ((packed_next bits it).1.relocation_index ≡ it.relocation_index + 1))
  unfolding packed_next read_entry
  packed_next_lem it = elim (Bool-cases (leb it.relocation_count it.relocation_index)) [
    | inl end ↦ rw end (inl refl)
    | inr more ↦ elim (Bool-cases (fields it).0) [
      | inl on ↦
          rw (more, on) (inr (ground arith, (fields-Keeps it).0, ground (arith, fields-Keeps it)))
      | inr off ↦ rw (more, off) (inl refl)
    ]
  ]
