-- ===== src/Elf/Image/Parsed.antt =====
-- What holds of the structure while xh_elf_init reads the dynamic segment.
use elf_hook_test.Base.{
  ◌+◌, ◌*◌, ℕ, zero, suc, ◌/◌, ◌≤◌, ◌≡◌, ◌⊎◌, inl, inr, refl, if◌then◌else◌, arith, Bool, true,
  false, ltb,
}
use elf_hook_test.Elf.Image.{
  Elf, Image, Tag, ahead, after, is_null, parse_dyn, parse_dyns, null, strtab, symtab, pltrel,
  jmprel, pltrelsz, rel, relsz, android_rel, android_relsz, hash, gnu_hash, other,
}

-- A table that is there does not lie below the library.
abbrev pub Above : ℕ → ℕ → Type 0
Above base p = (p ≡ 0) ⊎ (base ≤ p)

-- What holds of the structure while the dynamic segment is read.
pub record IsParsed (base bias : ℕ) (e : Elf) : Type 0 where
  pub pathname : e.has_pathname ≡ true
  pub same_base : e.base_addr ≡ base
  pub same_bias : e.bias_addr ≡ bias
  pub strings : Above base e.strtab
  pub symbols : Above base e.symtab
  pub plt : Above base e.relplt
  pub dyns : Above base e.reldyn
  pub android : Above base e.relandroid

-- A step that goes through leaves a structure of which `P` holds.
abbrev pub Ok : (Elf → Type 0) → Bool × Elf → Type 0
Ok P (true, e) = P e
Ok P (false, e) = Unit

pub Ok-after :
    (P : Elf → Type 0) (r : Bool × Elf) (next : Elf → Bool × Elf)
    → Ok P r
    → ((e : Elf) → P e → Ok P (next e))
    → Ok P (after r next (λ e. (false, e)))
Ok-after P (true, e) next h k = k e h
Ok-after P (false, e) next h k = tt

pub Ok-if :
    (P : Elf → Type 0) (b : Bool) (x y : Bool × Elf)
    → (b ≡ true → Ok P x)
    → (b ≡ false → Ok P y)
    → Ok P (if b then x else y)
Ok-if P true x y h k = h refl
Ok-if P false x y h k = k refl

-- `p` is behind the bytes "APS2", which do not lie below the library.
abbrev pub HasHeader : ℕ → Image → ℕ → ℕ → Type 0
HasHeader bits img base p =
    (r : ℕ) × (base ≤ r)
    × (p ≡ ahead bits img r 4)
    × (img.byte r ≡ 0x41)
    × (img.byte (ahead bits img r 1) ≡ 0x50)
    × (img.byte (ahead bits img r 2) ≡ 0x53)
    × (img.byte (ahead bits img r 3) ≡ 0x32)

-- The hash table of a library starts at `raw`, which is not below the library; its parts stand where
-- its header says.
abbrev pub HasHash : ℕ → Image → ℕ → Elf → Type 0
HasHash bits img raw e =
    (e.is_use_gnu_hash ≡ false)
    × (e.bucket ≡ ahead bits img raw 8)
    × (e.chain ≡ ahead bits img raw (8 + img.word32 raw * 4))

abbrev pub HasGnuHash : ℕ → Image → ℕ → Elf → Type 0
HasGnuHash bits img raw e =
    (e.is_use_gnu_hash ≡ true)
    × (e.bloom ≡ ahead bits img raw 16)
    × (e.bucket ≡ ahead bits img raw (16 + img.word32 (ahead bits img raw 8) * (bits / 8)))
    × (e.chain
        ≡ ahead bits img raw
            (16 + img.word32 (ahead bits img raw 8) * (bits / 8) + img.word32 raw * 4))

abbrev pub HasTables : ℕ → Image → ℕ → Elf → Type 0
HasTables bits img base e =
    (raw : ℕ) × (base ≤ raw) × (HasHash bits img raw e ⊎ HasGnuHash bits img raw e)

-- While the dynamic segment is read there may be none yet.
abbrev pub Hashed : ℕ → Image → ℕ → Elf → Type 0
Hashed bits img base e = ((e.is_use_gnu_hash ≡ false) × (e.bucket ≡ 0)) ⊎ HasTables bits img base e

module _ (bits : ℕ) (img : Image) (base bias : ℕ) where
  parse_dyn-Ok :
      (e : Elf) (t : Tag) (v : ℕ)
      → IsParsed base bias e
      → Ok (IsParsed base bias) (parse_dyn bits img e t v)
  unfolding parse_dyn
  parse_dyn-Ok e null v p = p
  parse_dyn-Ok e t v p = ground arith

  abbrev pub Parsed : Elf → Type 0
  Parsed e = IsParsed base bias e × Hashed bits img base e

  Ok-pair : (P : Elf → Type 0) (b : Bool) (e : Elf) → P e → Ok P (b, e)
  Ok-pair P true e h = h
  Ok-pair P false e h = tt

  Ok-both : (P Q : Elf → Type 0) (r : Bool × Elf) → Ok P r → Ok Q r → Ok (λ e. P e × Q e) r
  Ok-both P Q (true, e) h k = (h, k)
  Ok-both P Q (false, e) h k = tt

  parse_dyn-Hashed :
      (e : Elf) (t : Tag) (v : ℕ)
      → Hashed bits img base e
      → e.base_addr ≡ base
      → Ok (Hashed bits img base) (parse_dyn bits img e t v)
  unfolding parse_dyn
  parse_dyn-Hashed e null v h at = h
  parse_dyn-Hashed e strtab v h at = Ok-pair (Hashed bits img base) _ _ h
  parse_dyn-Hashed e symtab v h at = Ok-pair (Hashed bits img base) _ _ h
  parse_dyn-Hashed e pltrel v h at = h
  parse_dyn-Hashed e jmprel v h at = Ok-pair (Hashed bits img base) _ _ h
  parse_dyn-Hashed e pltrelsz v h at = h
  parse_dyn-Hashed e rel v h at = Ok-pair (Hashed bits img base) _ _ h
  parse_dyn-Hashed e relsz v h at = h
  parse_dyn-Hashed e android_rel v h at = Ok-pair (Hashed bits img base) _ _ h
  parse_dyn-Hashed e android_relsz v h at = h
  parse_dyn-Hashed e hash v h at =
      Ok-if (Hashed bits img base) e.is_use_gnu_hash (true, e) _ (λ _. h)
        (λ plain.
          Ok-if (Hashed bits img base) (ltb (ahead bits img e.bias_addr v) e.base_addr) (false, e) _
            (λ _. tt)
            (λ above.
              inr (ahead bits img e.bias_addr v, ground (arith, at), inl (plain, refl, refl))))
  parse_dyn-Hashed e gnu_hash v h at =
      Ok-if (Hashed bits img base) (ltb (ahead bits img e.bias_addr v) e.base_addr) (false, e) _
        (λ _. tt)
        (λ above.
          inr (ahead bits img e.bias_addr v, ground (arith, at), inr (refl, refl, refl, refl)))
  parse_dyn-Hashed e other v h at = h

  pub parse_dyns-Ok : (left at : ℕ) (e : Elf) → Parsed e → Ok Parsed (parse_dyns bits img left at e)
  unfolding parse_dyns
  parse_dyns-Ok zero at e p = p
  parse_dyns-Ok (suc left) at e p =
      let d = img.dyn_at at in
      Ok-if Parsed (is_null bits img d.tag) (true, e) _ (λ _. p)
        (λ _.
          Ok-after Parsed (parse_dyn bits img e d.tag d.val) _
            (Ok-both (IsParsed base bias) (Hashed bits img base) (parse_dyn bits img e d.tag d.val)
              (parse_dyn-Ok e d.tag d.val p.0) (parse_dyn-Hashed e d.tag d.val p.1 p.0.same_base))
            (λ e' p'. parse_dyns-Ok left (ahead bits img at (bits / 4)) e' p'))
