-- ===== src/Elf/Image/Valid.antt =====
-- What xh_elf_init promises of a library that it accepts.
use elf_hook_test.Base.{
  ℕ, ◌-◌, ◌/◌, ◌%◌, ◌^◌, ◌<◌, ◌≤◌, ◌≡◌, ◌≢◌, ◌⊎◌, inl, inr, refl, ap, subst, if◌then◌else◌, arith,
  Bool, true, false, Option, none, some, ◌==◌, ltb,
}
use elf_hook_test.Elf.Image.{
  Code, good, inval, cleared, Elf, Phdr, Image, load, dynamic, check, ahead, after, lacks_header,
  parse_dyns, check_android, finish, init_dynamic, init, format, get_first_segment_by_type,
  get_first_segment_by_type_offset,
}
use elf_hook_test.Elf.Image.Parsed.{
  Above, IsParsed, Ok, Ok-if, HasHeader, HasTables, Hashed, Parsed, parse_dyns-Ok,
}

-- A structure that xh_elf_init accepts: its tables are there and none lies below the library, the
-- load bias is below the base address, and packed relocations had the bytes "APS2" in front.
pub record IsValid (bits : ℕ) (img : Image) (base : ℕ) (e : Elf) : Type 0 where
  pub pathname : e.has_pathname ≡ true
  pub same_base : (e.base_addr ≡ base) × (0 < base)
  pub bias : (0 < e.bias_addr) × (e.bias_addr ≤ base)
  pub strings : (0 < e.strtab) × (base ≤ e.strtab)
  pub symbols : (0 < e.symtab) × (base ≤ e.symtab)
  pub hashes : (0 < e.bucket) × (0 < e.chain) × (e.is_use_gnu_hash ≡ true → 0 < e.bloom)
  pub tables : HasTables bits img base e
  pub plt : Above base e.relplt
  pub dyns : Above base e.reldyn
  pub android : (e.relandroid ≡ 0) ⊎ HasHeader bits img base e.relandroid

module _ (bits : ℕ) (img : Image) (base bias : ℕ) where
  -- What check_android adds.
  record IsReady (e : Elf) : Type 0 where
    pathname : e.has_pathname ≡ true
    same_base : e.base_addr ≡ base
    same_bias : e.bias_addr ≡ bias
    strings : Above base e.strtab
    symbols : Above base e.symtab
    plt : Above base e.relplt
    dyns : Above base e.reldyn
    tables : Hashed bits img base e
    android : (e.relandroid ≡ 0) ⊎ HasHeader bits img base e.relandroid

  ready :
      (e : Elf) (p sz : ℕ)
      → Parsed bits img base bias e
      → (p ≡ 0) ⊎ HasHeader bits img base p
      → IsReady (record e { relandroid = p; relandroid_sz = sz })
  ready e p sz parsed h = record {
    pathname = parsed.0.pathname;
    same_base = parsed.0.same_base;
    same_bias = parsed.0.same_bias;
    strings = parsed.0.strings;
    symbols = parsed.0.symbols;
    plt = parsed.0.plt;
    dyns = parsed.0.dyns;
    tables = parsed.1;
    android = h;
  }

  has_header :
      (e : Elf)
      → IsParsed base bias e
      → e.relandroid ≢ 0
      → lacks_header bits img e ≡ false
      → HasHeader bits img base (ahead bits img e.relandroid 4)
  has_header e p there has = (
    e.relandroid,
    ground (arith, p.android),
    refl,
    ground arith,
    ground arith,
    ground arith,
    ground arith,
  )

  check_android-Ok : (e : Elf) → Parsed bits img base bias e → Ok IsReady (check_android bits img e)
  unfolding check_android
  check_android-Ok e p =
      Ok-if IsReady (e.relandroid == 0) (true, e) _
        (λ z. ready e e.relandroid e.relandroid_sz p (inl (ground arith)))
        (λ there.
          Ok-if IsReady (lacks_header bits img e) (false, e) _ (λ _. tt)
            (λ has.
              ready e (ahead bits img e.relandroid 4) (e.relandroid_sz - 4) p
                (inr (has_header e p.0 (ground arith) has))))

  checked :
      (e : Elf)
      → check e ≡ true
      → (0 < e.base_addr)
        × (0 < e.bias_addr)
        × (0 < e.strtab)
        × (0 < e.symtab)
        × ((0 < e.bucket) × (0 < e.chain) × (e.is_use_gnu_hash ≡ true → 0 < e.bloom))
  unfolding check
  checked e h = (ground arith, ground arith, ground arith, ground arith, ground arith)

  not_below : (p : ℕ) → 0 < p → Above base p → (0 < p) × (base ≤ p)
  not_below p h (inl z) = absurd (omega (arith, z))
  not_below p h (inr le) = (h, le)

  there : (e : Elf) → Hashed bits img base e → e.bucket ≢ 0 → HasTables bits img base e
  there e (inl (plain, gone)) h = absurd (h gone)
  there e (inr t) h = t

  check-IsValid : (e : Elf) → IsReady e → bias ≤ base → check e ≡ true → IsValid bits img base e
  check-IsValid e p le h =
      let (at, by, strings, symbols, hashes) = checked e h in
      record {
        pathname = p.pathname;
        same_base = (p.same_base, omega (arith, at, p.same_base));
        bias = (by, omega (arith, le, p.same_bias));
        strings = not_below e.strtab strings p.strings;
        symbols = not_below e.symtab symbols p.symbols;
        hashes = hashes;
        tables = there e p.tables (omega (arith, hashes.0));
        plt = p.plt;
        dyns = p.dyns;
        android = p.android;
      }

  -- A postcondition of a result: on 0 the structure is valid.
  abbrev Accepts : Code × Elf → Type 0
  Accepts r = r.0 ≡ good → IsValid bits img base r.1

  Accepts-after :
      (P : Elf → Type 0) (r : Bool × Elf) (next : Elf → Code × Elf)
      → Ok P r
      → ((e : Elf) → P e → Accepts (next e))
      → Accepts (after r next (λ e. (format, e)))
  Accepts-after P (true, e) next h k = k e h
  Accepts-after P (false, e) next h k = λ c. cc

  Accepts-check :
      (e : Elf) (b : Bool)
      → (b ≡ true → IsValid bits img base e)
      → Accepts ((if b then good else format), e)
  Accepts-check e true h = λ c. h refl
  Accepts-check e false h = λ c. cc

  finish-IsValid :
      (e : Elf) → Parsed bits img base bias e → bias ≤ base → Accepts (finish bits img e)
  unfolding finish
  finish-IsValid e p le =
      Accepts-after IsReady (check_android bits img e) _ (check_android-Ok e p)
        (λ e' ready'. Accepts-check e' (check e') (λ c. check-IsValid e' ready' le c))

  init_dynamic-IsValid :
      (e : Elf) (dhdr : Phdr)
      → Parsed bits img base bias e
      → bias ≤ base
      → Accepts (init_dynamic bits img e dhdr)
  unfolding init_dynamic
  init_dynamic-IsValid e dhdr p le =
      let dyn = ahead bits img e.bias_addr dhdr.vaddr in
      let e' : Elf = record e { dyn = dyn; dyn_sz = dhdr.memsz % 2 ^ 32 } in
      let same : IsParsed base bias e' = let p0 = p.0 in ground (arith, p0) in
      let p' : Parsed bits img base bias e' = (same, p.1) in
      Accepts-after (Parsed bits img base bias)
        (parse_dyns bits img (dhdr.memsz % 2 ^ 32 / (bits / 4)) dyn e') _
        (parse_dyns-Ok bits img base bias (dhdr.memsz % 2 ^ 32 / (bits / 4)) dyn e' p')
        (λ e'' p''. finish-IsValid e'' p'' le)

module _ (bits : ℕ) (img : Image) (base : ℕ) where
  Accepts-if :
      (b : Bool) (x y : Code × Elf)
      → Accepts bits img base 0 x
      → Accepts bits img base 0 y
      → Accepts bits img base 0 (if b then x else y)
  Accepts-if true x y h k = h
  Accepts-if false x y h k = k

  Accepts-some :
      (o : Option Phdr) (x : Code × Elf) (f : Phdr → Code × Elf)
      → Accepts bits img base 0 x
      → ((q : Phdr) → Accepts bits img base 0 (f q))
      → Accepts bits img base 0 (elim o [ none ↦ x | some q ↦ f q ])
  Accepts-some none x f h k = h
  Accepts-some (some q) x f h k = k q

  by_dynamic :
      (e : Elf) (bias : ℕ) (o : Option Phdr)
      → IsParsed base bias e × Hashed bits img base e
      → bias ≤ base
      → Accepts bits img base bias
          (elim o [ none ↦ (format, e) | some dhdr ↦ init_dynamic bits img e dhdr ])
  by_dynamic e bias none p le = λ c. cc
  by_dynamic e bias (some dhdr) p le = init_dynamic-IsValid bits img base bias e dhdr p le

  -- The part of xh_elf_init that follows the first load segment.
  by_bias :
      (e : Elf) (q : Phdr) (b : Bool)
      → e.has_pathname ≡ true
      → e.base_addr ≡ base
      → (e.strtab ≡ 0) × (e.symtab ≡ 0) × (e.relplt ≡ 0) × (e.reldyn ≡ 0) × (e.relandroid ≡ 0)
      → (e.is_use_gnu_hash ≡ false) × (e.bucket ≡ 0)
      → ltb base q.vaddr ≡ b
      → Accepts bits img base 0 (
          if b then (format, e) else (elim (get_first_segment_by_type img.phdrs dynamic) [
            | none ↦ (format, record e { bias_addr = base - q.vaddr })
            | some dhdr ↦ init_dynamic bits img (record e { bias_addr = base - q.vaddr }) dhdr
          ]))
  by_bias e q true named at tables none_yet h = λ c. cc
  by_bias e q false named at (s, y, l, d, a) none_yet h =
      by_dynamic (record e { bias_addr = base - q.vaddr }) (base - q.vaddr)
        (get_first_segment_by_type img.phdrs dynamic)
        (
          record {
            pathname = named;
            same_base = at;
            same_bias = refl;
            strings = inl s;
            symbols = inl y;
            plt = inl l;
            dyns = inl d;
            android = inl a;
          },
          inl none_yet,
        )
        (omega arith)

  init-Accepts :
      (e : Elf) (has_pathname : Bool) → Accepts bits img base 0 (init bits img e base has_pathname)
  unfolding init
  init-Accepts e false = λ c. cc
  init-Accepts e true =
      let e1 : Elf = record cleared {
        has_pathname = true;
        base_addr = base;
        ehdr = base;
        phdr = ahead bits img base img.phoff;
      } in
      Accepts-if (base == 0) (inval, e) _ (λ c. cc)
        (Accepts-some (get_first_segment_by_type_offset img.phdrs load 0) (format, e1) _ (λ c. cc)
          (λ q.
            by_bias e1 q (ltb base q.vaddr) refl refl (refl, refl, refl, refl, refl) (refl, refl)
              refl))

-- A structure that xh_elf_init returns 0 for is valid: base address, bias and the tables that a
-- lookup needs are there; strings, symbols, relocations and the hash table's header do not lie below
-- the library, and bucket, chain and bloom filter stand where that header puts them; and packed
-- relocations are those that follow the bytes "APS2".
pub init-IsValid :
    (bits : ℕ) (img : Image) (e e' : Elf) (base : ℕ) (has_pathname : Bool)
    → init bits img e base has_pathname ≡ (good, e')
    → IsValid bits img base e'
init-IsValid bits img e e' base has_pathname h =
    subst (λ r. IsValid bits img base r.1) h
      (init-Accepts bits img base e has_pathname (ap (λ r. r.0) h))
