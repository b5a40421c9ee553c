-- ===== src/Elf/Image.antt =====
-- xh_elf_t, xh_elf_init and xh_elf_check: what the dynamic segment of a loaded library says.
pub mod Parsed
pub mod Valid
use elf_hook_test.Base.{
  ℕ, zero, suc, ◌+◌, ◌-◌, ◌*◌, ◌/◌, ◌%◌, ◌^◌, List, [], ◌∷◌, Bool, true, false, Option, none, some,
  ◌==◌, ltb, ◌&&◌, ◌||◌, not, if◌then◌else◌,
}

-- 0 and the errors of xh_errno.h; `refused` is an errno of mprotect.
pub data Code : Type 0 where
  good inval format not_inited segverr refused : Code

-- xh_elf_t. A null pointer is 0, a null `pathname` is false.
pub record Elf : Type 0 where
  pub has_pathname : Bool
  pub base_addr : ℕ
  pub bias_addr : ℕ
  pub ehdr : ℕ
  pub phdr : ℕ
  pub dyn : ℕ
  pub dyn_sz : ℕ
  pub strtab : ℕ
  pub symtab : ℕ
  pub relplt : ℕ
  pub relplt_sz : ℕ
  pub reldyn : ℕ
  pub reldyn_sz : ℕ
  pub relandroid : ℕ
  pub relandroid_sz : ℕ
  pub bucket : ℕ
  pub bucket_cnt : ℕ
  pub chain : ℕ
  pub chain_cnt : ℕ
  pub symoffset : ℕ
  pub bloom : ℕ
  pub bloom_sz : ℕ
  pub bloom_shift : ℕ
  pub is_use_rela : Bool
  pub is_use_gnu_hash : Bool

-- A program header; `load` and `dynamic` are PT_LOAD and PT_DYNAMIC.
pub record Phdr : Type 0 where
  pub type : ℕ
  pub offset : ℕ
  pub vaddr : ℕ
  pub memsz : ℕ

abbrev pub load : ℕ
load = 1

abbrev pub dynamic : ℕ
dynamic = 2

-- The tags of the dynamic segment that the code looks at, DT_REL and DT_RELA together.
pub data Tag : Type 0 where
  null strtab symtab pltrel jmprel pltrelsz rel relsz android_rel android_relsz : Tag
  hash gnu_hash other : Tag

pub record Dyn : Type 0 where
  pub tag : Tag
  pub val : ℕ

-- What is read from the library's memory: e_phoff, the program headers that start there, dynamic
-- entries, 32-bit words and bytes.
pub record Image : Type 0 where
  pub phoff : ℕ
  pub phdrs : List Phdr
  pub dyn_at : ℕ → Dyn
  pub word32 : ℕ → ℕ
  pub byte : ℕ → ℕ

-- xh_elf_get_first_segment_by_type and xh_elf_get_first_segment_by_type_offset.
unfoldable pub get_first_segment_by_type : List Phdr → ℕ → Option Phdr
get_first_segment_by_type [] type = none
get_first_segment_by_type (p ∷ ps) type =
    if p.type == type then some p else get_first_segment_by_type ps type

unfoldable pub get_first_segment_by_type_offset : List Phdr → ℕ → ℕ → Option Phdr
get_first_segment_by_type_offset [] type offset = none
get_first_segment_by_type_offset (p ∷ ps) type offset =
    if p.type == type && p.offset == offset
    then some p
    else get_first_segment_by_type_offset ps type offset

-- The memset of xh_elf_init.
abbrev pub cleared : Elf
cleared = record {
  has_pathname = false;
  base_addr = 0;
  bias_addr = 0;
  ehdr = 0;
  phdr = 0;
  dyn = 0;
  dyn_sz = 0;
  strtab = 0;
  symtab = 0;
  relplt = 0;
  relplt_sz = 0;
  reldyn = 0;
  reldyn_sz = 0;
  relandroid = 0;
  relandroid_sz = 0;
  bucket = 0;
  bucket_cnt = 0;
  chain = 0;
  chain_cnt = 0;
  symoffset = 0;
  bloom = 0;
  bloom_sz = 0;
  bloom_shift = 0;
  is_use_rela = false;
  is_use_gnu_hash = false;
}

-- xh_elf_check: true for 0.
unfoldable pub check : Elf → Bool
check e =
    not (e.base_addr == 0)
    && not (e.bias_addr == 0)
    && not (e.ehdr == 0)
    && not (e.phdr == 0)
    && not (e.strtab == 0)
    && not (e.symtab == 0)
    && not (e.bucket == 0)
    && not (e.chain == 0)
    && not (e.is_use_gnu_hash && e.bloom == 0)

-- Goes on with `next` where a step went through, with `stop` where it did not.
abbrev pub after {ℓ} : {A : Type ℓ} → Bool × Elf → (Elf → A) → (Elf → A) → A
after (true, e) next stop = next e
after (false, e) next stop = stop e

-- Addresses have `bits` bits, and a Dyn is of two of them.
module _ (bits : ℕ) (img : Image) where
  -- `p + n` bytes.
  abbrev pub ahead : ℕ → ℕ → ℕ
  ahead p n = (p + n) % 2 ^ bits

  -- An address below the library is a format error.
  abbrev pub within : Elf → ℕ → Elf → Bool × Elf
  within e p e' = (not (ltb p e.base_addr), e')

  -- One round of the switch, and whether it goes on; if not, xh_elf_init returns XH_ERRNO_FORMAT.
  unfoldable pub parse_dyn : Elf → Tag → ℕ → Bool × Elf
  parse_dyn e null v = (true, e)
  parse_dyn e strtab v = let p = ahead e.bias_addr v in within e p (record e { strtab = p })
  parse_dyn e symtab v = let p = ahead e.bias_addr v in within e p (record e { symtab = p })
  parse_dyn e pltrel v = (true, record e { is_use_rela = v == 7 })
  parse_dyn e jmprel v = let p = ahead e.bias_addr v in within e p (record e { relplt = p })
  parse_dyn e pltrelsz v = (true, record e { relplt_sz = v % 2 ^ 32 })
  parse_dyn e rel v = let p = ahead e.bias_addr v in within e p (record e { reldyn = p })
  parse_dyn e relsz v = (true, record e { reldyn_sz = v % 2 ^ 32 })
  parse_dyn e android_rel v =
      let p = ahead e.bias_addr v in within e p (record e { relandroid = p })
  parse_dyn e android_relsz v = (true, record e { relandroid_sz = v % 2 ^ 32 })
  parse_dyn e hash v =
      let raw = ahead e.bias_addr v in
      if e.is_use_gnu_hash then (true, e) else if ltb raw e.base_addr then (false, e) else (
        true,
        record e {
          bucket_cnt = img.word32 raw;
          chain_cnt = img.word32 (ahead raw 4);
          bucket = ahead raw 8;
          chain = ahead raw (8 + img.word32 raw * 4);
        },
      )
  parse_dyn e gnu_hash v =
      let raw = ahead e.bias_addr v in
      let bloom_bytes = img.word32 (ahead raw 8) * (bits / 8) in
      if ltb raw e.base_addr then (false, e) else (
        true,
        record e {
          bucket_cnt = img.word32 raw;
          symoffset = img.word32 (ahead raw 4);
          bloom_sz = img.word32 (ahead raw 8);
          bloom_shift = img.word32 (ahead raw 12);
          bloom = ahead raw 16;
          bucket = ahead raw (16 + bloom_bytes);
          chain = ahead raw (16 + bloom_bytes + img.word32 raw * 4);
          is_use_gnu_hash = true;
        },
      )
  parse_dyn e other v = (true, e)

  abbrev pub is_null : Tag → Bool
  is_null null = true
  is_null _ = false

  -- The loop over the dynamic segment, with the entries that are left and the next one's address.
  unfoldable pub parse_dyns : ℕ → ℕ → Elf → Bool × Elf
  unfolding parse_dyn
  parse_dyns zero at e = (true, e)
  parse_dyns (suc left) at e =
      let d = img.dyn_at at in
      if is_null d.tag
      then (true, e)
      else after (parse_dyn e d.tag d.val) (λ e'. parse_dyns left (ahead at (bits / 4)) e')
          (λ e'. (false, e'))

  -- There is no room for the bytes "APS2", or one is another.
  abbrev pub lacks_header : Elf → Bool
  lacks_header e =
      ltb e.relandroid_sz 4
      || not (img.byte e.relandroid == 0x41)
      || not (img.byte (ahead e.relandroid 1) == 0x50)
      || not (img.byte (ahead e.relandroid 2) == 0x53)
      || not (img.byte (ahead e.relandroid 3) == 0x32)

  -- The header of packed relocations, which is passed over.
  unfoldable pub check_android : Elf → Bool × Elf
  check_android e =
      if e.relandroid == 0 then (true, e) else if lacks_header e then (false, e) else (
        true,
        record e { relandroid = ahead e.relandroid 4; relandroid_sz = e.relandroid_sz - 4 },
      )

  -- The end of xh_elf_init, behind the dynamic segment.
  unfoldable pub finish : Elf → Code × Elf
  unfolding check_android check
  finish e =
      after (check_android e) (λ e'. (if check e' then good else format, e')) (λ e'. (format, e'))

  -- From the dynamic segment on.
  unfoldable pub init_dynamic : Elf → Phdr → Code × Elf
  unfolding parse_dyns finish
  init_dynamic e dhdr =
      let dyn = ahead e.bias_addr dhdr.vaddr in
      let e' : Elf = record e { dyn = dyn; dyn_sz = dhdr.memsz % 2 ^ 32 } in
      after (parse_dyns (dhdr.memsz % 2 ^ 32 / (bits / 4)) dyn e') finish (λ e''. (format, e''))

  -- xh_elf_init: the result, and the structure as far as it was filled.
  unfoldable pub init : Elf → (base_addr : ℕ) → (has_pathname : Bool) → Code × Elf
  unfolding get_first_segment_by_type get_first_segment_by_type_offset init_dynamic
  init e base_addr false = (inval, e)
  init e base_addr true =
      let e1 : Elf = record cleared {
        has_pathname = true;
        base_addr = base_addr;
        ehdr = base_addr;
        phdr = ahead base_addr img.phoff;
      } in
      if base_addr == 0
      then (inval, e)
      else elim (get_first_segment_by_type_offset img.phdrs load 0) [
        | none ↦ (format, e1)
        | some phdr0 ↦
            if ltb base_addr phdr0.vaddr
            then (format, e1)
            else (let e2 : Elf = record e1 { bias_addr = base_addr - phdr0.vaddr } in
                elim (get_first_segment_by_type img.phdrs dynamic) [
                  | none ↦ (format, e2)
                  | some dhdr ↦ init_dynamic e2 dhdr
                ])
      ]
