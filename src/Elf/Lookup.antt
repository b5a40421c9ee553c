-- ===== src/Elf/Lookup.antt =====
-- xh_elf_hash_lookup and xh_elf_gnu_hash_lookup_def. A chain that comes back to itself would
-- keep the loops running: they take fuel.
pub mod Sound
pub mod Complete
use elf_hook_test.Base.{
  ℕ, zero, suc, ◌+◌, ◌-◌, ◌*◌, ◌/◌, ◌%◌, ◌^◌, List, [], ◌∷◌, Bool, true, false, Option, none, some,
  ◌==◌, ltb, ◌&&◌, not, if◌then◌else◌, bit_and, bit_or, ◌>>>◌,
}
use elf_hook_test.Base.Run.{Run, done, fault, out_of_fuel, ◌>>=◌, read_at}
use elf_hook_test.Elf.{same_text}
use elf_hook_test.Elf.Hash.{elf_hash, gnu_hash}

-- The tables of an `xh_elf_t`; `names` gives the text `strtab + symtab[i].st_name`.
pub record Tables : Type 0 where
  pub names : List (List ℕ)
  pub bucket : List ℕ
  pub bucket_cnt : ℕ
  pub chain : List ℕ
  pub symoffset : ℕ
  pub bloom : List ℕ
  pub bloom_sz : ℕ
  pub bloom_shift : ℕ

-- `for(; 0 != i; i = chain[i])`; `none` is XH_ERRNO_NOTFND.
unfoldable pub chain_loop : Tables → List ℕ → ℕ → ℕ → Run (Option ℕ)
chain_loop t symbol zero i = out_of_fuel
chain_loop t symbol (suc fuel) i = elim (i == 0) [
  | true ↦ done none
  | false ↦ do
    name ← read_at t.names i
    elim (same_text symbol name) [
      | true ↦ done (some i)
      | false ↦ read_at t.chain i >>= λ i'. chain_loop t symbol fuel i'
    ]
]

unfoldable pub hash_lookup : Tables → ℕ → List ℕ → Run (Option ℕ)
unfolding chain_loop
hash_lookup t fuel symbol = do
  i ← read_at t.bucket (elf_hash symbol % t.bucket_cnt)
  chain_loop t symbol fuel i

-- `while(1)` over a chain of the GNU table.
unfoldable pub gnu_chain_loop : Tables → List ℕ → ℕ → ℕ → ℕ → Run (Option ℕ)
gnu_chain_loop t symbol hash zero i = out_of_fuel
gnu_chain_loop t symbol hash (suc fuel) i = do
  name ← read_at t.names i
  symhash ← read_at t.chain (i - t.symoffset)
  elim (bit_or hash 1 == bit_or symhash 1 && same_text symbol name) [
    | true ↦ done (some i)
    | false ↦ elim (bit_and symhash 1 == 0) [
      | true ↦ gnu_chain_loop t symbol hash fuel (i + 1)
      | false ↦ done none
    ]
  ]

-- The Bloom filter's word and mask, for words of `bits` bits.
unfoldable pub bloom_mask : ℕ → Tables → ℕ → ℕ
bloom_mask bits t hash = bit_or (2 ^ (hash % bits)) (2 ^ (hash >>> t.bloom_shift % bits))

unfoldable pub gnu_hash_lookup_def : ℕ → Tables → ℕ → List ℕ → Run (Option ℕ)
unfolding gnu_chain_loop bloom_mask
gnu_hash_lookup_def bits t fuel symbol =
    let hash = gnu_hash symbol in
    let mask = bloom_mask bits t hash in
    do
      word ← read_at t.bloom (hash / bits % t.bloom_sz)
      if bit_and word mask == mask
          then (do
            i ← read_at t.bucket (hash % t.bucket_cnt)
            if ltb i t.symoffset then done none else gnu_chain_loop t symbol hash fuel i)
          else done none

-- The loop of xh_elf_gnu_hash_lookup_undef, with the rounds that are left.
unfoldable pub undef_loop : Tables → List ℕ → ℕ → ℕ → Run (Option ℕ)
undef_loop t symbol zero i = done none
undef_loop t symbol (suc left) i = do
  name ← read_at t.names i
  elim (same_text name symbol) [ true ↦ done (some i) | false ↦ undef_loop t symbol left (i + 1) ]

unfoldable pub gnu_hash_lookup_undef : Tables → List ℕ → Run (Option ℕ)
unfolding undef_loop
gnu_hash_lookup_undef t symbol = undef_loop t symbol t.symoffset 0

unfoldable pub gnu_hash_lookup : ℕ → Tables → ℕ → List ℕ → Run (Option ℕ)
unfolding gnu_hash_lookup_def gnu_hash_lookup_undef
gnu_hash_lookup bits t fuel symbol = gnu_hash_lookup_def bits t fuel symbol >>= λ found.
    elim found [ some i ↦ done (some i) | none ↦ gnu_hash_lookup_undef t symbol ]

-- xh_elf_find_symidx_by_name; the Boolean is `is_use_gnu_hash`.
unfoldable pub find_symidx_by_name : ℕ → Bool → Tables → ℕ → List ℕ → Run (Option ℕ)
unfolding gnu_hash_lookup hash_lookup
find_symidx_by_name bits is_use_gnu_hash t fuel symbol =
    if is_use_gnu_hash then gnu_hash_lookup bits t fuel symbol else hash_lookup t fuel symbol
