-- ===== src/Elf/Lookup/Sound.antt =====
-- A symbol that a lookup reports has the name that was asked for.
use elf_hook_test.Base.{
  ℕ, zero, suc, ◌+◌, ◌-◌, ◌≡◌, refl, sym, ap, ◌∙◌, ◌/◌, ◌%◌, if◌then◌else◌, arith, List, [], ◌∷◌,
  Bool, true, false, Option, none, some, ◌==◌, ltb, ◌&&◌, bit_and, bit_or, get_elem?,
}
use elf_hook_test.Base.Run.{Run, done, fault, out_of_fuel, ◌>>=◌, read_at}
use elf_hook_test.Elf.{same_text}
use elf_hook_test.Elf.Hash.{gnu_hash, elf_hash}
use elf_hook_test.Elf.Lookup.{
  Tables, bloom_mask, chain_loop, hash_lookup, gnu_chain_loop, gnu_hash_lookup_def, undef_loop,
  gnu_hash_lookup, find_symidx_by_name,
}

pub same_text→eq : (a b : List ℕ) → same_text a b ≡ true → a ≡ b
same_text→eq [] [] h = refl
same_text→eq [] (y ∷ ys) h = cc
same_text→eq (x ∷ xs) [] h = cc
same_text→eq (x ∷ xs) (y ∷ ys) h = ground (arith, same_text→eq xs ys)

-- What a search may answer: an index whose name is the symbol, or nothing.
abbrev pub Names : Tables → List ℕ → Run (Option ℕ) → Type 0
Names t symbol (done (some i)) = get_elem? t.names i ≡ some symbol
Names t symbol _ = Unit

read_at→get :
    (xs : List (List ℕ)) (i : ℕ) {x : List ℕ} → read_at xs i ≡ done x → get_elem? xs i ≡ some x
read_at→get [] i h = cc
read_at→get (y ∷ xs) zero h = cc
read_at→get (y ∷ xs) (suc i) h = read_at→get xs i h

-- Rules for the two constructs that the loops are made of.
bind_post :
    {A : Type 0} (P : Run (Option ℕ) → Type 0) (m : Run A) (f : A → Run (Option ℕ))
    → P fault
    → P out_of_fuel
    → ((a : A) → m ≡ done a → P (f a))
    → P (m >>= f)
bind_post P (done a) f x y k = k a refl
bind_post P fault f x y k = x
bind_post P out_of_fuel f x y k = y

test_post :
    (P : Run (Option ℕ) → Type 0) (b : Bool) (x y : Run (Option ℕ))
    → (b ≡ true → P x)
    → (b ≡ false → P y)
    → P (elim b [ true ↦ x | false ↦ y ])
test_post P true x y k l = k refl
test_post P false x y k l = l refl

found_post :
    (P : Run (Option ℕ) → Type 0) (o : Option ℕ) (y : Run (Option ℕ))
    → ((i : ℕ) → o ≡ some i → P (done (some i)))
    → P y
    → P (elim o [ some i ↦ done (some i) | none ↦ y ])
found_post P (some i) y k l = k i refl
found_post P none y k l = l

if_post :
    (P : Run (Option ℕ) → Type 0) (b : Bool) (x y : Run (Option ℕ))
    → P x
    → P y
    → P (if b then x else y)
if_post P true x y k l = k
if_post P false x y k l = l

module _ (t : Tables) (symbol : List ℕ) where
  abbrev Good : Run (Option ℕ) → Type 0
  Good r = Names t symbol r

  hit :
      (i : ℕ) (name : List ℕ) → read_at t.names i ≡ done name → symbol ≡ name → Good (done (some i))
  hit i name held same = read_at→get t.names i held ∙ ap some (sym same)

  chain_loop-Names : (fuel i : ℕ) → Good (chain_loop t symbol fuel i)
  unfolding chain_loop
  chain_loop-Names zero i = tt
  chain_loop-Names (suc fuel) i =
      test_post Good (i == 0) _ _ (λ _. tt)
        λ _. bind_post Good (read_at t.names i) _ tt tt λ name held.
          test_post Good (same_text symbol name) _ _
            (λ e. hit i name held (same_text→eq symbol name e))
            λ _. bind_post Good (read_at t.chain i) _ tt tt (λ i' _. chain_loop-Names fuel i')

  gnu_chain_loop-Names : (hash fuel i : ℕ) → Good (gnu_chain_loop t symbol hash fuel i)
  unfolding gnu_chain_loop
  gnu_chain_loop-Names hash zero i = tt
  gnu_chain_loop-Names hash (suc fuel) i = bind_post Good (read_at t.names i) _ tt tt λ name held.
      bind_post Good (read_at t.chain (i - t.symoffset)) _ tt tt λ symhash _.
        test_post Good (bit_or hash 1 == bit_or symhash 1 && same_text symbol name) _ _
          (λ e. hit i name held (same_text→eq symbol name (ground arith)))
          λ _.
            test_post Good (bit_and symhash 1 == 0) _ _
              (λ _. gnu_chain_loop-Names hash fuel (i + 1)) (λ _. tt)

  undef_loop-Names : (left i : ℕ) → Good (undef_loop t symbol left i)
  unfolding undef_loop
  undef_loop-Names zero i = tt
  undef_loop-Names (suc left) i = bind_post Good (read_at t.names i) _ tt tt λ name held.
      test_post Good (same_text name symbol) _ _
        (λ e. hit i name held (sym (same_text→eq name symbol e)))
        (λ _. undef_loop-Names left (i + 1))

  gnu_hash_lookup_def-Names : (bits fuel : ℕ) → Good (gnu_hash_lookup_def bits t fuel symbol)
  unfolding gnu_hash_lookup_def
  gnu_hash_lookup_def-Names bits fuel =
      bind_post Good (read_at t.bloom (gnu_hash symbol / bits % t.bloom_sz)) _ tt tt λ word _.
        if_post Good
          (bit_and word (bloom_mask bits t (gnu_hash symbol))
            == bloom_mask bits t (gnu_hash symbol))
          _ _
          (bind_post Good (read_at t.bucket (gnu_hash symbol % t.bucket_cnt)) _ tt tt λ i _.
            if_post Good (ltb i t.symoffset) _ _ tt (gnu_chain_loop-Names (gnu_hash symbol) fuel i))
          tt

  -- xh_elf_find_symidx_by_name, by either table, answers only with the index of a symbol whose
  -- name is the one asked for.
  pub find_symidx_by_name-Names :
      (bits : ℕ) (is_use_gnu_hash : Bool) (fuel : ℕ)
      → Names t symbol (find_symidx_by_name bits is_use_gnu_hash t fuel symbol)
  unfolding find_symidx_by_name
  find_symidx_by_name-Names bits is_use_gnu_hash fuel =
      if_post Good is_use_gnu_hash (gnu_hash_lookup bits t fuel symbol) (hash_lookup t fuel symbol)
        gnu
        (bind_post Good (read_at t.bucket (elf_hash symbol % t.bucket_cnt)) _ tt tt
          (λ i _. chain_loop-Names fuel i))
    where
      gnu : Good (gnu_hash_lookup bits t fuel symbol)
      gnu = bind_post Good (gnu_hash_lookup_def bits t fuel symbol) _ tt tt λ found e.
          found_post Good found _
            (λ i o. rw (e ∙ ap done o) at (gnu_hash_lookup_def-Names bits fuel))
            (undef_loop-Names t.symoffset 0)
