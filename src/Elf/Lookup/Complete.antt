-- ===== src/Elf/Lookup/Complete.antt =====
-- xh_elf_hash_lookup comes to an end on chains that do, and misses no symbol of the chain.
use elf_hook_test.Base.{
  ℕ, zero, suc, ◌+◌, ◌%◌, ◌<◌, ◌≡◌, ◌≢◌, ◌⊎◌, inl, inr, refl, subst, sym, ap, arith, List, [], ◌∷◌,
  true, false, Option, none, some, ◌==◌, get_elem?, get_elem?-some, length, Bool-cases, ◌∙◌,
}
use elf_hook_test.Base.Run.{◌>>=◌, Returns}
use elf_hook_test.Base.Run.Laws.{read_at-some, Returns_mono}
use elf_hook_test.Elf.{same_text}
use elf_hook_test.Elf.Hash.{elf_hash}
use elf_hook_test.Elf.Lookup.{Tables, chain_loop, hash_lookup}
use elf_hook_test.Elf.Lookup.Sound.{same_text→eq}

same_text_refl : (a : List ℕ) → same_text a a ≡ true
same_text_refl [] = refl
same_text_refl (x ∷ xs) = ground (arith, same_text_refl xs)

-- Every index but 0 that a chain leads to is in bounds, and `rank` falls along the chain.
pub record IsChained (t : Tables) (rank : ℕ → ℕ) : Type 0 where
  pub named : length t.names ≡ length t.chain
  pub links :
      (i j : ℕ)
      → get_elem? t.chain i ≡ some j
      → (j ≡ 0) ⊎ ((j < length t.chain) × (rank j < rank i))

-- The chain from `i` comes by `j`; index 0 ends it.
pub data Leads (t : Tables) : ℕ → ℕ → Type 0 where
  here : (i : ℕ) → i ≢ 0 → Leads t i i
  along : (i j k : ℕ) → i ≢ 0 → get_elem? t.chain i ≡ some j → Leads t j k → Leads t i k

-- What a search for a symbol from `i` on answers.
abbrev pub Answers : Tables → List ℕ → ℕ → Option ℕ → Type 0
Answers t symbol i (some k) = Leads t i k × (get_elem? t.names k ≡ some symbol)
Answers t symbol i none = (k : ℕ) → Leads t i k → get_elem? t.names k ≢ some symbol

some-inj : {a b : ℕ} {o : Option ℕ} → o ≡ some a → o ≡ some b → a ≡ b
some-inj p q = cc

-- A chain from 0 leads nowhere.
not_zero : {t : Tables} {i k : ℕ} → Leads t i k → i ≢ 0
not_zero (here i nz) = nz
not_zero (along i j k nz link l) = nz

step_back :
    {t : Tables} {i k : ℕ}
    → Leads t i k
    → (k ≡ i) ⊎ ((j : ℕ) × (get_elem? t.chain i ≡ some j) × Leads t j k)
step_back (here i nz) = inl refl
step_back (along i j k nz link l) = inr (j, link, l)

module _ (t : Tables) (rank : ℕ → ℕ) (c : IsChained t rank) (symbol : List ℕ) where
  missed :
      (i j : ℕ) (name : List ℕ)
      → get_elem? t.chain i ≡ some j
      → get_elem? t.names i ≡ some name
      → same_text symbol name ≡ false
      → Answers t symbol j none
      → Answers t symbol i none
  missed i j name link held other rest k l e = elim (step_back l) [
    | inl same ↦ cc (same_text_refl symbol)
    | inr (j', link', l') ↦ rest k (subst (λ x. Leads t x k) (some-inj link' link) l') e
  ]

  further :
      (i j : ℕ) (name : List ℕ) (o : Option ℕ)
      → i ≢ 0
      → get_elem? t.chain i ≡ some j
      → get_elem? t.names i ≡ some name
      → same_text symbol name ≡ false
      → Answers t symbol j o
      → Answers t symbol i o
  further i j name none nz link held other h = missed i j name link held other h
  further i j name (some k) nz link held other h = (along i j k nz link h.0, h.1)

  -- One round at an index that is not 0.
  round-Answers :
      (fuel i j : ℕ) (name : List ℕ)
      → i ≢ 0
      → get_elem? t.chain i ≡ some j
      → get_elem? t.names i ≡ some name
      → Returns (chain_loop t symbol fuel j) (Answers t symbol j)
      → Returns (chain_loop t symbol (suc fuel) i) (Answers t symbol i)
  unfolding chain_loop
  round-Answers fuel i j name nz link held rest =
      let off : i == 0 ≡ false = ground arith in
      elim (Bool-cases (same_text symbol name)) [
        | inl same ↦
            rw (off, chain_loop, read_at-some t.names i held, ◌>>=◌, same)
              (here i nz, held ∙ ap some (sym (same_text→eq symbol name same)))
        | inr other ↦
            rw
              (
                off,
                chain_loop,
                read_at-some t.names i held,
                ◌>>=◌,
                other,
                read_at-some t.chain i link,
              )
              (Returns_mono (Answers t symbol j) (Answers t symbol i) (chain_loop t symbol fuel j)
                rest (λ o. further i j name o nz link held other))
      ]

  chain_loop-Answers :
      (fuel i : ℕ)
      → (i ≡ 0) ⊎ ((i < length t.chain) × (rank i + 1 < fuel))
      → 0 < fuel
      → Returns (chain_loop t symbol fuel i) (Answers t symbol i)
  unfolding chain_loop
  chain_loop-Answers zero i h pos = absurd (omega arith)
  chain_loop-Answers (suc fuel) i h pos = elim (Bool-cases (i == 0)) [
    | inl z ↦ rw (z, chain_loop) (λ k l e. absurd (not_zero l (ground arith)))
    | inr nz ↦
        let inside : (i < length t.chain) × (rank i + 1 < suc fuel) = ground arith in
        let (name, held) = get_elem?-some t.names i (omega (arith, c.named)) in
        let (j, link) = get_elem?-some t.chain i inside.0 in
        round-Answers fuel i j name (ground arith) link held
          (chain_loop-Answers fuel j (ground (arith, c.links i j link)) (omega arith))
  ]

  -- xh_elf_hash_lookup, on chains that come to an end, comes to an end itself: it answers with a symbol
  -- of the bucket's chain that has the name, or else no symbol of that chain has it.
  pub hash_lookup-Answers :
      (fuel i : ℕ)
      → get_elem? t.bucket (elf_hash symbol % t.bucket_cnt) ≡ some i
      → (i ≡ 0) ⊎ ((i < length t.chain) × (rank i + 1 < fuel))
      → 0 < fuel
      → Returns (hash_lookup t fuel symbol) (Answers t symbol i)
  unfolding hash_lookup
  hash_lookup-Answers fuel i e h pos =
      rw (read_at-some t.bucket (elf_hash symbol % t.bucket_cnt) e)
        (chain_loop-Answers fuel i h pos)
