-- ===== src/InlineHook/Tids/Listed.antt =====
-- Which threads getAllTids lists, and when it runs over the array.
use mathlib.Core.List.{append_assoc, append-nil}
use elf_hook_test.Base.{
  ℕ, zero, suc, ◌+◌, ◌<◌, ◌≤◌, ◌≡◌, refl, sym, ap, ◌∙◌, arith, List, [], ◌∷◌, ◌++◌, Bool,
  Bool-cases, inl, inr, true, false, not, ◌&&◌, ◌==◌, some, if◌then◌else◌, take, length, leb, ltb,
  set, length-set,
}
use elf_hook_test.Base.Run.{Run, done, fault, out_of_fuel, ◌>>=◌, Returns}
use elf_hook_test.Base.Run.Laws.{store_at_lem, store_at-fault, Returns_mono}
use elf_hook_test.InlineHook.Tids.{tid_loop, get_all_tids}

take-set :
    {A : Type 0}
    → (i : ℕ) (xs : List A) (v : A) → i < length xs
    → take (suc i) (set xs i v) ≡ take i xs ++ v ∷ []
take-set i [] v h = absurd (omega arith)
take-set zero (x ∷ xs) v h = refl
take-set (suc i) (x ∷ xs) v h = ap (λ ys. x ∷ ys) (take-set i xs v (omega arith))

take-set_next :
    {A : Type 0}
    → (i : ℕ) (xs : List A) (v : A) → i < length xs
    → take (i + 1) (set xs i v) ≡ take i xs ++ v ∷ []
take-set_next i xs v h =
    let e : i + 1 ≡ suc i = omega arith in ap (λ n. take n (set xs i v)) e ∙ take-set i xs v h

module _ (atoi : List ℕ → ℕ) (exclude_tid : ℕ) where
  abbrev is_other : List ℕ → Bool
  is_other name = not (atoi name == 0) && not (atoi name == exclude_tid)

  -- The numbers of the entries that are threads, but the excluded one.
  abbrev pub others : List (List ℕ) → List ℕ
  others [] = []
  others (name ∷ names) = if is_other name then atoi name ∷ others names else others names

  abbrev Lists : List (List ℕ) → (i : ℕ) (tids : List ℕ) → ℕ × List ℕ → Type 0
  Lists names i tids out =
      (out.0 ≡ i + length (others names))
      × (take out.0 out.1 ≡ take i tids ++ others names)
      × (length out.1 ≡ length tids)

  others_more :
      (name : List ℕ) (names : List (List ℕ))
      → is_other name ≡ true
      → others (name ∷ names) ≡ atoi name ∷ others names
  others_more name names other = rw other refl

  others_same :
      (name : List ℕ) (names : List (List ℕ))
      → is_other name ≡ false
      → others (name ∷ names) ≡ others names
  others_same name names skipped = rw skipped refl

  tid_loop-Lists :
      (names : List (List ℕ)) (i : ℕ) (tids : List ℕ)
      → i + length (others names) ≤ length tids
      → Returns (tid_loop atoi exclude_tid names i tids) (Lists names i tids)
  unfolding tid_loop
  tid_loop-Lists [] i tids room = (omega arith, sym (append-nil (take i tids)), refl)
  tid_loop-Lists (name ∷ names) i tids room = elim (Bool-cases (is_other name)) [
    | inl other ↦
        let more = others_more name names other in
        let longer = ap length more in
        let low : i < length tids = omega (arith, longer) in
        let tids' : List ℕ = set tids i (atoi name) in
        let same = length-set tids i (atoi name) in
        rw (tid_loop, other, store_at_lem tids i (atoi name) low, ◌>>=◌)
          (Returns_mono (Lists names (i + 1) tids') (Lists (name ∷ names) i tids)
            (tid_loop atoi exclude_tid names (i + 1) tids')
            (tid_loop-Lists names (i + 1) tids' (omega (arith, longer, same)))
            (λ out h. (
              omega (arith, h.0, longer),
              h.1
                  ∙ ap (λ xs. xs ++ others names) (take-set_next i tids (atoi name) low)
                  ∙ append_assoc (take i tids) (atoi name ∷ []) (others names)
                  ∙ ap (λ l. take i tids ++ l) (sym more),
              h.2 ∙ same,
            )))
    | inr skipped ↦
        let less = others_same name names skipped in
        rw (tid_loop, skipped)
          (Returns_mono (Lists names i tids) (Lists (name ∷ names) i tids)
            (tid_loop atoi exclude_tid names i tids)
            (tid_loop-Lists names i tids (omega (arith, ap length less)))
            (λ out h. (
              omega (arith, h.0, ap length less),
              h.1 ∙ ap (λ l. take i tids ++ l) (sym less),
              h.2,
            )))
  ]

  tid_loop-fault :
      (names : List (List ℕ)) (i : ℕ) (tids : List ℕ)
      → length tids < i + length (others names)
      → i ≤ length tids
      → tid_loop atoi exclude_tid names i tids ≡ fault
  unfolding tid_loop
  tid_loop-fault [] i tids full low = absurd (omega arith)
  tid_loop-fault (name ∷ names) i tids full low = elim (Bool-cases (is_other name)) [
    | inl other ↦
        let longer = ap length (others_more name names other) in
        elim (Bool-cases (ltb i (length tids))) [
          | inl below ↦
              let low' : i < length tids = ground arith in
              rw (tid_loop, other, store_at_lem tids i (atoi name) low', ◌>>=◌)
                (tid_loop-fault names (i + 1) (set tids i (atoi name))
                  (omega (arith, longer, length-set tids i (atoi name)))
                  (omega (arith, length-set tids i (atoi name))))
          | inr end ↦
              let high : length tids ≤ i = ground arith in
              rw (tid_loop, other, store_at-fault tids i (atoi name) high, ◌>>=◌) refl
        ]
    | inr skipped ↦
        rw (tid_loop, skipped)
          (tid_loop-fault names i tids (omega (arith, ap length (others_same name names skipped)))
            low)
  ]

  -- The array had room for all of `tids`, which it starts with; or it had not, and the run went over it.
  abbrev pub Answers : (tids array : List ℕ) → Run (ℕ × List ℕ) → Type 0
  Answers tids array (done out) =
      (length tids ≤ length array) × (out.0 ≡ length tids) × (take out.0 out.1 ≡ tids)
  Answers tids array fault = length array < length tids
  Answers tids array out_of_fuel = ⊥

  Returns-Answers :
      (tids array : List ℕ) (r : Run (ℕ × List ℕ))
      → length tids ≤ length array
      → Returns r (λ out. (out.0 ≡ length tids) × (take out.0 out.1 ≡ tids))
      → Answers tids array r
  Returns-Answers tids array (done out) room h = (room, h.0, h.1)
  Returns-Answers tids array fault room h = absurd h
  Returns-Answers tids array out_of_fuel room h = absurd h

  -- How many entries the array has decides what getAllTids does in a directory that opens: with room
  -- for all threads but the excluded one, it ends, its count is theirs, and the array starts with
  -- them, in order; with less room it writes behind the array.
  pub get_all_tids-Answers :
      (names : List (List ℕ)) (array : List ℕ)
      → Answers (others names) array (get_all_tids atoi exclude_tid (some names) array)
  unfolding get_all_tids
  get_all_tids-Answers names array =
      elim (Bool-cases (leb (length (others names)) (length array))) [
        | inl room ↦
            let enough : length (others names) ≤ length array = ground arith in
            Returns-Answers (others names) array (get_all_tids atoi exclude_tid (some names) array)
              enough
              (Returns_mono (Lists names 0 array) _ (tid_loop atoi exclude_tid names 0 array)
                (tid_loop-Lists names 0 array (omega arith)) (λ out h. (omega (arith, h.0), h.1)))
        | inr full ↦
            let short : length array < length (others names) = ground arith in
            rw (get_all_tids, tid_loop-fault names 0 array (omega arith) (omega arith)) short
      ]
