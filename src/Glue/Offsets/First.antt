-- ===== src/Glue/Offsets/First.antt =====
-- What a search for an offset answers.
use elf_hook_test.Base.{
  ℕ, zero, suc, ◌+◌, ◌-◌, ◌*◌, ◌/◌, ◌<◌, ◌≤◌, ◌≡◌, ◌≢◌, inl, inr, ap, sym, ==_iff, ◌∙◌, arith,
  false, ◌==◌, Bool-cases,
}
use elf_hook_test.Glue.Offsets.{Offset, found, invalid, missing, find_from, find_offset}

-- The answer is the first of the offsets `i`, `i + 4`, ... below `stop` with the value, or there is
-- none.
abbrev pub IsFirst : (ℕ → ℕ) → (value i stop : ℕ) → Offset → Type 0
IsFirst word value i stop (found k) =
    (n : ℕ) × (k ≡ i + n * 4)
    × (k < stop)
    × (word k ≡ value)
    × ((j : ℕ) → j < n → word (i + j * 4) ≢ value)
IsFirst word value i stop missing = (j : ℕ) → i + j * 4 < stop → word (i + j * 4) ≢ value
IsFirst word value i stop invalid = ⊥

module _ (word : ℕ → ℕ) (value : ℕ) where
  later-found :
      (i stop k : ℕ)
      → word i ≢ value
      → IsFirst word value (i + 4) stop (found k)
      → IsFirst word value i stop (found k)
  later-found i stop k other (n, at, below, held, earlier) = (
    suc n,
    omega (arith, at),
    below,
    held,
    elim [
      | zero ↦ λ lt e. other (ap word (omega arith) ∙ e)
      | suc j ↦ λ lt e. earlier j (omega arith) (ap word (omega arith) ∙ e)
    ],
  )

  later-missing :
      (i stop : ℕ)
      → word i ≢ value
      → IsFirst word value (i + 4) stop missing
      → IsFirst word value i stop missing
  later-missing i stop other none_later zero lt e = other (ap word (omega arith) ∙ e)
  later-missing i stop other none_later (suc j) lt e =
      none_later j (omega arith) (ap word (omega arith) ∙ e)

  later :
      (i stop : ℕ)
      → word i ≢ value
      → (o : Offset) → IsFirst word value (i + 4) stop o
      → IsFirst word value i stop o
  later i stop other (found k) h = later-found i stop k other h
  later i stop other missing h = later-missing i stop other h
  later i stop other invalid h = h

  now : (i stop : ℕ) → i < stop → value ≡ word i → IsFirst word value i stop (found i)
  now i stop below e = (0, omega arith, below, sym e, λ j lt. absurd (omega arith))

  differ : (a b : ℕ) → (a == b) ≡ false → b ≢ a
  differ a b e = ground arith

  -- The rounds left reach just to `stop`.
  find_from_lem :
      (left i stop : ℕ)
      → left * 4 < (stop - i) + 4
      → stop ≤ i + left * 4
      → IsFirst word value i stop (find_from word value left i)
  unfolding find_from
  find_from_lem zero i stop near reach = λ j lt e. absurd (omega arith)
  find_from_lem (suc left) i stop near reach =
      let ih = find_from_lem left (i + 4) stop (omega arith) (omega arith) in
      elim (Bool-cases (value == word i)) [
        | inl e ↦ rw e (now i stop (omega arith) ((==_iff value (word i)).0 e))
        | inr e ↦
            rw e (later i stop (differ value (word i) e) (find_from word value left (i + 4)) ih)
      ]

  nonzero_lem : (n : ℕ) → n ≢ 0 → (n == 0) ≡ false
  nonzero_lem n some = ground arith

  -- Below a region's end that is not 0, findOffset answers the first offset, in steps of 4 from the
  -- region's start, at which the value is read, or says that there is none.
  pub find_offset_lem :
      (region_start region_end : ℕ)
      → region_end ≢ 0
      → IsFirst word value region_start region_end
          (find_offset false word region_start region_end value)
  unfolding find_offset
  find_offset_lem region_start region_end some = rw (nonzero_lem region_end some) (
      find_from_lem ((region_end - region_start + 3) / 4) region_start region_end (omega arith)
        (omega arith))
