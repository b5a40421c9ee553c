-- ===== src/InlineHook/Table/Find.antt =====
-- What the searches of the table answer.
use elf_hook_test.Base.{
  ℕ, zero, suc, ◌+◌, ◌<◌, ◌≡◌, refl, arith, List, [], ◌∷◌, Bool, true, false, none, some, get_elem?,
  Bool-cases, inl, inr,
}
use elf_hook_test.InlineHook.{Item}
use elf_hook_test.InlineHook.Table.{find_slot}

-- `k` is the first of the slots from `i` on whose item passes the test.
pub record IsFirst (test : Item → Bool) (xs : List Item) (left i k : ℕ) : Type 0 where
  pub steps : ℕ
  pub at : k ≡ i + steps
  pub below : steps < left
  pub item : Item
  pub held : get_elem? xs steps ≡ some item
  pub passes : test item ≡ true
  pub earlier : (j : ℕ) (x : Item) → j < steps → get_elem? xs j ≡ some x → test x ≡ false

pub find_slot-some :
    (test : Item → Bool) (xs : List Item) (left i k : ℕ)
    → find_slot test xs left i ≡ some k
    → IsFirst test xs left i k
unfolding find_slot
find_slot-some test xs zero i k h = cc
find_slot-some test [] (suc left) i k h = cc
find_slot-some test (x ∷ xs) (suc left) i k h = elim (Bool-cases (test x)) [
  | inl hit ↦ record {
    steps = 0;
    at = ground arith;
    below = omega arith;
    item = x;
    held = refl;
    passes = hit;
    earlier = λ j y lt e. absurd (omega arith);
  }
  | inr miss ↦ later miss (find_slot-some test xs left (i + 1) k (ground arith))
]
  where
    later : test x ≡ false → IsFirst test xs left (i + 1) k → IsFirst test (x ∷ xs) (suc left) i k
    later miss r = record {
      steps = suc r.steps;
      at = omega (arith, r.at);
      below = omega (arith, r.below);
      item = r.item;
      held = r.held;
      passes = r.passes;
      earlier = elim [
        | zero ↦ λ y lt e. ground arith
        | suc j ↦ λ y lt e. r.earlier j y (omega arith) e
      ];
    }

pub find_slot-none :
    (test : Item → Bool) (xs : List Item) (left i : ℕ)
    → find_slot test xs left i ≡ none
    → (j : ℕ) (x : Item) → j < left
    → get_elem? xs j ≡ some x
    → test x ≡ false
unfolding find_slot
find_slot-none test xs zero i h j x lt e = absurd (omega arith)
find_slot-none test [] (suc left) i h j x lt e = cc
find_slot-none test (y ∷ xs) (suc left) i h zero x lt e = ground arith
find_slot-none test (y ∷ xs) (suc left) i h (suc j) x lt e =
    find_slot-none test xs left (i + 1) (ground arith) j x (omega arith) e
