-- ===== src/Relocate/Scratch.antt =====
-- The register that a rewritten instruction borrows is not one that it uses.
use elf_hook_test.Base.{ℕ, zero, suc, ◌+◌, ◌≤◌, ◌≢◌, arith, ◌==◌, ◌||◌}
use elf_hook_test.Relocate.{pick_register}

-- With one register taken, the search from `r` on needs one step down at most.
pub pick_register-one :
    (a r : ℕ)
    → 2 ≤ r
    → (pick_register (λ x. x == a) r ≢ a)
      × (r ≤ pick_register (λ x. x == a) r + 1)
      × (pick_register (λ x. x == a) r ≤ r)
unfolding pick_register
pick_register-one a zero h = absurd (omega arith)
pick_register-one a (suc zero) h = absurd (omega arith)
pick_register-one a (suc (suc r)) h = ground arith

-- With two registers taken, the search from `r` on finds another, two steps down at most.
pub pick_register-two :
    (a b r : ℕ)
    → 3 ≤ r
    → (pick_register (λ x. x == a || x == b) r ≢ a)
      × (pick_register (λ x. x == a || x == b) r ≢ b)
      × (r ≤ pick_register (λ x. x == a || x == b) r + 2)
      × (pick_register (λ x. x == a || x == b) r ≤ r)
unfolding pick_register
pick_register-two a b zero h = absurd (omega arith)
pick_register-two a b (suc zero) h = absurd (omega arith)
pick_register-two a b (suc (suc zero)) h = absurd (omega arith)
pick_register-two a b (suc (suc (suc r))) h = ground arith
