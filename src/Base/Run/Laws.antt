-- ===== src/Base/Run/Laws.antt =====
-- When an array access goes through, and how a chain of steps keeps a postcondition.
use elf_hook_test.Base.Lists.{length, get_or, get_elem?, set}
use elf_hook_test.Base.Run.{Run, done, fault, out_of_fuel, ◌>>=◌, Returns, read_at, store_at}
use Prim.Native.Nat.{ℕ, zero, suc, ◌<◌, ◌≤◌}
use mathlib.Core.Path.{◌≡◌, refl}
use mathlib.Core.Option.{some}
use mathlib.Core.List.{List, [], ◌∷◌}
use native.Mathlib.Omega.{arith}

pub >>=-Returns {ℓ κ} :
    {A : Type ℓ} {B : Type κ} (P : A → Type 0) (Q : B → Type 0) (m : Run A) (f : A → Run B)
    → Returns m P
    → ((a : A) → P a → Returns (f a) Q)
    → Returns (m >>= f) Q
>>=-Returns P Q (done a) f h k = k a h
>>=-Returns P Q fault f h k = absurd h
>>=-Returns P Q out_of_fuel f h k = absurd h

pub Returns_mono {ℓ} :
    {A : Type ℓ} (P Q : A → Type 0) (m : Run A) → Returns m P → ((a : A) → P a → Q a) → Returns m Q
Returns_mono P Q (done a) h k = k a h
Returns_mono P Q fault h k = absurd h
Returns_mono P Q out_of_fuel h k = absurd h

module _ {ℓ} {A : Type ℓ} where
  pub read_at_lem :
      (xs : List A) (i : ℕ) (d : A) → i < length xs → read_at xs i ≡ done (get_or xs i d)
  read_at_lem [] i d h = absurd (omega arith)
  read_at_lem (x ∷ xs) zero d h = refl
  read_at_lem (x ∷ xs) (suc i) d h = read_at_lem xs i d (omega arith)

  pub store_at_lem :
      (xs : List A) (i : ℕ) (v : A) → i < length xs → store_at xs i v ≡ done (set xs i v)
  store_at_lem [] i v h = absurd (omega arith)
  store_at_lem (x ∷ xs) zero v h = refl
  store_at_lem (x ∷ xs) (suc i) v h = rw (store_at_lem xs i v (omega arith))

  pub store_at-fault : (xs : List A) (i : ℕ) (v : A) → length xs ≤ i → store_at xs i v ≡ fault
  store_at-fault [] i v h = refl
  store_at-fault (x ∷ xs) zero v h = absurd (omega arith)
  store_at-fault (x ∷ xs) (suc i) v h = rw (store_at-fault xs i v (omega arith))

module _ {ℓ} {A : Type ℓ} where
  pub read_at-some : (xs : List A) (i : ℕ) {x : A} → get_elem? xs i ≡ some x → read_at xs i ≡ done x
  read_at-some [] i h = cc
  read_at-some (x ∷ xs) zero h = cc
  read_at-some (x ∷ xs) (suc i) h = read_at-some xs i h
