-- ===== src/Base/Run.antt =====
-- Code that can touch memory it must not, and loops on fuel.
pub mod Laws
use Prim.Native.Nat.{ℕ, zero, suc}
use mathlib.Core.List.{List, [], ◌∷◌}

-- `fault` is an access that C leaves undefined, `out_of_fuel` a loop stopped by the model.
pub data Run {ℓ} (A : Type ℓ) : Type ℓ where
  done : A → Run A
  fault : Run A
  out_of_fuel : Run A

infixl 5 ◌>>=◌
abbrev pub ◌>>=◌ {ℓ κ} : {A : Type ℓ} {B : Type κ} → Run A → (A → Run B) → Run B
done a >>= f = f a
fault >>= f = fault
out_of_fuel >>= f = out_of_fuel

-- The code comes to an end, with a result of which `P` holds.
abbrev pub Returns {ℓ} : {A : Type ℓ} → Run A → (A → Type 0) → Type 0
Returns (done a) P = P a
Returns fault P = ⊥
Returns out_of_fuel P = ⊥

module _ {ℓ} {A : Type ℓ} where
  -- `xs[i]`.
  abbrev pub read_at : List A → ℕ → Run A
  read_at [] i = fault
  read_at (x ∷ xs) zero = done x
  read_at (x ∷ xs) (suc i) = read_at xs i

  -- `xs[i] = v`.
  abbrev pub store_at : List A → ℕ → A → Run (List A)
  store_at [] i v = fault
  store_at (x ∷ xs) zero v = done (v ∷ xs)
  store_at (x ∷ xs) (suc i) v = store_at xs i v >>= λ ys. done (x ∷ ys)
