-- ===== src/Base/Memory.antt =====
-- The process's memory, byte by byte, and its little-endian halfwords and words.
use Prim.Native.Nat.{ℕ, zero, suc, ◌+◌, ◌*◌, ◌/◌, ◌%◌, ◌^◌, ◌≤◌, ◌<◌}
use mathlib.Core.Path.{◌≡◌, refl, ap, ap₂, fun_ext}
use mathlib.Core.Logic.{◌⊎◌}
use mathlib.Core.List.{List, [], ◌∷◌}
use native.Mathlib.Omega.{arith}
use elf_hook_test.Base.Tests.{◌==◌, if◌then◌else◌}
use elf_hook_test.Base.Lists.{length}

-- Addresses are not cut to the machine's width: a statement that needs it bounds them.
abbrev pub Memory : Type 0
Memory = ℕ → ℕ

pub store8 : Memory → ℕ → ℕ → Memory
store8 m a v b = if a == b then v % 256 else m b

pub store16 : Memory → ℕ → ℕ → Memory
unfolding store8
store16 m a v = store8 (store8 m a v) (a + 1) (v / 256)

pub store32 : Memory → ℕ → ℕ → Memory
unfolding store16
store32 m a v = store16 (store16 m a v) (a + 2) (v / 65536)

pub load16 : Memory → ℕ → ℕ
load16 m a = m a + m (a + 1) * 256

pub load32 : Memory → ℕ → ℕ
unfolding load16
load32 m a = load16 m a + load16 m (a + 2) * 65536

-- Units stored one after the other from an address on.
pub store_bytes : Memory → ℕ → List ℕ → Memory
store_bytes m a [] = m
store_bytes m a (x ∷ xs) = store_bytes (store8 m a x) (a + 1) xs

pub store_halfwords : Memory → ℕ → List ℕ → Memory
store_halfwords m a [] = m
store_halfwords m a (x ∷ xs) = store_halfwords (store16 m a x) (a + 2) xs

pub store_words : Memory → ℕ → List ℕ → Memory
store_words m a [] = m
store_words m a (x ∷ xs) = store_words (store32 m a x) (a + 4) xs

-- `n` bytes from an address on.
unfoldable pub load_bytes : Memory → ℕ → ℕ → List ℕ
load_bytes m a zero = []
load_bytes m a (suc n) = m a ∷ load_bytes m (a + 1) n

-- The address `b` is not among the `n` from `a` on.
abbrev pub Outside : ℕ → ℕ → ℕ → Type 0
Outside a n b = (b < a) ⊎ (a + n ≤ b)

pub store16-Outside : (m : Memory) (a v b : ℕ) → Outside a 2 b → store16 m a v b ≡ m b
unfolding store16
store16-Outside m a v b h = ground arith

pub store32-Outside : (m : Memory) (a v b : ℕ) → Outside a 4 b → store32 m a v b ≡ m b
unfolding store32
store32-Outside m a v b h = ground arith

pub load16-store16 : (m : Memory) (a v : ℕ) → v < 2 ^ 16 → load16 (store16 m a v) a ≡ v
unfolding store16 load16
load16-store16 m a v h = ground arith

pub load32-store32 : (m : Memory) (a v : ℕ) → v < 2 ^ 32 → load32 (store32 m a v) a ≡ v
unfolding store32 load32
load32-store32 m a v h = ground arith

pub store_bytes-Outside :
    (m : Memory) (a : ℕ) (xs : List ℕ) (b : ℕ)
    → Outside a (length xs) b
    → store_bytes m a xs b ≡ m b
unfolding store_bytes store8
store_bytes-Outside m a [] b h = refl
store_bytes-Outside m a (x ∷ xs) b h =
    ground (arith, store_bytes-Outside (store8 m a x) (a + 1) xs b)

pub store_halfwords-Outside :
    (m : Memory) (a : ℕ) (xs : List ℕ) (b : ℕ)
    → Outside a (length xs * 2) b
    → store_halfwords m a xs b ≡ m b
unfolding store_halfwords
store_halfwords-Outside m a [] b h = refl
store_halfwords-Outside m a (x ∷ xs) b h =
    ground (arith, store_halfwords-Outside (store16 m a x) (a + 2) xs b, store16-Outside m a x b)

pub store_words-Outside :
    (m : Memory) (a : ℕ) (xs : List ℕ) (b : ℕ)
    → Outside a (length xs * 4) b
    → store_words m a xs b ≡ m b
unfolding store_words
store_words-Outside m a [] b h = refl
store_words-Outside m a (x ∷ xs) b h =
    ground (arith, store_words-Outside (store32 m a x) (a + 4) xs b, store32-Outside m a x b)

-- Two words stored one after the other read back, the second behind the first.
pub load32-store_words :
    (m : Memory) (a v w : ℕ)
    → v < 2 ^ 32
    → w < 2 ^ 32
    → (load32 (store_words m a (v ∷ w ∷ [])) a ≡ v)
      × (load32 (store_words m a (v ∷ w ∷ [])) (a + 4) ≡ w)
unfolding store_words store32 load32
load32-store_words m a v w p q = (ground arith, ground arith)

store16_low : (m : Memory) (a v w : ℕ) → v < 2 ^ 16 → store16 m a (v + w * 65536) ≡ store16 m a v
unfolding store16 store8
store16_low m a v w h = fun_ext (λ b. ground arith)

-- A word is stored as its two halves.
store32-halves :
    (m : Memory) (a v w : ℕ)
    → v < 2 ^ 16
    → store32 m a (v + w * 65536) ≡ store16 (store16 m a v) (a + 2) w
unfolding store32
store32-halves m a v w h = ap₂ (λ n k. store16 n (a + 2) k) (store16_low m a v w h) (omega arith)

-- A jump of four halfwords, read as two words.
pub load32-store_halfwords :
    (m : Memory) (a v w x y : ℕ)
    → v < 2 ^ 16
    → w < 2 ^ 16
    → x < 2 ^ 16
    → y < 2 ^ 16
    → (load32 (store_halfwords m a (v ∷ w ∷ x ∷ y ∷ [])) a ≡ v + w * 65536)
      × (load32 (store_halfwords m a (v ∷ w ∷ x ∷ y ∷ [])) (a + 4) ≡ x + y * 65536)
load32-store_halfwords m a v w x y p q r s =
    rw as_words (load32-store_words m a (v + w * 65536) (x + y * 65536) (omega arith) (omega arith))
  where
    as_words :
        store_halfwords m a (v ∷ w ∷ x ∷ y ∷ [])
        ≡ store_words m a ((v + w * 65536) ∷ (x + y * 65536) ∷ [])
    as_words =
        unfold store_halfwords store_words in
        rw
          (
            store32-halves m a v w p,
            store32-halves (store16 (store16 m a v) (a + 2) w) (a + 4) x y r,
          )
          (ap (λ k. store16 (store16 (store16 (store16 m a v) (a + 2) w) k x) (k + 2) y)
            (omega arith))

-- Writing back what stood there undoes any change inside the range.
pub store_bytes-load_bytes :
    (n : ℕ) (m old : Memory) (a b : ℕ)
    → ((c : ℕ) → old c < 256)
    → (Outside a n b → m b ≡ old b)
    → store_bytes m a (load_bytes old a n) b ≡ old b
unfolding store_bytes load_bytes store8
store_bytes-load_bytes zero m old a b bytes same = same (omega arith)
store_bytes-load_bytes (suc n) m old a b bytes same =
    store_bytes-load_bytes n (store8 m a (old a)) old (a + 1) b bytes
      (λ o. ground (arith, bytes a, same))

pub length-load_bytes : (m : Memory) (a n : ℕ) → length (load_bytes m a n) ≡ n
unfolding load_bytes
length-load_bytes m a zero = refl
length-load_bytes m a (suc n) = omega (arith, length-load_bytes m (a + 1) n)
