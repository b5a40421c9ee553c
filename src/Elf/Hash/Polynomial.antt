-- ===== src/Elf/Hash/Polynomial.antt =====
-- The GNU hash is a polynomial in 33.
use elf_hook_test.Base.{ℕ, ◌+◌, ◌*◌, ◌%◌, ◌^◌, ◌≡◌, arith, List, [], ◌∷◌, add32, shl32, refl}
use elf_hook_test.Elf.Hash.{gnu_hash_loop, gnu_hash}

-- The value of the bytes as digits in base 33, above `h`, without any limit of width.
abbrev pub base33 : ℕ → List ℕ → ℕ
base33 h [] = h
base33 h (c ∷ name) = base33 (h * 33 + c) name

step_lem : (h c : ℕ) → add32 (h % 2 ^ 32) (add32 (shl32 (h % 2 ^ 32) 5) c) ≡ (h * 33 + c) % 2 ^ 32
step_lem h c = omega arith

gnu_hash_loop_lem :
    (h : ℕ) (name : List ℕ) → gnu_hash_loop (h % 2 ^ 32) name ≡ base33 h name % 2 ^ 32
unfolding gnu_hash_loop
gnu_hash_loop_lem h [] = refl
gnu_hash_loop_lem h (c ∷ name) = rw (step_lem h c) (gnu_hash_loop_lem (h * 33 + c) name)

-- xh_elf_gnu_hash, which shifts and adds with 32-bit wrap-around, is the name's value in base 33
-- above 5381, modulo 2 ^ 32.
pub gnu_hash-base33 : (name : List ℕ) → gnu_hash name ≡ base33 5381 name % 2 ^ 32
unfolding gnu_hash
gnu_hash-base33 name = gnu_hash_loop_lem 5381 name
