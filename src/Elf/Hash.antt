-- ===== src/Elf/Hash.antt =====
-- xh_elf_hash and xh_elf_gnu_hash, on the bytes of a name before its end.
pub mod Polynomial
use elf_hook_test.Base.{ℕ, ◌+◌, ◌*◌, ◌%◌, ◌^◌, List, [], ◌∷◌, bit_and, bit_xor, shl32, ◌>>>◌, add32}

unfoldable pub elf_hash_loop : ℕ → List ℕ → ℕ
elf_hash_loop h [] = h
elf_hash_loop h (c ∷ name) =
    let h1 = add32 (shl32 h 4) c in
    let g = bit_and h1 0xf0000000 in
    let h2 = bit_xor h1 g in elf_hash_loop (bit_xor h2 (g >>> 24)) name

unfoldable pub elf_hash : List ℕ → ℕ
unfolding elf_hash_loop
elf_hash name = elf_hash_loop 0 name

unfoldable pub gnu_hash_loop : ℕ → List ℕ → ℕ
gnu_hash_loop h [] = h
gnu_hash_loop h (c ∷ name) = gnu_hash_loop (add32 h (add32 (shl32 h 5) c)) name

unfoldable pub gnu_hash : List ℕ → ℕ
unfolding gnu_hash_loop
gnu_hash name = gnu_hash_loop 5381 name
