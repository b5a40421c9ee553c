-- ===== src/MemProtect/Covered.antt =====
-- What a protection that is found says of the range.
use elf_hook_test.Base.{
  ℕ, ◌+◌, ◌%◌, ◌^◌, ◌<◌, ◌≤◌, ◌≡◌, ◌⊎◌, inl, inr, refl, subst, arith, List, [], ◌∷◌, Bool, true,
  false, some, leb, ltb, ltb→lt, Bool-cases,
}
use native.Mathlib.Nat.{mod-eq_of_lt}
use elf_hook_test.MemProtect.{Line, Prot, is_used, narrow, protect_loop, get_mem_protect}

-- Every permission of `p` is one of the line.
abbrev pub Allows : Line → Prot → Type 0
Allows l p =
    (p.read ≡ true → l.r ≡ true) × (p.write ≡ true → l.w ≡ true) × (p.exec ≡ true → l.x ≡ true)

-- Some private line of the list that is asked for holds the address and allows `p`.
abbrev pub Backed : List Line → ℕ → Prot → Type 0
Backed [] a p = ⊥
Backed (l ∷ ls) a p =
    ((l.private ≡ true) × (l.matches ≡ true) × (l.start ≤ a) × (a < l.stop) × Allows l p)
    ⊎ Backed ls a p

abbrev Below : Prot → Prot → Type 0
Below q p =
    (q.read ≡ true → p.read ≡ true)
    × (q.write ≡ true → p.write ≡ true)
    × (q.exec ≡ true → p.exec ≡ true)

protect_loop-Below :
    (e : ℕ) (ls : List Line) (a : ℕ) (p q : Prot) → protect_loop e ls a false p ≡ some q → Below q p
unfolding protect_loop
protect_loop-Below e [] a p q h = cc
protect_loop-Below e (l ∷ ls) a p q h =
    ground
      (arith, protect_loop-Below e ls l.stop (narrow false p l) q, protect_loop-Below e ls a p q)

narrow-Allows :
    (l : Line) (load0 : Bool) (p q : Prot)
    → (load0 ≡ true → (p.read ≡ false) × (p.write ≡ false) × (p.exec ≡ false))
    → Below q (narrow load0 p l)
    → Allows l q
narrow-Allows l true p q start h = ground (arith, start refl)
narrow-Allows l false p q start h = ground arith

-- The line holds the address, or the address is past the line.
line-Backed :
    (l : Line) (ls : List Line) (a b : ℕ) (load0 : Bool) (p q : Prot)
    → is_used l a ≡ true
    → (load0 ≡ true → (p.read ≡ false) × (p.write ≡ false) × (p.exec ≡ false))
    → Below q (narrow load0 p l)
    → a ≤ b
    → b < l.stop
    → Backed (l ∷ ls) b q
line-Backed l ls a b load0 p q used start below lo hi =
    ground (arith, narrow-Allows l load0 p q start below)

protect_loop-last :
    (e : ℕ) (l : Line) (ls : List Line) (a : ℕ) (load0 : Bool) (p q : Prot)
    → is_used l a ≡ true
    → leb e l.stop ≡ true
    → protect_loop e (l ∷ ls) a load0 p ≡ some q
    → narrow load0 p l ≡ q
unfolding protect_loop
protect_loop-last e l ls a load0 p q used c h = ground arith

protect_loop-next :
    (e : ℕ) (l : Line) (ls : List Line) (a : ℕ) (load0 : Bool) (p q : Prot)
    → is_used l a ≡ true
    → leb e l.stop ≡ false
    → protect_loop e (l ∷ ls) a load0 p ≡ some q
    → protect_loop e ls l.stop false (narrow load0 p l) ≡ some q
unfolding protect_loop
protect_loop-next e l ls a load0 p q used c h = ground arith

protect_loop-skip :
    (e : ℕ) (l : Line) (ls : List Line) (a : ℕ) (load0 : Bool) (p q : Prot)
    → is_used l a ≡ false
    → protect_loop e (l ∷ ls) a load0 p ≡ some q
    → protect_loop e ls a load0 p ≡ some q
unfolding protect_loop
protect_loop-skip e l ls a load0 p q unused h = ground arith

Below-refl : (p : Prot) → Below p p
Below-refl p = (λ h. h, λ h. h, λ h. h)

-- Where a line is used: what is found is below it, and the line ends the range or the loop goes on.
protect_loop-used :
    (e : ℕ) (l : Line) (ls : List Line) (a : ℕ) (load0 : Bool) (p q : Prot)
    → is_used l a ≡ true
    → protect_loop e (l ∷ ls) a load0 p ≡ some q
    → Below q (narrow load0 p l)
      × ((e ≤ l.stop) ⊎ (protect_loop e ls l.stop false (narrow load0 p l) ≡ some q))
protect_loop-used e l ls a load0 p q used h = elim (Bool-cases (leb e l.stop)) [
  | inl c ↦ (
    subst (λ x. Below x (narrow load0 p l)) (protect_loop-last e l ls a load0 p q used c h)
        (Below-refl (narrow load0 p l)),
    inl (ground arith),
  )
  | inr c ↦
      let next = protect_loop-next e l ls a load0 p q used c h in
      (protect_loop-Below e ls l.stop (narrow load0 p l) q next, inr next)
]

protect_loop-Backed :
    (e : ℕ) (ls : List Line) (a : ℕ) (load0 : Bool) (p q : Prot) (b : ℕ)
    → (load0 ≡ true → (p.read ≡ false) × (p.write ≡ false) × (p.exec ≡ false))
    → protect_loop e ls a load0 p ≡ some q
    → a ≤ b
    → b < e
    → Backed ls b q
unfolding protect_loop
protect_loop-Backed e [] a load0 p q b start h lo hi = cc
protect_loop-Backed e (l ∷ ls) a load0 p q b start h lo hi = elim (Bool-cases (is_used l a)) [
  | inl e1 ↦
      let (below, next) = protect_loop-used e l ls a load0 p q e1 h in
      elim (Bool-cases (ltb b l.stop)) [
        | inl c ↦ line-Backed l ls a b load0 p q e1 start below lo (ltb→lt b l.stop c)
        | inr c ↦ inr (elim next [
          | inl ends ↦ ground arith
          | inr h' ↦
              protect_loop-Backed e ls l.stop false (narrow load0 p l) q b (λ c. cc) h'
                (ground arith) hi
        ])
      ]
  | inr e1 ↦ inr (
      protect_loop-Backed e ls a load0 p q b start (protect_loop-skip e l ls a load0 p q e1 h) lo
        hi)
]

-- A protection that xh_util_get_mem_protect reports for a range that does not wrap around holds for
-- the whole range: each of its addresses lies in a private line that matches and has every reported
-- permission.
pub get_mem_protect-Backed :
    (bits : ℕ) (lines : List Line) (addr len a : ℕ) (p : Prot)
    → addr + len < 2 ^ bits
    → get_mem_protect bits lines addr len ≡ some p
    → addr ≤ a
    → a < addr + len
    → Backed lines a p
unfolding get_mem_protect
get_mem_protect-Backed bits lines addr len a p fits h lo hi =
    protect_loop-Backed ((addr + len) % 2 ^ bits) lines addr true _ p a (λ _. (refl, refl, refl)) h
      lo (rw (mod-eq_of_lt fits) hi)
