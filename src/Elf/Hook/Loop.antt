-- ===== src/Elf/Hook/Loop.antt =====
-- What one loop of xh_elf_hook does to the slots.
use elf_hook_test.Base.{
  ℕ, zero, suc, ◌/◌, ◌<◌, ◌≡◌, ◌≢◌, ◌⊎◌, inl, inr, refl, ◌∙◌, arith, List, [], ◌∷◌, Bool, true,
  false, Option, none, some, ◌==◌, ltb, ◌&&◌, Bool-cases, if◌then◌else◌, All, ◌++◌,
}
use elf_hook_test.Base.Run.{Run, done, ◌>>=◌, Returns}
use elf_hook_test.Base.Run.Laws.{>>=-Returns, Returns_mono}
use elf_hook_test.MemProtect.{Line}
use elf_hook_test.Elf.Packed.{Relocation}
use elf_hook_test.Elf.Image.{Code, good, inval, format, not_inited, segverr, refused, Elf}
use elf_hook_test.Elf.Replace.{Process, Kernel, replace_function}
use elf_hook_test.Elf.Replace.Slot.{Protects, IsReplaced, replace_function-IsReplaced}
use elf_hook_test.Elf.Replace.Readable.{IsReadable, Returns-Leaves, replace_function-lines}
use elf_hook_test.Elf.Hook.{Arch, is_good, is_wanted, target, find_and_replace_func, replace_all}

-- The relocations that an iterator gives in `fuel` rounds, and whether it comes to its end.
module _ {It : Type 0} (next : It → Option Relocation × It) where
  abbrev pub yields : ℕ → It → List Relocation
  yields zero it = []
  yields (suc fuel) it = elim (next it).0 [ none ↦ [] | some r ↦ r ∷ yields fuel (next it).1 ]

  abbrev pub ends : ℕ → It → Bool
  ends zero it = false
  ends (suc fuel) it = elim (next it).0 [ none ↦ true | some r ↦ ends fuel (next it).1 ]

  -- An iterator on which a number falls ends.
  ends_by :
      (o : Option Relocation) (b : Bool)
      → (o ≡ none) ⊎ (b ≡ true)
      → elim o [ none ↦ true | some r ↦ b ] ≡ true
  ends_by none b h = refl
  ends_by (some r) b (inl h) = cc
  ends_by (some r) b (inr h) = h

  pub ends-measure :
      (left : It → ℕ)
      → ((it : It) → ((next it).0 ≡ none) ⊎ (left (next it).1 < left it))
      → (fuel : ℕ) (it : It) → left it < fuel
      → ends fuel it ≡ true
  ends-measure left falls zero it lt = absurd (omega arith)
  ends-measure left falls (suc fuel) it lt =
      ends_by (next it).0 (ends fuel (next it).1) (elim (falls it) [
        | inl e ↦ inl e
        | inr less ↦ inr (ends-measure left falls fuel (next it).1 (omega arith))
      ])

-- The relocations that a loop replaces: all that are wanted, or the first.
abbrev pub due : (Relocation → Bool) → Bool → List Relocation → List Relocation
due wanted stops [] = []
due wanted stops (r ∷ rs) =
    if wanted r then r ∷ (if stops then [] else due wanted stops rs) else due wanted stops rs

-- With 0 the slots at the addresses `hit` hold the new function. No slot but these and the caller's
-- variable has changed, and a variable that did not hold the new function does not hold it now.
pub record IsHooked (hit : List ℕ) (new_func : ℕ) (old_func : Option ℕ) (p : Process)
    (r : Code × Process) : Type 0 where
  pub slots : r.0 ≡ good → All (λ a. r.1.slots a ≡ new_func) hit
  pub kept : (a : ℕ) → p.slots a ≡ new_func → old_func ≢ some a → r.1.slots a ≡ new_func
  pub others : (a : ℕ) → All (λ b. a ≢ b) hit → old_func ≢ some a → r.1.slots a ≡ p.slots a
  pub old :
      (o : ℕ)
      → old_func ≡ some o
      → All (λ b. o ≢ b) hit
      → p.slots o ≢ new_func
      → r.1.slots o ≢ new_func

-- Facts on `All`.
module _ {A : Type 0} (P : A → Type 0) where
  All-append : (xs ys : List A) → All P xs → All P ys → All P (xs ++ ys)
  All-append [] ys h k = k
  All-append (x ∷ xs) ys h k = (h.0, All-append xs ys h.1 k)

  All-left : (xs ys : List A) → All P (xs ++ ys) → All P xs
  All-left [] ys h = tt
  All-left (x ∷ xs) ys h = (h.0, All-left xs ys h.1)

  All-right : (xs ys : List A) → All P (xs ++ ys) → All P ys
  All-right [] ys h = h
  All-right (x ∷ xs) ys h = All-right xs ys h.1

  All-map :
      (Q R : A → Type 0) (xs : List A)
      → ((x : A) → P x → Q x → R x)
      → All P xs
      → All Q xs
      → All R xs
  All-map Q R [] f h k = tt
  All-map Q R (x ∷ xs) f h k = (f x h.0 k.0, All-map Q R xs f h.1 k.1)

pub good_or : (c : Code) → (c ≡ good) ⊎ (c ≢ good)
good_or good = inl refl
good_or inval = inr (λ e. cc)
good_or format = inr (λ e. cc)
good_or not_inited = inr (λ e. cc)
good_or segverr = inr (λ e. cc)
good_or refused = inr (λ e. cc)

pub nothing-IsHooked :
    (new_func : ℕ) (old_func : Option ℕ) (p : Process) (c : Code)
    → IsHooked [] new_func old_func p (c, p)
nothing-IsHooked new_func old_func p c = record {
  slots = λ g. tt;
  kept = λ a h ne. h;
  others = λ a h ne. refl;
  old = λ o e h ne. ne;
}

one-IsHooked :
    (addr new_func : ℕ) (old_func : Option ℕ) (p : Process) (r : Code × Process)
    → IsReplaced addr new_func old_func p r
    → IsHooked (addr ∷ []) new_func old_func p r
one-IsHooked addr new_func old_func p r h = record {
  slots = λ g. (h.slot g, tt);
  kept = λ a e ne. elim (Bool-cases (a == addr)) [
    | inl same ↦ elim (good_or r.0) [ inl g ↦ ground (arith, h.slot g) | inr b ↦ h.failed b a ∙ e ]
    | inr differ ↦ h.others a (ground arith) ne ∙ e
  ];
  others = λ a ne s. h.others a ne.0 s;
  old = λ o e ne fresh. ground (arith, h.old o e ne.0);
}

-- One part after another, where the first came out with 0.
pub IsHooked-then :
    (hit more : List ℕ) (new_func : ℕ) (old_func : Option ℕ) (p q : Process) (r : Code × Process)
    → All (λ a. old_func ≢ some a) hit
    → IsHooked hit new_func old_func p (good, q)
    → IsHooked more new_func old_func q r
    → IsHooked (hit ++ more) new_func old_func p r
IsHooked-then hit more new_func old_func p q r apart h k = record {
  slots = λ g.
      All-append (λ a. r.1.slots a ≡ new_func) hit more
        (All-map (λ a. old_func ≢ some a) (λ a. q.slots a ≡ new_func) (λ a. r.1.slots a ≡ new_func)
          hit (λ a ne e. k.kept a e ne) apart (h.slots refl))
        (k.slots g);
  kept = λ a e ne. k.kept a (h.kept a e ne) ne;
  others = λ a ne s.
      k.others a (All-right (λ b. a ≢ b) hit more ne) s
      ∙ h.others a (All-left (λ b. a ≢ b) hit more ne) s;
  old = λ o e ne fresh.
      k.old o e (All-right (λ b. o ≢ b) hit more ne)
        (h.old o e (All-left (λ b. o ≢ b) hit more ne) fresh);
}

-- An error ends a loop: what comes behind is left alone.
pub IsHooked-stop :
    (hit more : List ℕ) (new_func : ℕ) (old_func : Option ℕ) (p : Process) (r : Code × Process)
    → r.0 ≢ good
    → IsHooked hit new_func old_func p r
    → IsHooked (hit ++ more) new_func old_func p r
IsHooked-stop hit more new_func old_func p r bad h = record {
  slots = λ g. absurd (bad g);
  kept = h.kept;
  others = λ a ne. h.others a (All-left (λ b. a ≢ b) hit more ne);
  old = λ o e ne. h.old o e (All-left (λ b. o ≢ b) hit more ne);
}

abbrev pub targets : Kernel → Elf → List Relocation → List ℕ
targets k self [] = []
targets k self (r ∷ rs) = target k self r ∷ targets k self rs

pub is_good-bad : (c : Code) → c ≢ good → is_good c ≡ false
is_good-bad good h = absurd (h refl)
is_good-bad inval h = refl
is_good-bad format h = refl
is_good-bad not_inited h = refl
is_good-bad segverr h = refl
is_good-bad refused h = refl

and_false : (b : Bool) → (b && false) ≡ false
and_false true = refl
and_false false = refl

module _ (m : Arch) (k : Kernel) (self : Elf) (new_func : ℕ) (old_func : Option ℕ) (symidx : ℕ)
    (law : Protects k) (pos : 0 < k.bits / 8) (T : ℕ → Type 0) (S : List Line → Type 0)
    (readable : IsReadable k T S) where
  Found : Relocation → Process → Code × Bool × Process → Type 0
  Found r p q =
      IsHooked (target k self r ∷ []) new_func old_func p (q.0, q.2) × S q.2.lines × (q.1 ≡ true)

  find-Found :
      (is_plt : Bool) (r : Relocation) (p : Process)
      → is_wanted m is_plt symidx r ≡ true
      → T (target k self r)
      → S p.lines
      → Returns (find_and_replace_func m k self new_func old_func symidx is_plt r p) (Found r p)
  unfolding find_and_replace_func Found
  find-Found is_plt r p wanted t s = elim (Bool-cases (ltb (target k self r) self.base_addr)) [
    | inl low ↦
        rw (wanted, low)
          (
            IsHooked-stop [] (target k self r ∷ []) new_func old_func p (format, p) (λ e. cc)
                (nothing-IsHooked new_func old_func p format),
            s,
            refl,
          )
    | inr high ↦
        rw (wanted, high)
          (>>=-Returns (λ q. IsReplaced (target k self r) new_func old_func p q × S q.1.lines) _
            (replace_function k p (target k self r) new_func old_func) _
            (Returns-Leaves _ _ _
              (replace_function-IsReplaced k law (target k self r) new_func old_func pos p
                (readable.fits (target k self r) t) (readable.reads p.lines (target k self r) s t))
              (replace_function-lines k T S readable (target k self r) new_func old_func t p s))
            (λ q h. (one-IsHooked (target k self r) new_func old_func p q h.0, h.1, refl)))
  ]

  find-unwanted :
      (is_plt : Bool) (r : Relocation) (p : Process)
      → is_wanted m is_plt symidx r ≡ false
      → find_and_replace_func m k self new_func old_func symidx is_plt r p ≡ done (good, false, p)
  unfolding find_and_replace_func
  find-unwanted is_plt r p h = rw h refl

  -- What a loop leaves, for the relocations `rs` that are due.
  abbrev pub Hooks : List Relocation → Process → Code × Process → Type 0
  Hooks rs p r = IsHooked (targets k self rs) new_func old_func p r × S r.1.lines

  -- The slots of relocations: in pages that can be read, and none is the caller's variable.
  abbrev pub Apart : List Relocation → Type 0
  Apart rs = All T (targets k self rs) × All (λ a. old_func ≢ some a) (targets k self rs)

  -- What follows one call of xh_elf_find_and_replace_func for a relocation that is wanted: an
  -- error, the end, or the rest of the loop.
  module _ (r : Relocation) (rs : List Relocation) (p : Process) where
    after_bad :
        (stops : Bool) (y : Run (Code × Process)) (c : Code) (f : Bool) (p2 : Process)
        → c ≢ good
        → Found r p (c, f, p2)
        → Returns (if is_good c then y else done (c, p2)) (Hooks (r ∷ (if stops then [] else rs)) p)
    unfolding Found
    after_bad stops y c f p2 bad h = rw (is_good-bad c bad) (
      IsHooked-stop (target k self r ∷ []) (targets k self (if stops then [] else rs)) new_func
          old_func p (c, p2) bad h.0,
      h.1,
    )

    after_good :
        (stops : Bool) (loop : Run (Code × Process)) (f : Bool) (p2 : Process)
        → (S p2.lines → Apart rs → Returns loop (Hooks rs p2))
        → Apart (r ∷ (if stops then [] else rs))
        → Found r p (good, f, p2)
        → Returns
            (elim (stops && f) [ true ↦ done (good, p2) | false ↦ loop ])
            (Hooks (r ∷ (if stops then [] else rs)) p)
    unfolding Found
    after_good true loop true p2 ih apart h = (h.0, h.1)
    after_good true loop false p2 ih apart h = cc (h.2)
    after_good false loop f p2 ih apart h =
        Returns_mono (Hooks rs p2) (Hooks (r ∷ rs) p) loop (ih h.1 (apart.0.1, apart.1.1)) (λ q hq.
          (
            IsHooked-then (target k self r ∷ []) (targets k self rs) new_func old_func p p2 q
                (apart.1.0, tt) h.0 hq.0,
            hq.1,
          ))

    after-Found :
        (stops : Bool) (loop : Process → Run (Code × Process)) (q : Code × Bool × Process)
        → ((p' : Process) → S p'.lines → Apart rs → Returns (loop p') (Hooks rs p'))
        → Apart (r ∷ (if stops then [] else rs))
        → Found r p q
        → Returns
            (if is_good q.0
              then elim (stops && q.1) [ true ↦ done (good, q.2) | false ↦ loop q.2 ]
              else done (q.0, q.2))
            (Hooks (r ∷ (if stops then [] else rs)) p)
    after-Found stops loop (good, f, p2) ih apart h =
        after_good stops (loop p2) f p2 (ih p2) apart h
    after-Found stops loop (inval, f, p2) ih apart h =
        after_bad stops (done (inval, p2)) inval f p2 (λ e. cc) h
    after-Found stops loop (format, f, p2) ih apart h =
        after_bad stops (done (format, p2)) format f p2 (λ e. cc) h
    after-Found stops loop (not_inited, f, p2) ih apart h =
        after_bad stops (done (not_inited, p2)) not_inited f p2 (λ e. cc) h
    after-Found stops loop (segverr, f, p2) ih apart h =
        after_bad stops (done (segverr, p2)) segverr f p2 (λ e. cc) h
    after-Found stops loop (refused, f, p2) ih apart h =
        after_bad stops (done (refused, p2)) refused f p2 (λ e. cc) h

  module _ (is_plt stops : Bool) where
    abbrev wanted : Relocation → Bool
    wanted r = is_wanted m is_plt symidx r

    by_next :
        (o : Option Relocation) (rest : List Relocation) (loop : Process → Run (Code × Process))
        (p : Process) (b : Bool)
        → (b ≡ true
            → (p' : Process) → S p'.lines
            → Apart (due wanted stops rest)
            → Returns (loop p') (Hooks (due wanted stops rest) p'))
        → elim o [ none ↦ true | some r ↦ b ] ≡ true
        → S p.lines
        → Apart (due wanted stops (elim o [ none ↦ [] | some r ↦ r ∷ rest ]))
        → Returns
            (elim o [
              | none ↦ done (good, p)
              | some r ↦ find_and_replace_func m k self new_func old_func symidx is_plt r p >>= λ q.
                  (if is_good q.0
                    then elim (stops && q.1) [ true ↦ done (good, q.2) | false ↦ loop q.2 ]
                    else done (q.0, q.2))
            ])
            (Hooks (due wanted stops (elim o [ none ↦ [] | some r ↦ r ∷ rest ])) p)
    by_next none rest loop p b ih h s apart = (nothing-IsHooked new_func old_func p good, s)
    by_next (some r) rest loop p b ih h s apart = elim (Bool-cases (wanted r)) [
      | inl hit ↦ rw hit (
          >>=-Returns (Found r p) (Hooks (r ∷ (if stops then [] else due wanted stops rest)) p)
            (find_and_replace_func m k self new_func old_func symidx is_plt r p) _
            (find-Found is_plt r p hit (rw hit at apart).0.0 s)
            (λ q found.
              after-Found r (due wanted stops rest) p stops loop q (ih h) (rw hit at apart) found))
      | inr miss ↦
          rw (miss, find-unwanted is_plt r p miss, and_false stops) (ih h p s (rw miss at apart))
    ]

    module _ {It : Type 0} (next : It → Option Relocation × It) where
      pub replace_all-Hooks :
          (fuel : ℕ) (it : It) (p : Process)
          → ends next fuel it ≡ true
          → S p.lines
          → Apart (due wanted stops (yields next fuel it))
          → Returns
              (replace_all m k self new_func old_func symidx next is_plt stops fuel it p)
              (Hooks (due wanted stops (yields next fuel it)) p)
      unfolding replace_all
      replace_all-Hooks zero it p h s apart = cc
      replace_all-Hooks (suc fuel) it p h s apart =
          by_next (next it).0 (yields next fuel (next it).1)
            (replace_all m k self new_func old_func symidx next is_plt stops fuel (next it).1) p
            (ends next fuel (next it).1)
            (λ e p' s' apart'. replace_all-Hooks fuel (next it).1 p' e s' apart') h s apart
