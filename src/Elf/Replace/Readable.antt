-- ===== src/Elf/Replace/Readable.antt =====
-- The pages of the slots stay readable while they are replaced.
use elf_hook_test.Base.{
  ℕ, ◌+◌, ◌/◌, ◌^◌, ◌<◌, ◌≡◌, refl, List, Bool, true, false, Option, none, some, ◌==◌,
  if◌then◌else◌,
}
use elf_hook_test.Base.Run.{Run, done, fault, out_of_fuel, ◌>>=◌, Returns}
use elf_hook_test.MemProtect.{Line, Prot, get_addr_protect}
use elf_hook_test.Elf.Image.{Code, good, segverr, refused}
use elf_hook_test.Elf.Replace.{
  Process, Kernel, page_start, page_cover, set_addr_protect, permits, load_slot, store_slot,
  save_old, need_prot, same_prot, swap_slot, replace_under, replace_function,
}
use elf_hook_test.Elf.Replace.Slot.{set_addr_protect_lem}

-- A state of the pages, `S`, in which the slots of `T` can be read, and which an mprotect that
-- leaves a page readable keeps.
pub record IsReadable (k : Kernel) (T : ℕ → Type 0) (S : List Line → Type 0) : Type 0 where
  pub fits : (a : ℕ) → T a → a + k.bits / 8 < 2 ^ k.bits
  pub reads : (ls : List Line) (a : ℕ) → S ls → T a → permits (λ l. l.r) ls a ≡ true
  pub reports :
      (ls : List Line) (a : ℕ) (q : Prot)
      → S ls
      → T a
      → get_addr_protect k.bits ls a ≡ some q
      → q.read ≡ true
  pub keeps :
      (ls ls' : List Line) (start len : ℕ) (q : Prot)
      → S ls
      → k.mprotect ls start len q ≡ some ls'
      → q.read ≡ true
      → S ls'

-- `P` holds of what comes out, if anything does.
abbrev pub Leaves {ℓ} : {A : Type ℓ} → (A → Type 0) → Run A → Type 0
Leaves P (done a) = P a
Leaves P fault = Unit
Leaves P out_of_fuel = Unit

Leaves->>= :
    {A B : Type 0} (P : A → Type 0) (Q : B → Type 0) (r : Run A) (f : A → Run B)
    → Leaves P r
    → ((a : A) → P a → Leaves Q (f a))
    → Leaves Q (r >>= f)
Leaves->>= P Q (done a) f h k = k a h
Leaves->>= P Q fault f h k = tt
Leaves->>= P Q out_of_fuel f h k = tt

Leaves-if :
    {A : Type 0} (P : A → Type 0) (b : Bool) (x y : Run A)
    → Leaves P x
    → Leaves P y
    → Leaves P (if b then x else y)
Leaves-if P true x y h k = h
Leaves-if P false x y h k = k

pub Returns-Leaves :
    {A : Type 0} (P Q : A → Type 0) (r : Run A)
    → Returns r P
    → Leaves Q r
    → Returns r (λ a. P a × Q a)
Returns-Leaves P Q (done a) h k = (h, k)
Returns-Leaves P Q fault h k = absurd h
Returns-Leaves P Q out_of_fuel h k = absurd h

module _ (k : Kernel) (T : ℕ → Type 0) (S : List Line → Type 0) (readable : IsReadable k T S)
    (addr new_func : ℕ) (old_func : Option ℕ) (wanted : T addr) where
  abbrev pub Stays : Code × Process → Type 0
  Stays r = S r.1.lines

  save_old-lines : (p : Process) (o : Option ℕ) (v : ℕ) → S p.lines → S (save_old p o v).lines
  save_old-lines p none v s = s
  save_old-lines p (some o) v s = s

  swap_slot-lines :
      (p : Process) → S p.lines → Leaves (λ q. S q.lines) (swap_slot p addr new_func old_func)
  unfolding swap_slot load_slot store_slot
  swap_slot-lines p s =
      Leaves->>= (λ v. Unit) (λ q. S q.lines) (load_slot p addr) _
        (Leaves-if (λ v. Unit) _ (done (p.slots addr)) fault tt tt)
        (λ v _. Leaves-if (λ q. S q.lines) _ (done _) fault (save_old-lines p old_func v s) tt)

  set_addr_protect-lines :
      (p : Process) (q : Prot) (p' : Process)
      → S p.lines
      → q.read ≡ true
      → set_addr_protect k p addr q ≡ some p'
      → S p'.lines
  set_addr_protect-lines p q p' s r e =
      readable.keeps p.lines p'.lines (page_start addr) (page_cover k.bits addr) q s
        (set_addr_protect_lem k p p' addr q e).1 r

  by_restore :
      (p : Process) (o : Option Process)
      → S p.lines
      → ((p' : Process) → o ≡ some p' → S p'.lines)
      → Leaves Stays (elim o [ none ↦ done (good, p) | some p3 ↦ done (good, p3) ])
  by_restore p none s h = s
  by_restore p (some p3) s h = h p3 refl

  by_protect :
      (p : Process) (old_prot : Prot) (o : Option Process)
      → S p.lines
      → old_prot.read ≡ true
      → ((p' : Process) → o ≡ some p' → S p'.lines)
      → Leaves Stays (elim o [
        | none ↦ done (refused, p)
        | some p1 ↦ swap_slot p1 addr new_func old_func >>= λ p2.
            elim (set_addr_protect k p2 addr old_prot) [
              | none ↦ done (good, p2)
              | some p3 ↦ done (good, p3)
            ]
      ])
  by_protect p old_prot none s r h = s
  by_protect p old_prot (some p1) s r h =
      Leaves->>= (λ q. S q.lines) Stays (swap_slot p1 addr new_func old_func) _
        (swap_slot-lines p1 (h p1 refl))
        (λ p2 s2.
          by_restore p2 (set_addr_protect k p2 addr old_prot) s2
            (λ p' e. set_addr_protect-lines p2 old_prot p' s2 r e))

  by_report :
      (p : Process) (o : Option Prot)
      → S p.lines
      → ((q : Prot) → o ≡ some q → q.read ≡ true)
      → Leaves Stays (elim o [
        | none ↦ done (segverr, p)
        | some q ↦ replace_under k p addr new_func old_func q
      ])
  unfolding replace_under
  by_report p none s h = s
  by_report p (some q) s h =
      Leaves-if Stays (same_prot q need_prot) _ _
        (Leaves->>= (λ p'. S p'.lines) Stays (swap_slot p addr new_func old_func) _
          (swap_slot-lines p s) (λ p' s'. s'))
        (by_protect p q (set_addr_protect k p addr need_prot) s (h q refl)
          (λ p' e. set_addr_protect-lines p need_prot p' s refl e))

  pub replace_function-lines :
      (p : Process) → S p.lines → Leaves Stays (replace_function k p addr new_func old_func)
  unfolding replace_function load_slot
  replace_function-lines p s =
      Leaves->>= (λ v. Unit) Stays (load_slot p addr) _
        (Leaves-if (λ v. Unit) _ (done (p.slots addr)) fault tt tt)
        (λ v _. Leaves-if Stays (v == new_func) _ _ s (
          by_report p (get_addr_protect k.bits p.lines addr) s
            (λ q e. readable.reports p.lines addr q s wanted e)))
