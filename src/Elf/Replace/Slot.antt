-- ===== src/Elf/Replace/Slot.antt =====
-- What xh_elf_replace_function leaves in memory.
use elf_hook_test.Base.{
  ℕ, ◌+◌, ◌-◌, ◌*◌, ◌/◌, ◌^◌, ◌<◌, ◌≤◌, ◌≡◌, ◌≢◌, ◌⊎◌, inl, inr, refl, ap, sym, ◌∙◌, arith, List,
  [], ◌∷◌, true, Option, none, some, ◌==◌, Bool-cases,
}
use elf_hook_test.Base.Run.{done, ◌>>=◌, Returns}
use elf_hook_test.MemProtect.{Line, Prot, get_addr_protect}
use elf_hook_test.MemProtect.Covered.{Backed, get_mem_protect-Backed}
use elf_hook_test.Elf.Image.{Code, good, segverr, refused}
use elf_hook_test.Elf.Replace.{
  Process, Kernel, page_start, page_cover, set_addr_protect, permits, load_slot, update, save_old,
  need_prot, same_prot, swap_slot, replace_under, replace_function,
}

-- What mprotect is documented to do: where it succeeds, each page of the range has the permissions.
abbrev pub Protects : Kernel → Type 0
Protects k =
    (ls ls' : List Line) (start len a : ℕ) (prot : Prot)
    → k.mprotect ls start len prot ≡ some ls'
    → start ≤ a
    → a < start + len
    → (permits (λ l. l.r) ls' a ≡ prot.read) × (permits (λ l. l.w) ls' a ≡ prot.write)

-- No assignment was made, or both were: the slot holds the new function, the caller's variable the
-- old one, and all else is as it was.
pub record IsReplaced (addr new_func : ℕ) (old_func : Option ℕ) (p : Process) (r : Code × Process)
    : Type 0 where
  pub slot : r.0 ≡ good → r.1.slots addr ≡ new_func
  pub failed : r.0 ≢ good → (a : ℕ) → r.1.slots a ≡ p.slots a
  pub others : (a : ℕ) → a ≢ addr → old_func ≢ some a → r.1.slots a ≡ p.slots a
  pub old :
      (o : ℕ)
      → old_func ≡ some o
      → o ≢ addr
      → (r.1.slots o ≡ p.slots o) ⊎ ((r.1.slots o ≡ p.slots addr) × (p.slots addr ≢ new_func))
  pub saved :
      r.0 ≡ good
      → p.slots addr ≢ new_func
      → (o : ℕ) → old_func ≡ some o
      → o ≢ addr
      → r.1.slots o ≡ p.slots addr
  pub already : p.slots addr ≡ new_func → (a : ℕ) → r.1.slots a ≡ p.slots a

permits_write :
    (ls : List Line) (a : ℕ) (q : Prot)
    → Backed ls a q
    → q.write ≡ true
    → permits (λ l. l.w) ls a ≡ true
permits_write [] a q h w = absurd h
permits_write (l ∷ ls) a q (inl h) w = ground arith
permits_write (l ∷ ls) a q (inr h) w = ground (arith, permits_write ls a q h w)

-- Where the page may be written, both assignments are made.
swap_slot_lem :
    (p : Process) (addr new_func : ℕ) (old_func : Option ℕ)
    → permits (λ l. l.r) p.lines addr ≡ true
    → permits (λ l. l.w) p.lines addr ≡ true
    → swap_slot p addr new_func old_func
      ≡ done (record (save_old p old_func (p.slots addr)) {
        slots = update (save_old p old_func (p.slots addr)).slots addr new_func;
      })
unfolding swap_slot
swap_slot_lem p addr new_func none r w = rw (r, w) refl
swap_slot_lem p addr new_func (some o) r w = rw (r, w) refl

swapped :
    (p q : Process) (addr new_func : ℕ) (old_func : Option ℕ) (ls : List Line)
    → ((a : ℕ) → q.slots a ≡ p.slots a)
    → p.slots addr ≢ new_func
    → IsReplaced addr new_func old_func p (
      good,
      record {
        slots = update (save_old q old_func (q.slots addr)).slots addr new_func;
        lines = ls;
      },
    )
swapped p q addr new_func none ls same fresh = record {
  slot = λ g. ground arith;
  failed = λ b a. absurd (b refl);
  others = λ a ne s. ground (arith, same a);
  old = λ o e ne. cc;
  saved = λ g ne o e. absurd cc;
  already = λ e. absurd (fresh e);
}
swapped p q addr new_func (some o) ls same fresh = record {
  slot = λ g. ground arith;
  failed = λ b a. absurd (b refl);
  others = λ a ne s. ground (arith, same a);
  old = λ x e ne. ground (arith, same addr);
  saved = λ g f x e ne. ground (arith, same addr);
  already = λ e. absurd (fresh e);
}

-- The permissions that are found cover the slot.
found_permits :
    (k : Kernel) (p : Process) (addr : ℕ) (q : Prot)
    → 0 < k.bits / 8
    → addr + k.bits / 8 < 2 ^ k.bits
    → get_addr_protect k.bits p.lines addr ≡ some q
    → q.write ≡ true
    → permits (λ l. l.w) p.lines addr ≡ true
unfolding get_addr_protect
found_permits k p addr q pos fits h w =
    permits_write p.lines addr q
      (get_mem_protect-Backed k.bits p.lines addr (k.bits / 8) addr q fits h (omega arith)
        (omega arith))
      w

in_page_of :
    (n a : ℕ)
    → 0 < n
    → (a / 4096 * 4096 ≤ a)
      × (a < a / 4096 * 4096 + ((a + n - 1) / 4096 * 4096 + 4096 - a / 4096 * 4096))
in_page_of n a pos = omega arith

in_page : (bits a : ℕ) → 0 < bits / 8 → (page_start a ≤ a) × (a < page_start a + page_cover bits a)
in_page bits a pos = in_page_of (bits / 8) a pos

untouched :
    (addr new_func : ℕ) (old_func : Option ℕ) (p : Process) (c : Code)
    → (c ≡ good → p.slots addr ≡ new_func)
    → IsReplaced addr new_func old_func p (c, p)
untouched addr new_func old_func p c already = record {
  slot = already;
  failed = λ b a. refl;
  others = λ a ne s. refl;
  old = λ o e ne. inl refl;
  saved = λ g ne. absurd (ne (already g));
  already = λ e a. refl;
}

same_slots :
    (addr new_func : ℕ) (old_func : Option ℕ) (p q q' : Process)
    → q'.slots ≡ q.slots
    → IsReplaced addr new_func old_func p (good, q)
    → IsReplaced addr new_func old_func p (good, q')
same_slots addr new_func old_func p q q' e h = record {
  slot = λ g. ap (λ f. f addr) e ∙ h.slot g;
  failed = λ b a. absurd (b refl);
  others = λ a ne s. ap (λ f. f a) e ∙ h.others a ne s;
  old = λ o s ne. rw (ap (λ f. f o) e) (h.old o s ne);
  saved = λ g f o s ne. ap (λ f. f o) e ∙ h.saved g f o s ne;
  already = λ s a. ap (λ f. f a) e ∙ h.already s a;
}

after_protect :
    (p : Process) (o : Option (List Line)) (p' : Process)
    → elim o [ none ↦ none | some lines ↦ some (record p { lines = lines }) ] ≡ some p'
    → (p'.slots ≡ p.slots) × (o ≡ some p'.lines)
after_protect p none p' h = cc
after_protect p (some ls) p' h =
    let e : record p { lines = ls } ≡ p' = cc in
    (sym (ap (λ q. q.slots) e), ap (λ q. some q.lines) e)

pub set_addr_protect_lem :
    (k : Kernel) (p p' : Process) (a : ℕ) (q : Prot)
    → set_addr_protect k p a q ≡ some p'
    → (p'.slots ≡ p.slots)
      × (k.mprotect p.lines (page_start a) (page_cover k.bits a) q ≡ some p'.lines)
unfolding set_addr_protect
set_addr_protect_lem k p p' a q h =
    after_protect p (k.mprotect p.lines (page_start a) (page_cover k.bits a) q) p' h

module _ (k : Kernel) (law : Protects k) (addr new_func : ℕ) (old_func : Option ℕ)
    (pos : 0 < k.bits / 8) where
  restored :
      (p q : Process) (o : Option Process)
      → IsReplaced addr new_func old_func p (good, q)
      → ((q' : Process) → o ≡ some q' → q'.slots ≡ q.slots)
      → Returns
          (elim o [ none ↦ done (good, q) | some q' ↦ done (good, q') ])
          (IsReplaced addr new_func old_func p)
  restored p q none h same = h
  restored p q (some q') h same = same_slots addr new_func old_func p q q' (same q' refl) h

  under_new :
      (p : Process) (old_prot : Prot) (o : Option Process)
      → p.slots addr ≢ new_func
      → set_addr_protect k p addr need_prot ≡ o
      → Returns
          (elim o [
            | none ↦ done (refused, p)
            | some p1 ↦ swap_slot p1 addr new_func old_func >>= λ p2.
                elim (set_addr_protect k p2 addr old_prot) [
                  | none ↦ done (good, p2)
                  | some p3 ↦ done (good, p3)
                ]
          ])
          (IsReplaced addr new_func old_func p)
  under_new p old_prot none fresh e = untouched addr new_func old_func p refused (λ c. cc)
  under_new p old_prot (some p1) fresh e =
      let (slots, lines) = set_addr_protect_lem k p p1 addr need_prot e in
      let (below, above) = in_page k.bits addr pos in
      let (r, w) =
        law p.lines p1.lines (page_start addr) (page_cover k.bits addr) addr need_prot lines below
          above in
      rw (swap_slot_lem p1 addr new_func old_func r w) (
        restored p _ (set_addr_protect k _ addr old_prot)
          (swapped p p1 addr new_func old_func (save_old p1 old_func (p1.slots addr)).lines
            (λ a. ap (λ f. f a) slots) fresh)
          (λ q' e'. (set_addr_protect_lem k _ q' addr old_prot e').0))

  under_same :
      (p : Process)
      → p.slots addr ≢ new_func
      → permits (λ l. l.r) p.lines addr ≡ true
      → permits (λ l. l.w) p.lines addr ≡ true
      → Returns
          (swap_slot p addr new_func old_func >>= λ p'. done (good, p'))
          (IsReplaced addr new_func old_func p)
  under_same p fresh r w = rw (swap_slot_lem p addr new_func old_func r w) (
      swapped p p addr new_func old_func (save_old p old_func (p.slots addr)).lines (λ a. refl)
        fresh)

  under :
      (p : Process) (old_prot : Prot)
      → p.slots addr ≢ new_func
      → permits (λ l. l.r) p.lines addr ≡ true
      → (old_prot.write ≡ true → permits (λ l. l.w) p.lines addr ≡ true)
      → Returns
          (replace_under k p addr new_func old_func old_prot)
          (IsReplaced addr new_func old_func p)
  unfolding replace_under
  under p old_prot fresh r w = elim (Bool-cases (same_prot old_prot need_prot)) [
    | inl same ↦ rw same (under_same p fresh r (w (ground arith)))
    | inr differ ↦ rw differ (under_new p old_prot (set_addr_protect k p addr need_prot) fresh refl)
  ]

  under_found :
      (p : Process) (o : Option Prot)
      → addr + k.bits / 8 < 2 ^ k.bits
      → p.slots addr ≢ new_func
      → permits (λ l. l.r) p.lines addr ≡ true
      → get_addr_protect k.bits p.lines addr ≡ o
      → Returns
          (elim o [
            | none ↦ done (segverr, p)
            | some q ↦ replace_under k p addr new_func old_func q
          ])
          (IsReplaced addr new_func old_func p)
  under_found p none fits fresh r e = untouched addr new_func old_func p segverr (λ c. cc)
  under_found p (some q) fits fresh r e = under p q fresh r (found_permits k p addr q pos fits e)

  -- xh_elf_replace_function on a slot that may be read and does not lie at the end of the address
  -- space, where mprotect keeps its word, comes to an end without touching memory that it may not:
  -- with 0 the slot holds the new function and the caller's variable what the slot held, unless that was
  -- the new function already: then, and with an error, nothing has changed. No other slot changes.
  pub replace_function-IsReplaced :
      (p : Process)
      → addr + k.bits / 8 < 2 ^ k.bits
      → permits (λ l. l.r) p.lines addr ≡ true
      → Returns (replace_function k p addr new_func old_func) (IsReplaced addr new_func old_func p)
  unfolding replace_function load_slot
  replace_function-IsReplaced p fits r = elim (Bool-cases (p.slots addr == new_func)) [
    | inl already ↦ rw (r, already) (untouched addr new_func old_func p good (λ g. ground arith))
    | inr fresh ↦
        rw (r, fresh)
          (under_found p (get_addr_protect k.bits p.lines addr) fits (ground arith) r refl)
  ]
