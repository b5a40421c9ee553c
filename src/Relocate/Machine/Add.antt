-- ===== src/Relocate/Machine/Add.antt =====
-- What relocateInstructionInArm stores for an ADD of the pc and a register does what the ADD does.
use elf_hook_test.Base.{
  ℕ, ◌+◌, ◌*◌, ◌/◌, ◌^◌, ◌<◌, ◌≡◌, ◌≢◌, ◌==◌, ◌||◌, arith, refl, ap, sym, subst, ◌∙◌, true, false,
  Option, some, none, List, [], ◌∷◌, bit_and, bit_or, add32, sub32, ◌<<<◌, ◌>>>◌, suc,
}
use elf_hook_test.Base.Bits.{bit_and_mask, bit_and_field}
use elf_hook_test.Relocate.{pick_register}
use elf_hook_test.Relocate.Scratch.{pick_register-two}
use elf_hook_test.Relocate.Target.{field}
use elf_hook_test.Relocate.Arm.{relocate_arm}
use elf_hook_test.Relocate.Machine.{
  Machine, Instr, ldr, add_imm, add_reg, push, pop, decode, perform, run, update, Placed,
}
use elf_hook_test.Relocate.Machine.Decode.{
  add_type, decode-skip, decode-load_far, decode-push, decode-pop, decode-add,
}
use elf_hook_test.Relocate.Machine.Literal.{run-suc}

differ : (a b : ℕ) → a ≢ b → (a == b) ≡ false
differ a b h = ground arith

-- The stored words, with the register `r` that they borrow.
abbrev sequence : (r i value : ℕ) → List ℕ
sequence r i value =
    bit_or 0xE52D0004 (r <<< 12)
    ∷ bit_or 0xE59F0008 (r <<< 12)
    ∷ bit_or (bit_and i 0xFFF0FFFF) (r <<< 16)
    ∷ bit_or 0xE49D0004 (r <<< 12)
    ∷ 0xE28FF000
    ∷ value
    ∷ []

pub then_run :
    (n : ℕ) (m m' : Machine) (i : ℕ) (d : Instr)
    → m.words m.pc ≡ i
    → decode i ≡ some d
    → perform d m ≡ m'
    → run (suc n) m ≡ run n m'
then_run n m m' i d at e does = run-suc n m i d at e ∙ ap (run n) does

-- What ADD from the pc does, and what the stored words do: the word below the stack pointer is theirs.
abbrev pub AgreeBut : Machine → (below start : ℕ) → Option Machine → Type 0
AgreeBut s below start none = ⊥
AgreeBut s below start (some t) =
    ((n : ℕ) → t.regs n ≡ s.regs n)
    × ((a : ℕ) → a ≢ below → t.words a ≡ s.words a)
    × (t.pc ≡ add32 start 24)

module _ (m : Machine) (start i rd rm r value : ℕ) (fits : start < 2 ^ 32)
    (sp_fits : m.regs 13 < 2 ^ 32)
    (apart : (j : ℕ) → j < 6 → sub32 (m.regs 13) 4 ≢ add32 start (4 * j)) (r_low : r < 13)
    (r_rd : r ≢ rd) (r_rm : r ≢ rm) (rd_low : rd < 15) (rd_sp : rd ≢ 13) (rm_low : rm < 15)
    (rm_sp : rm ≢ 13) (placed : Placed m start (sequence r i value)) where
  abbrev slot : ℕ
  slot = sub32 (m.regs 13) 4

  -- The states between the instructions.
  abbrev regs1 : ℕ → ℕ
  regs1 = update m.regs 13 slot

  abbrev regs2 : ℕ → ℕ
  regs2 = update regs1 r value

  abbrev regs3 : ℕ → ℕ
  regs3 = update regs2 rd (add32 value (m.regs rm))

  abbrev regs4 : ℕ → ℕ
  regs4 = update (update regs3 13 (add32 slot 4)) r (m.regs r)

  abbrev memory1 : ℕ → ℕ
  memory1 = update m.words slot (m.regs r)

  abbrev at_step : (ℕ → ℕ) → ℕ → Machine
  at_step regs n = record { regs = regs; words = memory1; pc = add32 start n }

  fetched :
      (j c : ℕ) → j < 6 → m.words (add32 start (4 * j)) ≡ c → memory1 (add32 start (4 * j)) ≡ c
  fetched j c lt e = rw (differ (add32 start (4 * j)) slot (λ h. apart j lt (sym h))) e

  push_step : perform (push r) (record m { pc = start }) ≡ at_step regs1 4
  unfolding perform
  push_step = rw (differ r 15 (omega arith)) refl

  next : (n : ℕ) → n < 32 → add32 (add32 start n) 4 ≡ add32 start (n + 4)
  next n h = omega arith

  load_value : memory1 (add32 (add32 (add32 start 4) 8) 8) ≡ value
  load_value = ap memory1 (omega arith) ∙ fetched 5 value (omega arith) (placed 5 value refl)

  load_step : perform (ldr true r 8) (at_step regs1 4) ≡ at_step regs2 8
  unfolding perform
  load_step = rw (differ r 15 (omega arith)) (λ j. record {
    regs = update regs1 r (load_value j);
    words = memory1;
    pc = next 4 (omega arith) j;
  })

  regs2_lem : (regs2 r ≡ value) × (regs2 rm ≡ m.regs rm)
  regs2_lem = ground arith

  add_step : perform (add_reg rd r rm) (at_step regs2 8) ≡ at_step regs3 12
  unfolding perform
  add_step =
      rw (differ rd 15 (omega arith), differ r 15 (omega arith), differ rm 15 (omega arith))
        (λ j. record {
          regs = update regs2 rd (add32 (regs2_lem.0 j) (regs2_lem.1 j));
          words = memory1;
          pc = next 8 (omega arith) j;
        })

  sp_lem : regs3 13 ≡ slot
  sp_lem = ground arith

  slot_lem : memory1 (regs3 13) ≡ m.regs r
  slot_lem = ground (arith, sp_lem)

  pop_step : perform (pop r) (at_step regs3 12) ≡ at_step regs4 16
  unfolding perform
  pop_step = rw (differ r 15 (omega arith)) (λ j. record {
    regs = update (update regs3 13 (add32 (sp_lem j) 4)) r (slot_lem j);
    words = memory1;
    pc = next 12 (omega arith) j;
  })

  skip_step : perform (add_imm true 15 15 0) (at_step regs4 16) ≡ at_step regs4 24
  unfolding perform
  skip_step = ap (λ a. record { regs = regs4; words = memory1; pc = a }) (omega arith)

  code_at :
      (j c n : ℕ)
      → n ≡ 4 * j
      → j < 6
      → m.words (add32 start (4 * j)) ≡ c
      → memory1 (add32 start n) ≡ c
  code_at j c n e lt h = rw e (fetched j c lt h)

  regs_lem : (n : ℕ) → regs4 n ≡ update m.regs rd (add32 value (m.regs rm)) n
  regs_lem n = ground arith

  module _ (word : i < 2 ^ 32) (top : i / 65536 ≡ 0xE08F) (plain : field 4 8 i ≡ 0)
      (d_lem : field 12 4 i ≡ rd) (m_lem : field 0 4 i ≡ rm) where
    add_decoded : decode (bit_or (bit_and i 0xFFF0FFFF) (r <<< 16)) ≡ some (add_reg rd r rm)
    add_decoded = rw (d_lem, m_lem) at (decode-add i r (omega arith) top plain)

    sequence-run : run 5 (record m { pc = start }) ≡ some (at_step regs4 24)
    unfolding run
    sequence-run =
        then_run 4 (record m { pc = start }) (at_step regs1 4) _ (push r)
          (ap m.words (omega arith) ∙ placed 0 _ refl) (decode-push r (omega arith)) push_step
        ∙ then_run 3 (at_step regs1 4) (at_step regs2 8) _ (ldr true r 8)
            (code_at 1 _ 4 (omega arith) (omega arith) (placed 1 _ refl))
            (decode-load_far r (omega arith)) load_step
        ∙ then_run 2 (at_step regs2 8) (at_step regs3 12) _ (add_reg rd r rm)
            (code_at 2 _ 8 (omega arith) (omega arith) (placed 2 _ refl)) add_decoded add_step
        ∙ then_run 1 (at_step regs3 12) (at_step regs4 16) _ (pop r)
            (code_at 3 _ 12 (omega arith) (omega arith) (placed 3 _ refl))
            (decode-pop r (omega arith)) pop_step
        ∙ then_run 0 (at_step regs4 16) (at_step regs4 24) _ (add_imm true 15 15 0)
            (code_at 4 _ 16 (omega arith) (omega arith) (placed 4 _ refl)) decode-skip skip_step

    sequence-AgreeBut :
        add32 m.pc 8 ≡ value
        → AgreeBut (perform (add_reg rd 15 rm) m) slot start (run 5 (record m { pc = start }))
    unfolding perform
    sequence-AgreeBut v_lem =
        rw (sequence-run, differ rd 15 (omega arith), differ rm 15 (omega arith), v_lem)
          (regs_lem, λ a ne. rw (differ a slot ne) refl, refl)

module _ (m : Machine) (start i rd rm : ℕ) (word : i < 2 ^ 32)
    (is_add : decode i ≡ some (add_reg rd 15 rm)) where
  add_fields : (i / 65536 ≡ 0xE08F) × (field 4 8 i ≡ 0) × (field 12 4 i ≡ rd) × (field 0 4 i ≡ rm)
  unfolding decode
  add_fields = ground arith

  abbrev borrowed : ℕ
  borrowed = pick_register (λ r. r == rd || r == rm) 12

  relocate_arm-sequence :
      (load32 : ℕ → ℕ) (pc : ℕ) → relocate_arm load32 pc i ≡ sequence borrowed i pc
  unfolding relocate_arm
  relocate_arm-sequence load32 pc =
      let (top, plain, d, e) = add_fields in
      let rd_lem : bit_and i 0xF000 >>> 12 ≡ rd = omega (arith, bit_and_field 12 4 i, d) in
      let rm_lem : bit_and i 0xF ≡ rm = omega (arith, bit_and_mask 4 i, e) in
      rw (relocate_arm, add_type i top (omega (arith, plain)))
        (λ j. sequence (pick_register (λ r. r == rd_lem j || r == rm_lem j) 12) i pc)

  -- What relocateInstructionInArm stores for an unconditional ADD Rd, PC, Rm, where neither Rd nor Rm is
  -- the stack pointer or the pc: run from where it stands, apart from the word below the stack pointer,
  -- it leaves the registers that the ADD would leave at its address, all memory but that word, and
  -- goes on just behind the stored words.
  pub relocate_arm-run_add :
      start < 2 ^ 32
      → m.regs 13 < 2 ^ 32
      → (rd < 15) × (rd ≢ 13)
      → (rm < 15) × (rm ≢ 13)
      → ((j : ℕ) → j < 6 → sub32 (m.regs 13) 4 ≢ add32 start (4 * j))
      → Placed m start (relocate_arm m.words (add32 m.pc 8) i)
      → AgreeBut
          (perform (add_reg rd 15 rm) m)
          (sub32 (m.regs 13) 4)
          start
          (run 5 (record m { pc = start }))
  relocate_arm-run_add fits sp_fits d_ok m_ok apart placed =
      let (top, plain, d, e) = add_fields in
      let (not_rd, not_rm, low, high) = pick_register-two rd rm 12 (omega arith) in
      sequence-AgreeBut m start i rd rm borrowed (add32 m.pc 8) fits sp_fits apart (omega arith)
        not_rd not_rm d_ok.0 d_ok.1 m_ok.0 m_ok.1
        (subst (Placed m start) (relocate_arm-sequence m.words (add32 m.pc 8)) placed) word top
        plain d e refl
