-- ===== src/Relocate/Machine/Literal.antt =====
-- What relocateInstructionInArm stores for LDR, ADR and MOV from the pc does what the instruction does.
use elf_hook_test.Base.{
  ℕ, ◌/◌, ◌%◌, ◌^◌, ◌<◌, ◌≡◌, ◌⊎◌, inl, inr, ◌==◌, arith, refl, ap, subst, ◌∙◌, Bool, true, false,
  Option, some, none, [], ◌∷◌, bit_and, bit_or, add32, sub32, ◌<<<◌, ◌>>>◌, suc,
}
use elf_hook_test.Base.Bits.{bit_and_mask, bit_and_field}
use elf_hook_test.Relocate.Target.{field}
use elf_hook_test.Relocate.Arm.{relocate_arm}
use elf_hook_test.Relocate.Machine.{
  Machine, Instr, ldr, add_imm, add_reg, mov, push, pop, decode, perform, run, write, update,
  offset_by, Placed,
}
use elf_hook_test.Relocate.Machine.Decode.{
  ldr_down_type, ldr_up_type, adr_up_type, adr_down_type, mov_type, decode-load, decode-skip,
}

-- The instructions that take a value or an address from the pc, into another register.
abbrev pub FromPc : Instr → Type 0
FromPc (ldr is_add rd imm) = rd < 15
FromPc (add_imm is_add rd rn imm) = (rn ≡ 15) × (rd < 15)
FromPc (mov rd rm) = (rm ≡ 15) × (rd < 15)
FromPc (add_reg rd rn rm) = ⊥
FromPc (push r) = ⊥
FromPc (pop r) = ⊥

-- One instruction at the pc.
pub run-suc :
    (n : ℕ) (m : Machine) (i : ℕ) (d : Instr)
    → m.words m.pc ≡ i
    → decode i ≡ some d
    → run (suc n) m ≡ run n (perform d m)
unfolding run
run-suc n m i d at e = rw (run, at, e) refl

not_pc : (r : ℕ) → r < 15 → (r == 15) ≡ false
not_pc r h = ground arith

-- LDR Rr, [PC], the ADD PC, PC behind it, and the value.
module _ (m : Machine) (start r value : ℕ) (below : r < 15) (fits : start < 2 ^ 32)
    (placed : Placed m start (bit_or 0xE51F0000 (r <<< 12) ∷ 0xE28FF000 ∷ value ∷ [])) where
  abbrev loaded : Machine
  loaded = record m { regs = update m.regs r value; pc = add32 start 4 }

  literal : m.words (sub32 (add32 start 8) 0) ≡ value
  literal = ap m.words (omega arith) ∙ placed 2 value refl

  load_step : perform (ldr false r 0) (record m { pc = start }) ≡ loaded
  unfolding perform
  load_step = rw (not_pc r below, literal) refl

  skip_step :
      perform (add_imm true 15 15 0) loaded
      ≡ record m { regs = update m.regs r value; pc = add32 start 12 }
  unfolding perform
  skip_step = ap (λ a. record m { regs = update m.regs r value; pc = a }) (omega arith)

  load_code-run :
      run 2 (record m { pc = start })
      ≡ some (record m { regs = update m.regs r value; pc = add32 start 12 })
  unfolding run
  load_code-run =
      run-suc 1 (record m { pc = start }) _ (ldr false r 0)
        (ap m.words (omega arith) ∙ placed 0 _ refl) (decode-load r (omega arith))
      ∙ ap (run 1) load_step
      ∙ run-suc 0 loaded _ (add_imm true 15 15 0) (ap m.words (omega arith) ∙ placed 1 _ refl)
          decode-skip
      ∙ ap some skip_step

-- What the decoder of the architecture says of these instructions.
module _ (i : ℕ) (word : i < 2 ^ 32) where
  ldr_fields :
      (rd imm : ℕ) (is_add : Bool)
      → decode i ≡ some (ldr is_add rd imm)
      → (rd ≡ field 12 4 i)
        × (imm ≡ i % 4096)
        × (((i / 65536 ≡ 0xE51F) × (is_add ≡ false)) ⊎ ((i / 65536 ≡ 0xE59F) × (is_add ≡ true)))
  unfolding decode
  ldr_fields rd imm is_add e = ground arith

  adr_fields :
      (rd rn imm : ℕ) (is_add : Bool)
      → decode i ≡ some (add_imm is_add rd rn imm)
      → (rd ≡ field 12 4 i)
        × (imm ≡ i % 4096)
        × (((i / 65536 ≡ 0xE24F) × (is_add ≡ false)) ⊎ ((i / 65536 ≡ 0xE28F) × (is_add ≡ true)))
  unfolding decode
  adr_fields rd rn imm is_add e = ground arith

  mov_fields :
      (rd rm : ℕ)
      → decode i ≡ some (mov rd rm)
      → (rd ≡ field 12 4 i) × (rm ≡ i % 16) × (i / 65536 ≡ 0xE1A0) × (field 4 8 i ≡ 0)
  unfolding decode
  mov_fields rd rm e = ground arith

  register_lem : bit_and i 0xF000 >>> 12 ≡ field 12 4 i
  register_lem = omega (arith, bit_and_field 12 4 i)

  sign : (b : ℕ) → i / 65536 / 128 % 2 ≡ b → bit_and i 0x800000 >>> 23 ≡ b
  sign b e = omega (arith, bit_and_field 23 1 i)

  -- The words that are stored for each, with the value behind them.
  abbrev Loads : (ℕ → ℕ) → (pc rd value : ℕ) → Type 0
  Loads load32 pc rd value =
      relocate_arm load32 pc i ≡ bit_or 0xE51F0000 (rd <<< 12) ∷ 0xE28FF000 ∷ value ∷ []

  ldr-Loads :
      (load32 : ℕ → ℕ) (pc rd imm : ℕ) (is_add : Bool)
      → rd ≡ field 12 4 i
      → imm ≡ i % 4096
      → ((i / 65536 ≡ 0xE51F) × (is_add ≡ false)) ⊎ ((i / 65536 ≡ 0xE59F) × (is_add ≡ true))
      → Loads load32 pc rd (load32 (offset_by is_add pc imm))
  unfolding relocate_arm
  ldr-Loads load32 pc rd imm is_add d o (inl (top, down)) =
      rw
        (
          d,
          o,
          down,
          relocate_arm,
          ldr_down_type i top,
          register_lem,
          bit_and_mask 12 i,
          sign 0 (omega arith),
        )
        refl
  ldr-Loads load32 pc rd imm is_add d o (inr (top, up)) =
      rw
        (
          d,
          o,
          up,
          relocate_arm,
          ldr_up_type i top,
          register_lem,
          bit_and_mask 12 i,
          sign 1 (omega arith),
        )
        refl

  adr-Loads :
      (load32 : ℕ → ℕ) (pc rd imm : ℕ) (is_add : Bool)
      → rd ≡ field 12 4 i
      → imm ≡ i % 4096
      → ((i / 65536 ≡ 0xE24F) × (is_add ≡ false)) ⊎ ((i / 65536 ≡ 0xE28F) × (is_add ≡ true))
      → Loads load32 pc rd (offset_by is_add pc imm)
  unfolding relocate_arm
  adr-Loads load32 pc rd imm is_add d o (inl (top, down)) =
      rw (d, o, down, relocate_arm, adr_down_type i top, register_lem, bit_and_mask 12 i) refl
  adr-Loads load32 pc rd imm is_add d o (inr (top, up)) =
      rw (d, o, up, relocate_arm, adr_up_type i top, register_lem, bit_and_mask 12 i) refl

  mov-Loads :
      (load32 : ℕ → ℕ) (pc rd : ℕ)
      → rd ≡ field 12 4 i
      → i / 65536 ≡ 0xE1A0
      → i % 4096 ≡ 15
      → Loads load32 pc rd pc
  unfolding relocate_arm
  mov-Loads load32 pc rd d top low = rw (d, relocate_arm, mov_type i top low, register_lem) refl

-- The original at the pc, and the stored words at `start`, in the same memory.
module _ (m : Machine) (start i : ℕ) (word : i < 2 ^ 32) (fits : start < 2 ^ 32) where
  -- Both leave the same registers and memory; the stored words end just behind themselves.
  abbrev pub Agree : Instr → Option Machine → Type 0
  Agree d none = ⊥
  Agree d (some t) =
      ((n : ℕ) → t.regs n ≡ (perform d m).regs n)
      × ((a : ℕ) → t.words a ≡ (perform d m).words a)
      × (t.pc ≡ add32 start 12)

  arrived :
      (d : Instr) (rd value : ℕ)
      → rd < 15
      → perform d m ≡ write m rd value
      → Placed m start (relocate_arm m.words (add32 m.pc 8) i)
      → Loads i word m.words (add32 m.pc 8) rd value
      → Agree d (run 2 (record m { pc = start }))
  arrived d rd value below does placed loads =
      rw
        (
          load_code-run m start rd value below fits (subst (Placed m start) loads placed),
          does,
          not_pc rd below,
        )
        (λ n. refl, λ a. refl, refl)

  by_instr :
      (d : Instr)
      → FromPc d
      → decode i ≡ some d
      → Placed m start (relocate_arm m.words (add32 m.pc 8) i)
      → Agree d (run 2 (record m { pc = start }))
  unfolding perform
  by_instr (ldr is_add rd imm) below e placed =
      let f = ldr_fields i word rd imm is_add e in
      arrived (ldr is_add rd imm) rd (m.words (offset_by is_add (add32 m.pc 8) imm)) below refl
        placed (ldr-Loads i word m.words (add32 m.pc 8) rd imm is_add f.0 f.1 f.2)
  by_instr (add_imm is_add rd rn imm) (n, below) e placed =
      let f = adr_fields i word rd rn imm is_add e in
      arrived (add_imm is_add rd rn imm) rd (offset_by is_add (add32 m.pc 8) imm) below (rw n refl)
        placed (adr-Loads i word m.words (add32 m.pc 8) rd imm is_add f.0 f.1 f.2)
  by_instr (mov rd rm) (n, below) e placed =
      let f = mov_fields i word rd rm e in
      arrived (mov rd rm) rd (add32 m.pc 8) below (rw n refl) placed
        (mov-Loads i word m.words (add32 m.pc 8) rd f.0 f.2 (omega (arith, f.1, f.3)))
  by_instr (add_reg rd rn rm) below e placed = absurd below
  by_instr (push r) below e placed = absurd below
  by_instr (pop r) below e placed = absurd below

  -- What relocateInstructionInArm stores for LDR, ADR (without a rotated immediate) and MOV from the pc,
  -- all unconditional and into another register than the pc: run from where it stands, it leaves the
  -- registers and the memory that the instruction itself would leave at its address, and goes on just
  -- behind the stored words.
  pub relocate_arm-run :
      (d : Instr)
      → decode i ≡ some d
      → FromPc d
      → Placed m start (relocate_arm m.words (add32 m.pc 8) i)
      → Agree d (run 2 (record m { pc = start }))
  relocate_arm-run d e from placed = by_instr d from e placed
