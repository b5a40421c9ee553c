-- ===== src/Relocate/Drive.antt =====
-- The loops of relocate.c and relocateInstruction. The displaced instructions are a buffer of
-- units, the trampoline is memory, and the two boundary arrays are lists of their C lengths:
-- a store outside one is a fault.
pub mod ArmOverrun
pub mod Overrun
pub mod ThumbLoop
pub mod ThumbRound
pub mod ArmLoop
pub mod Mark
use elf_hook_test.Base.{
  ℕ, zero, suc, ◌+◌, ◌-◌, ◌*◌, ◌/◌, List, [], ◌∷◌, Bool, true, false, ◌==◌, leb, if◌then◌else◌,
  ◌&&◌, bit_and, ◌>>>◌, add32, length,
}
use elf_hook_test.Base.Run.{Run, done, fault, out_of_fuel, ◌>>=◌, read_at, store_at}
use elf_hook_test.Base.Memory.{Memory, store_halfwords, store_words, load32}
use elf_hook_test.Relocate.{Emitted}
use elf_hook_test.Relocate.Thumb16.{relocate_instruction_in_thumb16}
use elf_hook_test.Relocate.Thumb32.{relocate_instruction_in_thumb32}
use elf_hook_test.Relocate.Arm.{relocate_arm}

-- `orig_boundaries`, `trampoline_boundaries` and `*count` of the hook's item.
pub record Boundaries : Type 0 where
  pub orig : List ℕ
  pub trampoline : List ℕ
  pub count : ℕ

-- The three lines that open each round.
unfoldable pub mark : Boundaries → ℕ → ℕ → Run Boundaries
mark b orig_offset trampoline_offset = do
  os ← store_at b.orig b.count orig_offset
  ts ← store_at b.trampoline b.count trampoline_offset
  done (record { orig = os; trampoline = ts; count = b.count + 1 })

-- The variables of a loop. `tp` is `trampoline_pos`.
pub record Progress : Type 0 where
  pub orig_pos : ℕ
  pub tp : ℕ
  pub pc : ℕ
  pub memory : Memory
  pub bounds : Boundaries

-- The first halfword of a 32-bit Thumb instruction.
unfoldable pub is_wide : ℕ → Bool
is_wide h = leb 0x1D (h >>> 11) && leb (h >>> 11) 0x1F

module _ (trampoline : ℕ) where
  -- The bookkeeping behind a rewritten instruction of `n` halfwords.
  unfoldable pub thumb_advance : Progress → Boundaries → ℕ → Emitted → Progress
  thumb_advance s b n e = record {
    orig_pos = s.orig_pos + n;
    tp = s.tp + e.offset;
    pc = add32 s.pc (n * 2);
    memory = store_halfwords s.memory (trampoline + s.tp * 2) e.code;
    bounds = b;
  }

  -- One round of relocateInstructionInThumb; the Boolean says that it breaks. `limit` is
  -- `length / sizeof(uint16_t)`.
  unfoldable pub thumb_round : List ℕ → ℕ → Progress → Run (Progress × Bool)
  unfolding mark is_wide thumb_advance
  thumb_round insns limit s = do
    b ← mark s.bounds (s.orig_pos * 2) (s.tp * 2)
    high ← read_at insns s.orig_pos
    if is_wide high
        then (if leb (s.orig_pos + 2) limit
            then (do
              low ← read_at insns (s.orig_pos + 1)
              let e = relocate_instruction_in_thumb32 (load32 s.memory) s.pc high low
              done (thumb_advance s b 2 e, leb limit (s.orig_pos + 2)))
            else done (record s { bounds = b }, true))
        else (let e = relocate_instruction_in_thumb16 (load32 s.memory) s.pc high in
            done (thumb_advance s b 1 e, leb limit (s.orig_pos + 1)))

  unfoldable pub thumb_loop : List ℕ → ℕ → ℕ → Progress → Run Progress
  unfolding thumb_round
  thumb_loop insns limit zero s = out_of_fuel
  thumb_loop insns limit (suc fuel) s = do
    (s', stop) ← thumb_round insns limit s
    elim stop [ true ↦ done s' | false ↦ thumb_loop insns limit fuel s' ]

  -- relocateInstructionInThumb: the loop, then LDR.W PC, [PC] and the address to go back to.
  unfoldable pub relocate_instruction_in_thumb :
      ℕ → List ℕ → ℕ → Memory → Boundaries → Run (Memory × Boundaries)
  unfolding thumb_loop
  relocate_instruction_in_thumb target insns len m b = do
    let start : Progress = record {
      orig_pos = 0;
      tp = 0;
      pc = add32 target 4;
      memory = m;
      bounds = b;
    }
    s ← thumb_loop insns (len / 2) (len / 2 + 1) start
    let lr = add32 (add32 target (s.orig_pos * 2)) 1
    let back = 0xF8DF ∷ 0xF000 ∷ bit_and lr 0xFFFF ∷ (lr >>> 16) ∷ []
    done (store_halfwords s.memory (trampoline + s.tp * 2) back, s.bounds)

  unfoldable pub arm_round : List ℕ → Progress → Run Progress
  unfolding mark
  arm_round insns s = do
    b ← mark s.bounds (s.orig_pos * 4) (s.tp * 4)
    instruction ← read_at insns s.orig_pos
    let code = relocate_arm (load32 s.memory) s.pc instruction
    done (record {
      orig_pos = s.orig_pos + 1;
      tp = s.tp + length code;
      pc = add32 s.pc 4;
      memory = store_words s.memory (trampoline + s.tp * 4) code;
      bounds = b;
    })

  -- The loop counts up to `length / sizeof(uint32_t)`: it recurs on the rounds that are left.
  unfoldable pub arm_loop : List ℕ → ℕ → Progress → Run Progress
  unfolding arm_round
  arm_loop insns zero s = done s
  arm_loop insns (suc left) s = arm_round insns s >>= λ s'. arm_loop insns left s'

  -- relocateInstructionInArm: the loop, then LDR PC, [PC, #-4] and the address to go back to.
  unfoldable pub relocate_instruction_in_arm :
      ℕ → List ℕ → ℕ → Memory → Boundaries → Run (Memory × Boundaries)
  unfolding arm_loop
  relocate_instruction_in_arm target insns len m b = do
    let start : Progress = record {
      orig_pos = 0;
      tp = 0;
      pc = add32 target 8;
      memory = m;
      bounds = b;
    }
    s ← arm_loop insns (len / 4) start
    let back = 0xE51FF004 ∷ add32 target len ∷ []
    done (store_words s.memory (trampoline + s.tp * 4) back, s.bounds)

-- A buffer of bytes read as halfwords and as words.
unfoldable pub halfwords : List ℕ → List ℕ
halfwords (a ∷ b ∷ r) = (a + b * 256) ∷ halfwords r
halfwords _ = []

unfoldable pub words : List ℕ → List ℕ
words (a ∷ b ∷ c ∷ d ∷ r) = (a + b * 256 + c * 65536 + d * 16777216) ∷ words r
words _ = []

-- relocateInstruction. The test `target_addr & 1 == 1` reads `target_addr & (1 == 1)`, which
-- is the lowest bit all the same.
unfoldable pub relocate_instruction :
    ℕ → List ℕ → ℕ → ℕ → Memory → Boundaries → Run (Memory × Boundaries)
unfolding relocate_instruction_in_thumb relocate_instruction_in_arm halfwords words
relocate_instruction target orig len trampoline m b =
    if bit_and target 1 == 0
    then relocate_instruction_in_arm trampoline target (words orig) len m b
    else relocate_instruction_in_thumb trampoline (target - 1) (halfwords orig) len m b
