-- ===== src/Relocate/Drive/ArmLoop.antt =====
-- relocateInstructionInArm comes to an end, and what it leaves in memory and in the boundaries.
use elf_hook_test.Base.{
  ℕ, zero, suc, ◌+◌, ◌*◌, ◌/◌, ◌<◌, ◌≤◌, ◌≡◌, refl, arith, ap, List, length, get_elem?, some, ◌∙◌,
  length-set, get_elem?-set_self, get_elem?-set_ne, get_or, add32, [], ◌∷◌,
}
use elf_hook_test.Base.Run.{done, Returns}
use elf_hook_test.Base.Run.Laws.{read_at_lem, >>=-Returns, Returns_mono}
use elf_hook_test.Base.Memory.{
  Memory, Outside, store_words, load32, store_words-Outside, load32-store_words,
}
use elf_hook_test.Relocate.Arm.{relocate_arm}
use elf_hook_test.Relocate.Arm.Units.{relocate_arm-length, relocate_arm-size, size}
use elf_hook_test.Relocate.Drive.{
  Boundaries, Progress, arm_round, arm_loop, relocate_instruction_in_arm,
}
use elf_hook_test.Relocate.Drive.Mark.{marked, mark_lem}

-- The words that `k` instructions from `i` on take in the trampoline.
abbrev pub taken : List ℕ → (i k : ℕ) → ℕ
taken insns i zero = 0
taken insns i (suc k) = size (get_or insns i 0) + taken insns (i + 1) k

module _ (trampoline : ℕ) (insns : List ℕ) where
  abbrev pub code_at : Progress → List ℕ
  code_at s = relocate_arm (load32 s.memory) s.pc (get_or insns s.orig_pos 0)

  abbrev pub next : Progress → Progress
  next s = record {
    orig_pos = s.orig_pos + 1;
    tp = s.tp + length (code_at s);
    pc = add32 s.pc 4;
    memory = store_words s.memory (trampoline + s.tp * 4) (code_at s);
    bounds = marked s.bounds (s.orig_pos * 4) (s.tp * 4);
  }

  pub arm_round_lem :
      (s : Progress)
      → s.orig_pos < length insns
      → s.bounds.count < length s.bounds.orig
      → s.bounds.count < length s.bounds.trampoline
      → arm_round trampoline insns s ≡ done (next s)
  unfolding arm_round
  arm_round_lem s in_code in_orig in_trampoline = rw (
    mark_lem s.bounds (s.orig_pos * 4) (s.tp * 4) in_orig in_trampoline,
    read_at_lem insns s.orig_pos 0 in_code,
  )

  -- What `left` rounds from `s` on make of it.
  pub record After (left : ℕ) (s s' : Progress) : Type 0 where
    pub counted : s'.bounds.count ≡ s.bounds.count + left
    pub walked : s'.orig_pos ≡ s.orig_pos + left
    pub forward : s.tp + left ≤ s'.tp
    pub within : s'.tp ≤ s.tp + left * 6
    pub same_orig : length s'.bounds.orig ≡ length s.bounds.orig
    pub same_trampoline : length s'.bounds.trampoline ≡ length s.bounds.trampoline
    pub untouched :
        (a : ℕ) → Outside (trampoline + s.tp * 4) (left * 24) a → s'.memory a ≡ s.memory a
    pub older :
        (k : ℕ) → k < s.bounds.count → get_elem? s'.bounds.orig k ≡ get_elem? s.bounds.orig k
    pub newer :
        (k : ℕ)
        → k < left
        → get_elem? s'.bounds.orig (s.bounds.count + k) ≡ some ((s.orig_pos + k) * 4)
    pub reached : s'.tp ≡ s.tp + taken insns s.orig_pos left
    pub older_trampoline :
        (k : ℕ)
        → k < s.bounds.count
        → get_elem? s'.bounds.trampoline k ≡ get_elem? s.bounds.trampoline k
    pub newer_trampoline :
        (k : ℕ)
        → k < left
        → get_elem? s'.bounds.trampoline (s.bounds.count + k)
          ≡ some ((s.tp + taken insns s.orig_pos k) * 4)

  After-suc :
      (left : ℕ) (s s' : Progress)
      → s.bounds.count < length s.bounds.orig
      → s.bounds.count < length s.bounds.trampoline
      → After left (next s) s'
      → After (suc left) s s'
  After-suc left s s' room room' h = record {
    counted = omega (arith, h.counted);
    walked = omega (arith, h.walked);
    forward = omega (arith, h.forward, units);
    within = omega (arith, h.within, units);
    same_orig = h.same_orig ∙ length-set s.bounds.orig s.bounds.count (s.orig_pos * 4);
    same_trampoline = h.same_trampoline ∙ length-set s.bounds.trampoline s.bounds.count (s.tp * 4);
    untouched = λ a o. ground (
      arith,
      units,
      h.untouched a,
      store_words-Outside s.memory (trampoline + s.tp * 4) (code_at s) a,
    );
    older = λ k lt. ground (
      arith,
      h.older k,
      get_elem?-set_ne s.bounds.orig {i = s.bounds.count} {j = k} (s.orig_pos * 4),
    );
    newer = elim [
      | zero ↦ λ lt. ground (
        arith,
        h.older s.bounds.count,
        get_elem?-set_self s.bounds.orig s.bounds.count (s.orig_pos * 4),
      )
      | suc k ↦ λ lt. ground (arith, h.newer k)
    ];
    reached = omega (arith, h.reached, words);
    older_trampoline = λ k lt. ground (
      arith,
      h.older_trampoline k,
      get_elem?-set_ne s.bounds.trampoline {i = s.bounds.count} {j = k} (s.tp * 4),
    );
    newer_trampoline = elim [
      | zero ↦ λ lt. first
      | suc k ↦ λ lt.
          let e : s.bounds.count + suc k ≡ s.bounds.count + 1 + k = omega arith in
          let f : (s.tp + length (code_at s) + taken insns (s.orig_pos + 1) k) * 4
              ≡ (s.tp + (size (get_or insns s.orig_pos 0) + taken insns (s.orig_pos + 1) k)) * 4 =
            omega (arith, words) in
          ap (get_elem? s'.bounds.trampoline) e ∙ h.newer_trampoline k (omega arith) ∙ ap some f
    ];
  }
    where
      words : length (code_at s) ≡ size (get_or insns s.orig_pos 0)
      words = relocate_arm-size (load32 s.memory) s.pc (get_or insns s.orig_pos 0)

      first : get_elem? s'.bounds.trampoline (s.bounds.count + 0) ≡ some ((s.tp + 0) * 4)
      first =
          let e : s.bounds.count + 0 ≡ s.bounds.count = omega arith in
          let f : s.tp * 4 ≡ (s.tp + 0) * 4 = omega arith in
          ap (get_elem? s'.bounds.trampoline) e
          ∙ h.older_trampoline s.bounds.count (omega arith)
          ∙ get_elem?-set_self s.bounds.trampoline s.bounds.count (s.tp * 4) room'
          ∙ ap some f

      units : (1 ≤ length (code_at s)) × (length (code_at s) ≤ 6)
      units = relocate_arm-length (load32 s.memory) s.pc (get_or insns s.orig_pos 0)

  arm_loop-After :
      (left : ℕ) (s : Progress)
      → s.orig_pos + left ≤ length insns
      → s.bounds.count + left ≤ length s.bounds.orig
      → s.bounds.count + left ≤ length s.bounds.trampoline
      → Returns (arm_loop trampoline insns left s) (After left s)
  unfolding arm_loop
  arm_loop-After zero s p q r = record {
    counted = omega arith;
    walked = omega arith;
    forward = omega arith;
    within = omega arith;
    same_orig = refl;
    same_trampoline = refl;
    untouched = λ a o. refl;
    older = λ k lt. refl;
    newer = λ k lt. absurd (omega arith);
    reached = omega arith;
    older_trampoline = λ k lt. refl;
    newer_trampoline = λ k lt. absurd (omega arith);
  }
  arm_loop-After (suc left) s p q r =
      rw (arm_round_lem s (omega arith) (omega arith) (omega arith)) (
        Returns_mono (After left (next s)) (After (suc left) s) _
          (arm_loop-After left (next s) (omega arith) (rw length-set (omega arith))
            (rw length-set (omega arith)))
          (λ s' h. After-suc left s s' (omega arith) (omega arith) h))

-- The whole rewriting of `n` words from a count that leaves room for them.
pub record IsRelocated (trampoline target : ℕ) (insns : List ℕ) (len n : ℕ) (m : Memory)
    (b : Boundaries) (result : Memory × Boundaries) : Type 0 where
  pub counted : result.1.count ≡ b.count + n
  pub same_orig : length result.1.orig ≡ length b.orig
  pub same_trampoline : length result.1.trampoline ≡ length b.trampoline
  pub outside : (a : ℕ) → Outside trampoline (n * 24 + 8) a → result.0 a ≡ m a
  pub boundary : (k : ℕ) → k < n → get_elem? result.1.orig (b.count + k) ≡ some (k * 4)
  pub trampoline_boundary :
      (k : ℕ) → k < n → get_elem? result.1.trampoline (b.count + k) ≡ some (taken insns 0 k * 4)
  pub tail : ℕ
  pub behind : tail ≡ taken insns 0 n
  pub after_code : (n ≤ tail) × (tail ≤ n * 6)
  pub jumps : load32 result.0 (trampoline + tail * 4) ≡ 0xE51FF004
  pub back : load32 result.0 (trampoline + tail * 4 + 4) ≡ add32 target len

-- relocateInstructionInArm of `len` bytes comes to an end without an access out of bounds, if
-- the buffer holds them and each boundary array has room for one entry a word: it adds as many
-- boundaries, each with the offset of a word and that of its code in the trampoline, writes nothing outside the first `6 * len + 8` bytes of the trampoline, and ends
-- the code with LDR PC, [PC, #-4] and the address of the first instruction not displaced.
pub relocate_instruction_in_arm-IsRelocated :
    (trampoline target : ℕ) (insns : List ℕ) (len : ℕ) (m : Memory) (b : Boundaries)
    → len / 4 ≤ length insns
    → b.count + len / 4 ≤ length b.orig
    → b.count + len / 4 ≤ length b.trampoline
    → Returns
        (relocate_instruction_in_arm trampoline target insns len m b)
        (IsRelocated trampoline target insns len (len / 4) m b)
unfolding relocate_instruction_in_arm
relocate_instruction_in_arm-IsRelocated trampoline target insns len m b p q r =
    >>=-Returns (After trampoline insns (len / 4) start)
      (IsRelocated trampoline target insns len (len / 4) m b) _ _
      (arm_loop-After trampoline insns (len / 4) start (omega arith) q r)
      (λ s h. record {
        counted = h.counted;
        same_orig = h.same_orig;
        same_trampoline = h.same_trampoline;
        outside = λ a o. ground (
          arith,
          h.untouched a,
          h.forward,
          h.within,
          store_words-Outside s.memory (trampoline + s.tp * 4) (0xE51FF004 ∷ add32 target len ∷ [])
              a,
        );
        boundary = λ k lt. ground (arith, h.newer k);
        trampoline_boundary = λ k lt.
            let e : (0 + taken insns 0 k) * 4 ≡ taken insns 0 k * 4 = omega arith in
            h.newer_trampoline k lt ∙ ap some e;
        tail = s.tp;
        behind = omega (arith, h.reached);
        after_code = omega (arith, h.forward, h.within);
        jumps = (stored s).0;
        back = (stored s).1;
      })
  where
    start : Progress
    start = record { orig_pos = 0; tp = 0; pc = add32 target 8; memory = m; bounds = b }

    stored :
        (s : Progress)
        → let at = trampoline + s.tp * 4 in
          let m' = store_words s.memory at (0xE51FF004 ∷ add32 target len ∷ []) in
          (load32 m' at ≡ 0xE51FF004) × (load32 m' (at + 4) ≡ add32 target len)
    stored s =
        load32-store_words s.memory (trampoline + s.tp * 4) 0xE51FF004 (add32 target len)
          (omega arith) (omega arith)
