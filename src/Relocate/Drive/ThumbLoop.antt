-- ===== src/Relocate/Drive/ThumbLoop.antt =====
-- relocateInstructionInThumb comes to an end where the boundary arrays have room.
use elf_hook_test.Base.{
  ℕ, zero, suc, ◌+◌, ◌*◌, ◌/◌, ◌%◌, ◌^◌, ◌<◌, ◌≤◌, ◌≡◌, arith, List, [], ◌∷◌, length, add32, Bool,
  false, Bool-cases, inl, inr, ◌∙◌, bit_and, ◌>>>◌,
}
use elf_hook_test.Base.Run.{Returns}
use elf_hook_test.Base.Run.Laws.{>>=-Returns, Returns_mono}
use elf_hook_test.Base.Memory.{
  Memory, Outside, store_halfwords, load32, store_halfwords-Outside, load32-store_halfwords,
}
use elf_hook_test.Base.Bits.{bit_and_mask}
use elf_hook_test.Relocate.Drive.{Boundaries, Progress, thumb_loop, relocate_instruction_in_thumb}
use elf_hook_test.Relocate.Drive.ThumbRound.{Onward, Rounded, thumb_round-Rounded}

module _ (trampoline : ℕ) (insns : List ℕ) (limit : ℕ) where
  Onward-trans :
      (s t u : Progress)
      → Onward trampoline limit s t
      → t.bounds.count ≡ s.bounds.count + 1
      → s.orig_pos < t.orig_pos
      → Onward trampoline limit t u
      → Onward trampoline limit s u
  Onward-trans s t u a one step b = record {
    walked = omega arith;
    in_code = omega arith;
    counted = omega arith;
    few = omega arith;
    forward = omega arith;
    within = omega arith;
    same_orig = b.same_orig ∙ a.same_orig;
    same_trampoline = b.same_trampoline ∙ a.same_trampoline;
    untouched = λ x o. ground (arith, a.untouched x, b.untouched x);
  }

  -- Enough fuel is one round for each halfword that is left.
  thumb_loop-Onward :
      (fuel : ℕ) (s : Progress)
      → limit ≤ length insns
      → s.orig_pos < limit
      → limit ≤ s.orig_pos + fuel
      → s.bounds.count + limit ≤ s.orig_pos + length s.bounds.orig
      → s.bounds.count + limit ≤ s.orig_pos + length s.bounds.trampoline
      → Returns (thumb_loop trampoline insns limit fuel s) (Onward trampoline limit s)
  unfolding thumb_loop
  thumb_loop-Onward zero s fits inside enough room room' = absurd (omega arith)
  thumb_loop-Onward (suc fuel) s fits inside enough room room' =
      >>=-Returns (Rounded trampoline limit s) (Onward trampoline limit s) _ _
        (thumb_round-Rounded trampoline insns limit s fits inside (omega arith) (omega arith))
        (λ r h. elim (Bool-cases r.1) [
          | inl stops ↦ rw stops h.onward
          | inr on ↦ rw on (
              Returns_mono (Onward trampoline limit r.0) (Onward trampoline limit s) _
                (thumb_loop-Onward fuel r.0 fits (h.goes_on on).1 (go r h on).0 (go r h on).1
                  (go r h on).2)
                (λ u k. Onward-trans s r.0 u h.onward h.one_mark (h.goes_on on).0 k))
        ])
    where
      go :
          (r : Progress × Bool)
          → Rounded trampoline limit s r
          → r.1 ≡ false
          → (limit ≤ r.0.orig_pos + fuel)
            × (r.0.bounds.count + limit ≤ r.0.orig_pos + length r.0.bounds.orig)
            × (r.0.bounds.count + limit ≤ r.0.orig_pos + length r.0.bounds.trampoline)
      go r h on =
          omega (arith, h.one_mark, h.goes_on on, h.onward.same_orig, h.onward.same_trampoline)

-- The whole rewriting of `limit` halfwords from a count that leaves room for them.
pub record IsRelocatedThumb (trampoline target limit : ℕ) (m : Memory) (b : Boundaries)
    (result : Memory × Boundaries) : Type 0 where
  pub counted : b.count < result.1.count
  pub few : result.1.count ≤ b.count + limit
  pub same_orig : length result.1.orig ≡ length b.orig
  pub same_trampoline : length result.1.trampoline ≡ length b.trampoline
  pub outside : (a : ℕ) → Outside trampoline (limit * 16 + 8) a → result.0 a ≡ m a
  pub tail : ℕ
  pub resumed : ℕ
  pub after_code : tail ≤ limit * 8
  pub in_code : resumed ≤ limit
  pub jumps : load32 result.0 (trampoline + tail * 2) ≡ 0xF000F8DF
  pub back : load32 result.0 (trampoline + tail * 2 + 4) ≡ add32 (add32 target (resumed * 2)) 1

-- On `len` bytes relocateInstructionInThumb comes to an end without an access out of bounds, if
-- the buffer holds them and each boundary array has room for one entry a halfword: it adds at
-- least one boundary, writes nothing outside the first `8 * len + 8` bytes of the trampoline,
-- and ends the code with LDR.W PC, [PC] and a Thumb address inside or just behind the
-- displaced code.
pub relocate_instruction_in_thumb-IsRelocated :
    (trampoline target : ℕ) (insns : List ℕ) (len : ℕ) (m : Memory) (b : Boundaries)
    → 2 ≤ len
    → len / 2 ≤ length insns
    → b.count + len / 2 ≤ length b.orig
    → b.count + len / 2 ≤ length b.trampoline
    → Returns
        (relocate_instruction_in_thumb trampoline target insns len m b)
        (IsRelocatedThumb trampoline target (len / 2) m b)
unfolding relocate_instruction_in_thumb
relocate_instruction_in_thumb-IsRelocated trampoline target insns len m b some_code p q r =
    >>=-Returns (Onward trampoline (len / 2) start)
      (IsRelocatedThumb trampoline target (len / 2) m b) _ _
      (thumb_loop-Onward trampoline insns (len / 2) (len / 2 + 1) start p (omega arith)
        (omega arith) (omega arith) (omega arith))
      (λ s h. record {
        counted = h.counted;
        few = omega (arith, h.few);
        same_orig = h.same_orig;
        same_trampoline = h.same_trampoline;
        outside = λ a o. ground (
          arith,
          h.untouched a,
          h.forward,
          h.within,
          h.in_code,
          store_halfwords-Outside s.memory (trampoline + s.tp * 2) (ending s) a,
        );
        tail = s.tp;
        resumed = s.orig_pos;
        after_code = omega (arith, h.within, h.in_code);
        in_code = h.in_code;
        jumps = (stored s).0;
        back = (stored s).1;
      })
  where
    start : Progress
    start = record { orig_pos = 0; tp = 0; pc = add32 target 4; memory = m; bounds = b }

    ending : Progress → List ℕ
    ending s =
        let lr = add32 (add32 target (s.orig_pos * 2)) 1 in
        0xF8DF ∷ 0xF000 ∷ bit_and lr 0xFFFF ∷ (lr >>> 16) ∷ []

    stored :
        (s : Progress)
        → let at = trampoline + s.tp * 2 in
          let m' = store_halfwords s.memory at (ending s) in
          (load32 m' at ≡ 0xF000F8DF)
          × (load32 m' (at + 4) ≡ add32 (add32 target (s.orig_pos * 2)) 1)
    stored s =
        let lr = add32 (add32 target (s.orig_pos * 2)) 1 in
        let both =
          load32-store_halfwords s.memory (trampoline + s.tp * 2) 0xF8DF 0xF000 (lr % 2 ^ 16)
            (lr >>> 16) (omega arith) (omega arith) (omega arith) (omega arith) in
        rw (bit_and_mask 16 lr) (both.0, both.1 ∙ omega arith)
