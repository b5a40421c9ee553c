-- ===== src/Glue/Unwind/Frames.antt =====
-- The frames that uwind.h logs are those that the unwinder has just stored.
use mathlib.Core.List.{append_assoc, append-nil}
use elf_hook_test.Base.{
  ℕ, suc, ◌≡◌, refl, arith, ap, sym, ◌∙◌, List, [], ◌∷◌, ◌++◌, Bool, true, false, ◌&&◌, ltb,
  if◌then◌else◌, take, Bool-cases, inl, inr, length, drop,
}
use elf_hook_test.Base.Run.{Run}
use elf_hook_test.Glue.Unwind.{
  Site, in_abort, in_segv, Entry, cfi_log, frames_log, unsupported, State, System, write_log,
  context_for, store_frames, sample_test_cfi, sample_test_fp, sample_test_eh,
}

-- The calls from Java.
pub data Call : Type 0 where
  cfi : (remote_unwind : Bool) → Call
  fp eh : (with_context signal_interrupted : Bool) → Call

-- The handlers are installed, and no thread waits for its SIGSEGV.
pub record IsIdle (st : State) : Type 0 where
  pub handles_abort : st.handles_abort ≡ true
  pub handles_segv : st.handles_segv ≡ true
  pub cur_tid : st.cur_tid ≡ 0

take-++ : {A : Type 0} → (xs ys : List A) → take (length xs) (xs ++ ys) ≡ xs
take-++ [] ys = refl
take-++ (x ∷ xs) ys = ap (λ zs. x ∷ zs) (take-++ xs ys)

some_frames : (n : ℕ) → ltb 0 (suc n) ≡ true
some_frames n = ground arith

module _ (sys : System) where
  abbrev pub sample : Call → State → Run State
  sample (cfi remote_unwind) = sample_test_cfi sys remote_unwind
  sample (fp with_context signal_interrupted) = sample_test_fp sys with_context signal_interrupted
  sample (eh with_context signal_interrupted) = sample_test_eh sys with_context signal_interrupted

  abbrev pub site : Bool → Site
  site signal_interrupted = if signal_interrupted then in_segv else in_abort

  -- No frames are no entry.
  abbrev pub shown : List ℕ → List Entry
  shown [] = []
  shown (f ∷ fs) = frames_log (f ∷ fs) ∷ []

  -- What each call adds to the log behind the empty frames and the CFI log.
  abbrev pub finds : Call → List Entry
  finds (cfi true) = if sys.pipes && sys.forks then cfi_log true ∷ [] else []
  finds (cfi false) = cfi_log false ∷ []
  finds (fp c i) =
      if sys.is_aarch64
      then shown (sys.fp_unwind (site i) (context_for sys (site i) c))
      else unsupported ∷ []
  finds (eh c i) = shown (sys.eh_unwind (site i) (context_for sys (site i) c))

  abbrev pub Sampled : Call → State → State → Type 0
  Sampled call st st' =
      IsIdle st' × (st'.log ≡ st.log ++ (frames_log [] ∷ cfi_log false ∷ finds call))

  -- The end of sample_test behind an unwinder that has found `found`.
  abbrev pub with_frames : List ℕ → State → State
  with_frames found st =
      if ltb 0 (length found)
      then write_log (frames_log (take (length found) (found ++ drop (length found) st.frames)))
          (store_frames sys found st)
      else store_frames sys found st

  with_frames-IsIdle : (found : List ℕ) (st : State) → IsIdle st → IsIdle (with_frames found st)
  unfolding store_frames
  with_frames-IsIdle found st v = elim (Bool-cases (ltb 0 (length found))) [
    | inl e ↦ rw e (record {
      handles_abort = v.handles_abort;
      handles_segv = v.handles_segv;
      cur_tid = v.cur_tid;
    })
    | inr e ↦ rw e (record {
      handles_abort = v.handles_abort;
      handles_segv = v.handles_segv;
      cur_tid = v.cur_tid;
    })
  ]

  with_frames-log :
      (found : List ℕ) (st : State) → (with_frames found st).log ≡ st.log ++ shown found
  unfolding store_frames
  with_frames-log [] st = sym (append-nil st.log)
  with_frames-log (f ∷ fs) st = rw (some_frames (length fs)) (
      ap (λ xs. st.log ++ frames_log xs ∷ []) (take-++ (f ∷ fs) (drop (length (f ∷ fs)) st.frames)))

  -- The state in which an unwinder is called.
  abbrev pub prepared :
      (solution : ℕ) (remote_unwind with_context signal_interrupted : Bool) (cur_tid : ℕ)
      → State
      → State
  prepared solution remote_unwind with_context signal_interrupted cur_tid st = record st {
    solution = solution;
    remote_unwind = remote_unwind;
    with_context = with_context;
    signal_interrupted = signal_interrupted;
    cur_tid = cur_tid;
    frames_sz = 0;
    log = (st.log ++ frames_log [] ∷ []) ++ cfi_log false ∷ [];
  }

  pub log_lem :
      (log more : List Entry)
      → ((log ++ frames_log [] ∷ []) ++ cfi_log false ∷ []) ++ more
        ≡ log ++ (frames_log [] ∷ cfi_log false ∷ more)
  log_lem log more =
      append_assoc (log ++ frames_log [] ∷ []) (cfi_log false ∷ []) more
      ∙ append_assoc log (frames_log [] ∷ []) (cfi_log false ∷ more)

  pub found_frames :
      (call : Call) (found : List ℕ) (st st1 : State)
      → finds call ≡ shown found
      → IsIdle st1
      → st1.log ≡ (st.log ++ frames_log [] ∷ []) ++ cfi_log false ∷ []
      → Sampled call st (with_frames found st1)
  found_frames call found st st1 is v e = (
    with_frames-IsIdle found st1 v,
    with_frames-log found st1
        ∙ ap (λ l. l ++ shown found) e
        ∙ log_lem st.log (shown found)
        ∙ ap (λ more. st.log ++ (frames_log [] ∷ cfi_log false ∷ more)) (sym is),
  )
