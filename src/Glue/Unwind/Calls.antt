-- ===== src/Glue/Unwind/Calls.antt =====
-- What the calls of uwind.h log.
use mathlib.Core.List.{append-nil}
use elf_hook_test.Base.{
  ℕ, ◌≡◌, refl, arith, ap, sym, ◌∙◌, [], ◌∷◌, ◌++◌, Bool, true, false, ◌==◌, Bool-cases, inl, inr,
}
use elf_hook_test.Base.Run.{done, Returns}
use elf_hook_test.Glue.Unwind.{
  in_abort, in_segv, Entry, cfi_log, frames_log, unsupported, State, System, write_log, context_for,
  store_frames, unwind, remote, sample_sigabrt_handler, sample_test, sample_test_cfi,
  sample_test_fp, sample_test_eh,
}
use elf_hook_test.Glue.Unwind.Frames.{
  Call, cfi, fp, eh, IsIdle, sample, finds, Sampled, with_frames, prepared, log_lem, found_frames,
}

module _ (sys : System) (steady : sys.spurious ≡ false) (st : State) (idle : IsIdle st) where
  -- What each call comes to.
  fp_plain :
      (c : Bool)
      → sys.is_aarch64 ≡ true
      → sample_test_fp sys c false st
        ≡ done (
            with_frames sys
              (sys.fp_unwind in_abort (context_for sys in_abort c))
              (prepared sys 2 false c false st.cur_tid st))
  unfolding sample_test_fp sample_test sample_sigabrt_handler unwind store_frames
  fp_plain c arm64 =
      rw (sample_test_fp, sample_test, idle.handles_abort, sample_sigabrt_handler, unwind, arm64)
        refl

  fp_plain_other :
      (c : Bool)
      → sys.is_aarch64 ≡ false
      → sample_test_fp sys c false st
        ≡ done (write_log unsupported (prepared sys 2 false c false st.cur_tid st))
  unfolding sample_test_fp sample_test sample_sigabrt_handler unwind store_frames
  fp_plain_other c other =
      rw (sample_test_fp, sample_test, idle.handles_abort, sample_sigabrt_handler, unwind, other)
        refl

  same_tid : (sys.tid == sys.tid) ≡ true
  same_tid = ground arith

  fp_segv :
      (c : Bool)
      → sys.is_aarch64 ≡ true
      → sample_test_fp sys c true st
        ≡ done (
            with_frames sys
              (sys.fp_unwind in_segv (context_for sys in_segv c))
              (prepared sys 2 false c true 0 st))
  unfolding sample_test_fp sample_test sample_sigabrt_handler unwind store_frames
  fp_segv c arm64 =
      rw
        (
          sample_test_fp, sample_test, idle.handles_abort, sample_sigabrt_handler,
          idle.handles_segv, same_tid, steady, unwind, arm64,
        )
        refl

  fp_segv_other :
      (c : Bool)
      → sys.is_aarch64 ≡ false
      → sample_test_fp sys c true st
        ≡ done (write_log unsupported (prepared sys 2 false c true 0 st))
  unfolding sample_test_fp sample_test sample_sigabrt_handler unwind store_frames
  fp_segv_other c other =
      rw
        (
          sample_test_fp, sample_test, idle.handles_abort, sample_sigabrt_handler,
          idle.handles_segv, same_tid, steady, unwind, other,
        )
        refl

  eh_plain :
      (c : Bool)
      → sample_test_eh sys c false st
        ≡ done (
            with_frames sys
              (sys.eh_unwind in_abort (context_for sys in_abort c))
              (prepared sys 3 false c false st.cur_tid st))
  unfolding sample_test_eh sample_test sample_sigabrt_handler unwind store_frames
  eh_plain c = rw (sample_test_eh, sample_test, idle.handles_abort, sample_sigabrt_handler) refl

  eh_segv :
      (c : Bool)
      → sample_test_eh sys c true st
        ≡ done (
            with_frames sys
              (sys.eh_unwind in_segv (context_for sys in_segv c))
              (prepared sys 3 false c true 0 st))
  unfolding sample_test_eh sample_test sample_sigabrt_handler unwind store_frames
  eh_segv c =
      rw
        (
          sample_test_eh, sample_test, idle.handles_abort, sample_sigabrt_handler,
          idle.handles_segv, same_tid, steady,
        )
        refl

  cfi_near :
      sample_test_cfi sys false st
      ≡ done (write_log (cfi_log false) (prepared sys 1 false true false st.cur_tid st))
  unfolding sample_test_cfi sample_test sample_sigabrt_handler
  cfi_near = rw (sample_test_cfi, sample_test, idle.handles_abort, sample_sigabrt_handler) refl

  cfi_far :
      sample_test_cfi sys true st ≡ done (remote sys (prepared sys 1 true true false st.cur_tid st))
  unfolding sample_test_cfi sample_test sample_sigabrt_handler remote
  cfi_far = elim (Bool-cases sys.pipes) [
    | inl pipes ↦ elim (Bool-cases sys.forks) [
      | inl forks ↦ rw (idle.handles_abort, pipes, forks) refl
      | inr alone ↦ rw (idle.handles_abort, pipes, alone) refl
    ]
    | inr without ↦ rw (idle.handles_abort, without) refl
  ]

  prepared-IsIdle :
      (solution : ℕ) (far c i : Bool) (tid : ℕ)
      → tid ≡ 0
      → IsIdle (prepared sys solution far c i tid st)
  prepared-IsIdle solution far c i tid e = record {
    handles_abort = idle.handles_abort;
    handles_segv = idle.handles_segv;
    cur_tid = e;
  }

  one_entry :
      (solution : ℕ) (far c i : Bool) (tid : ℕ) (e : Entry)
      → tid ≡ 0
      → (call : Call) → finds sys call ≡ e ∷ []
      → Sampled sys call st (write_log e (prepared sys solution far c i tid st))
  one_entry solution far c i tid e is_idle call is = (
    record {
      handles_abort = idle.handles_abort;
      handles_segv = idle.handles_segv;
      cur_tid = is_idle;
    },
    log_lem sys st.log (e ∷ [])
        ∙ ap (λ more. st.log ++ (frames_log [] ∷ cfi_log false ∷ more)) (sym is),
  )

  bare_log :
      (st.log ++ frames_log [] ∷ []) ++ cfi_log false ∷ []
      ≡ st.log ++ (frames_log [] ∷ cfi_log false ∷ [])
  bare_log =
      sym (append-nil ((st.log ++ frames_log [] ∷ []) ++ cfi_log false ∷ []))
      ∙ log_lem sys st.log []

  far_Sampled :
      Sampled sys (cfi true) st (remote sys (prepared sys 1 true true false st.cur_tid st))
  unfolding remote
  far_Sampled = elim (Bool-cases sys.pipes) [
    | inl pipes ↦ elim (Bool-cases sys.forks) [
      | inl forks ↦
          rw (pipes, forks)
            (
              record {
                handles_abort = idle.handles_abort;
                handles_segv = idle.handles_segv;
                cur_tid = idle.cur_tid;
              },
              log_lem sys st.log (cfi_log true ∷ []),
            )
      | inr alone ↦
          rw (pipes, alone)
            (
              record {
                handles_abort = idle.handles_abort;
                handles_segv = idle.handles_segv;
                cur_tid = idle.cur_tid;
              },
              bare_log,
            )
    ]
    | inr without ↦ rw without (
      record {
        handles_abort = idle.handles_abort;
        handles_segv = idle.handles_segv;
        cur_tid = idle.cur_tid;
      },
      bare_log,
    )
  ]

  -- Each call of the samples, by an unwinder of any kind, in the handler of SIGABRT or by the detour over
  -- SIGSEGV, comes to an end and leaves both handlers in place and no thread waiting. The log has grown
  -- by no frames, the CFI log, and what the call is for: the frames that the unwinder has found in
  -- that handler, if it has found any, and no older ones; the CFI log once more; or that of the child
  -- process where pipe() and fork() succeed. The compare-exchange has not failed without cause.
  pub sample-Sampled : (call : Call) → Returns (sample sys call st) (Sampled sys call st)
  sample-Sampled (cfi true) = rw cfi_far far_Sampled
  sample-Sampled (cfi false) =
      rw cfi_near
        (one_entry 1 false true false st.cur_tid (cfi_log false) idle.cur_tid (cfi false) refl)
  sample-Sampled (fp c false) = elim (Bool-cases sys.is_aarch64) [
    | inl arm64 ↦ rw (fp_plain c arm64) (
        found_frames sys (fp c false) _ st (prepared sys 2 false c false st.cur_tid st)
          (rw arm64 refl) (prepared-IsIdle 2 false c false st.cur_tid idle.cur_tid) refl)
    | inr other ↦
        rw (fp_plain_other c other) (
          one_entry 2 false c false st.cur_tid unsupported idle.cur_tid (fp c false)
            (rw other refl))
  ]
  sample-Sampled (fp c true) = elim (Bool-cases sys.is_aarch64) [
    | inl arm64 ↦ rw (fp_segv c arm64) (
        found_frames sys (fp c true) _ st (prepared sys 2 false c true 0 st) (rw arm64 refl)
          (prepared-IsIdle 2 false c true 0 refl) refl)
    | inr other ↦
        rw (fp_segv_other c other)
          (one_entry 2 false c true 0 unsupported refl (fp c true) (rw other refl))
  ]
  sample-Sampled (eh c false) = rw (eh_plain c) (
      found_frames sys (eh c false) _ st (prepared sys 3 false c false st.cur_tid st) refl
        (prepared-IsIdle 3 false c false st.cur_tid idle.cur_tid) refl)
  sample-Sampled (eh c true) = rw (eh_segv c) (
      found_frames sys (eh c true) _ st (prepared sys 3 false c true 0 st) refl
        (prepared-IsIdle 3 false c true 0 refl) refl)
