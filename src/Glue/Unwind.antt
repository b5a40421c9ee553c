-- ===== src/Glue/Unwind.antt =====
-- cpp/uwind.h: the signal handlers that unwind the stack of the thread they interrupt, and the calls
-- that raise SIGABRT to try them.
pub mod Frames
pub mod Calls
use elf_hook_test.Base.{
  ℕ, ◌+◌, ◌-◌, List, [], ◌∷◌, ◌++◌, Bool, true, false, not, ◌&&◌, ◌||◌, Option, none, some, ltb,
  ◌==◌, if◌then◌else◌, take, length, drop,
}
use elf_hook_test.Base.Run.{Run, done, fault, ◌>>=◌}

-- The two handlers, which are where an unwinder may be called.
pub data Site : Type 0 where
  in_abort in_segv : Site

-- What goes to the log: the CFI unwinder's stack, of the thread itself or from a child process, the
-- frames of the others, or that FP unwinding is for arm64 only.
pub data Entry : Type 0 where
  cfi_log : (remote : Bool) → Entry
  frames_log : List ℕ → Entry
  unsupported : Entry

-- The static variables, and what the system keeps: which handlers are installed, the open pipe ends,
-- and the log. `frames_sz` says how much of `frames` is in use.
pub record State : Type 0 where
  pub solution : ℕ
  pub remote_unwind : Bool
  pub with_context : Bool
  pub signal_interrupted : Bool
  pub cur_tid : ℕ
  pub frames : List ℕ
  pub frames_sz : ℕ
  pub handles_abort : Bool
  pub handles_segv : Bool
  pub open_fds : ℕ
  pub log : List Entry

-- The system and the unwinders: the contexts that the handlers get, the frames that are found from a
-- handler, whether pipe() and fork() succeed, the thread, and whether the weak compare-exchange fails
-- although both values are the same.
pub record System : Type 0 where
  pub is_aarch64 : Bool
  pub context : Site → ℕ
  pub fp_unwind : Site → Option ℕ → List ℕ
  pub eh_unwind : Site → Option ℕ → List ℕ
  pub pipes : Bool
  pub forks : Bool
  pub tid : ℕ
  pub spurious : Bool

abbrev pub solution_cfi : ℕ
solution_cfi = 1

abbrev pub solution_fp : ℕ
solution_fp = 2

abbrev pub solution_eh : ℕ
solution_eh = 3

abbrev pub write_log : Entry → State → State
write_log e st = record st { log = st.log ++ e ∷ [] }

-- sample_signal_register.
unfoldable pub sample_signal_register : State → State
sample_signal_register st = record st { handles_abort = true; handles_segv = true }

module _ (sys : System) where
  abbrev pub context_for : Site → Bool → Option ℕ
  context_for site with_context = if with_context then some (sys.context site) else none

  -- An unwinder has written its frames to the start of g_frames; g_frames_sz is set.
  unfoldable pub store_frames : List ℕ → State → State
  store_frames found st = record st {
    frames = found ++ drop (length found) st.frames;
    frames_sz = length found;
  }

  -- The part that both handlers have.
  unfoldable pub unwind : Site → State → State
  unfolding store_frames
  unwind site st =
      if st.solution == solution_fp
      then (if sys.is_aarch64
          then store_frames (sys.fp_unwind site (context_for site st.with_context)) st
          else write_log unsupported st)
      else (if st.solution == solution_eh
          then store_frames (sys.eh_unwind site (context_for site st.with_context)) st
          else st)

  -- sample_sigsegv_handler: whether it goes back by siglongjmp. If not, the old handler is installed.
  unfoldable pub sample_sigsegv_handler : State → Bool × State
  unfolding unwind
  sample_sigsegv_handler st =
      if st.cur_tid == sys.tid && not sys.spurious
      then (true, unwind in_segv (record st { cur_tid = 0 }))
      else (false, record st { handles_segv = false })

  -- sample_make_sigsegv behind sigsetjmp. Where the handler returns, the write to address 0 is done
  -- again, and no handler of this file is there.
  unfoldable pub sample_make_sigsegv : State → Run State
  unfolding sample_sigsegv_handler
  sample_make_sigsegv st =
      let handled = sample_sigsegv_handler st in
      if st.handles_segv then (if handled.0 then done handled.1 else fault) else fault

  -- The CFI remote unwind: the child logs and exits, and the parent waits for it.
  unfoldable pub remote : State → State
  remote st =
      if sys.pipes
      then (if sys.forks
          then write_log (cfi_log true) st
          else record st { open_fds = st.open_fds + 2 })
      else st

  unfoldable pub sample_sigabrt_handler : State → Run State
  unfolding unwind sample_make_sigsegv remote
  sample_sigabrt_handler st0 =
      let st = write_log (cfi_log false) st0 in
      if st.solution == solution_fp || st.solution == solution_eh
      then (if not st.signal_interrupted
          then done (unwind in_abort st)
          else sample_make_sigsegv (record st { cur_tid = sys.tid }))
      else (if not st.remote_unwind then done (write_log (cfi_log false) st) else done (remote st))

  -- sample_test.
  unfoldable pub sample_test :
      (solution : ℕ) (remote_unwind with_context signal_interrupted : Bool) → State → Run State
  unfolding sample_sigabrt_handler
  sample_test solution remote_unwind with_context signal_interrupted st0 =
      let st = write_log (frames_log (take 0 st0.frames)) (record st0 {
        solution = solution;
        remote_unwind = remote_unwind;
        with_context = with_context;
        signal_interrupted = signal_interrupted;
        frames_sz = 0;
      }) in
      (if st.handles_abort then sample_sigabrt_handler st else fault) >>= λ st'. done (
        if (solution == solution_fp || solution == solution_eh) && ltb 0 st'.frames_sz
        then write_log (frames_log (take st'.frames_sz st'.frames)) st'
        else st')

  unfoldable pub sample_test_cfi : (remote_unwind : Bool) → State → Run State
  unfolding sample_test
  sample_test_cfi remote_unwind = sample_test solution_cfi remote_unwind true false

  unfoldable pub sample_test_fp : (with_context signal_interrupted : Bool) → State → Run State
  unfolding sample_test
  sample_test_fp with_context signal_interrupted =
      sample_test solution_fp false with_context signal_interrupted

  unfoldable pub sample_test_eh : (with_context signal_interrupted : Bool) → State → Run State
  unfolding sample_test
  sample_test_eh with_context signal_interrupted =
      sample_test solution_eh false with_context signal_interrupted
