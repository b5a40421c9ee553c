-- ===== src/Tests/Unwind.antt =====
-- Unwinding by the detour over SIGSEGV.
use elf_hook_test.Base.{refl, [], ◌∷◌, true, false}
use elf_hook_test.Base.Run.{Returns}
use elf_hook_test.Glue.Unwind.{System, State, sample_signal_register}
use elf_hook_test.Glue.Unwind.Calls.{sample-Sampled}
use elf_hook_test.Glue.Unwind.Frames.{fp, IsIdle, sample, Sampled}

abbrev arm64 : System
arm64 = record {
  is_aarch64 = true;
  context = λ site. 0x500;
  fp_unwind = λ site context. 0x10 ∷ 0x20 ∷ [];
  eh_unwind = λ site context. [];
  pipes = true;
  forks = true;
  tid = 7;
  spurious = false;
}

abbrev loaded : State
loaded = record {
  solution = 0;
  remote_unwind = false;
  with_context = false;
  signal_interrupted = false;
  cur_tid = 0;
  frames = 1 ∷ 2 ∷ 3 ∷ [];
  frames_sz = 0;
  handles_abort = false;
  handles_segv = false;
  open_fds = 0;
  log = [];
}

registered-IsIdle : IsIdle (sample_signal_register loaded)
unfolding sample_signal_register
registered-IsIdle = record { handles_abort = refl; handles_segv = refl; cur_tid = refl }

sample-Sampled_example :
    Returns
      (sample arm64 (fp true true) (sample_signal_register loaded))
      (Sampled arm64 (fp true true) (sample_signal_register loaded))
sample-Sampled_example =
    sample-Sampled arm64 refl (sample_signal_register loaded) registered-IsIdle (fp true true)
