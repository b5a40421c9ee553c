-- ===== src/Tests/Glue.antt =====
-- The hook of pthread_create and the search for an offset.
use elf_hook_test.Base.{ℕ, ◌≡◌, [], ◌∷◌, true, false, some, if◌then◌else◌, ◌==◌, arith}
use elf_hook_test.Glue.Threads.{Vm, Jvm, get_jni_env, thread_call, thread_create_proxy}
use elf_hook_test.Glue.Threads.Balance.{thread_call-thread_create_proxy}
use elf_hook_test.Glue.Offsets.{find_offset}
use elf_hook_test.Glue.Offsets.First.{IsFirst, find_offset_lem}

-- The thread that creates another and the one that is created.
abbrev creator : Vm
creator = record { has_version = true; attaches = true; stacktrace = 40; native_stack = 41 }

abbrev created : Vm
created = record { has_version = true; attaches = true; stacktrace = 50; native_stack = 51 }

abbrev before : Jvm
before = record { attached = false; refs = 7 ∷ []; records = [] }

thread_call-thread_create_proxy_example :
    let (member, j') = thread_create_proxy creator before 100 200 in
    (j'.attached ≡ false)
    × (thread_call true created (record j' { attached = false }) member
        ≡ some (record {
          jvm = record { attached = false; refs = 7 ∷ []; records = (40, 41) ∷ [] };
          called = 100;
          with_arg = 200;
          result = 0;
        }))
unfolding get_jni_env
thread_call-thread_create_proxy_example =
    thread_call-thread_create_proxy creator created before 100 200 false (λ e. cc) (λ e. cc)

-- A runtime with the value 77 at the offset 8.
abbrev runtime : ℕ → ℕ
runtime a = if a == 8 then 77 else 0

find_offset_lem_example : IsFirst runtime 77 0 2000 (find_offset false runtime 0 2000 77)
find_offset_lem_example = find_offset_lem runtime 77 0 2000 (omega arith)
