-- ===== src/Glue/Threads/Balance.antt =====
-- Creating a thread through the proxy, and running it.
use elf_hook_test.Base.{ℕ, List, [], ◌∷◌, ◌++◌, Bool, true, false, some, ==_iff, ◌≡◌, ◌≢◌, refl}
use elf_hook_test.Glue.Threads.{Jvm, Vm, failed, get_jni_env, thread_create_proxy, thread_call}

-- Where getJNIEnv goes through, the proxy hands over the trace, with a reference to it, and leaves the
-- thread attached as it was.
create_lem :
    (has_version attaches attached : Bool) (stacktrace native_stack : ℕ) (refs : List ℕ)
    (records : List (ℕ × ℕ)) (start_routine arg : ℕ)
    → let vm : Vm = record {
      has_version = has_version;
      attaches = attaches;
      stacktrace = stacktrace;
      native_stack = native_stack;
    } in
      let j : Jvm = record { attached = attached; refs = refs; records = records } in
      (get_jni_env vm j).0 ≢ failed
      → thread_create_proxy vm j start_routine arg ≡ (
        record {
          thread_call_original = start_routine;
          arg = arg;
          native_stack = native_stack;
          js_stacktrace = some stacktrace;
        },
        record j { refs = stacktrace ∷ refs },
      )
unfolding thread_create_proxy
create_lem true at true st ns refs recs s a h = refl
create_lem true true false st ns refs recs s a h = refl
create_lem true false false st ns refs recs s a h = absurd (h refl)
create_lem false at j st ns refs recs s a h = absurd (h refl)

-- Where getJNIEnv goes through in the new thread, the trace is recorded and its reference deleted.
call_lem :
    (has_version attaches attached : Bool) (x y : ℕ) (r : ℕ) (refs : List ℕ)
    (records : List (ℕ × ℕ)) (start_routine arg ns : ℕ)
    → let vm : Vm = record {
      has_version = has_version;
      attaches = attaches;
      stacktrace = x;
      native_stack = y;
    } in
      let j : Jvm = record { attached = attached; refs = r ∷ refs; records = records } in
      (get_jni_env vm j).0 ≢ failed
      → thread_call true vm j (record {
        thread_call_original = start_routine;
        arg = arg;
        native_stack = ns;
        js_stacktrace = some r;
      })
        ≡ some (record {
          jvm = record { attached = attached; refs = refs; records = records ++ (r, ns) ∷ [] };
          called = start_routine;
          with_arg = arg;
          result = 0;
        })
unfolding thread_call
call_lem true at true x y r refs recs s a ns h = rw ((==_iff r r).1 refl) refl
call_lem true true false x y r refs recs s a ns h = rw ((==_iff r r).1 refl) refl
call_lem true false false x y r refs recs s a ns h = absurd (h refl)
call_lem false at j x y r refs recs s a ns h = absurd (h refl)

-- A pthread_create through the proxy, and the start of the new thread, where both threads reach the
-- VM and the Java classes are known: the routine is called with its argument, the stacks of the creating
-- thread are recorded, each thread is left attached or detached as it was, and no global reference is
-- left over. The new thread answers NULL, whatever the routine does. `was_attached` says whether the VM knows the new thread already.
pub thread_call-thread_create_proxy :
    (vm vm' : Vm) (j : Jvm) (start_routine arg : ℕ) (was_attached : Bool)
    → (get_jni_env vm j).0 ≢ failed
    → (get_jni_env vm' (record j { attached = was_attached; refs = vm.stacktrace ∷ j.refs })).0
      ≢ failed
    → let (member, j') = thread_create_proxy vm j start_routine arg in
      (j'.attached ≡ j.attached)
      × (thread_call true vm' (record j' { attached = was_attached }) member
          ≡ some (record {
            jvm = record j {
              attached = was_attached;
              records = j.records ++ (vm.stacktrace, vm.native_stack) ∷ [];
            };
            called = start_routine;
            with_arg = arg;
            result = 0;
          }))
thread_call-thread_create_proxy vm vm' j start_routine arg was_attached reached reached' =
    rw
      (create_lem vm.has_version vm.attaches j.attached vm.stacktrace vm.native_stack j.refs
        j.records start_routine arg reached)
      (
        refl,
        call_lem vm'.has_version vm'.attaches was_attached vm'.stacktrace vm'.native_stack
            vm.stacktrace j.refs j.records start_routine arg vm.native_stack reached',
      )
