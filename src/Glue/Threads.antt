-- ===== src/Glue/Threads.antt =====
-- cpp/HookThreadProxy.h: the hook of pthread_create, which takes the stacks of the creating thread to
-- the new one.
pub mod Balance
use elf_hook_test.Base.{
  ℕ, List, [], ◌∷◌, ◌++◌, Bool, true, false, ◌&&◌, Option, none, some, ◌==◌, if◌then◌else◌,
}

-- What the Java VM says of a thread, and the calls that it gets. `refs` are the global references
-- that were made and not deleted.
pub record Jvm : Type 0 where
  pub attached : Bool
  pub refs : List ℕ
  pub records : List (ℕ × ℕ)

-- What GetEnv answers: JNI_OK, JNI_EDETACHED or an error.
pub data EnvStatus : Type 0 where
  jni_ok jni_detached jni_error : EnvStatus

-- GET_JNI_ENV_STATUS_NORMAL, _NEED_DETACH and _ERROR.
pub data GetJniEnv : Type 0 where
  normal need_detach failed : GetJniEnv

-- The VM as the calling thread sees it: whether it has the version that GetEnv asks for, whether
-- AttachCurrentThread succeeds, the stack trace of the thread, and the reference that NewGlobalRef
-- makes.
pub record Vm : Type 0 where
  pub has_version : Bool
  pub attaches : Bool
  pub stacktrace : ℕ
  pub native_stack : ℕ

unfoldable pub get_env : Vm → Jvm → EnvStatus
get_env vm j = if vm.has_version then (if j.attached then jni_ok else jni_detached) else jni_error

-- getJNIEnv.
unfoldable pub get_jni_env : Vm → Jvm → GetJniEnv × Jvm
unfolding get_env
get_jni_env vm j = elim (get_env vm j) [
  | jni_ok ↦ (normal, j)
  | jni_detached ↦ if vm.attaches then (need_detach, record j { attached = true }) else (failed, j)
  | jni_error ↦ (failed, j)
]

-- `if (status == GET_JNI_ENV_STATUS_NEED_DETACH) jvm->DetachCurrentThread();`
unfoldable pub detach : GetJniEnv → Jvm → Jvm
detach need_detach j = record j { attached = false }
detach normal j = j
detach failed j = j

-- ThreadCall_Args. The field `js_stacktrace` is not written where getJNIEnv fails: `none`.
pub record ThreadCallArgs : Type 0 where
  pub thread_call_original : ℕ
  pub arg : ℕ
  pub native_stack : ℕ
  pub js_stacktrace : Option ℕ

-- thread_create_proxy: the arguments that the original pthread_create gets for the new thread.
unfoldable pub thread_create_proxy : Vm → Jvm → (start_routine arg : ℕ) → ThreadCallArgs × Jvm
unfolding get_jni_env detach
thread_create_proxy vm j start_routine arg =
    let (status, j1) = get_jni_env vm j in
    elim status [
      | failed ↦ (
        record {
          thread_call_original = start_routine;
          arg = arg;
          native_stack = vm.native_stack;
          js_stacktrace = none;
        },
        j1,
      )
      | other ↦ (
        record {
          thread_call_original = start_routine;
          arg = arg;
          native_stack = vm.native_stack;
          js_stacktrace = some vm.stacktrace;
        },
        detach other (record j1 { refs = vm.stacktrace ∷ j1.refs }),
      )
    ]

-- DeleteGlobalRef.
abbrev pub delete_ref : ℕ → List ℕ → List ℕ
delete_ref r [] = []
delete_ref r (x ∷ xs) = if r == x then xs else x ∷ delete_ref r xs

-- What the new thread does: the call of record4Jni, the start routine with its argument, and the
-- result, NULL. `none` is a use of the reference that was not written.
pub record Ran : Type 0 where
  pub jvm : Jvm
  pub called : ℕ
  pub with_arg : ℕ
  pub result : ℕ

-- thread_call; `known` says whether thread_hook found the Java classes.
unfoldable pub thread_call : (known : Bool) → Vm → Jvm → ThreadCallArgs → Option Ran
unfolding get_jni_env detach
thread_call known vm j member =
    let run : Jvm → Option Ran = λ j'. some (record {
      jvm = j';
      called = member.thread_call_original;
      with_arg = member.arg;
      result = 0;
    }) in
    if known
    then (let (status, j1) = get_jni_env vm j in
        elim status [
          | failed ↦ run j1
          | other ↦ elim member.js_stacktrace [
            | none ↦ none
            | some r ↦ run (
                detach other (record j1 {
                  refs = delete_ref r j1.refs;
                  records = j1.records ++ (r, member.native_stack) ∷ [];
                }))
          ]
        ])
    else run j
