-- ===== src/Glue/Offsets.antt =====
-- cpp/HookJvmExt.h: the search for the fields of the Java runtime that lift the restriction on
-- hidden APIs.
pub mod First
use elf_hook_test.Base.{
  ℕ, zero, suc, ◌+◌, ◌-◌, ◌/◌, Bool, true, false, ◌&&◌, ◌||◌, ◌==◌, leb, ltb, if◌then◌else◌,
}

-- What findOffset answers: an offset, -1 for a bad argument, -2 where the value is not there.
pub data Offset : Type 0 where
  found : ℕ → Offset
  invalid missing : Offset

-- The loop from `i` on, in steps of 4, with the rounds that are left; `word` reads the value at an
-- offset.
unfoldable pub find_from : (ℕ → ℕ) → (value : ℕ) → (left i : ℕ) → Offset
find_from word value zero i = missing
find_from word value (suc left) i =
    let rest = find_from word value left (i + 4) in if value == word i then found i else rest

-- findOffset. An offset is not negative. The loop makes a round for each 4 bytes that begin before
-- `region_end`.
unfoldable pub find_offset :
    (is_null : Bool) → (ℕ → ℕ) → (region_start region_end value : ℕ) → Offset
unfolding find_from
find_offset is_null word region_start region_end value =
    if is_null || region_end == 0
    then invalid
    else find_from word value ((region_end - region_start + 3) / 4) region_start

-- What unseal answers: the offset of the runtime part whose policy becomes kNoChecks, and whether
-- it has the layout of Android R; or -1 and -2.
pub data Unsealed : Type 0 where
  no_checks : (is_android_r : Bool) → ℕ → Unsealed
  no_vm_ext no_target_sdk : Unsealed

-- `isAndroidR`.
abbrev pub is_android_r : (api_level : ℕ) → (is_preview : Bool) → Bool
is_android_r api_level is_preview = leb 30 api_level || (api_level == 29 && is_preview)

-- The second search, from the first one's answer on.
unfoldable pub find_target_sdk :
    Bool → (ℕ → ℕ) → (is_r : Bool) → (target_sdk : ℕ) → Offset → Unsealed
unfolding find_offset
find_target_sdk is_null int_at is_r target_sdk invalid = no_vm_ext
find_target_sdk is_null int_at is_r target_sdk missing = no_vm_ext
find_target_sdk is_null int_at is_r target_sdk (found vm_ext) =
    let start = (if is_r then vm_ext + 200 else vm_ext) in
    elim (find_offset is_null int_at start 2000 target_sdk) [
      | found k ↦ no_checks is_r k
      | invalid ↦ no_target_sdk
      | missing ↦ no_target_sdk
    ]

-- unseal. `size_at` and `int_at` read a size_t and an int at an offset of the runtime, and `vm_ext` is
-- the address of the JavaVMExt.
unfoldable pub unseal :
    (is_null : Bool)
    → (size_at int_at : ℕ → ℕ) → (api_level : ℕ) → (is_preview : Bool) → (vm_ext target_sdk : ℕ)
    → Unsealed
unfolding find_target_sdk
unseal is_null size_at int_at api_level is_preview vm_ext target_sdk =
    find_target_sdk is_null int_at (is_android_r api_level is_preview) target_sdk
      (find_offset is_null size_at 0 2000 vm_ext)
