-- ===== src/Elf/Header.antt =====
-- xh_elf_check_elfheader. The build fixes the class and the machine that it asks for.
use elf_hook_test.Base.{ℕ, List, [], ◌∷◌, Bool, false, ◌==◌, ◌||◌, not, if◌then◌else◌}

-- The fields of an Ehdr that are checked; `magic` is the first four bytes.
pub record Ehdr : Type 0 where
  pub magic : List ℕ
  pub class : ℕ
  pub encoding : ℕ
  pub ident_version : ℕ
  pub type : ℕ
  pub machine : ℕ
  pub version : ℕ

-- `memcmp(e_ident, "\x7fELF", 4) == 0`.
unfoldable pub is_magic : List ℕ → Bool
is_magic (a ∷ b ∷ c ∷ d ∷ []) =
    if a == 0x7F
    then (if b == 0x45 then (if c == 0x4C then d == 0x46 else false) else false)
    else false
is_magic _ = false

-- True for 0, false for XH_ERRNO_FORMAT.
unfoldable pub check_elfheader : (class machine : ℕ) → Ehdr → Bool
unfolding is_magic
check_elfheader class machine h =
    if not (is_magic h.magic)
    then false
    else if not (h.class == class)
    then false
    else if not (h.encoding == 1)
    then false
    else if not (h.ident_version == 1)
    then false
    else if not (h.type == 2 || h.type == 3)
    then false
    else if not (h.machine == machine)
    then false
    else h.version == 1
