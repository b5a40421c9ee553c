-- ===== src/HookCore/Refresh.antt =====
-- xh_core_refresh_impl, which reads /proc/self/maps line by line.
pub mod Paths
pub mod Grows
pub mod Loaded
use elf_hook_test.Base.{
  ℕ, List, [], ◌∷◌, ◌++◌, Bool, true, false, not, ◌&&◌, ◌||◌, Option, none, some, if◌then◌else◌,
  ◌==◌, leb, take,
}
use elf_hook_test.Base.Run.{Run, done, fault, ◌>>=◌}
use elf_hook_test.Elf.{same_text}
use elf_hook_test.HookCore.{HookInfo, IgnoreInfo, MapInfo, Core}
use elf_hook_test.HookCore.Match.{hook_impl, check_match}

-- What sscanf reads of a line, and the text behind its fields.
pub record MapsLine : Type 0 where
  pub parses : Bool
  pub base_addr : ℕ
  pub perm : List ℕ
  pub offset : ℕ
  pub text : List ℕ

-- The system and the other files: regexec, xh_elf_check_elfheader (`none` where it raises
-- SIGSEGV), xh_elf_init, the number of xh_elf_hook calls that a library bears before SIGSEGV
-- (`none` for all), and whether malloc and strdup have memory for a path.
pub record System : Type 0 where
  pub regexec : List ℕ → List ℕ → Bool
  pub check_elfheader : ℕ → Option Bool
  pub elf_init : MapInfo → Bool
  pub bears : MapInfo → Option ℕ
  pub memory : List ℕ → Bool

-- isspace of the C locale.
abbrev pub is_space : ℕ → Bool
is_space c = c == 32 || (leb 9 c && leb c 13)

unfoldable pub skip_spaces : List ℕ → List ℕ
skip_spaces [] = []
skip_spaces (c ∷ cs) = let rest = skip_spaces cs in if is_space c then rest else c ∷ cs

unfoldable pub drop_newline : List ℕ → List ℕ
drop_newline [] = []
drop_newline (c ∷ []) = if c == 10 then [] else c ∷ []
drop_newline (c ∷ d ∷ cs) = c ∷ drop_newline (d ∷ cs)

-- The path name of a line, `none` where it is empty or starts with '['.
unfoldable pub pathname_of : List ℕ → Option (List ℕ)
unfolding skip_spaces drop_newline
pathname_of text = elim (drop_newline (skip_spaces text)) [
  | [] ↦ none
  | c ∷ cs ↦ if c == 0x5B then none else some (c ∷ cs)
]

abbrev pub starts_with_r : List ℕ → Bool
starts_with_r [] = false
starts_with_r (c ∷ cs) = c == 0x72

abbrev pub fourth_is_p : List ℕ → Bool
fourth_is_p (a ∷ b ∷ c ∷ d ∷ cs) = d == 0x70
fourth_is_p _ = false

-- RB_FIND, RB_REMOVE and RB_INSERT by the path; `none` is an entry that is there already.
unfoldable pub rb_find : List ℕ → List MapInfo → Option MapInfo
rb_find p [] = none
rb_find p (m ∷ ms) = if same_text p m.pathname then some m else rb_find p ms

unfoldable pub rb_remove : List ℕ → List MapInfo → List MapInfo
rb_remove p [] = []
rb_remove p (m ∷ ms) = if same_text p m.pathname then ms else m ∷ rb_remove p ms

unfoldable pub rb_insert : MapInfo → List MapInfo → Option (List MapInfo)
unfolding rb_find
rb_insert m ms = elim (rb_find m.pathname ms) [ some old ↦ none | none ↦ some (m ∷ ms) ]

-- The loop's variables: both trees, and the calls of xh_elf_hook.
pub record Refreshing : Type 0 where
  pub old : List MapInfo
  pub refreshed : List MapInfo
  pub calls : List (List ℕ × HookInfo)

abbrev pub tag : List ℕ → List HookInfo → List (List ℕ × HookInfo)
tag p [] = []
tag p (h ∷ hs) = (p, h) ∷ tag p hs

module _ (sys : System) (core : Core) where
  -- SIGSEGV comes back to sigsetjmp: the protection is on, and the handler is installed, which
  -- xh_core_add_sigsegv_handler does only where the protection is on at the time of initialisation.
  abbrev pub catches : Bool
  catches = core.sigsegv_enable && core.handler

  -- xh_core_check_elf_header: true for 0.
  unfoldable pub check_elf_header : ℕ → Run Bool
  check_elf_header base_addr = elim (sys.check_elfheader base_addr) [
    | some good ↦ done good
    | none ↦ if catches then done false else fault
  ]

  -- xh_core_hook.
  unfoldable pub hook : MapInfo → Run (List HookInfo)
  unfolding hook_impl
  hook mi =
      let all =
        (if sys.elf_init mi
          then hook_impl sys.regexec core.ignores mi.pathname core.hooks
          else []) in
      elim (sys.bears mi) [
        | none ↦ done all
        | some n ↦ if catches then done (take n all) else fault
      ]

  -- The path is in the old tree.
  unfoldable pub refresh_exist : Refreshing → MapInfo → ℕ → Run Refreshing
  unfolding hook rb_remove rb_insert
  refresh_exist s mi base_addr =
      let old = rb_remove mi.pathname s.old in
      let moved = record mi { base_addr = base_addr } in
      if (mi.base_addr == base_addr)
      then elim (rb_insert mi s.refreshed) [
        | none ↦ done (record s { old = old })
        | some t ↦ done (record s { old = old; refreshed = t })
      ]
      else elim (rb_insert moved s.refreshed) [
        | none ↦ done (record s { old = old })
        | some t ↦ hook moved >>= λ hs.
            done (record { old = old; refreshed = t; calls = s.calls ++ tag mi.pathname hs })
      ]

  -- The path is new.
  unfoldable pub refresh_create : Refreshing → List ℕ → ℕ → Run Refreshing
  unfolding hook rb_insert
  refresh_create s pathname base_addr =
      let mi : MapInfo = record { pathname = pathname; base_addr = base_addr } in
      if sys.memory pathname
      then elim (rb_insert mi s.refreshed) [
        | none ↦ done s
        | some t ↦ hook mi >>= λ hs.
            done (record { old = s.old; refreshed = t; calls = s.calls ++ tag pathname hs })
      ]
      else done s

  unfoldable pub refresh_path : Refreshing → List ℕ → ℕ → Run Refreshing
  unfolding check_match check_elf_header rb_find refresh_exist refresh_create
  refresh_path s pathname base_addr =
      if check_match sys.regexec core.ignores pathname core.hooks
      then (check_elf_header base_addr >>= λ good.
          (if good
            then elim (rb_find pathname s.old) [
              | some mi ↦ refresh_exist s mi base_addr
              | none ↦ refresh_create s pathname base_addr
            ]
            else done s))
      else done s

  unfoldable pub refresh_line : Refreshing → MapsLine → Run Refreshing
  unfolding pathname_of refresh_path
  refresh_line s l =
      if l.parses && starts_with_r l.perm && fourth_is_p l.perm && l.offset == 0
      then elim (pathname_of l.text) [ none ↦ done s | some p ↦ refresh_path s p l.base_addr ]
      else done s

  unfoldable pub refresh_lines : Refreshing → List MapsLine → Run Refreshing
  unfolding refresh_line
  refresh_lines s [] = done s
  refresh_lines s (l ∷ ls) = refresh_line s l >>= λ s'. refresh_lines s' ls

  -- xh_core_refresh_impl, where the file opens: the new tree, and the calls.
  unfoldable pub refresh_impl : List MapsLine → Run (Core × List (List ℕ × HookInfo))
  unfolding refresh_lines
  refresh_impl lines =
      refresh_lines (record { old = core.maps; refreshed = []; calls = [] }) lines >>= λ s.
      done (record core { maps = s.refreshed }, s.calls)
