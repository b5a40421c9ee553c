-- ===== src/Tests/Loads.antt =====
-- A process that hooks dlopen and then loads a library, and the search for one.
use elf_hook_test.Base.{
  ℕ, zero, suc, ◌+◌, ◌*◌, ◌≡◌, ◌==◌, ◌-◌, leb, refl, arith, List, [], ◌∷◌, true, false, Option,
  some, none, Bool, ◌&&◌, if◌then◌else◌, take,
}
use elf_hook_test.Base.Int.{negsuc}
use elf_hook_test.Base.Run.{Run, done, Returns, ◌>>=◌}
use elf_hook_test.HookCore.{HookInfo, Core}
use elf_hook_test.HookCore.Refresh.{System, MapsLine}
use elf_hook_test.HookCore.Refresh.Loaded.{Hooked}
use elf_hook_test.Glue.Dlopen.{
  Process, Setup, Origins, Proxy, android_dlopen_o, rows_for, dlopenhook,
}
use elf_hook_test.Glue.Dlopen.Ready.{hooks_of, IsFresh}
use elf_hook_test.Glue.Dlopen.Loads.{Args, IsSound, through, through-dlopenhook}
use elf_hook_test.Glue.SoTool.{dash, hex, find_database_of, find_database_of2}
use elf_hook_test.Glue.SoTool.Address.{IsNumber, find_database_of2-find_database_of}
use elf_hook_test.Tests.Core.{line_at}

abbrev sound_system : System
sound_system = record {
  regexec = λ regex path. true;
  check_elfheader = λ a. some true;
  elf_init = λ m. true;
  bears = λ m. none;
  memory = λ p. true;
}

abbrev setup : Setup
setup = record {
  sys = sound_system;
  regcomp = λ r. true;
  memory = λ s. true;
  sigaction = true;
  creates = true;
}

-- The library /a, which stands at 0x1000 when it is loaded.
abbrev loads_a : Process → Run (ℕ × Process)
loads_a p = done (0x77, record p { maps = line_at 0x1000 ∷ [] })

abbrev origins : Origins
origins = record {
  dlopen_origin_o = λ f g c. loads_a;
  dlopen_origin_n = λ f g. loads_a;
  dlopen_origin = λ f g. loads_a;
  android_dlopen_origin_o = λ f g e c. loads_a;
  android_dlopen_origin_n = λ f g e. loads_a;
}

abbrev process : Process
process = record {
  core = record {
    sigsegv_enable = true;
    hooks = [];
    ignores = [];
    maps = [];
    inited = false;
    init_ok = false;
    async_inited = false;
    async_init_ok = false;
    thread_running = false;
    thread_do = false;
    handler = false;
  };
  maps = [];
  calls = [];
}

abbrev args : Args
args = record { filename = 1; flags = 2; extinfo = 0; caller_addr = 3 }

abbrev address_of : Proxy → ℕ
address_of p = 0x9000

process-IsFresh : IsFresh process.core
process-IsFresh = record {
  inited = refl;
  hooks = refl;
  ignores = refl;
  maps = refl;
  protected = refl;
}

a-IsSound : IsSound sound_system (line_at 0x1000) (0x2F ∷ 0x61 ∷ [])
unfolding elf_hook_test.HookCore.Refresh.pathname_of
a-IsSound = record {
  is_named = refl;
  is_so = refl;
  good = refl;
  memory = refl;
  opens = refl;
  bears = refl;
}

through-dlopenhook_example :
    Returns
      (dlopenhook setup address_of address_of 26 process >>= λ q.
        through setup origins android_dlopen_o args q)
      (λ out.
        (out.0 ≡ 0x77)
        × Hooked (0x2F ∷ 0x61 ∷ []) (hooks_of (rows_for address_of address_of 26)) out.1.calls)
through-dlopenhook_example =
    through-dlopenhook setup origins address_of address_of 26 android_dlopen_o args process
      (0x2F ∷ 0x61 ∷ []) (line_at 0x1000) [] [] 0x77 refl (λ s. refl) refl process-IsFresh a-IsSound
      tt tt (λ q. refl)

-- The C library: the first place of one text in another, the text in front of a delimiter, and the value
-- of hexadecimal digits, which with base 0 stand behind "0x".
abbrev starts_with : List ℕ → List ℕ → Bool
starts_with text [] = true
starts_with [] (c ∷ cs) = false
starts_with (d ∷ text) (c ∷ cs) = d == c && starts_with text cs

abbrev strstr : List ℕ → List ℕ → Option ℕ
strstr [] part = none
strstr (c ∷ text) part =
    let rest = strstr text part in
    if starts_with (c ∷ text) part
    then some 0
    else elim rest [ none ↦ none | some k ↦ some (suc k) ]

abbrev strtok : List ℕ → List ℕ → Option (List ℕ)
strtok text delimiter = elim (strstr text delimiter) [
  | none ↦ some text
  | some k ↦ some (take k text)
]

abbrev hex_value : List ℕ → ℕ → ℕ
hex_value [] acc = acc
hex_value (c ∷ cs) acc = hex_value cs (acc * 16 + (if leb c 57 then c - 48 else c - 87))

abbrev strtoul : List ℕ → ℕ → ℕ
strtoul (a ∷ b ∷ text) zero = hex_value text 0
strtoul text base = hex_value text 0

-- "8000-9 r-xp a" behind "1-2 r--p b".
abbrev lines : List (List ℕ)
lines =
    (49 ∷ 45 ∷ 50 ∷ 32 ∷ 114 ∷ 45 ∷ 45 ∷ 112 ∷ 32 ∷ 98 ∷ [])
    ∷ (56 ∷ 48 ∷ 48 ∷ 48 ∷ 45 ∷ 57 ∷ 32 ∷ 114 ∷ 45 ∷ 120 ∷ 112 ∷ 32 ∷ 97 ∷ [])
    ∷ []

strtok_lem :
    (text : List ℕ) (m : ℕ)
    → strstr text dash ≡ some (suc m)
    → strtok text dash ≡ some (take (suc m) text)
strtok_lem text m e = rw (strtok, e) refl

strtoul_lem : (text : List ℕ) → IsNumber text → strtoul (hex text) 0 ≡ strtoul text 16
strtoul_lem [] h = refl
strtoul_lem (a ∷ []) h = refl
strtoul_lem (a ∷ b ∷ text) h = refl

find_database_of2-find_database_of_example :
    (find_database_of strstr strtoul (some lines) (97 ∷ []) ≡ done (0x8000, true))
    × (find_database_of2 strstr strtok strtoul (λ pid. some lines) (negsuc 0) (97 ∷ []) ≡ 0)
find_database_of2-find_database_of_example =
    find_database_of2-find_database_of strstr strtok strtoul (97 ∷ [])
      (56 ∷ 48 ∷ 48 ∷ 48 ∷ 45 ∷ 57 ∷ 32 ∷ 114 ∷ 45 ∷ 120 ∷ 112 ∷ 32 ∷ 97 ∷ []) 12 7 3 0
      ((49 ∷ 45 ∷ 50 ∷ 32 ∷ 114 ∷ 45 ∷ 45 ∷ 112 ∷ 32 ∷ 98 ∷ []) ∷ []) [] (λ pid. some lines)
      strtoul_lem strtok_lem refl (refl, tt) refl refl refl (refl, (refl, (refl, refl)))
      (omega arith)
