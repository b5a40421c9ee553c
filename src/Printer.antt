-- ===== src/Printer.antt =====
-- xuwind/xu_printer.c: text that goes to the log, to a file or into a buffer that grows.
pub mod Buffer
use elf_hook_test.Base.{
  ℕ, zero, suc, ◌+◌, ◌-◌, ◌≤◌, List, [], ◌∷◌, ◌++◌, Bool, true, false, Option, none, some, ◌==◌,
  ltb, length, if◌then◌else◌, bit_and,
}

-- The `get` part of xu_printer_t: the `buf_sz` bytes in the buffer, and its capacity.
pub record GetBuffer : Type 0 where
  pub text : List ℕ
  pub cap : ℕ

-- The three printers. Of the log and the file the model keeps what was handed to them.
pub data Printer : Type 0 where
  log : List (List ℕ) → Printer
  dump : List (List ℕ) → Printer
  get : GetBuffer → Printer

abbrev pub init_get : GetBuffer
init_get = record { text = []; cap = 0 }

-- The size that realloc is asked for. The mask is an `unsigned int`.
unfoldable pub new_cap : ℕ → ℕ → ℕ
new_cap cap str_len = bit_and (cap + str_len) 0xFFFFFC00 + 0x400

-- xu_printer_string_append_to_buf; the Boolean is true for 0, and `grows` says of each size
-- whether realloc gives it.
unfoldable pub string_append_to_buf : (ℕ → Bool) → GetBuffer → List ℕ → Bool × GetBuffer
unfolding new_cap
string_append_to_buf grows b [] = (true, b)
string_append_to_buf grows b (c ∷ str) =
    let str_len = length (c ∷ str) in
    if ltb (b.cap - length b.text) (str_len + 1)
    then (if grows (new_cap b.cap str_len)
        then (true, record { text = b.text ++ c ∷ str; cap = new_cap b.cap str_len })
        else (false, b))
    else (true, record { text = b.text ++ c ∷ str; cap = b.cap })

-- `str[len - 1]`.
abbrev pub last_or : ℕ → List ℕ → ℕ
last_or d [] = d
last_or d (c ∷ str) = last_or c str

-- The line end that is added where the text has none.
abbrev pub with_newline : List ℕ → List (List ℕ)
with_newline str = if last_or 0 str == 10 then str ∷ [] else str ∷ (10 ∷ []) ∷ []

-- xu_printer_append_string.
unfoldable pub append_string : (ℕ → Bool) → Printer → List ℕ → Printer
unfolding string_append_to_buf
append_string grows (log out) str = log (out ++ str ∷ [])
append_string grows (dump out) [] = dump out
append_string grows (dump out) (c ∷ str) = dump (out ++ with_newline (c ∷ str))
append_string grows (get b) [] = get b
append_string grows (get b) (c ∷ str) =
    let b' = (string_append_to_buf grows b (c ∷ str)).1 in
    if last_or 0 (c ∷ str) == 10 then get b' else get (string_append_to_buf grows b' (10 ∷ [])).1

-- xu_printer_get; `none` is NULL, also for a buffer that was never allocated.
unfoldable pub get_text : Printer → Option (List ℕ)
get_text (log out) = none
get_text (dump out) = none
get_text (get b) = if b.cap == 0 then none else some b.text
