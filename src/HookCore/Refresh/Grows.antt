-- ===== src/HookCore/Refresh/Grows.antt =====
-- What one line of /proc/self/maps changes in a refresh: calls are only added, and entries only for its path.
use mathlib.Core.List.{append_assoc, append-nil}
use elf_hook_test.Base.{
  ℕ, List, [], ◌∷◌, ◌++◌, Bool, true, false, Option, none, some, ◌≡◌, ◌&&◌, refl, sym, ap, ◌∙◌,
  arith, ◌==◌, if◌then◌else◌, Bool-cases, inl, inr, All,
}
use elf_hook_test.Base.Run.{Run, done, ◌>>=◌, Returns}
use elf_hook_test.Base.Run.Laws.{>>=-Returns, Returns_mono}
use elf_hook_test.Elf.{same_text}
use elf_hook_test.HookCore.{HookInfo, MapInfo, Core}
use elf_hook_test.HookCore.Match.{check_match}
use elf_hook_test.HookCore.Refresh.{
  System, MapsLine, Refreshing, tag, rb_find, rb_remove, rb_insert, check_elf_header, hook,
  refresh_exist, refresh_create, refresh_path, refresh_line, refresh_lines, refresh_impl,
  pathname_of, starts_with_r, fourth_is_p,
}
use elf_hook_test.HookCore.Refresh.Paths.{hook-Returns, check_elf_header-Returns}

-- The path that a line of /proc/self/maps names, if it is readable, private and at offset 0.
abbrev pub named : MapsLine → Option (List ℕ)
named l =
    if l.parses && starts_with_r l.perm && fourth_is_p l.perm && l.offset == 0
    then pathname_of l.text
    else none

-- No entry of either tree is for the path.
abbrev pub Absent : List ℕ → Refreshing → Type 0
Absent p s = (rb_find p s.old ≡ none) × (rb_find p s.refreshed ≡ none)

abbrev pub Grows : Refreshing → Refreshing → Type 0
Grows s s' = (more : List (List ℕ × HookInfo)) × (s'.calls ≡ s.calls ++ more)

-- What one line for the path `q` does: it only adds calls, and no entry for another path.
abbrev Next : Refreshing → List ℕ → Refreshing → Type 0
Next s q s' = Grows s s' × ((p : List ℕ) → same_text p q ≡ false → Absent p s → Absent p s')

-- The line is not for the path `p`.
abbrev pub Apart : List ℕ → MapsLine → Type 0
Apart p l = (q : List ℕ) → named l ≡ some q → same_text p q ≡ false

abbrev pub Passes : Refreshing → MapsLine → Refreshing → Type 0
Passes s l s' = Grows s s' × ((p : List ℕ) → Apart p l → Absent p s → Absent p s')

stay : (s : Refreshing) (q : List ℕ) → Next s q s
stay s q = (([], sym (append-nil s.calls)), λ p h v. v)

rb_find-rb_remove :
    (p q : List ℕ) (ms : List MapInfo) → rb_find p ms ≡ none → rb_find p (rb_remove q ms) ≡ none
unfolding rb_find rb_remove
rb_find-rb_remove p q [] h = refl
rb_find-rb_remove p q (m ∷ ms) h = ground (arith, rb_find-rb_remove p q ms)

-- An entry of a tree that has no entry for `p` is not for `p`.
found_differs :
    (p q : List ℕ) (ms : List MapInfo) (mi : MapInfo)
    → rb_find p ms ≡ none
    → rb_find q ms ≡ some mi
    → same_text p mi.pathname ≡ false
unfolding rb_find
found_differs p q [] mi h e = cc
found_differs p q (m ∷ ms) mi h e = ground (arith, found_differs p q ms mi)

rb_find-rb_insert :
    (p : List ℕ) (m : MapInfo) (ms t : List MapInfo)
    → rb_insert m ms ≡ some t
    → same_text p m.pathname ≡ false
    → rb_find p ms ≡ none
    → rb_find p t ≡ none
unfolding rb_find rb_insert
rb_find-rb_insert p m ms t e differs h = ground arith

module _ (P : Refreshing → Type 0) where
  either_way :
      (b : Bool) (x y : Run Refreshing) → Returns x P → Returns y P → Returns (if b then x else y) P
  either_way true x y k l = k
  either_way false x y k l = l

  after_insert :
      (o : Option (List MapInfo)) (x : Run Refreshing) (y : List MapInfo → Run Refreshing)
      → Returns x P
      → ((t : List MapInfo) → o ≡ some t → Returns (y t) P)
      → Returns (elim o [ none ↦ x | some t ↦ y t ]) P
  after_insert none x y k l = k
  after_insert (some t) x y k l = l t refl

module _ (sys : System) (core : Core) (protected : core.sigsegv_enable && core.handler ≡ true) where
  after_hook :
      (P : Refreshing → Type 0) (mi : MapInfo) (y : List HookInfo → Run Refreshing)
      → ((hs : List HookInfo) → Returns (y hs) P)
      → Returns (hook sys core mi >>= y) P
  after_hook P mi y k =
      >>=-Returns (λ hs. Unit) P (hook sys core mi) y (hook-Returns sys core protected mi)
        (λ hs _. k hs)

  refresh_create-Next :
      (s : Refreshing) (q : List ℕ) (a : ℕ) → Returns (refresh_create sys core s q a) (Next s q)
  unfolding refresh_create
  refresh_create-Next s q a =
      let mi : MapInfo = record { pathname = q; base_addr = a } in
      either_way (Next s q) (sys.memory q) _ _
        (after_insert (Next s q) (rb_insert mi s.refreshed) _ _ (stay s q) (λ t e.
          after_hook (Next s q) mi _ (λ hs. (
            (tag q hs, refl),
            λ p differs v. (v.0, rb_find-rb_insert p mi s.refreshed t e differs v.1),
          ))))
        (stay s q)

  refresh_exist-Next :
      (s : Refreshing) (q : List ℕ) (mi : MapInfo) (a : ℕ)
      → rb_find q s.old ≡ some mi
      → Returns (refresh_exist sys core s mi a) (Next s q)
  unfolding refresh_exist
  refresh_exist-Next s q mi a found =
      let removed : (p : List ℕ)
          → rb_find p s.old ≡ none
          → rb_find p (rb_remove mi.pathname s.old) ≡ none =
        λ p. rb_find-rb_remove p mi.pathname s.old in
      either_way (Next s q) (mi.base_addr == a) _ _
        (after_insert (Next s q) (rb_insert mi s.refreshed) _ _
          (([], sym (append-nil s.calls)), λ p differs v. (removed p v.0, v.1))
          (λ t e. (
            ([], sym (append-nil s.calls)),
            λ p differs v. (
              removed p v.0,
              rb_find-rb_insert p mi s.refreshed t e (found_differs p q s.old mi v.0 found) v.1,
            ),
          )))
        (after_insert (Next s q) (rb_insert (record mi { base_addr = a }) s.refreshed) _ _
          (([], sym (append-nil s.calls)), λ p differs v. (removed p v.0, v.1))
          (λ t e.
            after_hook (Next s q) (record mi { base_addr = a }) _
              (λ hs. (
                (tag mi.pathname hs, refl),
                λ p differs v. (
                  removed p v.0,
                  rb_find-rb_insert p (record mi { base_addr = a }) s.refreshed t e
                      (found_differs p q s.old mi v.0 found) v.1,
                ),
              ))))

  by_find :
      (s : Refreshing) (q : List ℕ) (a : ℕ) (o : Option MapInfo)
      → rb_find q s.old ≡ o
      → Returns
          (elim o [
            | some mi ↦ refresh_exist sys core s mi a
            | none ↦ refresh_create sys core s q a
          ])
          (Next s q)
  by_find s q a none e = refresh_create-Next s q a
  by_find s q a (some mi) e = refresh_exist-Next s q mi a e

  refresh_path-Next :
      (s : Refreshing) (q : List ℕ) (a : ℕ) → Returns (refresh_path sys core s q a) (Next s q)
  unfolding refresh_path
  refresh_path-Next s q a =
      either_way (Next s q) (check_match sys.regexec core.ignores q core.hooks) _ _
        (>>=-Returns (λ b. Unit) (Next s q) (check_elf_header sys core a) _
          (check_elf_header-Returns sys core protected a)
          (λ good _.
            either_way (Next s q) good _ _ (by_find s q a (rb_find q s.old) refl) (stay s q)))
        (stay s q)

  abbrev on_path : Refreshing → MapsLine → Option (List ℕ) → Run Refreshing
  on_path s l o = elim o [ none ↦ done s | some q ↦ refresh_path sys core s q l.base_addr ]

  pub refresh_line_lem :
      (s : Refreshing) (l : MapsLine) → refresh_line sys core s l ≡ on_path s l (named l)
  unfolding refresh_line
  refresh_line_lem s l =
      elim (Bool-cases (l.parses && starts_with_r l.perm && fourth_is_p l.perm && l.offset == 0)) [
        | inl e ↦ rw (refresh_line, e) refl
        | inr e ↦ rw (refresh_line, e) refl
      ]

  on_path-Passes :
      (s : Refreshing) (l : MapsLine) (o : Option (List ℕ))
      → named l ≡ o
      → Returns (on_path s l o) (Passes s l)
  on_path-Passes s l none e = (([], sym (append-nil s.calls)), λ p h v. v)
  on_path-Passes s l (some q) e =
      Returns_mono (Next s q) (Passes s l) (refresh_path sys core s q l.base_addr)
        (refresh_path-Next s q l.base_addr) (λ s' n. (n.0, λ p h v. n.1 p (h q e) v))

  pub refresh_line-Passes :
      (s : Refreshing) (l : MapsLine) → Returns (refresh_line sys core s l) (Passes s l)
  refresh_line-Passes s l = rw (refresh_line_lem s l) (on_path-Passes s l (named l) refl)

  more_calls : (s t u : Refreshing) → Grows s t → Grows t u → Grows s u
  more_calls s t u (a, e) (b, f) = (a ++ b, f ∙ ap (λ xs. xs ++ b) e ∙ append_assoc s.calls a b)

  pub refresh_lines-Grows :
      (s : Refreshing) (ls : List MapsLine) → Returns (refresh_lines sys core s ls) (Grows s)
  unfolding refresh_lines
  refresh_lines-Grows s [] = ([], sym (append-nil s.calls))
  refresh_lines-Grows s (l ∷ ls) =
      >>=-Returns (Passes s l) (Grows s) (refresh_line sys core s l) _ (refresh_line-Passes s l)
        (λ t n.
          Returns_mono (Grows t) (Grows s) (refresh_lines sys core t ls) (refresh_lines-Grows t ls)
            (λ u. more_calls s t u n.0))

  -- Lines that are not for a path leave it out of both trees.
  pub refresh_lines-Absent :
      (p : List ℕ) (s : Refreshing) (ls : List MapsLine)
      → Absent p s
      → All (Apart p) ls
      → Returns (refresh_lines sys core s ls) (Absent p)
  unfolding refresh_lines
  refresh_lines-Absent p s [] absent apart = absent
  refresh_lines-Absent p s (l ∷ ls) absent apart =
      >>=-Returns (Passes s l) (Absent p) (refresh_line sys core s l) _ (refresh_line-Passes s l)
        (λ t n. refresh_lines-Absent p t ls (n.1 p apart.0 absent) apart.1)

  -- A refresh ends, changes nothing but the tree of libraries, and puts no path there that no line is for.
  pub refresh_impl-Absent :
      (p : List ℕ) (ls : List MapsLine)
      → rb_find p core.maps ≡ none
      → All (Apart p) ls
      → Returns
          (refresh_impl sys core ls)
          (λ r. (r.0 ≡ record core { maps = r.0.maps }) × (rb_find p r.0.maps ≡ none))
  unfolding refresh_impl rb_find
  refresh_impl-Absent p ls absent apart =
      >>=-Returns (Absent p)
        (λ r. (r.0 ≡ record core { maps = r.0.maps }) × (rb_find p r.0.maps ≡ none))
        (refresh_lines sys core (record { old = core.maps; refreshed = []; calls = [] }) ls) _
        (refresh_lines-Absent p (record { old = core.maps; refreshed = []; calls = [] }) ls
          (absent, refl) apart)
        (λ s h. (refl, h.1))
