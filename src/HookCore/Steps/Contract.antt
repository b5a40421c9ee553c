-- ===== src/HookCore/Steps/Contract.antt =====
-- What xh_core.c promises its callers, without the flags: in which phase it is, and the ignores.
use elf_hook_test.Base.{
  ◌≢◌, ℕ, List, [], ◌∷◌, ◌++◌, Bool, true, false, Option, none, some, ◌≡◌, ◌⊎◌, inl, inr, refl,
  subst, sym, ◌∙◌, arith, Bool-cases,
}
use elf_hook_test.HookCore.{IgnoreInfo, MapInfo, Core}
use elf_hook_test.HookCore.Refresh.{System}
use elf_hook_test.HookCore.Entry.{
  Errno, good, unknown, inval, nomem, register, ignore, init_once, init_async_once, clear,
  enable_sigsegv_protection,
}
use elf_hook_test.HookCore.Steps.{
  Step, registers, ignores, refreshes, rounds, clears, protects, Reaches,
}
use elf_hook_test.HookCore.Steps.Invariant.{
  IsConsistent, Refreshed, requested, no_thread, not_ready, carried_out, refresh-Refreshed,
  refresh_thread_round-maps, Reaches-IsConsistent, either,
}

-- Before the first refresh; after a refresh whose initialisation failed or succeeded; after an
-- asynchronous refresh whose thread started or did not.
pub data Phase : Type 0 where
  fresh failed ready threaded threadless : Phase

abbrev pub phase_of : (inited init_ok async_inited async_init_ok : Bool) → Phase
phase_of false ok a b = fresh
phase_of true false a b = failed
phase_of true true false b = ready
phase_of true true true false = threadless
phase_of true true true true = threaded

abbrev pub phase : Core → Phase
phase c = phase_of c.inited c.init_ok c.async_inited c.async_init_ok

-- The calls and the rounds of the thread, with what they answer.
pub data Call : Type 0 where
  registering : Call
  ignoring : Errno → Call
  refreshing : (async : Bool) → Errno → Call
  round : Call
  clearing : Call
  protecting : Call

-- The abstract machine.
pub data Moves : Call → Phase → List IgnoreInfo → Phase → List IgnoreInfo → Type 0 where
  registers_only : (p : Phase) (iis : List IgnoreInfo) → Moves registering p iis p iis
  adds :
      (iis : List IgnoreInfo) (ii : IgnoreInfo)
      → Moves (ignoring good) fresh iis fresh (iis ++ ii ∷ [])
  refuses :
      (e : Errno) (p : Phase) (iis : List IgnoreInfo) → e ≢ good → Moves (ignoring e) p iis p iis
  fails :
      (async : Bool) (p : Phase) (iis : List IgnoreInfo)
      → (p ≡ fresh) ⊎ (p ≡ failed)
      → Moves (refreshing async unknown) p iis failed iis
  inits : (iis : List IgnoreInfo) → Moves (refreshing false good) fresh iis ready iis
  again :
      (p : Phase) (iis : List IgnoreInfo)
      → (p ≡ ready) ⊎ ((p ≡ threaded) ⊎ (p ≡ threadless))
      → Moves (refreshing false good) p iis p iis
  threads :
      (p : Phase) (iis : List IgnoreInfo)
      → (p ≡ fresh) ⊎ ((p ≡ ready) ⊎ (p ≡ threaded))
      → Moves (refreshing true good) p iis threaded iis
  lacks_thread :
      (p : Phase) (iis : List IgnoreInfo)
      → (p ≡ fresh) ⊎ ((p ≡ ready) ⊎ (p ≡ threadless))
      → Moves (refreshing true unknown) p iis threadless iis
  rounds_only : (p : Phase) (iis : List IgnoreInfo) → Moves round p iis p iis
  clears_all : (p : Phase) (iis : List IgnoreInfo) → Moves clearing p iis fresh []
  protects_only : (p : Phase) (iis : List IgnoreInfo) → Moves protecting p iis p iis

-- The call that a step is, with its answer.
abbrev pub call_of : {sys : System} {c c' : Core} → Step sys c c' → Call
call_of (registers regcomp memory c c' regex symbol new_func old_func e) = registering
call_of (ignores regcomp memory c c' regex symbol e) =
    ignoring (ignore regcomp memory c regex symbol).0
call_of (refreshes sigaction creates c c' async lines e calls h) = refreshing async e
call_of (rounds c c' lines calls h) = round
call_of (clears c c' e) = clearing
call_of (protects c c' flag e) = protecting

-- What the machine does where the program goes from one state to another.
abbrev pub Follows : Call → Core → Core → Type 0
Follows k c c' = Moves k (phase c) c.ignores (phase c') c'.ignores

abbrev Registers : Core → Errno × Core → Type 0
Registers c r = Follows registering c r.1

register-Follows :
    (regcomp : List ℕ → Bool) (memory : Bool) (c : Core) (regex symbol : Option (List ℕ))
    (new_func : Option ℕ) (old_func : ℕ)
    → Registers c (register regcomp memory c regex symbol new_func old_func)
unfolding register
register-Follows regcomp memory c (some regex) (some symbol) (some new_func) old_func =
    either {A = Errno × Core} (Registers c) (regcomp regex) _ (inval, c)
      (λ _.
        either {A = Errno × Core} (Registers c) memory (good, _) (nomem, c)
          (λ _. registers_only (phase c) c.ignores) (λ _. registers_only (phase c) c.ignores))
      (λ _. registers_only (phase c) c.ignores)
register-Follows regcomp memory c none symbol new_func old_func = registers_only (phase c) c.ignores
register-Follows regcomp memory c (some regex) none new_func old_func =
    registers_only (phase c) c.ignores
register-Follows regcomp memory c (some regex) (some symbol) none old_func =
    registers_only (phase c) c.ignores

added :
    (ok a b inited : Bool) (iis : List IgnoreInfo) (ii : IgnoreInfo)
    → inited ≡ false
    → Moves (ignoring good) (phase_of inited ok a b) iis (phase_of inited ok a b) (iis ++ ii ∷ [])
added ok a b true iis ii off = absurd cc
added ok a b false iis ii off = adds iis ii

abbrev Ignores : Core → Errno × Core → Type 0
Ignores c r = Follows (ignoring r.0) c r.1

ignore-Follows :
    (regcomp : List ℕ → Bool) (memory : Bool) (c : Core) (regex symbol : Option (List ℕ))
    → Ignores c (ignore regcomp memory c regex symbol)
unfolding ignore
ignore-Follows regcomp memory c none symbol = refuses inval (phase c) c.ignores (λ e. cc)
ignore-Follows regcomp memory c (some regex) symbol =
    either {A = Errno × Core} (Ignores c) c.inited (inval, c) _
      (λ _. refuses inval (phase c) c.ignores (λ e. cc))
      (λ off.
        either {A = Errno × Core} (Ignores c) (regcomp regex) _ (inval, c)
          (λ _.
            either {A = Errno × Core} (Ignores c) memory (good, _) (nomem, c)
              (λ _. added c.init_ok c.async_inited c.async_init_ok c.inited c.ignores _ off)
              (λ _. refuses nomem (phase c) c.ignores (λ e. cc)))
          (λ _. refuses inval (phase c) c.ignores (λ e. cc)))

-- What the two initialisations do to the phase's flags.
record Once (c c1 : Core) : Type 0 where
  ignored : c1.ignores ≡ c.ignores
  inits_done : c1.inited ≡ true
  same_a : c1.async_inited ≡ c.async_inited
  same_b : c1.async_init_ok ≡ c.async_init_ok
  same_ok : c.inited ≡ true → c1.init_ok ≡ c.init_ok

record Async (c1 c2 : Core) : Type 0 where
  ignored : c2.ignores ≡ c1.ignores
  same_inited : c2.inited ≡ c1.inited
  same_ok : c2.init_ok ≡ c1.init_ok
  async_done : c2.async_inited ≡ true
  same_b : c1.async_inited ≡ true → c2.async_init_ok ≡ c1.async_init_ok

init_once-Once : (sigaction : Bool) (c : Core) → Once c (init_once sigaction c)
unfolding init_once
init_once-Once sigaction c = record {
  ignored = ground arith;
  inits_done = ground arith;
  same_a = ground arith;
  same_b = ground arith;
  same_ok = λ e. ground arith;
}

init_async_once-Async : (creates : Bool) (c : Core) → Async c (init_async_once creates c)
unfolding init_async_once
init_async_once-Async creates c = record {
  ignored = ground arith;
  same_inited = ground arith;
  same_ok = ground arith;
  async_done = ground arith;
  same_b = λ e. ground arith;
}

to_threaded :
    (i ok a b : Bool) (iis : List IgnoreInfo)
    → (i ≡ true → ok ≡ true)
    → (i ≡ true → a ≡ true → b ≡ true)
    → Moves (refreshing true good) (phase_of i ok a b) iis threaded iis
to_threaded false ok a b iis h k = threads fresh iis (inl refl)
to_threaded true true false b iis h k = threads ready iis (inr (inl refl))
to_threaded true true true true iis h k = threads threaded iis (inr (inr refl))
to_threaded true true true false iis h k = absurd (cc (k refl refl))
to_threaded true false a b iis h k = absurd (cc (h refl))

to_threadless :
    (i ok a b : Bool) (iis : List IgnoreInfo)
    → (i ≡ true → ok ≡ true)
    → (i ≡ true → a ≡ true → b ≡ false)
    → Moves (refreshing true unknown) (phase_of i ok a b) iis threadless iis
to_threadless false ok a b iis h k = lacks_thread fresh iis (inl refl)
to_threadless true true false b iis h k = lacks_thread ready iis (inr (inl refl))
to_threadless true true true false iis h k = lacks_thread threadless iis (inr (inr refl))
to_threadless true true true true iis h k = absurd (cc (k refl refl))
to_threadless true false a b iis h k = absurd (cc (h refl))

to_failed :
    (async i ok a b : Bool) (iis : List IgnoreInfo)
    → (i ≡ true → ok ≡ false)
    → Moves (refreshing async unknown) (phase_of i ok a b) iis failed iis
to_failed async false ok a b iis h = fails async fresh iis (inl refl)
to_failed async true false a b iis h = fails async failed iis (inr refl)
to_failed async true true a b iis h = absurd (cc (h refl))

to_ready :
    (i ok a b : Bool) (iis : List IgnoreInfo)
    → (i ≡ true → ok ≡ true)
    → (i ≡ false → a ≡ false)
    → Moves (refreshing false good) (phase_of i ok a b) iis (phase_of true true a b) iis
to_ready false ok true b iis h k = absurd (cc (k refl))
to_ready false ok false b iis h k = inits iis
to_ready true true false b iis h k = again ready iis (inl refl)
to_ready true true true true iis h k = again threaded iis (inr (inl refl))
to_ready true true true false iis h k = again threadless iis (inr (inr refl))
to_ready true false a b iis h k = absurd (cc (h refl))

-- Where the flags behind a call are known.
arrives :
    (k : Call) (c c' : Core) (i ok a b : Bool)
    → Moves k (phase c) c.ignores (phase_of i ok a b) c.ignores
    → c'.inited ≡ i
    → c'.init_ok ≡ ok
    → c'.async_inited ≡ a
    → c'.async_init_ok ≡ b
    → c'.ignores ≡ c.ignores
    → Follows k c c'
arrives k c c' i ok a b m e1 e2 e3 e4 e5 = rw (e1, e2, e3, e4, e5) m

no_async : (c : Core) → IsConsistent c → c.inited ≡ false → c.async_inited ≡ false
no_async c v off = elim (Bool-cases c.async_inited) [
  | inl e ↦ absurd (cc (v.ok (v.behind e), off))
  | inr e ↦ e
]

by_way-Follows :
    (c c1 c2 c' : Core) (async : Bool) (e : Errno)
    → IsConsistent c
    → Once c c1
    → Async c1 c2
    → Refreshed c1 c2 async e c'
    → Follows (refreshing async e) c c'
by_way-Follows c c1 c2 c' async e v o n (requested a on started fine same) =
    rw (a, fine)
      (subst (Follows (refreshing true good) c) same (
        arrives (refreshing true good) c (record c2 { thread_do = true }) true true true true
          (to_threaded c.inited c.init_ok c.async_inited c.async_init_ok c.ignores
            (λ i. sym (o.same_ok i) ∙ on)
            (λ i x. sym o.same_b ∙ sym (n.same_b (o.same_a ∙ x)) ∙ started))
          (n.same_inited ∙ o.inits_done) (n.same_ok ∙ on) n.async_done started
          (n.ignored ∙ o.ignored)))
by_way-Follows c c1 c2 c' async e v o n (no_thread a on off u same) =
    rw (a, u)
      (subst (Follows (refreshing true unknown) c) same (
        arrives (refreshing true unknown) c c2 true true true false
          (to_threadless c.inited c.init_ok c.async_inited c.async_init_ok c.ignores
            (λ i. sym (o.same_ok i) ∙ on)
            (λ i x. sym o.same_b ∙ sym (n.same_b (o.same_a ∙ x)) ∙ off))
          (n.same_inited ∙ o.inits_done) (n.same_ok ∙ on) n.async_done off (n.ignored ∙ o.ignored)))
by_way-Follows c c1 c2 c' async e v o n (not_ready off u same) = rw u (
    subst (Follows (refreshing async unknown) c) same (
      arrives (refreshing async unknown) c c1 true false c.async_inited c.async_init_ok
        (to_failed async c.inited c.init_ok c.async_inited c.async_init_ok c.ignores
          (λ i. sym (o.same_ok i) ∙ off))
        o.inits_done off o.same_a o.same_b o.ignored))
by_way-Follows c c1 c2 c' async e v o n (carried_out a on fine ms same) =
    rw (a, fine)
      (subst (Follows (refreshing false good) c) same (
        arrives (refreshing false good) c (record c1 { maps = ms }) true true c.async_inited
          c.async_init_ok
          (to_ready c.inited c.init_ok c.async_inited c.async_init_ok c.ignores
            (λ i. sym (o.same_ok i) ∙ on) (no_async c v))
          o.inits_done on o.same_a o.same_b o.ignored))

round-Follows :
    (c c' : Core)
    → (c ≡ c') ⊎ ((ms : List MapInfo) × (record c { thread_do = false; maps = ms } ≡ c'))
    → Follows round c c'
round-Follows c c' (inl same) = subst (Follows round c) same (rounds_only (phase c) c.ignores)
round-Follows c c' (inr (ms, same)) = subst (Follows round c) same (rounds_only (phase c) c.ignores)

Step-Follows :
    {sys : System} {c c' : Core} → IsConsistent c → (s : Step sys c c') → Follows (call_of s) c c'
unfolding clear enable_sigsegv_protection
Step-Follows v (registers regcomp memory c c' regex symbol new_func old_func e) =
    subst (Follows registering c) e
      (register-Follows regcomp memory c regex symbol new_func old_func)
Step-Follows v (ignores regcomp memory c c' regex symbol e) =
    subst (Follows (ignoring (ignore regcomp memory c regex symbol).0) c) e
      (ignore-Follows regcomp memory c regex symbol)
Step-Follows {sys} v (refreshes sigaction creates c c' async lines e calls h) =
    by_way-Follows c (init_once sigaction c) (init_async_once creates (init_once sigaction c)) c'
      async e v (init_once-Once sigaction c) (init_async_once-Async creates (init_once sigaction c))
      (refresh-Refreshed sys sigaction creates c c' async lines e calls h)
Step-Follows {sys} v (rounds c c' lines calls h) =
    round-Follows c c' (refresh_thread_round-maps sys c c' lines calls h).1
Step-Follows v (clears c c' e) = subst (Follows clearing c) e (clears_all (phase c) c.ignores)
Step-Follows v (protects c c' flag e) =
    subst (Follows protecting c) e (protects_only (phase c) c.ignores)

-- Each call, with what it answers, and each round of the thread, in any state that is reached, is the
-- move of the abstract machine for that call. A refresh initialises once, and its failure lasts until
-- xh_core_clear; an asynchronous one answers 0 exactly where it leaves the thread running, and a thread
-- that could not be started is not tried again; xh_core_ignore answers 0 before the first refresh only,
-- and then adds one ignore; xh_core_clear leads back to the start from everywhere and drops the
-- ignores; the other calls and the rounds change neither.
pub Reaches-Moves :
    (sys : System) (c c' : Core)
    → Reaches sys c
    → (s : Step sys c c') → Moves (call_of s) (phase c) c.ignores (phase c') c'.ignores
Reaches-Moves sys c c' r s = Step-Follows (Reaches-IsConsistent r) s
