-- ===== src/HookCore/Steps/Invariant.antt =====
-- What holds of the static variables behind every call.
use elf_hook_test.Base.{
  ℕ, List, [], Bool, true, false, not, Option, none, some, ◌≡◌, refl, subst, sym, ◌∙◌, arith,
  if◌then◌else◌, Bool-cases, inl, inr, ◌⊎◌,
}
use elf_hook_test.Base.Run.{Run, done, fault, out_of_fuel, ◌>>=◌}
use elf_hook_test.HookCore.{HookInfo, IgnoreInfo, MapInfo, Core}
use elf_hook_test.HookCore.Refresh.{System, MapsLine, Refreshing, refresh_impl}
use elf_hook_test.HookCore.Entry.{
  Errno, good, unknown, inval, nomem, register, ignore, init_once, init_async_once, refresh,
  refresh_thread_round, clear, enable_sigsegv_protection,
}
use elf_hook_test.HookCore.Steps.{
  Step, registers, ignores, refreshes, rounds, clears, protects, Reaches, starts, goes,
}

-- Each flag of success follows its flag of an attempt, the asynchronous part is started behind the
-- other, its thread runs if its start succeeded, and there are no libraries before all that.
pub record IsConsistent (c : Core) : Type 0 where
  pub ok : c.init_ok ≡ true → c.inited ≡ true
  pub behind : c.async_inited ≡ true → c.init_ok ≡ true
  pub async_ok : c.async_init_ok ≡ true → c.async_inited ≡ true
  pub running : c.thread_running ≡ c.async_init_ok
  pub no_maps : c.inited ≡ false → c.maps ≡ []

-- What a refresh does to the other variables: nothing.
by_lines :
    (core c' : Core) (r : Run Refreshing) (out : List (List ℕ × HookInfo))
    → ◌>>=◌ {B = Core × List (List ℕ × HookInfo)} r
        (λ s. done (record core { maps = s.refreshed }, s.calls))
      ≡ done (c', out)
    → (ms : List MapInfo) × (record core { maps = ms } ≡ c')
by_lines core c' (done s) out e = (s.refreshed, cc)
by_lines core c' fault out e = absurd cc
by_lines core c' out_of_fuel out e = absurd cc

pub refresh_impl-maps :
    (sys : System) (core c' : Core) (lines : List MapsLine) (out : List (List ℕ × HookInfo))
    → refresh_impl sys core lines ≡ done (c', out)
    → (ms : List MapInfo) × (record core { maps = ms } ≡ c')
unfolding refresh_impl
refresh_impl-maps sys core c' lines out e = by_lines core c' _ out e

maps-IsConsistent :
    (c : Core) (ms : List MapInfo)
    → c.init_ok ≡ true
    → IsConsistent c
    → IsConsistent (record c { maps = ms })
maps-IsConsistent c ms on v = record {
  ok = v.ok;
  behind = v.behind;
  async_ok = v.async_ok;
  running = v.running;
  no_maps = λ off. ground (arith, v.ok, off, on);
}

-- The other variables play no part.
others-IsConsistent :
    (c : Core) (protected : Bool) (hs : List HookInfo) (iis : List IgnoreInfo) (todo handled : Bool)
    → IsConsistent c
    → IsConsistent (record c {
      sigsegv_enable = protected;
      hooks = hs;
      ignores = iis;
      thread_do = todo;
      handler = handled;
    })
others-IsConsistent c protected hs iis todo handled v = record {
  ok = v.ok;
  behind = v.behind;
  async_ok = v.async_ok;
  running = v.running;
  no_maps = v.no_maps;
}

pub either {ℓ κ} :
    {A : Type ℓ} (P : A → Type κ) (b : Bool) (x y : A)
    → (b ≡ true → P x)
    → (b ≡ false → P y)
    → P (if b then x else y)
either P true x y h k = h refl
either P false x y h k = k refl

register-IsConsistent :
    (regcomp : List ℕ → Bool) (memory : Bool) (c : Core) (regex symbol : Option (List ℕ))
    (new_func : Option ℕ) (old_func : ℕ)
    → IsConsistent c
    → IsConsistent (register regcomp memory c regex symbol new_func old_func).1
unfolding register
register-IsConsistent regcomp memory c (some regex) (some symbol) (some new_func) old_func v =
    either {A = Errno × Core} (λ r. IsConsistent r.1) (regcomp regex) _ (inval, c)
      (λ _.
        either {A = Errno × Core} (λ r. IsConsistent r.1) memory (good, _) (nomem, c)
          (λ _. others-IsConsistent c c.sigsegv_enable _ c.ignores c.thread_do c.handler v)
          (λ _. v))
      (λ _. v)
register-IsConsistent regcomp memory c none symbol new_func old_func v = v
register-IsConsistent regcomp memory c (some regex) none new_func old_func v = v
register-IsConsistent regcomp memory c (some regex) (some symbol) none old_func v = v

ignore-IsConsistent :
    (regcomp : List ℕ → Bool) (memory : Bool) (c : Core) (regex symbol : Option (List ℕ))
    → IsConsistent c
    → IsConsistent (ignore regcomp memory c regex symbol).1
unfolding ignore
ignore-IsConsistent regcomp memory c none symbol v = v
ignore-IsConsistent regcomp memory c (some regex) symbol v =
    either {A = Errno × Core} (λ r. IsConsistent r.1) c.inited (inval, c) _ (λ _. v)
      (λ _.
        either {A = Errno × Core} (λ r. IsConsistent r.1) (regcomp regex) _ (inval, c)
          (λ _.
            either {A = Errno × Core} (λ r. IsConsistent r.1) memory (good, _) (nomem, c)
              (λ _. others-IsConsistent c c.sigsegv_enable c.hooks _ c.thread_do c.handler v)
              (λ _. v))
          (λ _. v))

inited-IsConsistent :
    (c : Core) (handled : Bool)
    → IsConsistent c
    → IsConsistent (record c { inited = true; init_ok = true; handler = handled })
inited-IsConsistent c handled v = record {
  ok = λ e. refl;
  behind = λ e. refl;
  async_ok = v.async_ok;
  running = v.running;
  no_maps = λ off. absurd cc;
}

tried-IsConsistent : (c : Core) → IsConsistent c → IsConsistent (record c { inited = true })
tried-IsConsistent c v = record {
  ok = λ e. refl;
  behind = v.behind;
  async_ok = v.async_ok;
  running = v.running;
  no_maps = λ off. absurd cc;
}

init_once-IsConsistent :
    (sigaction : Bool) (c : Core) → IsConsistent c → IsConsistent (init_once sigaction c)
unfolding init_once
init_once-IsConsistent sigaction c v =
    either IsConsistent c.inited c _ (λ _. v)
      (λ _.
        either IsConsistent (not c.sigsegv_enable) _ _ (λ _. inited-IsConsistent c c.handler v)
          (λ _.
            either IsConsistent sigaction _ _ (λ _. inited-IsConsistent c true v)
              (λ _. tried-IsConsistent c v)))

async-IsConsistent :
    (c : Core) (started : Bool)
    → c.init_ok ≡ true
    → IsConsistent c
    → IsConsistent
        (record c { async_inited = true; async_init_ok = started; thread_running = started })
async-IsConsistent c started on v = record {
  ok = v.ok;
  behind = λ e. on;
  async_ok = λ e. refl;
  running = refl;
  no_maps = v.no_maps;
}

not_started : (c : Core) → IsConsistent c → c.async_inited ≡ false → c.async_init_ok ≡ false
not_started c v off = elim (Bool-cases c.async_init_ok) [
  | inl e ↦ absurd (cc (v.async_ok e, off))
  | inr e ↦ e
]

init_async_once-IsConsistent :
    (creates : Bool) (c : Core)
    → c.init_ok ≡ true
    → IsConsistent c
    → IsConsistent (init_async_once creates c)
unfolding init_async_once
init_async_once-IsConsistent creates c on v =
    either IsConsistent c.async_inited c _ (λ _. v)
      (λ off.
        either IsConsistent creates _ _ (λ _. async-IsConsistent c true on v)
          (λ _.
            subst
              (λ b.
                IsConsistent
                  (record c { async_inited = true; async_init_ok = b; thread_running = false }))
              (sym (not_started c v off)) (async-IsConsistent c false on v)))

clear-IsConsistent : (c : Core) → IsConsistent c → IsConsistent (clear c)
unfolding clear
clear-IsConsistent c v = record {
  ok = λ e. absurd cc;
  behind = λ e. absurd cc;
  async_ok = λ e. absurd cc;
  running = ground (arith, v.running);
  no_maps = λ e. refl;
}

-- The ways out of xh_core_refresh, with the state behind the first initialisation and behind both.
pub data Refreshed (c1 c2 : Core) (async : Bool) (e : Errno) (c' : Core) : Type 0 where
  requested :
      async ≡ true
      → c1.init_ok ≡ true
      → c2.async_init_ok ≡ true
      → e ≡ good
      → record c2 { thread_do = true } ≡ c'
      → Refreshed c1 c2 async e c'
  no_thread :
      async ≡ true
      → c1.init_ok ≡ true
      → c2.async_init_ok ≡ false
      → e ≡ unknown
      → c2 ≡ c'
      → Refreshed c1 c2 async e c'
  not_ready : c1.init_ok ≡ false → e ≡ unknown → c1 ≡ c' → Refreshed c1 c2 async e c'
  carried_out :
      async ≡ false
      → c1.init_ok ≡ true
      → e ≡ good
      → (ms : List MapInfo) → record c1 { maps = ms } ≡ c'
      → Refreshed c1 c2 async e c'

abbrev Answer : Type 0
Answer = Errno × Core × List (List ℕ × HookInfo)

by_async :
    (c1 c2 c' : Core) (ok async_ok : Bool) (e : Errno) (out : List (List ℕ × HookInfo))
    → c1.init_ok ≡ ok
    → c2.async_init_ok ≡ async_ok
    → if◌then◌else◌ {A = Run Answer} ok
        (if◌then◌else◌ {A = Run Answer} async_ok
          (done (good, record c2 { thread_do = true }, []))
          (done (unknown, c2, [])))
        (done (unknown, c1, []))
      ≡ done (e, c', out)
    → Refreshed c1 c2 true e c'
by_async c1 c2 c' true true e out on started h = requested refl on started (cc) (cc)
by_async c1 c2 c' true false e out on off h = no_thread refl on off (cc) (cc)
by_async c1 c2 c' false b e out off x h = not_ready off (cc) (cc)

by_impl :
    (c' : Core) (r : Run (Core × List (List ℕ × HookInfo))) (e : Errno)
    (out : List (List ℕ × HookInfo))
    → ◌>>=◌ {B = Answer} r (λ q. done (good, q.0, q.1)) ≡ done (e, c', out)
    → (e ≡ good) × (r ≡ done (c', out))
by_impl c' (done q) e out h = (cc, cc)
by_impl c' fault e out h = absurd cc
by_impl c' out_of_fuel e out h = absurd cc

by_sync :
    (sys : System) (c1 c2 c' : Core) (lines : List MapsLine) (ok : Bool) (e : Errno)
    (out : List (List ℕ × HookInfo))
    → c1.init_ok ≡ ok
    → if◌then◌else◌ {A = Run Answer} ok
        (◌>>=◌ {B = Answer} (refresh_impl sys c1 lines) (λ q. done (good, q.0, q.1)))
        (done (unknown, c1, []))
      ≡ done (e, c', out)
    → Refreshed c1 c2 false e c'
by_sync sys c1 c2 c' lines true e out on h =
    let (fine, ends) = by_impl c' (refresh_impl sys c1 lines) e out h in
    let (ms, same) = refresh_impl-maps sys c1 c' lines out ends in carried_out refl on fine ms same
by_sync sys c1 c2 c' lines false e out off h = not_ready off (cc) (cc)

pub refresh-Refreshed :
    (sys : System) (sigaction creates : Bool) (c c' : Core) (async : Bool) (lines : List MapsLine)
    (e : Errno) (out : List (List ℕ × HookInfo))
    → refresh sys sigaction creates c async lines ≡ done (e, c', out)
    → Refreshed (init_once sigaction c) (init_async_once creates (init_once sigaction c)) async e c'
unfolding refresh
refresh-Refreshed sys sigaction creates c c' true lines e out h =
    by_async (init_once sigaction c) (init_async_once creates (init_once sigaction c)) c' _ _ e out
      refl refl h
refresh-Refreshed sys sigaction creates c c' false lines e out h =
    by_sync sys (init_once sigaction c) (init_async_once creates (init_once sigaction c)) c' lines _
      e out refl h

by_way :
    (c1 c2 c' : Core) (async : Bool) (e : Errno)
    → IsConsistent c1
    → (c1.init_ok ≡ true → IsConsistent c2)
    → Refreshed c1 c2 async e c'
    → IsConsistent c'
by_way c1 c2 c' async e v w (requested a on started fine same) =
    subst IsConsistent same
      (others-IsConsistent c2 c2.sigsegv_enable c2.hooks c2.ignores true c2.handler (w on))
by_way c1 c2 c' async e v w (no_thread a on off u same) = subst IsConsistent same (w on)
by_way c1 c2 c' async e v w (not_ready off u same) = subst IsConsistent same v
by_way c1 c2 c' async e v w (carried_out a on fine ms same) =
    subst IsConsistent same (maps-IsConsistent c1 ms on v)

refresh-IsConsistent :
    (sigaction creates : Bool) (c c' : Core) (async : Bool) (e : Errno)
    → IsConsistent c
    → Refreshed (init_once sigaction c) (init_async_once creates (init_once sigaction c)) async e c'
    → IsConsistent c'
refresh-IsConsistent sigaction creates c c' async e v way =
    let v1 = init_once-IsConsistent sigaction c v in
    by_way (init_once sigaction c) (init_async_once creates (init_once sigaction c)) c' async e v1
      (λ on. init_async_once-IsConsistent creates (init_once sigaction c) on v1) way

-- What a round of the thread does to the variables.
by_round :
    (c c' : Core) (r : Run (Core × List (List ℕ × HookInfo))) (out : List (List ℕ × HookInfo))
    → ◌>>=◌ {B = Option (Core × List (List ℕ × HookInfo))} r (λ q. done (some q))
      ≡ done (some (c', out))
    → r ≡ done (c', out)
by_round c c' (done q) out h = cc
by_round c c' fault out h = absurd cc
by_round c c' out_of_fuel out h = absurd cc

by_running :
    (sys : System) (c c' : Core) (lines : List MapsLine) (out : List (List ℕ × HookInfo))
    (running todo : Bool)
    → (if running
        then (if todo
            then ◌>>=◌ {B = Option (Core × List (List ℕ × HookInfo))}
                (refresh_impl sys (record c { thread_do = false }) lines)
                (λ q. done (some q))
            else done (some (c, [])))
        else done none)
      ≡ done (some (c', out))
    → (running ≡ true)
      × ((c ≡ c') ⊎ ((ms : List MapInfo) × (record c { thread_do = false; maps = ms } ≡ c')))
by_running sys c c' lines out true true h = (
  refl,
  inr (refresh_impl-maps sys (record c { thread_do = false }) c' lines out (by_round c c' _ out h)),
)
by_running sys c c' lines out true false h = (refl, inl cc)
by_running sys c c' lines out false b h = absurd cc

pub refresh_thread_round-maps :
    (sys : System) (c c' : Core) (lines : List MapsLine) (out : List (List ℕ × HookInfo))
    → refresh_thread_round sys c lines ≡ done (some (c', out))
    → (c.thread_running ≡ true)
      × ((c ≡ c') ⊎ ((ms : List MapInfo) × (record c { thread_do = false; maps = ms } ≡ c')))
unfolding refresh_thread_round
refresh_thread_round-maps sys c c' lines out h =
    by_running sys c c' lines out c.thread_running c.thread_do h

-- A thread that runs was started behind the initialisation.
pub is_ready : (c : Core) → IsConsistent c → c.thread_running ≡ true → c.init_ok ≡ true
is_ready c v on = v.behind (v.async_ok (sym v.running ∙ on))

round-IsConsistent :
    (c c' : Core)
    → IsConsistent c
    → c.thread_running ≡ true
    → (c ≡ c') ⊎ ((ms : List MapInfo) × (record c { thread_do = false; maps = ms } ≡ c'))
    → IsConsistent c'
round-IsConsistent c c' v on (inl same) = subst IsConsistent same v
round-IsConsistent c c' v on (inr (ms, same)) = subst IsConsistent same (
    others-IsConsistent (record c { maps = ms }) c.sigsegv_enable c.hooks c.ignores false c.handler
      (maps-IsConsistent c ms (is_ready c v on) v))

Step-IsConsistent : {sys : System} {c c' : Core} → IsConsistent c → Step sys c c' → IsConsistent c'
unfolding enable_sigsegv_protection
Step-IsConsistent {sys} v (registers regcomp memory c c' regex symbol new_func old_func e) =
    subst IsConsistent e (register-IsConsistent regcomp memory c regex symbol new_func old_func v)
Step-IsConsistent {sys} v (ignores regcomp memory c c' regex symbol e) =
    subst IsConsistent e (ignore-IsConsistent regcomp memory c regex symbol v)
Step-IsConsistent {sys} v (refreshes sigaction creates c c' async lines e calls h) =
    refresh-IsConsistent sigaction creates c c' async e v
      (refresh-Refreshed sys sigaction creates c c' async lines e calls h)
Step-IsConsistent {sys} v (rounds c c' lines calls h) =
    let (on, way) = refresh_thread_round-maps sys c c' lines calls h in
    round-IsConsistent c c' v on way
Step-IsConsistent {sys} v (clears c c' e) = subst IsConsistent e (clear-IsConsistent c v)
Step-IsConsistent {sys} v (protects c c' flag e) =
    subst IsConsistent e (others-IsConsistent c flag c.hooks c.ignores c.thread_do c.handler v)

-- Whatever is called in whatever order, with rounds of the refresh thread in between: a flag of success
-- is set only behind its flag of an attempt, the thread is started only where the first
-- initialisation succeeded, it runs exactly where its start succeeded, and no library is known
-- before the first refresh.
pub Reaches-IsConsistent : {sys : System} {c : Core} → Reaches sys c → IsConsistent c
Reaches-IsConsistent starts = record {
  ok = λ e. absurd cc;
  behind = λ e. absurd cc;
  async_ok = λ e. absurd cc;
  running = refl;
  no_maps = λ e. refl;
}
Reaches-IsConsistent (goes c c' before step) = Step-IsConsistent (Reaches-IsConsistent before) step
