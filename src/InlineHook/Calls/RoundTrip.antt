-- ===== src/InlineHook/Calls/RoundTrip.antt =====
-- inlineHook and inlineUnHook, one after the other.
use elf_hook_test.Base.{
  ℕ, ◌+◌, ◌-◌, sym, Bool-cases, inl, get_elem?-set_ne, ◌^◌, ◌<◌, ◌≡◌, ◌≢◌, ◌⊎◌, inr, refl, ap, ◌∙◌,
  arith, Bool, true, Option, none, some, ◌==◌, length, get_elem?, set, get_elem?-set_self,
}
use elf_hook_test.Base.Run.{done, ◌>>=◌, Returns}
use elf_hook_test.Base.Run.Laws.{>>=-Returns, read_at-some, store_at_lem}
use elf_hook_test.Base.Memory.{Outside, load_bytes}
use elf_hook_test.InlineHook.{ok, Item, Info, World, clear_bit0, registered, hooked}
use elf_hook_test.InlineHook.Patch.{patch, publish, restore}
use elf_hook_test.InlineHook.Patch.Restore.{saved_len, restore-patch}
use elf_hook_test.InlineHook.Threads.{enable, disable, freeze}
use elf_hook_test.InlineHook.Threads.Freeze.{freeze-info}
use elf_hook_test.InlineHook.Table.{find_inline_hook_item, find_slot, delete_inline_hook_item}
use elf_hook_test.InlineHook.Table.Find.{find_slot-some, find_slot-none}
use elf_hook_test.InlineHook.Table.Valid.{
  IsValid, Holds, set-IsValid, delete_inline_hook_item-IsValid,
}
use elf_hook_test.InlineHook.Calls.{
  do_inline_hook, do_inline_unhook, inline_hook, inline_unhook, is_hooked_at,
}

-- The search of inlineHook finds the slot of a target.
module _ (info : Info) (v : IsValid info) (pos : ℕ) (x : Item) (held : Holds info pos x)
    (test : Item → Bool) (hit : test x ≡ true)
    (only : (y : Item) → test y ≡ true → y.target ≡ x.target) where
  by_search : (o : Option ℕ) → find_slot test info.items info.size 0 ≡ o → o ≡ some pos
  by_search none e = cc (find_slot-none test info.items info.size 0 e pos x held.0 held.1, hit)
  by_search (some k) e =
      let f = find_slot-some test info.items info.size 0 k e in
      let same = v.distinct f.steps pos f.item x (f.below, f.held) held (only f.item f.passes) in
      ap some (omega (arith, f.at, same))

  find_slot-held : find_slot test info.items info.size 0 ≡ some pos
  find_slot-held = by_search (find_slot test info.items info.size 0) refl

-- What deleteInlineHookItem leaves: no item has the target of the one that went, and each other one is
-- in the table still.
module _ (info info' : Info) (pos : ℕ) (x : Item) (v : IsValid info) (held : Holds info pos x)
    (shorter : info'.size + 1 ≡ info.size)
    (moved : get_elem? info'.items pos ≡ get_elem? info.items (info.size - 1))
    (rest : (j : ℕ) → j ≢ pos → get_elem? info'.items j ≡ get_elem? info.items j) where
  deleted-gone : (j : ℕ) (y : Item) → Holds info' j y → y.target ≢ x.target
  deleted-gone j y at e = elim (Bool-cases (j == pos)) [
    | inl same ↦
        let here : j ≡ pos = ground arith in
        let was : get_elem? info.items (info.size - 1) ≡ some y =
          sym moved ∙ ap (get_elem? info'.items) (sym here) ∙ at.1 in
        let last = v.distinct (info.size - 1) pos y x (omega (arith, held.0), was) held e in
        omega (arith, last, here, at.0, shorter)
    | inr other ↦
        let there : j ≢ pos = ground arith in
        there
          (v.distinct j pos y x (omega (arith, at.0, shorter), sym (rest j there) ∙ at.1) held e)
  ]

module _ (info info' : Info) (pos : ℕ) (below : pos < info.size)
    (shorter : info'.size + 1 ≡ info.size)
    (moved : get_elem? info'.items pos ≡ get_elem? info.items (info.size - 1))
    (rest : (j : ℕ) → j ≢ pos → get_elem? info'.items j ≡ get_elem? info.items j) where
  deleted-kept : (j : ℕ) (y : Item) → Holds info j y → j ≢ pos → (k : ℕ) × Holds info' k y
  deleted-kept j y at ne = elim (Bool-cases (j == info.size - 1)) [
    | inl same ↦
        let last : j ≡ info.size - 1 = ground arith in
        (
          pos,
          (
            omega (arith, last, ne, at.0, shorter, below),
            moved ∙ ap (get_elem? info.items) (sym last) ∙ at.1,
          ),
        )
    | inr other ↦
        let below' : j ≢ info.size - 1 = ground arith in
        (j, (omega (arith, below', at.0, shorter), rest j ne ∙ at.1))
  ]

-- The item once it is hooked.
abbrev pub as_hooked : Item → Item
as_hooked x = record x { status = hooked }

-- The state behind inlineHook, from the stopped process `frozen`.
abbrev pub hooked_world : World → ℕ → Item → World
hooked_world frozen pos x = record frozen {
  info = record { items = set frozen.info.items pos (as_hooked x); size = frozen.info.size };
  memory = patch (as_hooked x) (publish (as_hooked x) frozen.memory);
}

module _ (w frozen : World) (pos : ℕ) (x : Item) (v : IsValid w.info) (held : Holds w.info pos x)
    (stage : x.status ≡ registered) (froze : freeze w (some x) enable ≡ done frozen) where
  same : (frozen.info ≡ w.info) × (frozen.memory ≡ w.memory)
  same = freeze-info w frozen (some x) enable froze

  found : find_inline_hook_item w.info x.target ≡ some pos
  unfolding find_inline_hook_item
  found =
      find_slot-held w.info v pos x held (λ i. i.target == x.target) (ground arith)
        (λ y h. ground arith)

  held_frozen : get_elem? frozen.info.items pos ≡ some x
  held_frozen = rw same.0 held.1

  in_table : pos < length frozen.info.items
  in_table = rw same.0 (omega (arith, v.slots, v.in_use, held.0))

  do_inline_hook_lem : do_inline_hook frozen pos ≡ done (hooked_world frozen pos x)
  unfolding do_inline_hook
  do_inline_hook_lem =
      rw
        (
          read_at-some frozen.info.items pos held_frozen,
          store_at_lem frozen.info.items pos (as_hooked x) in_table,
        )
        refl

  -- inlineHook of a target that is registered, where stopping the threads goes through, answers
  -- ELE7EN_OK, marks the item and leaves patch and pointer in memory.
  pub inline_hook_lem : inline_hook w x.target ≡ done (ok, hooked_world frozen pos x)
  unfolding inline_hook
  inline_hook_lem =
      rw
        (found, inline_hook, read_at-some w.info.items pos held.1, stage, froze, do_inline_hook_lem)
        refl

  valid_hooked : IsValid (hooked_world frozen pos x).info
  valid_hooked =
      set-IsValid frozen.info pos x (as_hooked x) (rw same.0 v) (rw same.0 held.0, held_frozen) refl
        (inr refl)

  held_hooked : Holds (hooked_world frozen pos x).info pos (as_hooked x)
  held_hooked = (rw same.0 held.0, get_elem?-set_self frozen.info.items pos (as_hooked x) in_table)

  -- What hooking and unhooking leave.
  pub record IsBack (w' : World) : Type 0 where
    pub valid : IsValid w'.info
    pub one_less : w'.info.size + 1 ≡ w.info.size
    pub gone : (j : ℕ) (y : Item) → Holds w'.info j y → y.target ≢ x.target
    pub kept : (j : ℕ) (y : Item) → Holds w.info j y → j ≢ pos → (k : ℕ) × Holds w'.info k y
    pub bytes : (b : ℕ) → (x.proto ≡ 0) ⊎ Outside x.proto 4 b → w'.memory b ≡ w.memory b

  module _ (frozen' : World)
      (froze' : freeze (hooked_world frozen pos x) (some (as_hooked x)) disable ≡ done frozen')
      (even : x.target < 2 ^ 32) (are_bytes : (c : ℕ) → w.memory c < 256)
      (saved : x.orig ≡ load_bytes w.memory (clear_bit0 x.target) (saved_len x.target)) where
    same' :
        (frozen'.info ≡ (hooked_world frozen pos x).info)
        × (frozen'.memory ≡ (hooked_world frozen pos x).memory)
    same' = freeze-info (hooked_world frozen pos x) frozen' (some (as_hooked x)) disable froze'

    restored :
        (b : ℕ)
        → (x.proto ≡ 0) ⊎ Outside x.proto 4 b
        → restore (as_hooked x) frozen'.memory b ≡ w.memory b
    restored b o =
        rw (same'.1, same.1) (restore-patch (as_hooked x) w.memory b even are_bytes saved o)

    sizes : frozen'.info.size ≡ w.info.size
    sizes = ap (λ i. i.size) same'.0 ∙ ap (λ i. i.size) same.0

    valid' : IsValid frozen'.info
    valid' = rw same'.0 valid_hooked

    held' : Holds frozen'.info pos (as_hooked x)
    held' = rw same'.0 held_hooked

    as_before : (j : ℕ) (y : Item) → Holds w.info j y → j ≢ pos → Holds frozen'.info j y
    as_before j y at ne = (
      omega (arith, at.0, sizes),
      ap (λ i. get_elem? i.items j) same'.0
          ∙ get_elem?-set_ne frozen.info.items {i = pos} {j = j} (as_hooked x) (λ e. ne (sym e))
          ∙ ap (λ i. get_elem? i.items j) same.0
          ∙ at.1,
    )

    do_inline_unhook-IsBack : Returns (do_inline_unhook frozen' pos) IsBack
    unfolding do_inline_unhook
    do_inline_unhook-IsBack =
        rw (read_at-some frozen'.info.items pos {x = as_hooked x} (rw same'.0 held_hooked.1)) (
          >>=-Returns
            (λ info'.
              IsValid info'
              × (info'.size + 1 ≡ frozen'.info.size)
              × (get_elem? info'.items pos ≡ get_elem? frozen'.info.items (frozen'.info.size - 1))
              × ((j : ℕ) → j ≢ pos → get_elem? info'.items j ≡ get_elem? frozen'.info.items j))
            IsBack (delete_inline_hook_item frozen'.info pos) _
            (delete_inline_hook_item-IsValid frozen'.info pos (rw same'.0 valid_hooked)
              (rw same'.0 held_hooked.0))
            (λ info' h. record {
              valid = h.0;
              one_less = h.1 ∙ sizes;
              gone = λ j y at.
                  deleted-gone frozen'.info info' pos (as_hooked x) valid' held' h.1 h.2 h.3 j y at;
              kept = λ j y at ne.
                  deleted-kept frozen'.info info' pos held'.0 h.1 h.2 h.3 j y (as_before j y at ne)
                    ne;
              bytes = restored;
            }))

    found' :
        find_slot
          (is_hooked_at x.target)
          (hooked_world frozen pos x).info.items
          (hooked_world frozen pos x).info.size
          0
        ≡ some pos
    unfolding is_hooked_at
    found' =
        find_slot-held (hooked_world frozen pos x).info valid_hooked pos (as_hooked x) held_hooked
          (is_hooked_at x.target) (ground arith) (λ y h. ground arith)

    -- Hooking a registered target and unhooking it, where stopping the threads goes through both times,
    -- answers ELE7EN_OK, leaves the table valid with one item less, that of the target, brings every byte of memory
    -- back, but for the pointer published in `*proto_addr`. The item has the saved bytes of its target.
    pub inline_unhook-inline_hook :
        Returns
          (inline_hook w x.target >>= λ r. inline_unhook r.1 x.target)
          (λ (status, w'). (status ≡ ok) × IsBack w')
    unfolding inline_unhook
    inline_unhook-inline_hook =
        rw
          (
            inline_hook_lem,
            ◌>>=◌,
            inline_unhook,
            found',
            read_at-some (hooked_world frozen pos x).info.items pos held_hooked.1,
            froze',
          )
          (>>=-Returns IsBack (λ (status, w'). (status ≡ ok) × IsBack w')
            (do_inline_unhook frozen' pos) _ do_inline_unhook-IsBack (λ w' h. (refl, h)))
