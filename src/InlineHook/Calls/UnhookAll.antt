-- ===== src/InlineHook/Calls/UnhookAll.antt =====
-- inlineUnHookAll comes to an end, and leaves no hook in place.
use elf_hook_test.Base.{
  ℕ, zero, suc, ◌+◌, ◌<◌, ◌≤◌, ◌≡◌, sym, ◌∙◌, ◌≢◌, ◌⊎◌, inl, inr, arith, true, false, none, some,
  get_elem?, get_elem?-some, ◌==◌, ltb, Bool-cases, ltb→lt, lt→ltb,
}
use elf_hook_test.Base.Run.{done, ◌>>=◌, Returns}
use elf_hook_test.Base.Run.Laws.{read_at-some, >>=-Returns}
use elf_hook_test.InlineHook.{Item, Info, World, hooked}
use elf_hook_test.InlineHook.Table.{delete_inline_hook_item}
use elf_hook_test.InlineHook.Table.Valid.{IsValid, Holds, delete_inline_hook_item-IsValid}
use elf_hook_test.InlineHook.Threads.{freeze, disable}
use elf_hook_test.InlineHook.Threads.Freeze.{freeze-info}
use elf_hook_test.InlineHook.Calls.{do_inline_unhook, unhook_from, inline_unhook_all}

-- The first `i` slots in use hold no hook that is in place.
abbrev ClearBelow : Info → ℕ → Type 0
ClearBelow info i = (j : ℕ) (x : Item) → j < i → Holds info j x → x.status ≢ hooked

do_inline_unhook_lem :
    (w : World) (pos : ℕ)
    → IsValid w.info
    → pos < w.info.size
    → Returns (do_inline_unhook w pos) (λ w'.
      IsValid w'.info
      × (w'.info.size + 1 ≡ w.info.size)
      × ((j : ℕ) → j ≢ pos → get_elem? w'.info.items j ≡ get_elem? w.info.items j))
unfolding do_inline_unhook
do_inline_unhook_lem w pos v lt = rw (read_at-some w.info.items pos at.1) (
    >>=-Returns _ _ (delete_inline_hook_item w.info pos) _
      (delete_inline_hook_item-IsValid w.info pos v lt) (λ info h. (h.0, h.1, h.3)))
  where
    at : (x : Item) × (get_elem? w.info.items pos ≡ some x)
    at = get_elem?-some w.info.items pos (omega (arith, v.slots, v.in_use))

-- The items still in use when the loop stops.
abbrev pub NoneHooked : Info → Type 0
NoneHooked info = (j : ℕ) (x : Item) → Holds info j x → x.status ≢ hooked

same_or_below : (j i : ℕ) → j < i + 1 → (j < i) ⊎ (j ≡ i)
same_or_below j i h = omega arith

abbrev Cleared : World → Type 0
Cleared w = IsValid w.info × NoneHooked w.info

-- What the loop does with `fuel` rounds.
abbrev Clears : ℕ → Type 0
Clears fuel =
    (i : ℕ) (w : World)
    → IsValid w.info
    → ClearBelow w.info i
    → i ≤ w.info.size
    → w.info.size < fuel + i
    → Returns (unhook_from fuel i w) Cleared

-- One round, at the item that stands in slot `i`.
module _ (fuel i : ℕ) (w : World) (item : Item) (ih : Clears fuel) (v : IsValid w.info)
    (clear : ClearBelow w.info i) (inside : i < w.info.size) (enough : w.info.size < suc fuel + i)
    (at : get_elem? w.info.items i ≡ some item) where
  round_hit :
      (item.status == hooked) ≡ true
      → Returns (do_inline_unhook w i >>= λ w'. unhook_from fuel i w') Cleared
  round_hit hit =
      >>=-Returns _ Cleared (do_inline_unhook w i) (λ w'. unhook_from fuel i w')
        (do_inline_unhook_lem w i v inside)
        (λ w' h.
          ih i w' h.0
            (λ j x lt held.
              clear j x lt (omega (arith, h.1, held.0), sym (h.2 j (omega arith)) ∙ held.1))
            (omega (arith, h.1)) (omega (arith, h.1)))

  round_skip : (item.status == hooked) ≡ false → Returns (unhook_from fuel (i + 1) w) Cleared
  round_skip skip = ih (i + 1) w v still (omega arith) (omega arith)
    where
      still : ClearBelow w.info (i + 1)
      still j x lt held = elim (same_or_below j i lt) [
        | inl below ↦ clear j x below held
        | inr same ↦ ground (arith, at, held.1, same)
      ]

  unhook_round : Returns (unhook_from (suc fuel) i w) Cleared
  unfolding unhook_from
  unhook_round =
      rw (lt→ltb _ _ inside, unhook_from, read_at-some w.info.items i at)
        (elim (Bool-cases (item.status == hooked)) [
          | inr skip ↦ rw (◌>>=◌, skip) (round_skip skip)
          | inl hit ↦ rw (◌>>=◌, hit) (round_hit hit)
        ])

unhook_from_lem : (fuel : ℕ) → Clears fuel
unfolding unhook_from
unhook_from_lem zero i w v clear le enough = absurd (omega arith)
unhook_from_lem (suc fuel) i w v clear le enough = elim (Bool-cases (ltb i w.info.size)) [
  | inr ends ↦ rw (ends, unhook_from) (v, λ j x h. clear j x (ground arith) h)
  | inl on ↦ go (unhook_from_lem fuel) (ltb→lt _ _ on)
]
  where
    go : Clears fuel → i < w.info.size → Returns (unhook_from (suc fuel) i w) Cleared
    go ih lt =
        let at = get_elem?-some w.info.items i (omega (arith, v.slots, v.in_use)) in
        unhook_round fuel i w at.0 ih v clear lt enough at.1

-- inlineUnHookAll, where stopping and moving the threads goes through, comes to an end with the
-- table valid and with no item in it that is hooked.
pub inline_unhook_all-NoneHooked :
    (w frozen : World)
    → IsValid w.info
    → freeze w none disable ≡ done frozen
    → Returns (inline_unhook_all w) (λ w'. IsValid w'.info × NoneHooked w'.info)
unfolding inline_unhook_all
inline_unhook_all-NoneHooked w frozen v froze = rw froze (
    unhook_from_lem (frozen.info.size + 1) 0 frozen
      (rw (freeze-info w frozen none disable froze).0 v) (λ j x lt h. absurd (omega arith))
      (omega arith) (omega arith))
