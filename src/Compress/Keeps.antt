-- ===== src/Compress/Keeps.antt =====
-- `compress_transitions` keeps targets and actions, and leaves no neighbours that agree in them.
use mathlib.Core.Option
use colm.Prelude.{
  ℕ, suc, ◌+◌, ◌≤◌, ◌<◌, ◌==◌, ◌≡◌, refl, ◌∙◌, List, [], ◌∷◌, Option, true, false, arith,
  Bool-cases, inl, inr,
}
use colm.Key.{key_mod, decrement, decrement-eq}
use colm.Ranges.{Range, range, lookup, IsAscending}
use colm.Fsm.{FsmTrans, ActionTableEl}
use colm.Fsm.Equal.{actions_iff}
use colm.Compress.{can_merge, compress_from, compress_transitions}

-- what the loop looks at in a transition
abbrev pub target_and_actions : FsmTrans → ℕ × List ActionTableEl
target_and_actions t = (t.to_state, t.action_table)

abbrev pub action_on : ℕ → List (Range FsmTrans) → Option (ℕ × List ActionTableEl)
action_on k rs = Option.map target_and_actions (lookup k rs)

-- of no two neighbours the second begins behind the end of the first, and has its target and actions
abbrev pub IsCompressed : List (Range FsmTrans) → Type 0
IsCompressed [] = Unit
IsCompressed (trans ∷ []) = Unit
IsCompressed (trans ∷ next ∷ rest) =
    ¬ (
      (next.low_key ≡ trans.high_key + 1)
      × (trans.item.to_state ≡ next.item.to_state)
      × (trans.item.action_table ≡ next.item.action_table))
    × IsCompressed (next ∷ rest)

-- the test of the loop fails for every two neighbours
abbrev IsUnmergeable : List (Range FsmTrans) → Type 0
IsUnmergeable [] = Unit
IsUnmergeable (trans ∷ []) = Unit
IsUnmergeable (trans ∷ next ∷ rest) = (can_merge trans next ≡ false) × IsUnmergeable (next ∷ rest)

decrement_next : (h l : ℕ) → l ≡ h + 1 → l < key_mod → (h == decrement l) ≡ true
unfolding decrement
decrement_next h l e lt = ground arith

can_merge-false :
    (t u : Range FsmTrans)
    → u.low_key < key_mod
    → can_merge t u ≡ false
    → ¬ (
        (u.low_key ≡ t.high_key + 1)
        × (t.item.to_state ≡ u.item.to_state)
        × (t.item.action_table ≡ u.item.action_table))
unfolding can_merge
can_merge-false t u lt h (e, same, acts) =
    let next = decrement_next t.high_key u.low_key e lt in
    let equal = (actions_iff t.item.action_table u.item.action_table).1 acts in
    absurd (ground (arith, h, next, same, equal))

IsUnmergeable-IsCompressed :
    (b : ℕ) (rs : List (Range FsmTrans)) → IsAscending b rs → IsUnmergeable rs → IsCompressed rs
IsUnmergeable-IsCompressed b [] asc c = tt
IsUnmergeable-IsCompressed b (t ∷ []) asc c = tt
IsUnmergeable-IsCompressed b (t ∷ u ∷ rest) asc (keep, c) = (
  can_merge-false t u (omega arith) keep,
  IsUnmergeable-IsCompressed (suc t.high_key) (u ∷ rest) asc.3 c,
)

can_merge-true :
    (t u : Range FsmTrans) (b : ℕ)
    → b ≤ t.low_key
    → IsAscending b (t ∷ u ∷ [])
    → can_merge t u ≡ true
    → (u.low_key ≡ t.high_key + 1) × (target_and_actions t.item ≡ target_and_actions u.item)
unfolding can_merge
can_merge-true t u b lb asc h =
    ground (
      arith,
      decrement-eq u.low_key t.high_key,
      actions_iff t.item.action_table u.item.action_table,
    )

merged-IsAscending :
    (b : ℕ) (t u : Range FsmTrans) (rest : List (Range FsmTrans))
    → IsAscending b (t ∷ u ∷ rest)
    → IsAscending b (range t.low_key u.high_key t.item ∷ rest)
merged-IsAscending b t u rest asc = (asc.0, omega arith, asc.3.2, asc.3.3)

action_on-merged :
    (k b : ℕ) (t u : Range FsmTrans) (rest : List (Range FsmTrans))
    → IsAscending b (t ∷ u ∷ rest)
    → can_merge t u ≡ true
    → action_on k (range t.low_key u.high_key t.item ∷ rest) ≡ action_on k (t ∷ u ∷ rest)
action_on-merged k b t u rest asc h =
    let (next, same) = can_merge-true t u b asc.0 (omega arith) h in ground (arith, next, same)

action_on-compress_from :
    (k b : ℕ) (t : Range FsmTrans) (rest : List (Range FsmTrans))
    → IsAscending b (t ∷ rest)
    → action_on k (compress_from t rest) ≡ action_on k (t ∷ rest)
unfolding compress_from
action_on-compress_from k b t [] asc = refl
action_on-compress_from k b t (u ∷ rest) asc = elim (Bool-cases (can_merge t u)) [
  | inl merge ↦ rw merge (
      action_on-compress_from k b (range t.low_key u.high_key t.item) rest
        (merged-IsAscending b t u rest asc)
      ∙ action_on-merged k b t u rest asc merge)
  | inr keep ↦ rw keep (ground (arith, action_on-compress_from k (suc t.high_key) u rest asc.3))
]

compress_from-IsAscending :
    (b : ℕ) (t : Range FsmTrans) (rest : List (Range FsmTrans))
    → IsAscending b (t ∷ rest)
    → IsAscending b (compress_from t rest)
unfolding compress_from
compress_from-IsAscending b t [] asc = asc
compress_from-IsAscending b t (u ∷ rest) asc = ground (
  arith,
  compress_from-IsAscending b (range t.low_key u.high_key t.item) rest
      (merged-IsAscending b t u rest asc),
  compress_from-IsAscending (suc t.high_key) u rest asc.3,
)

-- the first range of the result, with the target, the actions and the first key of `t`
compress_from_head :
    (t : Range FsmTrans) (rest : List (Range FsmTrans))
    → (h : ℕ) × (tail : List (Range FsmTrans)) × (compress_from t rest
        ≡ range t.low_key h t.item ∷ tail)
unfolding compress_from
compress_from_head t [] = (t.high_key, [], refl)
compress_from_head t (u ∷ rest) = elim (Bool-cases (can_merge t u)) [
  | inl merge ↦ rw merge (compress_from_head (range t.low_key u.high_key t.item) rest)
  | inr keep ↦ rw keep (t.high_key, compress_from u rest, refl)
]

can_merge_head :
    (t u : Range FsmTrans) (h : ℕ) → can_merge t (range u.low_key h u.item) ≡ can_merge t u
unfolding can_merge
can_merge_head t u h = refl

cons-IsUnmergeable :
    (t u : Range FsmTrans) (rest : List (Range FsmTrans))
    → can_merge t u ≡ false
    → IsUnmergeable (compress_from u rest)
    → IsUnmergeable (t ∷ compress_from u rest)
cons-IsUnmergeable t u rest keep c =
    let (h, tail, e) = compress_from_head u rest in rw e (can_merge_head t u h ∙ keep, rw e at c)

compress_from-IsUnmergeable :
    (t : Range FsmTrans) (rest : List (Range FsmTrans)) → IsUnmergeable (compress_from t rest)
unfolding compress_from
compress_from-IsUnmergeable t [] = tt
compress_from-IsUnmergeable t (u ∷ rest) = elim (Bool-cases (can_merge t u)) [
  | inl merge ↦ rw merge (compress_from-IsUnmergeable (range t.low_key u.high_key t.item) rest)
  | inr keep ↦ rw keep (cons-IsUnmergeable t u rest keep (compress_from-IsUnmergeable u rest))
]

-- For ascending transitions, `compressTransitions` leaves ascending transitions, and every key keeps
-- its target and its actions. Where a transition begins right behind the one in front of it, the
-- two differ in their target or in their actions.
pub compress_transitions_lem :
    (k b : ℕ) (rs : List (Range FsmTrans))
    → IsAscending b rs
    → (action_on k (compress_transitions rs) ≡ action_on k rs)
      × IsAscending b (compress_transitions rs)
      × IsCompressed (compress_transitions rs)
unfolding compress_transitions
compress_transitions_lem k b [] asc = (refl, asc, tt)
compress_transitions_lem k b (t ∷ rest) asc = (
  action_on-compress_from k b t rest asc,
  compress_from-IsAscending b t rest asc,
  IsUnmergeable-IsCompressed b (compress_from t rest) (compress_from-IsAscending b t rest asc)
      (compress_from-IsUnmergeable t rest),
)
