-- ===== src/Mark/Targets.antt =====
-- `MarkCompare::shouldMark` of src/fsmstate.cc marks two states for a marked pair of targets.
use colm.Prelude.{
  ℕ, ◌≡◌, ◌≢◌, ◌↔◌, ◌⊎◌, inl, inr, refl, Bool, true, false, Option, none, some, arith, Bool-cases,
  Option-cases,
}
use colm.Ranges.{lookup, IsAscending}
use colm.PairIter.Loop.{pair_loop-First}
use colm.PairIter.Decide.{Decides, First-Decided}
use colm.Fsm.{FsmTrans, FsmState}
use colm.Fsm.Compare.{Outcome, returned}
use colm.Fsm.Partition.{SameKeys}
use colm.MarkIndex.{MarkIndex, is_pair_marked}
use colm.Mark.{should_mark_ptr, mark_stop, should_mark}

-- no transition of the state goes to the error state
abbrev pub HasTargets : FsmState → Type 0
HasTargets s = (k : ℕ) (t : FsmTrans) → lookup k s.out_list ≡ some t → t.to_state ≢ 0

module _ (state_num : ℕ → ℕ) (marks : MarkIndex) where
  -- both transitions are set, and the pair of their targets is marked
  abbrev pub MarkedTargets : Option FsmTrans → Option FsmTrans → Type 0
  MarkedTargets (some t) (some u) =
      is_pair_marked marks (state_num t.to_state) (state_num u.to_state) ≡ some true
  MarkedTargets _ _ = ⊥

  abbrev Marks : Outcome Bool → Type 0
  Marks o = o ≡ returned true

  mark_stop-Decides :
      (a b : Option FsmTrans)
      → (a ≡ none) ↔ (b ≡ none)
      → ((t : FsmTrans) → a ≡ some t → t.to_state ≢ 0)
      → ((t : FsmTrans) → b ≡ some t → t.to_state ≢ 0)
      → ((i j : ℕ) → is_pair_marked marks (state_num i) (state_num j) ≢ none)
      → Decides {R = Outcome Bool}
          (λ _. mark_stop state_num marks a b)
          (λ _. ¬ MarkedTargets a b)
          (λ _. MarkedTargets a b)
          Marks
          0
  unfolding should_mark_ptr
  mark_stop-Decides none none same ta tb room = inl (refl, λ m. m)
  mark_stop-Decides none (some u) same ta tb room = let e : some u ≡ none = same.0 refl in cc
  mark_stop-Decides (some t) none same ta tb room = let e : some t ≡ none = same.1 refl in cc
  mark_stop-Decides (some t) (some u) same ta tb room =
      let nt = ta t refl in
      let nu = tb u refl in
      elim (Option-cases (is_pair_marked marks (state_num t.to_state) (state_num u.to_state))) [
        | inl e ↦ absurd (room t.to_state u.to_state e)
        | inr (marked, e) ↦ elim (Bool-cases marked) [
          | inl set ↦ inr (returned true, ground (arith, e), refl, ground (arith, e))
          | inr clear ↦ inl (ground (arith, e), λ m. ground (arith, e))
        ]
      ]

  module _ (s t : FsmState) (u : IsAscending 0 s.out_list) (v : IsAscending 0 t.out_list) where
    -- For states whose out lists ascend, have transitions on the same keys and none to the error
    -- state, and an index with room for every pair, `MarkCompare::shouldMark` returns without a bad
    -- read or a failed assertion; it returns true if the pair of the targets is marked on some key,
    -- and false if it is marked on none.
    pub should_mark-MarkedTargets :
        SameKeys s t
        → HasTargets s
        → HasTargets t
        → ((i j : ℕ) → is_pair_marked marks (state_num i) (state_num j) ≢ none)
        → ((should_mark state_num marks s t ≡ some (returned false))
            × ((k : ℕ) → ¬ MarkedTargets (lookup k s.out_list) (lookup k t.out_list)))
          ⊎ ((should_mark state_num marks s t ≡ some (returned true))
              × ((k : ℕ) × MarkedTargets (lookup k s.out_list) (lookup k t.out_list)))
    unfolding should_mark
    should_mark-MarkedTargets same ts tt' room =
        let (r, ends, first) =
          pair_loop-First (mark_stop state_num marks) refl s.out_list t.out_list u v in
        let decided =
          First-Decided (λ k. mark_stop state_num marks (lookup k s.out_list) (lookup k t.out_list))
            (λ k. ¬ MarkedTargets (lookup k s.out_list) (lookup k t.out_list))
            (λ k. MarkedTargets (lookup k s.out_list) (lookup k t.out_list)) Marks r first
            (λ k.
              mark_stop-Decides (lookup k s.out_list) (lookup k t.out_list) (same k) (ts k) (tt' k)
                room) in
        elim decided [
          | inl (e, all) ↦ inl (rw (ends, e), all)
          | inr (o, e, is, k, differ) ↦ inr (rw (ends, e, is), (k, differ))
        ]
