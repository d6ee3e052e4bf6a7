-- ===== src/Mark/Rounds.antt =====
-- `FsmGraph::initialMarkRound`, `FsmGraph::markRound` and the loop of `FsmGraph::minimizeStable` of
-- src/fsmmin.cc.
--
-- `none` is a comparison that does not end, a read or a write outside of the index, an `int` that
-- overflows or a failed assertion.
use colm.Prelude.{
  ℕ, zero, suc, ◌*◌, List, [], ◌∷◌, ◌++◌, Bool, true, false, Option, none, some, if◌then◌else◌,
  length,
}
use Prim.Native.Nat.{lt, eq, gt}
use colm.Fsm.{FsmState}
use colm.Fsm.Compare.{Outcome, returned, bad_read, assert_failed, init_partition_compare}
use colm.MarkIndex.{MarkIndex, mark_index, mark_pair, is_pair_marked}
use colm.Mark.{should_mark}

-- the walk of both rounds over the pairs (p, q), where q stands before p in `stateList`
module _ {St : Type 0} (body : FsmState → ℕ → FsmState → ℕ → St → Option St) where
  -- the inner loop, at state number `pn`; `qn` is the number of the head of the list
  unfoldable pub walk_row : FsmState → ℕ → List FsmState → ℕ → St → Option St
  walk_row p pn [] qn st = some st
  walk_row p pn (q ∷ qs) qn st = elim (body p pn q qn st) [
    | none ↦ none
    | some st' ↦ walk_row p pn qs (suc qn) st'
  ]

  -- the outer loop, with the states before p
  unfoldable pub walk_pairs : List FsmState → List FsmState → St → Option St
  unfolding walk_row
  walk_pairs before [] st = some st
  walk_pairs before (p ∷ rest) st = elim (walk_row p (length before) before 0 st) [
    | none ↦ none
    | some st' ↦ walk_pairs (before ++ p ∷ []) rest st'
  ]

-- a round of `initialMarkRound`
unfoldable pub initial_mark : FsmState → ℕ → FsmState → ℕ → MarkIndex → Option MarkIndex
unfolding mark_pair
initial_mark p pn q qn marks = elim (init_partition_compare p q) [
  | none ↦ none
  | some r ↦ elim r [ eq ↦ some marks | lt ↦ mark_pair pn qn marks | gt ↦ mark_pair pn qn marks ]
]

-- `FsmGraph::initialMarkRound`
unfoldable pub initial_mark_round : List FsmState → MarkIndex → Option MarkIndex
unfolding walk_pairs
initial_mark_round states marks = walk_pairs initial_mark [] states marks

module _ (state_num : ℕ → ℕ) where
  -- what `shouldMark` answers, with the index and `pairWasMarked`
  abbrev pub mark_answer : ℕ → ℕ → MarkIndex × Bool → Outcome Bool → Option (MarkIndex × Bool)
  mark_answer pn qn st (returned true) = elim (mark_pair pn qn st.0) [
    | none ↦ none
    | some marks ↦ some (marks, true)
  ]
  mark_answer pn qn st (returned false) = some st
  mark_answer pn qn st bad_read = none
  mark_answer pn qn st assert_failed = none

  -- a round of `markRound`
  unfoldable pub mark_step :
      FsmState → ℕ → FsmState → ℕ → MarkIndex × Bool → Option (MarkIndex × Bool)
  mark_step p pn q qn st = elim (is_pair_marked st.0 pn qn) [
    | none ↦ none
    | some marked ↦
        if marked
        then some st
        else elim (should_mark state_num st.0 p q) [ none ↦ none | some o ↦ mark_answer pn qn st o ]
  ]

  -- `FsmGraph::markRound`
  unfoldable pub mark_round : List FsmState → MarkIndex → Option (MarkIndex × Bool)
  unfolding walk_pairs
  mark_round states marks = walk_pairs mark_step [] states (marks, false)

  -- the loop of `minimizeStable`
  unfoldable pub mark_rounds : ℕ → List FsmState → MarkIndex → Option MarkIndex
  unfolding mark_round
  mark_rounds zero states marks = none
  mark_rounds (suc f) states marks = elim (mark_round states marks) [
    | none ↦ none
    | some (after, modified) ↦
        let more = mark_rounds f states after in if modified then more else some after
  ]

  -- `FsmGraph::minimizeStable` up to the fusing: each round but the last marks one of at most
  -- states^2 pairs
  unfoldable pub minimize_marks : List FsmState → Option MarkIndex
  unfolding mark_rounds initial_mark_round mark_index
  minimize_marks states = elim (mark_index (length states)) [
    | none ↦ none
    | some index ↦ elim (initial_mark_round states index) [
      | none ↦ none
      | some marks ↦ mark_rounds (suc (length states * length states)) states marks
    ]
  ]
