-- ===== src/Mark.antt =====
-- src/fsmmin.cc, src/fsmstate.cc: the rounds of minimization by pair marking.
--
-- `state_num` is `alg.stateNum` of the state at an address. The states are numbered in the order of
-- `stateList`, as `setStateNumbers( 0 )` numbers them.
pub mod Targets
pub mod Rounds
pub mod Walk
pub mod Run
pub mod Initial
pub mod Fixpoint
pub mod Minimize
pub mod Words
use mathlib.Core.Option
use colm.Prelude.{
  ℕ, zero, suc, ◌+◌, List, [], ◌∷◌, ◌++◌, Bool, true, false, ◌==◌, ◌||◌, Option, none, some,
  if◌then◌else◌,
}
use colm.PairIter.Loop.{pair_loop}
use colm.PairIter.Partition.{walk_rounds}
use colm.Fsm.{FsmTrans, FsmState}
use colm.Fsm.Compare.{Outcome, returned, bad_read, assert_failed}
use colm.MarkIndex.{MarkIndex, is_pair_marked}

abbrev read_mark : Option Bool → Outcome Bool
read_mark none = bad_read
read_mark (some marked) = returned marked

module _ (state_num : ℕ → ℕ) (marks : MarkIndex) where
  -- `FsmGraph::shouldMarkPtr`
  unfoldable pub should_mark_ptr : Option FsmTrans → Option FsmTrans → Outcome Bool
  unfolding is_pair_marked
  should_mark_ptr none none = returned false
  should_mark_ptr none (some trans2) = assert_failed
  should_mark_ptr (some trans1) none = assert_failed
  should_mark_ptr (some trans1) (some trans2) =
      if trans1.to_state == 0 || trans2.to_state == 0
      then bad_read
      else read_mark (is_pair_marked marks (state_num trans1.to_state) (state_num trans2.to_state))

  -- the range cases of `MarkCompare::shouldMark`
  abbrev pub mark_stop : Option FsmTrans → Option FsmTrans → Option (Outcome Bool)
  mark_stop a b = elim (should_mark_ptr a b) [
    | returned marked ↦ if marked then some (returned true) else none
    | bad_read ↦ some bad_read
    | assert_failed ↦ some assert_failed
  ]

  -- `MarkCompare::shouldMark`
  unfoldable pub should_mark : FsmState → FsmState → Option (Outcome Bool)
  unfolding should_mark_ptr
  should_mark state1 state2 =
      Option.map (elim [ none ↦ returned false | some r ↦ r ])
        (pair_loop mark_stop (walk_rounds state1.out_list state2.out_list) state1.out_list
          state2.out_list)
