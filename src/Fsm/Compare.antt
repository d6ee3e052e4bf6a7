-- ===== src/Fsm/Compare.antt =====
-- src/fsmap.cc, src/fsmstate.cc: the comparisons of transitions and of states that minimization
-- sorts and tests by.
--
-- The iterator over two out lists is bounded by `walk_rounds` (PairIter/Partition.antt); `none` is
-- a loop that has not ended by then.
use Prim.Native.Nat.{Ordering}
use Prim.Native.Nat.Ordering.{lt, eq, gt}
use mathlib.Core.Option
use colm.Prelude.{ℕ, ◌&&◌, not, Option, none, some, ltb, ◌==◌, if◌then◌else◌}
use colm.PairIter.Loop.{pair_loop}
use colm.PairIter.Partition.{walk_rounds}
use colm.Compare.{or_else, cmp_ord, cmp_table}
use colm.Fsm.{FsmTrans, FsmState, cmp_action_table_el, cmp_err_action_table_el, cmp_prior_el}

-- `FsmGraph::compareTransData`
unfoldable pub compare_trans_data : FsmTrans → FsmTrans → Ordering
compare_trans_data trans1 trans2 =
    or_else (cmp_table cmp_prior_el trans1.prior_table trans2.prior_table) (
      or_else (cmp_table cmp_action_table_el trans1.lm_action_table trans2.lm_action_table)
        (cmp_table cmp_action_table_el trans1.action_table trans2.action_table))

-- `FsmGraph::compareStateData`
unfoldable pub compare_state_data : FsmState → FsmState → Ordering
compare_state_data state1 state2 =
    or_else (cmp_table cmp_prior_el state1.out_prior_table state2.out_prior_table) (
      or_else
        (cmp_table cmp_action_table_el state1.to_state_action_table state2.to_state_action_table)
        (or_else
          (cmp_table cmp_action_table_el state1.from_state_action_table
            state2.from_state_action_table)
          (or_else (cmp_table cmp_action_table_el state1.out_action_table state2.out_action_table) (
            or_else (cmp_table cmp_ord state1.out_cond_set state2.out_cond_set) (
              or_else
                (cmp_table cmp_err_action_table_el state1.err_action_table state2.err_action_table)
                (cmp_table cmp_action_table_el state1.eof_action_table state2.eof_action_table))))))

-- `FsmGraph::compareDataPtr`
unfoldable pub compare_data_ptr : Option FsmTrans → Option FsmTrans → Ordering
unfolding compare_trans_data
compare_data_ptr none none = eq
compare_data_ptr none (some trans2) = lt
compare_data_ptr (some trans1) none = gt
compare_data_ptr (some trans1) (some trans2) = compare_trans_data trans1 trans2

-- `FsmGraph::compareFullPtr`
unfoldable pub compare_full_ptr : Option FsmTrans → Option FsmTrans → Ordering
unfolding compare_trans_data
compare_full_ptr none none = eq
compare_full_ptr none (some trans2) = gt
compare_full_ptr (some trans1) none = lt
compare_full_ptr (some trans1) (some trans2) =
    if ltb trans1.to_state trans2.to_state
    then lt
    else if ltb trans2.to_state trans1.to_state
    then gt
    else if trans1.to_state == 0
    then eq
    else compare_trans_data trans1 trans2

-- `if ( compareRes != 0 ) return compareRes;` in the range cases of a loop
abbrev pub nonzero : Ordering → Option Ordering
nonzero lt = some lt
nonzero gt = some gt
nonzero eq = none

-- what the loop returned, or 0 after its end
abbrev pub after_loop : Option Ordering → Ordering
after_loop none = eq
after_loop (some r) = r

-- the test of final state status at the head of two comparisons
unfoldable pub compare_final : FsmState → FsmState → Ordering
compare_final state1 state2 =
    if state1.is_fin_state && not state2.is_fin_state
    then lt
    else if not state1.is_fin_state && state2.is_fin_state
    then gt
    else eq

-- `a` if it is not 0, else the result of the loop
abbrev pub or_loop : Ordering → Option Ordering → Option Ordering
or_loop lt loop = some lt
or_loop gt loop = some gt
or_loop eq loop = loop

-- the loop over the transition pairs of two states
abbrev pub compare_out :
    (Option FsmTrans → Option FsmTrans → Ordering) → FsmState → FsmState → Option Ordering
compare_out cmp state1 state2 = Option.map after_loop (
    pair_loop (λ a b. nonzero (cmp a b)) (walk_rounds state1.out_list state2.out_list)
      state1.out_list state2.out_list)

-- `InitPartitionCompare::compare`
unfoldable pub init_partition_compare : FsmState → FsmState → Option Ordering
unfolding compare_final compare_state_data compare_data_ptr
init_partition_compare state1 state2 = or_loop (compare_final state1 state2) (
    or_loop (cmp_table cmp_ord state1.epsilon_trans state2.epsilon_trans)
      (or_loop (compare_state_data state1 state2) (compare_out compare_data_ptr state1 state2)))

-- `ApproxCompare::compare`
unfoldable pub approx_compare : FsmState → FsmState → Option Ordering
unfolding compare_final compare_state_data compare_full_ptr
approx_compare state1 state2 = or_loop (compare_final state1 state2) (
    or_loop (cmp_table cmp_ord state1.epsilon_trans state2.epsilon_trans)
      (or_loop (compare_state_data state1 state2) (compare_out compare_full_ptr state1 state2)))

-- what a loop that follows a pointer returns, or a read through the null pointer or outside an
-- array, or a failed assertion
pub data Outcome (A : Type 0) : Type 0 where
  returned : A → Outcome A
  bad_read : Outcome A
  assert_failed : Outcome A

module _ (partition : ℕ → ℕ) where
  -- `FsmGraph::comparePartPtr`; `partition` is `alg.partition` of the state at an address
  unfoldable pub compare_part_ptr : Option FsmTrans → Option FsmTrans → Outcome Ordering
  compare_part_ptr none trans2 = returned eq
  compare_part_ptr (some trans1) none = bad_read
  compare_part_ptr (some trans1) (some trans2) =
      if trans1.to_state == 0 && not (trans2.to_state == 0)
      then returned lt
      else if not (trans1.to_state == 0) && trans2.to_state == 0
      then returned gt
      else if not (trans1.to_state == 0)
      then returned (cmp_ord (partition trans1.to_state) (partition trans2.to_state))
      else returned eq

  -- the range cases of `PartitionCompare::compare`
  abbrev pub part_stop : Option FsmTrans → Option FsmTrans → Option (Outcome Ordering)
  part_stop a b = elim (compare_part_ptr a b) [
    | returned r ↦ elim r [ eq ↦ none | lt ↦ some (returned lt) | gt ↦ some (returned gt) ]
    | bad_read ↦ some bad_read
    | assert_failed ↦ some assert_failed
  ]

  -- `PartitionCompare::compare`
  unfoldable pub partition_compare : FsmState → FsmState → Option (Outcome Ordering)
  unfolding compare_part_ptr
  partition_compare state1 state2 =
      Option.map (elim [ none ↦ returned eq | some r ↦ r ])
        (pair_loop part_stop (walk_rounds state1.out_list state2.out_list) state1.out_list
          state2.out_list)
