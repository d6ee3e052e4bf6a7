-- ===== src/Examples/Machine.antt =====
-- The comparisons, the gaps and the reduced machine on small states.
use Prim.Native.Nat.{Ordering}
use Prim.Native.Nat.Ordering.{lt, eq}
use colm.Prelude.{
  ℕ, ◌≡◌, ◌≢◌, ◌↔◌, ◌≤◌, ◌-◌, refl, List, [], ◌∷◌, none, some, true, false, arith, get_elem?,
}
use colm.Key.{increment, decrement, span}
use colm.Ranges.{Range, range, lookup, IsAscending}
use colm.PairIter.Loop.{pair_loop}
use colm.Compare.{cmp_table}
use colm.Fsm.{FsmTrans, FsmState, ActionTableEl, cmp_action_table_el}
use colm.Fsm.Compare.{init_partition_compare, approx_compare}
use colm.Fsm.Equal.{SameInit, SameApprox, init_partition_compare-eq, approx_compare-eq}
use colm.Gaps.{IsWithin, fill_gaps, out_list_covers, alphabet_covered}
use colm.Gaps.Fill.{filled_from, lookup-fill_gaps}
use colm.Gaps.Covers.{out_list_covers_iff, alphabet_covered-out_list_covers}
use colm.RedFsm.{move_trans_to_single, make_flat}
use colm.RedFsm.Single.{in_ranges, KeepsTrans, move_trans_to_single-KeepsTrans}
use colm.RedFsm.Choose.{choose_default_span, choose_default_num_ranges}
use colm.RedFsm.Choose.Largest.{total_weight, num_keys, one_range, choose_default-total_weight}
use colm.RedFsm.Flat.{flat_state, flat_entry, make_flat-entries}

-- states

abbrev trans_to : ℕ → List ActionTableEl → FsmTrans
trans_to to_state actions = record {
  to_state = to_state;
  action_table = actions;
  prior_table = [];
  lm_action_table = [];
}

abbrev plain_state : List (Range FsmTrans) → FsmState
plain_state out_list = record {
  is_fin_state = false;
  out_list = out_list;
  epsilon_trans = [];
  out_prior_table = [];
  to_state_action_table = [];
  from_state_action_table = [];
  out_action_table = [];
  out_cond_set = [];
  err_action_table = [];
  eof_action_table = [];
}

abbrev print_action : ActionTableEl
print_action = record { key = 1; value = 100 }

-- one transition
abbrev whole_state : FsmState
whole_state = plain_state (range 10 20 (trans_to 5 (print_action ∷ [])) ∷ [])

-- the same, broken in two
abbrev broken_state : FsmState
broken_state = plain_state (
    range 10 14 (trans_to 5 (print_action ∷ []))
    ∷ range 15 20 (trans_to 5 (print_action ∷ []))
    ∷ [])

abbrev other_state : FsmState
other_state =
    plain_state (range 10 14 (trans_to 5 (print_action ∷ [])) ∷ range 15 20 (trans_to 6 []) ∷ [])

whole-IsAscending : IsAscending 0 whole_state.out_list
whole-IsAscending = omega arith

broken-IsAscending : IsAscending 0 broken_state.out_list
broken-IsAscending = omega arith

init_partition_compare-eq_example :
    (q : Ordering) × (init_partition_compare whole_state broken_state ≡ some q)
    × ((q ≡ eq) ↔ SameInit whole_state broken_state)
init_partition_compare-eq_example =
    init_partition_compare-eq whole_state broken_state whole-IsAscending broken-IsAscending

approx_compare-eq_example :
    (q : Ordering) × (approx_compare whole_state broken_state ≡ some q)
    × ((q ≡ eq) ↔ SameApprox whole_state broken_state)
approx_compare-eq_example =
    approx_compare-eq whole_state broken_state whole-IsAscending broken-IsAscending

-- how the transitions are broken does not matter, and where they go does
approx_compare_same : approx_compare whole_state broken_state ≡ some eq
unfolding approx_compare cmp_table pair_loop cmp_action_table_el increment decrement
approx_compare_same = refl

approx_compare_other : approx_compare whole_state other_state ≡ some lt
unfolding approx_compare cmp_table pair_loop cmp_action_table_el increment decrement
approx_compare_other = refl

-- gaps, in the alphabet from 0 to 255

abbrev some_ranges : List (Range ℕ)
some_ranges = range 10 20 1 ∷ range 21 30 2 ∷ range 40 255 3 ∷ []

some_ranges-IsAscending : IsAscending 0 some_ranges
some_ranges-IsAscending = omega arith

some_ranges-IsWithin : IsWithin 255 some_ranges
some_ranges-IsWithin = omega arith

fill_gaps_ranges :
    fill_gaps 0 255 0 some_ranges
    ≡ range 0 9 0 ∷ range 10 20 1 ∷ range 21 30 2 ∷ range 31 39 0 ∷ range 40 255 3 ∷ []
unfolding fill_gaps increment decrement
fill_gaps_ranges = refl

lookup-fill_gaps_example :
    lookup 35 (fill_gaps 0 255 0 some_ranges)
    ≡ filled_from 255 0 (omega arith) 0 35 (lookup 35 some_ranges)
lookup-fill_gaps_example =
    lookup-fill_gaps 255 0 (omega arith) 0 (omega arith) 35 some_ranges some_ranges-IsAscending
      some_ranges-IsWithin

out_list_covers_iff_example :
    (out_list_covers 0 255 some_ranges ≡ true)
    ↔ ((k : ℕ) → 0 ≤ k → k ≤ 255 → lookup k some_ranges ≢ none)
out_list_covers_iff_example =
    out_list_covers_iff 255 (omega arith) 0 (omega arith) some_ranges some_ranges-IsAscending
      some_ranges-IsWithin

alphabet_covered-out_list_covers_example :
    alphabet_covered 0 255 some_ranges ≡ out_list_covers 0 255 some_ranges
alphabet_covered-out_list_covers_example =
    alphabet_covered-out_list_covers 255 (omega arith) 0 (omega arith) some_ranges
      some_ranges-IsAscending

-- the reduced machine

abbrev red_ranges : List (Range ℕ)
red_ranges = range 10 20 1 ∷ range 21 21 2 ∷ range 22 30 1 ∷ range 40 40 3 ∷ []

red_ranges-IsAscending : IsAscending 0 red_ranges
red_ranges-IsAscending = omega arith

-- the range of 1 grows over the single key 21
move_trans_to_single_ranges :
    move_trans_to_single (in_ranges 9 red_ranges)
    ≡ some (record {
      out_single = range 21 21 2 ∷ range 40 40 3 ∷ [];
      out_range = range 10 30 1 ∷ [];
      def_trans = 9;
    })
unfolding move_trans_to_single span increment decrement
move_trans_to_single_ranges = refl

move_trans_to_single-KeepsTrans_example :
    KeepsTrans red_ranges 9 (move_trans_to_single (in_ranges 9 red_ranges))
move_trans_to_single-KeepsTrans_example =
    move_trans_to_single-KeepsTrans red_ranges 9 red_ranges-IsAscending

-- 1 takes the most keys
choose_default_span_ranges : choose_default_span (in_ranges 0 red_ranges) ≡ 1
unfolding choose_default_span span
choose_default_span_ranges = refl

choose_default-total_weight_example :
    (1 ≤ total_weight num_keys 0 3 red_ranges)
    × (total_weight num_keys 0 3 red_ranges
        ≤ total_weight num_keys 0 (choose_default_span (in_ranges 0 red_ranges)) red_ranges)
    × (1 ≤ total_weight one_range 0 3 red_ranges)
    × (total_weight one_range 0 3 red_ranges
        ≤ total_weight one_range 0 (choose_default_num_ranges (in_ranges 0 red_ranges)) red_ranges)
choose_default-total_weight_example =
    choose_default-total_weight 40 3 0 (in_ranges 0 red_ranges) red_ranges-IsAscending (omega arith)
      (omega arith) refl

abbrev flat_rest : List (Range ℕ)
flat_rest = range 13 13 0 ∷ range 15 16 6 ∷ []

make_flat_ranges :
    make_flat (flat_state 9 (range 10 11 5) flat_rest [])
    ≡ record { low_key = 10; high_key = 16; trans_list = 5 ∷ 5 ∷ 9 ∷ 9 ∷ 9 ∷ 6 ∷ 6 ∷ [] }
unfolding make_flat span
make_flat_ranges = refl

make_flat-entries_example :
    ((make_flat (flat_state 9 (range 10 11 5) flat_rest [])).low_key ≡ 10)
    × ((make_flat (flat_state 9 (range 10 11 5) flat_rest [])).high_key ≡ 16)
    × (get_elem? (make_flat (flat_state 9 (range 10 11 5) flat_rest [])).trans_list (12 - 10)
        ≡ some (flat_entry 9 (lookup 12 (range 10 11 5 ∷ flat_rest))))
make_flat-entries_example =
    make_flat-entries 9 (range 10 11 5) flat_rest [] 12 0 (omega arith) (omega arith) (omega arith)
      (omega arith)
