-- ===== src/Examples/Minimize.antt =====
-- Marking, partitions and compression on small states.
use Prim.Native.Nat.{Ordering}
use Prim.Native.Nat.Ordering.{eq}
use mathlib.Core.Option
use colm.Prelude.{
  ℕ, ◌≡◌, ◌≢◌, ◌↔◌, ◌⊎◌, refl, ap, List, [], ◌∷◌, none, some, Bool, true, false, arith, replicate,
}
use colm.Key.{decrement}
use colm.Ranges.{Range, range, lookup, IsAscending}
use colm.Compare.{cmp_table}
use colm.Fsm.{FsmTrans, FsmState}
use colm.Fsm.Compare.{returned, partition_compare}
use colm.Fsm.Partition.{SameKeys, SamePart, partition_compare-SamePart}
use colm.Compress.{compress_transitions}
use colm.Compress.Keeps.{action_on, IsCompressed, compress_transitions_lem}
use colm.MarkIndex.{MarkIndex, is_pair_marked}
use colm.Mark.{should_mark}
use colm.Mark.Targets.{HasTargets, MarkedTargets, should_mark-MarkedTargets}

abbrev plain_trans : ℕ → FsmTrans
plain_trans to_state = record {
  to_state = to_state;
  action_table = [];
  prior_table = [];
  lm_action_table = [];
}

abbrev state_with : List (Range FsmTrans) → FsmState
state_with out_list = record {
  is_fin_state = false;
  out_list = out_list;
  epsilon_trans = [];
  out_prior_table = [];
  to_state_action_table = [];
  from_state_action_table = [];
  out_action_table = [];
  out_cond_set = [];
  err_action_table = [];
  eof_action_table = [];
}

abbrev three_ranges : List (Range FsmTrans)
three_ranges =
    range 10 20 (plain_trans 5) ∷ range 21 30 (plain_trans 5) ∷ range 32 40 (plain_trans 5) ∷ []

three_ranges-IsAscending : IsAscending 0 three_ranges
three_ranges-IsAscending = omega arith

compress_three :
    compress_transitions three_ranges
    ≡ range 10 30 (plain_trans 5) ∷ range 32 40 (plain_trans 5) ∷ []
unfolding compress_transitions decrement cmp_table
compress_three = refl

compress_transitions_lem_example :
    (action_on 21 (compress_transitions three_ranges) ≡ action_on 21 three_ranges)
    × IsAscending 0 (compress_transitions three_ranges)
    × IsCompressed (compress_transitions three_ranges)
compress_transitions_lem_example =
    compress_transitions_lem 21 0 three_ranges three_ranges-IsAscending

-- two states that go to 5 and to 6 on the keys from 10 to 20

abbrev to_five : FsmState
to_five = state_with (range 10 20 (plain_trans 5) ∷ [])

abbrev to_six : FsmState
to_six = state_with (range 10 15 (plain_trans 6) ∷ range 16 20 (plain_trans 6) ∷ [])

to_five-IsAscending : IsAscending 0 to_five.out_list
to_five-IsAscending = omega arith

to_six-IsAscending : IsAscending 0 to_six.out_list
to_six-IsAscending = omega arith

same_keys : SameKeys to_five to_six
same_keys k = (λ h. ground arith, λ h. ground arith)

abbrev one_partition : ℕ → ℕ
one_partition state = 1

partition_compare-SamePart_example :
    (q : Ordering) × (partition_compare one_partition to_five to_six ≡ some (returned q))
    × ((q ≡ eq)
        ↔ ((k : ℕ) → SamePart one_partition (lookup k to_five.out_list) (lookup k to_six.out_list)))
partition_compare-SamePart_example =
    partition_compare-SamePart one_partition to_five to_six to_five-IsAscending to_six-IsAscending
      same_keys

-- marks

abbrev no_marks : List Bool
no_marks = replicate 9 false

abbrev three_states : MarkIndex
three_states = record { num_states = 3; array = no_marks }

-- one state, at every address
abbrev one_mark : MarkIndex
one_mark = record { num_states = 1; array = true ∷ [] }

abbrev first_num : ℕ → ℕ
first_num state = 0

to_five-HasTargets : HasTargets to_five
to_five-HasTargets k t h e =
    let g : Option.map (λ x. x.to_state) (lookup k to_five.out_list) ≡ some t.to_state =
      ap (Option.map (λ x. x.to_state)) h in
    ground arith

to_six-HasTargets : HasTargets to_six
to_six-HasTargets k t h e =
    let g : Option.map (λ x. x.to_state) (lookup k to_six.out_list) ≡ some t.to_state =
      ap (Option.map (λ x. x.to_state)) h in
    ground arith

one_mark_room : (i j : ℕ) → is_pair_marked one_mark (first_num i) (first_num j) ≢ none
unfolding is_pair_marked
one_mark_room i j h = cc

should_mark-MarkedTargets_example :
    ((should_mark first_num one_mark to_five to_six ≡ some (returned false))
      × ((k : ℕ)
          → ¬ MarkedTargets first_num one_mark
              (lookup k to_five.out_list)
              (lookup k to_six.out_list)))
    ⊎ ((should_mark first_num one_mark to_five to_six ≡ some (returned true))
        × ((k : ℕ) × MarkedTargets first_num one_mark
              (lookup k to_five.out_list)
              (lookup k to_six.out_list)))
should_mark-MarkedTargets_example =
    should_mark-MarkedTargets first_num one_mark to_five to_six to_five-IsAscending
      to_six-IsAscending same_keys to_five-HasTargets to_six-HasTargets one_mark_room
