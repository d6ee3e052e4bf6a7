-- ===== src/Compress.antt =====
-- src/fsmmin.cc `FsmGraph::compressTransitions`: neighbouring transitions of a state that go to one
-- state with the same actions become one. The function is modelled for one state; the in lists from
-- which the transitions are detached are not.
pub mod Keeps
use Prim.Native.Nat.{Ordering}
use Prim.Native.Nat.Ordering.{eq}
use colm.Prelude.{Bool, true, false, List, [], ◌∷◌, ◌&&◌, ◌==◌, if◌then◌else◌}
use colm.Key.{decrement}
use colm.Ranges.{Range, range}
use colm.Compare.{cmp_table}
use colm.Fsm.{FsmTrans, cmp_action_table_el}

-- `compare( … ) == 0`
abbrev pub is_equal : Ordering → Bool
is_equal o = elim o [ eq ↦ true | _ ↦ false ]

-- the test of the loop
unfoldable pub can_merge : Range FsmTrans → Range FsmTrans → Bool
can_merge trans next =
    trans.high_key == decrement next.low_key
    && (trans.item.to_state == next.item.to_state
        && is_equal (cmp_table cmp_action_table_el trans.item.action_table next.item.action_table))

-- the loop, at `trans` with the list behind it
unfoldable pub compress_from : Range FsmTrans → List (Range FsmTrans) → List (Range FsmTrans)
unfolding can_merge
compress_from trans [] = trans ∷ []
compress_from trans (next ∷ rest) =
    let merged = compress_from (range trans.low_key next.high_key trans.item) rest in
    let others = compress_from next rest in if can_merge trans next then merged else trans ∷ others

-- `FsmGraph::compressTransitions`, for one state; a list of one element is left as it is
unfoldable pub compress_transitions : List (Range FsmTrans) → List (Range FsmTrans)
unfolding compress_from
compress_transitions [] = []
compress_transitions (trans ∷ rest) = compress_from trans rest
