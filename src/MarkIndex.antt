-- ===== src/MarkIndex.antt =====
-- src/fsmstate.cc `MarkIndex`: which pairs of states are known to differ, in an array of states^2.
--
-- Reads and writes outside the array are `none`, and so is an `int` that overflows. States are
-- numbered from 0, as `setStateNumbers( 0 )` does.
pub mod Pairs
pub mod Count
use colm.Prelude.{
  ℕ, ◌+◌, ◌*◌, ◌^◌, List, Bool, true, false, Option, none, some, leb, ltb, if◌then◌else◌, length,
  get_elem?, set, replicate,
}

pub record MarkIndex : Type 0 where
  pub num_states : ℕ
  pub array : List Bool

-- what an expression of type `int` gives that is the sum of terms no larger
abbrev pub int_value : ℕ → Option ℕ
int_value n = if ltb n (2 ^ 31) then some n else none

-- the constructor
unfoldable pub mark_index : ℕ → Option MarkIndex
mark_index states = elim (int_value (states * states)) [
  | none ↦ none
  | some total ↦ some (record { num_states = states; array = replicate total false })
]

-- the position of a pair, whose order does not matter
unfoldable pub pair_pos : ℕ → ℕ → ℕ → Option ℕ
pair_pos num_states state1 state2 =
    if leb state2 state1
    then int_value (state1 * num_states + state2)
    else int_value (state2 * num_states + state1)

-- `array[pos] = true`
abbrev pub write_at : MarkIndex → Option ℕ → Option MarkIndex
write_at marks none = none
write_at marks (some pos) =
    if ltb pos (length marks.array)
    then some (record marks { array = set marks.array pos true })
    else none

-- `MarkIndex::markPair`
unfoldable pub mark_pair : ℕ → ℕ → MarkIndex → Option MarkIndex
unfolding pair_pos
mark_pair state1 state2 marks = write_at marks (pair_pos marks.num_states state1 state2)

-- `array[pos]`
abbrev pub read_at : List Bool → Option ℕ → Option Bool
read_at array none = none
read_at array (some pos) = get_elem? array pos

-- `MarkIndex::isPairMarked`
unfoldable pub is_pair_marked : MarkIndex → ℕ → ℕ → Option Bool
unfolding pair_pos
is_pair_marked marks state1 state2 = read_at marks.array (pair_pos marks.num_states state1 state2)
