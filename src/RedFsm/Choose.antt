-- ===== src/RedFsm/Choose.antt =====
-- src/redfsm.cc: the choice of a default transition, by the number of keys or of ranges that it
-- takes.
--
-- `RedTransPtrSet` is a set of addresses in ascending order, and an array over it is a list in the
-- order of the set.
pub mod Sets
pub mod Heaviest
pub mod Largest
use colm.Prelude.{
  ℕ, List, [], ◌∷◌, length, replicate, ltb, ◌==◌, if◌then◌else◌, ◌+◌, ◌%◌, ◌^◌, ◌&&◌, Bool,
}
use colm.Key.{key_mod, span}
use colm.Ranges.{Range}
use colm.Gaps.{alphabet_covered}
use colm.RedFsm.{RedState, move_to_default}

-- `stateTransSet.insert( value )`
unfoldable pub insert_trans : ℕ → List ℕ → List ℕ
insert_trans value [] = value ∷ []
insert_trans value (x ∷ set) =
    let rest = insert_trans value set in
    if ltb value x then value ∷ x ∷ set else if value == x then x ∷ set else x ∷ rest

-- the loop that makes the set
unfoldable pub trans_set : List (Range ℕ) → List ℕ → List ℕ
unfolding insert_trans
trans_set [] set = set
trans_set (rtel ∷ rest) set = trans_set rest (insert_trans rtel.item set)

-- the addition and the test of the two types that are counted in: `unsigned long long`, which
-- wraps, and `int`, a number from 2^31 on being negative, and so not greater than a maximum that
-- starts at 0
abbrev pub add_ull : ℕ → ℕ → ℕ
add_ull n amount = (n + amount) % key_mod

abbrev pub greater_ull : ℕ → ℕ → Bool
greater_ull n max_span = ltb max_span n

abbrev pub add_int : ℕ → ℕ → ℕ
add_int n amount = (n + amount) % 2 ^ 32

abbrev pub greater_int : ℕ → ℕ → Bool
greater_int n max_num = ltb n (2 ^ 31) && ltb max_num n

module _ (plus : ℕ → ℕ → ℕ) (greater : ℕ → ℕ → Bool) where
  -- `span[pos] += amount`, at the position of `value` in the set
  unfoldable pub add_at : ℕ → ℕ → List ℕ → List ℕ → List ℕ
  add_at value amount [] table = table
  add_at value amount (x ∷ set) [] = []
  add_at value amount (x ∷ set) (n ∷ table) =
      let rest = add_at value amount set table in
      if value == x then plus n amount ∷ table else n ∷ rest

  -- the loop that finds the maximum
  unfoldable pub find_max : ℕ → ℕ → List ℕ → List ℕ → ℕ
  find_max max_trans max_span [] table = max_trans
  find_max max_trans max_span (x ∷ set) [] = max_trans
  find_max max_trans max_span (x ∷ set) (n ∷ table) =
      find_max (if greater n max_span then x else max_trans)
        (if greater n max_span then n else max_span) set table

  module _ (weight : Range ℕ → ℕ) where
    -- the loop that adds up what the ranges of each transition weigh
    unfoldable pub add_weights : List (Range ℕ) → List ℕ → List ℕ → List ℕ
    unfolding add_at
    add_weights [] set table = table
    add_weights (rtel ∷ rest) set table =
        add_weights rest set (add_at rtel.item (weight rtel) set table)

    -- the three loops
    unfoldable pub choose_heaviest : List (Range ℕ) → ℕ
    unfolding trans_set add_weights find_max
    choose_heaviest out_range =
        let set : List ℕ = trans_set out_range [] in
        let none' : List ℕ = replicate (length set) 0 in
        find_max 0 0 set (add_weights out_range set none')

-- `RedFsm::chooseDefaultSpan( state )`
unfoldable pub choose_default_span : RedState → ℕ
unfolding choose_heaviest
choose_default_span state =
    choose_heaviest add_ull greater_ull (λ rtel. span rtel.low_key rtel.high_key) state.out_range

-- `RedFsm::chooseDefaultNumRanges( state )`, which counts in an `int`
unfoldable pub choose_default_num_ranges : RedState → ℕ
unfolding choose_heaviest
choose_default_num_ranges state = choose_heaviest add_int greater_int (λ rtel. 1) state.out_range

-- the body of the loop of `RedFsm::chooseDefaultSpan()`
unfoldable pub default_span_state : ℕ → ℕ → RedState → RedState
unfolding choose_default_span
default_span_state min_key max_key state =
    if alphabet_covered min_key max_key state.out_range
    then move_to_default (choose_default_span state) state
    else state
