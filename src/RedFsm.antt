-- ===== src/RedFsm.antt =====
-- src/redfsm.cc, src/redfsm.h: how the reduced machine stores the transitions out of a state:
-- single characters apart from ranges, a default transition, and the flat table.
--
-- A `RedTransEl` is a range with its `RedTrans`, a pointer, kept as its address; 0 is null.
pub mod Single
pub mod Transfer
pub mod Default
pub mod Flat
pub mod Choose
use mathlib.Core.Option
use colm.Prelude.{
  ℕ, zero, suc, List, [], ◌∷◌, ◌++◌, Option, none, some, Bool, true, false, not, ltb, ◌==◌,
  if◌then◌else◌, length, set, replicate, map, ◌+◌, ◌-◌,
}
use colm.Key.{zero_key, increment, decrement, span}
use colm.Ranges.{Range, range}

-- the loop of `RedFsm::canExtend`, from the element behind the one that ends at `prev_high`
unfoldable pub extends_over : ℕ → ℕ → List (Range ℕ) → Bool
extends_over extend_trans prev_high [] = false
extends_over extend_trans prev_high (next ∷ rest) =
    let further = extends_over extend_trans next.high_key rest in
    if not (prev_high == decrement next.low_key)
    then false
    else if extend_trans == next.item
    then true
    else if ltb 1 (span next.low_key next.high_key)
    then false
    else further

-- `RedFsm::canExtend`, at the element `el` with `rest` behind it
unfoldable pub can_extend : Range ℕ → List (Range ℕ) → Bool
unfolding extends_over
can_extend el rest = extends_over el.item el.high_key rest

-- the inner `while` of `moveTransToSingle`: the elements before the next one with the value of
-- `range[rpos]` go to the singles; `none` is a read past the end of the ranges
unfoldable pub transfer : ℕ → List (Range ℕ) → Option (List (Range ℕ) × Range ℕ × List (Range ℕ))
transfer value [] = none
transfer value (next ∷ rest) =
    let further = transfer value rest in
    if value == next.item then some ([], next, rest) else elim further [
      | none ↦ none
      | some (moved, stop, behind) ↦ some (next ∷ moved, stop, behind)
    ]

-- the singles and the ranges that a round and the rounds behind it leave
abbrev pub Split : Type 0
Split = List (Range ℕ) × List (Range ℕ)

abbrev pub add_singles : List (Range ℕ) → Option Split → Option Split
add_singles moved = Option.map (λ s. (moved ++ s.0, s.1))

abbrev pub add_range : Range ℕ → Option Split → Option Split
add_range el = Option.map (λ s. (s.0, el ∷ s.1))

-- the loop of `moveTransToSingle` over `range[rpos]` and what stands behind it: the elements put
-- on the singles, and the ranges from `rpos` on. `none` is a loop that has not ended in so many
-- rounds, or a read past the end.
unfoldable pub move_rest : ℕ → List (Range ℕ) → Option Split
unfolding can_extend transfer
move_rest zero ranges = none
move_rest (suc f) [] = some ([], [])
move_rest (suc f) (el ∷ rest) =
    let extended : Option Split = elim (transfer el.item rest) [
      | none ↦ none
      | some (moved, stop, behind) ↦
          add_singles moved (move_rest f (range el.low_key stop.high_key el.item ∷ behind))
    ] in
    let to_single = add_singles (el ∷ []) (move_rest f rest) in
    let keep = add_range el (move_rest f rest) in
    if can_extend el rest
    then extended
    else if span el.low_key el.high_key == 1
    then to_single
    else keep

-- `RedState`, as far as these passes read and write it
pub record RedState : Type 0 where
  pub out_single : List (Range ℕ)
  pub out_range : List (Range ℕ)
  pub def_trans : ℕ

-- `RedFsm::moveTransToSingle`: each round removes a range or moves on, so their number is enough
unfoldable pub move_trans_to_single : RedState → Option RedState
unfolding move_rest
move_trans_to_single state = elim (move_rest (suc (length state.out_range)) state.out_range) [
  | none ↦ none
  | some (single, ranges) ↦
      some (record state { out_single = state.out_single ++ single; out_range = ranges })
]

-- the loop of `moveToDefault` over the ranges
unfoldable pub without : ℕ → List (Range ℕ) → List (Range ℕ)
without def_trans [] = []
without def_trans (rtel ∷ rest) =
    let others = without def_trans rest in
    if not (rtel.item == def_trans) then rtel ∷ others else others

-- `RedFsm::moveToDefault`
unfoldable pub move_to_default : ℕ → RedState → RedState
unfolding without
move_to_default def_trans state = record state {
  out_range = without def_trans state.out_range;
  def_trans = def_trans;
}

-- what `makeFlat` stores in a state: `lowKey`, `highKey` and `transList`, the table by key, where
-- the empty list is also the null `transList`
pub record FlatTable : Type 0 where
  pub low_key : ℕ
  pub high_key : ℕ
  pub trans_list : List ℕ

-- `for ( pos = 0; pos < trSpan; pos++ ) st->transList[base+pos] = trans->value;`
unfoldable pub write_run : ℕ → ℕ → ℕ → List ℕ → List ℕ
write_run zero at value table = table
write_run (suc n) at value table = write_run n (at + 1) value (set table at value)

-- the loop over the ranges
unfoldable pub write_ranges : ℕ → List (Range ℕ) → List ℕ → List ℕ
unfolding write_run
write_ranges low_key [] table = table
write_ranges low_key (trans ∷ rest) table = write_ranges low_key rest (
    write_run (span trans.low_key trans.high_key) (span low_key trans.low_key - 1) trans.item table)

-- `outRange[outRange.length()-1].highKey`, of a list that begins with `r`
abbrev pub last_high : Range ℕ → List (Range ℕ) → ℕ
last_high r [] = r.high_key
last_high r (s ∷ rs) = last_high s rs

-- fill in a gap with the default transition
abbrev pub fill_default : ℕ → ℕ → ℕ
fill_default def_trans entry = if entry == 0 then def_trans else entry

-- `RedFsm::makeFlat`, for one state
unfoldable pub make_flat : RedState → FlatTable
unfolding write_ranges
make_flat state = elim state.out_range [
  | [] ↦ record { low_key = zero_key; high_key = zero_key; trans_list = [] }
  | r ∷ rs ↦
      let high = last_high r rs in
      record {
        low_key = r.low_key;
        high_key = high;
        trans_list =
            map (fill_default state.def_trans)
              (write_ranges r.low_key (r ∷ rs) (replicate (span r.low_key high) 0));
      }
]
