-- ===== src/PairIter.antt =====
-- src/fsmgraph.h: `NextTrans` and `PairIter`, the iterator that walks the ranges of two states
-- side by side and breaks them where they overlap in part.
--
-- The iterator is a coroutine: `findNext` jumps to the label kept in `itState`, runs to the next
-- `CO_RETURN2` and returns. Every round of its loops ends at such a return, so `find_next` needs no
-- recursion: `scan` is the loop entered at its top, and each label of `find_next` runs what stands
-- below the label and enters the loop again.
--
-- A pointer to a list element is what the element carries (`A`, `B`) and the list behind it; the
-- null pointer is `none`. Keys that the constructor leaves without a value are 0.
pub mod Walk
pub mod Merge
pub mod Refines
pub mod Cover
pub mod Partition
pub mod Loop
pub mod Decide
use colm.Prelude.{ℕ, List, [], ◌∷◌, Option, none, some, ltb, if◌then◌else◌}
use colm.Key.{increment, decrement}
use colm.Ranges.{Range}

-- `template <class ListItem> struct NextTrans`
pub record NextTrans {ℓ} (A : Type ℓ) : Type ℓ where
  pub low_key : ℕ
  pub high_key : ℕ
  pub trans : Option A
  pub next : List (Range A)

module _ {ℓ} {A : Type ℓ} where
  -- `NextTrans::set`, with its call of `load`
  abbrev pub set_trans : List (Range A) → NextTrans A → NextTrans A
  set_trans [] t = record t { trans = none; next = [] }
  set_trans (r ∷ rs) t = record {
    low_key = r.low_key;
    high_key = r.high_key;
    trans = some r.item;
    next = rs;
  }

  -- `NextTrans::increment`
  abbrev pub increment_trans : NextTrans A → NextTrans A
  increment_trans t = set_trans t.next t

  -- the members of a `NextTrans` before `set`
  abbrev pub unset_trans : NextTrans A
  unset_trans = record { low_key = 0; high_key = 0; trans = none; next = [] }

-- `enum PairIterUserState`
pub data UserState : Type 0 where
  range_in_s1 range_in_s2 range_overlap break_s1 break_s2 : UserState

-- `PairIter::IterState`
pub data IterState : Type 0 where
  begin consume_s1_range consume_s2_range only_in_s1_range only_in_s2_range : IterState
  s1_sticks_out s1_sticks_out_break s2_sticks_out s2_sticks_out_break : IterState
  s1_drags_behind s1_drags_behind_break s2_drags_behind s2_drags_behind_break : IterState
  exact_overlap finished : IterState

pub record PairIter {ℓ κ} (A : Type ℓ) (B : Type κ) : Type (ℓ ⊔ κ) where
  pub list1 : List (Range A)
  pub list2 : List (Range B)
  pub it_state : IterState
  pub user_state : UserState
  pub s1_tel : NextTrans A
  pub s2_tel : NextTrans B
  pub bottom_low : ℕ
  pub bottom_high : ℕ
  pub bottom_trans1 : Option A
  pub bottom_trans2 : Option B

module _ {ℓ κ} {A : Type ℓ} {B : Type κ} where
  -- the macro CO_RETURN2
  abbrev pub co_return : IterState → UserState → PairIter A B → PairIter A B
  co_return label u it = record it { it_state = label; user_state = u }

  -- range from state1 sticks out front
  unfoldable pub break_front1 : PairIter A B → PairIter A B
  break_front1 it = co_return s1_sticks_out_break break_s1 (record it {
    bottom_low = it.s2_tel.low_key;
    bottom_high = it.s1_tel.high_key;
    s1_tel = record (it.s1_tel) { high_key = decrement it.s2_tel.low_key };
    bottom_trans1 = it.s1_tel.trans;
  })

  -- range from state2 sticks out front
  unfoldable pub break_front2 : PairIter A B → PairIter A B
  break_front2 it = co_return s2_sticks_out_break break_s2 (record it {
    bottom_low = it.s1_tel.low_key;
    bottom_high = it.s2_tel.high_key;
    s2_tel = record (it.s2_tel) { high_key = decrement it.s1_tel.low_key };
    bottom_trans2 = it.s2_tel.trans;
  })

  -- range from state2 goes longer than the range from state1
  unfoldable pub break_back2 : PairIter A B → PairIter A B
  break_back2 it = co_return s2_drags_behind_break break_s2 (record it {
    bottom_low = increment it.s1_tel.high_key;
    bottom_high = it.s2_tel.high_key;
    s2_tel = record (it.s2_tel) { high_key = it.s1_tel.high_key };
    bottom_trans2 = it.s2_tel.trans;
  })

  -- range from state1 goes longer than the range from state2
  unfoldable pub break_back1 : PairIter A B → PairIter A B
  break_back1 it = co_return s1_drags_behind_break break_s1 (record it {
    bottom_low = increment it.s2_tel.high_key;
    bottom_high = it.s1_tel.high_key;
    s1_tel = record (it.s1_tel) { high_key = it.s2_tel.high_key };
    bottom_trans1 = it.s1_tel.trans;
  })

  -- advance over the part of range 1 that was broken off
  abbrev pub restore1 : PairIter A B → NextTrans A
  restore1 it = record (it.s1_tel) {
    low_key = it.bottom_low;
    high_key = it.bottom_high;
    trans = it.bottom_trans1;
  }

  -- advance over the part of range 2 that was broken off
  abbrev pub restore2 : PairIter A B → NextTrans B
  restore2 it = record (it.s2_tel) {
    low_key = it.bottom_low;
    high_key = it.bottom_high;
    trans = it.bottom_trans2;
  }

  -- both transition elements are good
  unfoldable pub scan_both : PairIter A B → PairIter A B
  unfolding break_front1 break_front2 break_back1 break_back2
  scan_both it =
      if ltb it.s1_tel.high_key it.s2_tel.low_key
      then co_return only_in_s1_range range_in_s1 it
      else if ltb it.s2_tel.high_key it.s1_tel.low_key
      then co_return only_in_s2_range range_in_s2 it
      else if ltb it.s1_tel.low_key it.s2_tel.low_key
      then break_front1 it
      else if ltb it.s2_tel.low_key it.s1_tel.low_key
      then break_front2 it
      else if ltb it.s1_tel.high_key it.s2_tel.high_key
      then break_back2 it
      else if ltb it.s2_tel.high_key it.s1_tel.high_key
      then break_back1 it
      else co_return exact_overlap range_overlap it

  -- the `break` of the outer loop, to `CO_RETURN( End )`
  abbrev pub finish : PairIter A B → PairIter A B
  finish it = record it { it_state = finished }

  -- the loop over the rest of state1's ranges
  unfoldable pub scan_rest1 : PairIter A B → PairIter A B
  scan_rest1 it = elim it.s1_tel.trans [
    | none ↦ finish it
    | some _ ↦ co_return consume_s1_range range_in_s1 it
  ]

  -- the loop over the rest of state2's ranges
  unfoldable pub scan_rest2 : PairIter A B → PairIter A B
  scan_rest2 it = elim it.s2_tel.trans [
    | none ↦ finish it
    | some _ ↦ co_return consume_s2_range range_in_s2 it
  ]

  -- `while ( true )`: concurrently scan both out ranges
  unfoldable pub scan : PairIter A B → PairIter A B
  unfolding scan_both scan_rest1 scan_rest2
  scan it = elim it.s1_tel.trans [
    | none ↦ scan_rest2 it
    | some _ ↦ elim it.s2_tel.trans [ none ↦ scan_rest1 it | some _ ↦ scan_both it ]
  ]

  -- `PairIter::findNext`
  unfoldable pub find_next : PairIter A B → PairIter A B
  unfolding scan
  find_next it = elim it.it_state [
    | begin ↦
        scan (record it {
          s1_tel = set_trans it.list1 it.s1_tel;
          s2_tel = set_trans it.list2 it.s2_tel;
        })
    | consume_s1_range ↦ scan_rest1 (record it { s1_tel = increment_trans it.s1_tel })
    | consume_s2_range ↦ scan_rest2 (record it { s2_tel = increment_trans it.s2_tel })
    | only_in_s1_range ↦ scan (record it { s1_tel = increment_trans it.s1_tel })
    | only_in_s2_range ↦ scan (record it { s2_tel = increment_trans it.s2_tel })
    | s1_sticks_out_break ↦ co_return s1_sticks_out range_in_s1 it
    | s1_sticks_out ↦ scan (record it { s1_tel = restore1 it })
    | s2_sticks_out_break ↦ co_return s2_sticks_out range_in_s2 it
    | s2_sticks_out ↦ scan (record it { s2_tel = restore2 it })
    | s2_drags_behind_break ↦ co_return s2_drags_behind range_overlap it
    | s2_drags_behind ↦
        scan (record it { s2_tel = restore2 it; s1_tel = increment_trans it.s1_tel })
    | s1_drags_behind_break ↦ co_return s1_drags_behind range_overlap it
    | s1_drags_behind ↦
        scan (record it { s1_tel = restore1 it; s2_tel = increment_trans it.s2_tel })
    | exact_overlap ↦
        scan (record it { s1_tel = increment_trans it.s1_tel; s2_tel = increment_trans it.s2_tel })
    | finished ↦ it
  ]

  -- the members at the start of the constructor
  abbrev pub start : List (Range A) → List (Range B) → PairIter A B
  start l1 l2 = record {
    list1 = l1;
    list2 = l2;
    it_state = begin;
    user_state = range_in_s1;
    s1_tel = unset_trans;
    s2_tel = unset_trans;
    bottom_low = 0;
    bottom_high = 0;
    bottom_trans1 = none;
    bottom_trans2 = none;
  }

  -- the constructor, which advances to the first item
  unfoldable pub pair_iter : List (Range A) → List (Range B) → PairIter A B
  unfolding find_next
  pair_iter l1 l2 = find_next (start l1 l2)
