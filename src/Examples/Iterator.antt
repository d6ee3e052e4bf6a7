-- ===== src/Examples/Iterator.antt =====
-- `PairIter` on small lists.
use colm.Prelude.{ℕ, ◌≡◌, refl, List, [], ◌∷◌, Option, none, some, arith}
use colm.Key.{increment, decrement}
use colm.Ranges.{Range, range, lookup, IsAscending}
use colm.PairIter.Walk.{segment, walk}
use colm.PairIter.Cover.{Mixes}
use colm.PairIter.Partition.{walk_rounds, walk-Mixes}
use colm.PairIter.Loop.{First, pair_loop, pair_loop-First}

abbrev left_list : List (Range ℕ)
left_list = range 10 20 1 ∷ range 30 40 2 ∷ []

abbrev right_list : List (Range ℕ)
right_list = range 15 35 7 ∷ range 40 50 8 ∷ []

left-IsAscending : IsAscending 0 left_list
left-IsAscending = omega arith

right-IsAscending : IsAscending 0 right_list
right-IsAscending = omega arith

-- 15 and 35 lie within ranges, which are broken there
walk_lists :
    walk (λ a. a) (walk_rounds left_list right_list) left_list right_list
    ≡ some (
        segment 10 14 (some 1) none
        ∷ segment 15 20 (some 1) (some 7)
        ∷ segment 21 29 none (some 7)
        ∷ segment 30 35 (some 2) (some 7)
        ∷ segment 36 39 (some 2) none
        ∷ segment 40 40 (some 2) (some 8)
        ∷ segment 41 50 none (some 8)
        ∷ [])
unfolding walk increment decrement
walk_lists = refl

walk-Mixes_example :
    Mixes
      (λ a. a)
      0
      left_list
      right_list
      (walk (λ a. a) (walk_rounds left_list right_list) left_list right_list)
walk-Mixes_example =
    walk-Mixes (λ a. a) (λ a. a) (λ a. refl) left_list right_list left-IsAscending right-IsAscending

-- the first key on which both lists have something
abbrev both : Option ℕ → Option ℕ → Option ℕ
both (some a) (some b) = some b
both _ _ = none

pair_loop-First_example :
    (r : Option ℕ) × (pair_loop both (walk_rounds left_list right_list) left_list right_list
      ≡ some r)
    × First (λ k. both (lookup k left_list) (lookup k right_list)) r
pair_loop-First_example =
    pair_loop-First both refl left_list right_list left-IsAscending right-IsAscending

pair_loop_lists :
    pair_loop both (walk_rounds left_list right_list) left_list right_list ≡ some (some 7)
unfolding pair_loop increment decrement
pair_loop_lists = refl
