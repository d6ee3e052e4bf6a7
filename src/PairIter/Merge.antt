-- ===== src/PairIter/Merge.antt =====
-- A reference for the walk of src/fsmgraph.h's `PairIter`: two lists of ranges are mixed by
-- recursion on the lists, with no labels, no saved bottoms and no wrapping keys.
use mathlib.Core.Option
use colm.Prelude.{ℕ, zero, suc, ◌+◌, ◌-◌, List, [], ◌∷◌, Option, none, some, ltb, if◌then◌else◌}
use colm.Ranges.{Range, range}
use colm.PairIter.Walk.{Segment, segment}

abbrev pub cons_some {ℓ} : {A : Type ℓ} → A → Option (List A) → Option (List A)
cons_some a = Option.map (λ rest. a ∷ rest)

module _ {ℓ κ} {A : Type ℓ} {B : Type κ} (dup : A → A) where
  -- the segment of a broken range of list 1 carries the caller's copy
  unfoldable pub merge : ℕ → List (Range A) → List (Range B) → Option (List (Segment A B))
  merge zero l1 l2 = none
  merge (suc f) [] [] = some []
  merge (suc f) [] (s ∷ l2) =
      cons_some (segment s.low_key s.high_key none (some s.item)) (merge f [] l2)
  merge (suc f) (r ∷ l1) [] =
      cons_some (segment r.low_key r.high_key (some r.item) none) (merge f l1 [])
  merge (suc f) (r ∷ l1) (s ∷ l2) =
      let before1 =
        cons_some (segment r.low_key r.high_key (some r.item) none) (merge f l1 (s ∷ l2)) in
      let before2 =
        cons_some (segment s.low_key s.high_key none (some s.item)) (merge f (r ∷ l1) l2) in
      let front1 =
        cons_some (segment r.low_key (s.low_key - 1) (some (dup r.item)) none)
          (merge f (range s.low_key r.high_key r.item ∷ l1) (s ∷ l2)) in
      let front2 =
        cons_some (segment s.low_key (r.low_key - 1) none (some s.item))
          (merge f (r ∷ l1) (range r.low_key s.high_key s.item ∷ l2)) in
      let back2 =
        cons_some (segment r.low_key r.high_key (some r.item) (some s.item))
          (merge f l1 (range (r.high_key + 1) s.high_key s.item ∷ l2)) in
      let back1 =
        cons_some (segment r.low_key s.high_key (some (dup r.item)) (some s.item))
          (merge f (range (s.high_key + 1) r.high_key r.item ∷ l1) l2) in
      let exact =
        cons_some (segment r.low_key r.high_key (some r.item) (some s.item)) (merge f l1 l2) in
      if ltb r.high_key s.low_key
      then before1
      else if ltb s.high_key r.low_key
      then before2
      else if ltb r.low_key s.low_key
      then front1
      else if ltb s.low_key r.low_key
      then front2
      else if ltb r.high_key s.high_key
      then back2
      else if ltb s.high_key r.high_key
      then back1
      else exact
