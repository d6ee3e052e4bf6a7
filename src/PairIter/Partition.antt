-- ===== src/PairIter/Partition.antt =====
-- The guarantee that the users of src/fsmgraph.h's `PairIter` rely on.
use colm.Prelude.{ℕ, suc, ◌+◌, ◌*◌, ◌≡◌, List, arith, length}
use colm.Ranges.{Range, IsAscending}
use colm.PairIter.Walk.{walk}
use colm.PairIter.Refines.{double, walk-merge}
use colm.PairIter.Cover.{Mixes, uneven-le, merge-Mixes}

-- at most four calls of `findNext` for a range, and five more
abbrev pub walk_rounds {ℓ κ} : {A : Type ℓ} {B : Type κ} → List (Range A) → List (Range B) → ℕ
walk_rounds l1 l2 = suc (double (suc (suc (2 * (length l1 + length l2)))))

module _ {A B P : Type 0} (dup : A → A) (p : A → P) (same : (a : A) → p (dup a) ≡ p a) where
  -- For ascending lists the loop over the iterator ends within `walk_rounds` rounds; its segments
  -- ascend, so no two share a key; and on every key `k` they show exactly what the two lists hold
  -- on `k`, where `p` is what the caller's copies of a broken transition keep of it.
  pub walk-Mixes :
      (l1 : List (Range A)) (l2 : List (Range B))
      → IsAscending 0 l1
      → IsAscending 0 l2
      → Mixes p 0 l1 l2 (walk dup (walk_rounds l1 l2) l1 l2)
  walk-Mixes l1 l2 u v =
      let f = suc (suc (2 * (length l1 + length l2))) in
      let m = merge-Mixes dup p same f 0 l1 l2 u v (omega (arith, uneven-le l1 l2)) in
      record {
        segs = m.segs;
        ends = walk-merge dup f l1 l2 m.segs u v m.ends;
        ascending = m.ascending;
        sides = m.sides;
      }
