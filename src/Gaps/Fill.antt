-- ===== src/Gaps/Fill.antt =====
-- `fill_gaps` leaves no gap and keeps what is there.
use colm.Prelude.{
  ℕ, suc, ◌≤◌, ◌<◌, ◌≡◌, refl, List, [], ◌∷◌, Option, none, some, if◌then◌else◌, arith,
}
use colm.Key.{increment-eq, decrement-eq, key_mod}
use colm.Ranges.{Range, lookup, lookup_below, IsAscending}
use colm.Gaps.{IsWithin, in_alphabet, fill_rest, fill_gaps}

module _ {A : Type 0} (max_key : ℕ) (gap : A) (small : max_key < key_mod) where
  -- what a key finds, with `gap` on the keys from `b` to the end of the alphabet that find nothing
  abbrev pub filled_from : ℕ → ℕ → Option A → Option A
  filled_from b k (some a) = some a
  filled_from b k none = if in_alphabet b max_key k then some gap else none

  lookup-fill_rest :
      (k h : ℕ) (rs : List (Range A))
      → h ≤ max_key
      → IsAscending (suc h) rs
      → IsWithin max_key rs
      → lookup k (fill_rest max_key gap h rs) ≡ filled_from (suc h) k (lookup k rs)
  unfolding fill_rest
  lookup-fill_rest k h [] le u w = ground (arith, increment-eq h max_key)
  lookup-fill_rest k h (r ∷ rs) le u w = ground (
    arith,
    lookup-fill_rest k r.high_key rs w.0 u.3 w.1,
    lookup_below k (suc r.high_key) rs u.3,
    increment-eq h r.low_key,
    decrement-eq r.low_key h,
  )

  fill_rest-IsAscending :
      (h : ℕ) (rs : List (Range A))
      → h ≤ max_key
      → IsAscending (suc h) rs
      → IsWithin max_key rs
      → IsAscending (suc h) (fill_rest max_key gap h rs)
  unfolding fill_rest
  fill_rest-IsAscending h [] le u w = ground (arith, increment-eq h max_key)
  fill_rest-IsAscending h (r ∷ rs) le u w = ground (
    arith,
    fill_rest-IsAscending r.high_key rs w.0 u.3 w.1,
    increment-eq h r.low_key,
    decrement-eq r.low_key h,
  )

  fill_rest-IsWithin :
      (h : ℕ) (rs : List (Range A))
      → IsAscending (suc h) rs
      → IsWithin max_key rs
      → IsWithin max_key (fill_rest max_key gap h rs)
  unfolding fill_rest
  fill_rest-IsWithin h [] u w = ground arith
  fill_rest-IsWithin h (r ∷ rs) u w =
      ground (arith, fill_rest-IsWithin r.high_key rs u.3 w.1, decrement-eq r.low_key h)

  module _ (min_key : ℕ) (order : min_key ≤ max_key) where
    -- For ascending transitions within the alphabet, `fillGaps` leaves what every key with a
    -- transition takes, and puts `gap` on every other key of the alphabet and on no key outside.
    pub lookup-fill_gaps :
        (k : ℕ) (rs : List (Range A))
        → IsAscending min_key rs
        → IsWithin max_key rs
        → lookup k (fill_gaps min_key max_key gap rs) ≡ filled_from min_key k (lookup k rs)
    unfolding fill_gaps
    lookup-fill_gaps k [] u w = refl
    lookup-fill_gaps k (r ∷ rs) u w = ground (
      arith,
      lookup-fill_rest k r.high_key rs w.0 u.3 w.1,
      lookup_below k (suc r.high_key) rs u.3,
      decrement-eq r.low_key min_key,
    )

    -- For ascending transitions within the alphabet, the list that `fillGaps` leaves ascends: it
    -- has no empty range and no two that overlap.
    pub fill_gaps-IsAscending :
        (rs : List (Range A))
        → IsAscending min_key rs
        → IsWithin max_key rs
        → IsAscending min_key (fill_gaps min_key max_key gap rs)
    unfolding fill_gaps
    fill_gaps-IsAscending [] u w = omega arith
    fill_gaps-IsAscending (r ∷ rs) u w =
        ground
          (arith, fill_rest-IsAscending r.high_key rs w.0 u.3 w.1, decrement-eq r.low_key min_key)

    pub fill_gaps-IsWithin :
        (rs : List (Range A))
        → IsAscending min_key rs
        → IsWithin max_key rs
        → IsWithin max_key (fill_gaps min_key max_key gap rs)
    unfolding fill_gaps
    fill_gaps-IsWithin [] u w = omega arith
    fill_gaps-IsWithin (r ∷ rs) u w =
        ground (arith, fill_rest-IsWithin r.high_key rs u.3 w.1, decrement-eq r.low_key min_key)
