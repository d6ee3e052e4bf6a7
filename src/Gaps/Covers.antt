-- ===== src/Gaps/Covers.antt =====
-- `out_list_covers` and `alphabet_covered` tell whether a list has a gap.
use colm.Prelude.{
  ℕ, suc, ◌≤◌, ◌<◌, ◌≡◌, ◌≢◌, ◌↔◌, refl, List, [], ◌∷◌, none, true, false, arith, ltb, Bool-cases,
  inl, inr, ltb→lt,
}
use colm.Key.{decrement, increment-eq, decrement-eq, key_mod}
use colm.Ranges.{Range, lookup, lookup_below, IsAscending}
use colm.Gaps.{IsWithin, covers_rest, out_list_covers, covered_rest, alphabet_covered, fill_gaps}
use colm.Gaps.Fill.{lookup-fill_gaps, fill_gaps-IsAscending, fill_gaps-IsWithin}

-- a key of the alphabet from `b` on that has no transition
abbrev pub Gap : {A : Type 0} → ℕ → ℕ → List (Range A) → Type 0
Gap max_key b rs = (k : ℕ) × (b ≤ k) × (k ≤ max_key) × (lookup k rs ≡ none)

module _ {A : Type 0} (max_key : ℕ) (small : max_key < key_mod) where
  covers_rest-true :
      (k h : ℕ) (rs : List (Range A))
      → h ≤ max_key
      → IsAscending (suc h) rs
      → IsWithin max_key rs
      → covers_rest max_key h rs ≡ true
      → suc h ≤ k
      → k ≤ max_key
      → lookup k rs ≢ none
  unfolding covers_rest
  covers_rest-true k h [] le u w c lo hi = ground arith
  covers_rest-true k h (r ∷ rs) le u w c lo hi =
      ground (arith, covers_rest-true k r.high_key rs w.0 u.3 w.1, decrement-eq r.low_key h)

  covers_rest-false :
      (h : ℕ) (rs : List (Range A))
      → h ≤ max_key
      → IsAscending (suc h) rs
      → IsWithin max_key rs
      → covers_rest max_key h rs ≡ false
      → Gap max_key (suc h) rs
  unfolding covers_rest
  covers_rest-false h [] le u w c = (suc h, omega arith, ground arith, refl)
  covers_rest-false h (r ∷ rs) le u w c = elim (Bool-cases (ltb h (decrement r.low_key))) [
    | inl gap ↦
        let lt = ltb→lt h (decrement r.low_key) gap in
        let dec = decrement-eq r.low_key h u.0 (omega arith) in
        (
          suc h,
          omega arith,
          omega arith,
          lookup_below (suc h) r.low_key (r ∷ rs) (omega arith, u.1, u.2, u.3) (omega arith),
        )
    | inr next ↦
        let (k, lo, hi, none') = covers_rest-false r.high_key rs w.0 u.3 w.1 (rw next at c) in
        (k, omega arith, hi, ground arith)
  ]

  -- the two loops make the same test: a range starts where the last one ended
  covered_rest-covers_rest :
      (h : ℕ) (rs : List (Range A))
      → IsAscending (suc h) rs
      → covered_rest max_key h rs ≡ covers_rest max_key h rs
  unfolding covers_rest covered_rest
  covered_rest-covers_rest h [] u = refl
  covered_rest-covers_rest h (r ∷ rs) u = ground (
    arith,
    covered_rest-covers_rest r.high_key rs u.3,
    decrement-eq r.low_key h,
    increment-eq h r.low_key,
  )

  module _ (min_key : ℕ) (order : min_key ≤ max_key) where
    out_list_covers-true :
        (k : ℕ) (rs : List (Range A))
        → IsAscending min_key rs
        → IsWithin max_key rs
        → out_list_covers min_key max_key rs ≡ true
        → min_key ≤ k
        → k ≤ max_key
        → lookup k rs ≢ none
    unfolding out_list_covers
    out_list_covers-true k [] u w c lo hi = cc
    out_list_covers-true k (r ∷ rs) u w c lo hi =
        ground (arith, covers_rest-true k r.high_key rs w.0 u.3 w.1)

    out_list_covers-false :
        (rs : List (Range A))
        → IsAscending min_key rs
        → IsWithin max_key rs
        → out_list_covers min_key max_key rs ≡ false
        → Gap max_key min_key rs
    unfolding out_list_covers
    out_list_covers-false [] u w c = (min_key, omega arith, order, refl)
    out_list_covers-false (r ∷ rs) u w c = elim (Bool-cases (ltb min_key r.low_key)) [
      | inl gap ↦
          let lt = ltb→lt min_key r.low_key gap in
          (
            min_key,
            omega arith,
            order,
            lookup_below min_key r.low_key (r ∷ rs) (omega arith, u.1, u.2, u.3) lt,
          )
      | inr next ↦
          let (k, lo, hi, none') = covers_rest-false r.high_key rs w.0 u.3 w.1 (rw next at c) in
          (k, omega arith, hi, ground arith)
    ]

    module _ (rs : List (Range A)) (u : IsAscending min_key rs) (w : IsWithin max_key rs) where
      -- For ascending transitions within the alphabet, `outListCovers` finds the alphabet covered
      -- exactly when every key of it has a transition.
      pub out_list_covers_iff :
          (out_list_covers min_key max_key rs ≡ true)
          ↔ ((k : ℕ) → min_key ≤ k → k ≤ max_key → lookup k rs ≢ none)
      out_list_covers_iff = (
        λ c k. out_list_covers-true k rs u w c,
        λ all. elim (Bool-cases (out_list_covers min_key max_key rs)) [
          | inl covered ↦ covered
          | inr open' ↦
              let (k, lo, hi, none') = out_list_covers-false rs u w open' in
              absurd (all k lo hi none')
        ],
      )

    -- For ascending transitions `alphabetCovered` and `outListCovers` give the same answer.
    pub alphabet_covered-out_list_covers :
        (rs : List (Range A))
        → IsAscending min_key rs
        → alphabet_covered min_key max_key rs ≡ out_list_covers min_key max_key rs
    unfolding alphabet_covered out_list_covers
    alphabet_covered-out_list_covers [] u = refl
    alphabet_covered-out_list_covers (r ∷ rs) u =
        ground (arith, covered_rest-covers_rest r.high_key rs u.3)

    -- For ascending transitions within the alphabet, `outListCovers` finds the alphabet covered
    -- after `fillGaps`.
    pub out_list_covers-fill_gaps :
        (gap : A) (rs : List (Range A))
        → IsAscending min_key rs
        → IsWithin max_key rs
        → out_list_covers min_key max_key (fill_gaps min_key max_key gap rs) ≡ true
    out_list_covers-fill_gaps gap rs u w =
        (out_list_covers_iff (fill_gaps min_key max_key gap rs)
            (fill_gaps-IsAscending max_key gap small min_key order rs u w)
            (fill_gaps-IsWithin max_key gap small min_key order rs u w)).1
          (λ k lo hi. ground (arith, lookup-fill_gaps max_key gap small min_key order k rs u w))
