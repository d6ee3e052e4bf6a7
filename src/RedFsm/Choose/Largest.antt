-- ===== src/RedFsm/Choose/Largest.antt =====
-- The chosen default of src/redfsm.cc weighs most, and takes no transition from a key.
use colm.Prelude.{
  ℕ, suc, ◌≤◌, ◌<◌, ◌≡◌, refl, ap, ◌∙◌, List, [], ◌∷◌, some, Bool, arith, ltb, ◌==◌, if◌then◌else◌,
  Bool-cases, inl, inr, ◌+◌, ◌-◌, ◌^◌, none,
}
use colm.Key.{key_mod, span, span-eq}
use colm.Ranges.{Range, lookup, IsAscending}
use colm.Gaps.{alphabet_covered}
use colm.RedFsm.{RedState}
use colm.RedFsm.Default.{take_trans, move_to_default-keeps}
use colm.RedFsm.Choose.{
  add_ull, greater_ull, add_int, greater_int, choose_heaviest, choose_default_span,
  choose_default_num_ranges, default_span_state,
}
use colm.RedFsm.Choose.Heaviest.{word_weight, choose_heaviest-word_weight}

-- what the ranges of a transition `x` weigh together, on top of `acc`, and what all ranges weigh
abbrev pub total_weight : (Range ℕ → ℕ) → ℕ → ℕ → List (Range ℕ) → ℕ
total_weight size acc x [] = acc
total_weight size acc x (r ∷ rs) =
    total_weight size (if r.item == x then acc + size r else acc) x rs

abbrev pub total_size : (Range ℕ → ℕ) → List (Range ℕ) → ℕ
total_size size [] = 0
total_size size (r ∷ rs) = size r + total_size size rs

-- how many keys a range takes, and that it is one range
abbrev pub num_keys : Range ℕ → ℕ
num_keys r = r.high_key - r.low_key + 1

abbrev pub one_range : Range ℕ → ℕ
one_range r = 1

total_weight_ge :
    (size : Range ℕ → ℕ) (acc x : ℕ) (rs : List (Range ℕ)) → acc ≤ total_weight size acc x rs
total_weight_ge size acc x [] = omega arith
total_weight_ge size acc x (r ∷ rs) =
    let ge = total_weight_ge size (if r.item == x then acc + size r else acc) x rs in
    ground (arith, ge)

-- a transition on a key takes some
total_weight_pos :
    (size : Range ℕ → ℕ)
    → ((r : Range ℕ) → 1 ≤ size r)
    → (k v acc : ℕ) (rs : List (Range ℕ)) → lookup k rs ≡ some v
    → 1 ≤ total_weight size acc v rs
total_weight_pos size pos k v acc [] found = let x : none ≡ some v = found in absurd cc
total_weight_pos size pos k v acc (r ∷ rs) found =
    let more = total_weight_pos size pos k v (if r.item == v then acc + size r else acc) rs in
    let ge = total_weight_ge size (if r.item == v then acc + size r else acc) v rs in
    ground (arith, more, ge, pos r)

-- what is counted is the number itself where all ranges together are counted without a wrap
module _ (plus : ℕ → ℕ → ℕ) (greater : ℕ → ℕ → Bool) (limit : ℕ)
    (exact : (a b : ℕ) → a + b < limit → plus a b ≡ a + b)
    (tests : (a n : ℕ) → a < limit → greater a n ≡ ltb n a) (weight size : Range ℕ → ℕ) where
  abbrev AreSized : List (Range ℕ) → Type 0
  AreSized [] = Unit
  AreSized (r ∷ rs) = (weight r ≡ size r) × AreSized rs

  word_weight-total_weight :
      (acc x : ℕ) (rs : List (Range ℕ))
      → AreSized rs
      → acc + total_size size rs < limit
      → (word_weight plus greater weight acc x rs ≡ total_weight size acc x rs)
        × (total_weight size acc x rs < limit)
  word_weight-total_weight acc x [] w h = (refl, omega arith)
  word_weight-total_weight acc x (r ∷ rs) (e, w) h = elim (Bool-cases (r.item == x)) [
    | inl here ↦
        let sum : plus acc (weight r) ≡ acc + size r =
          ap (plus acc) e ∙ exact acc (size r) (omega arith) in
        let (same, lt) = word_weight-total_weight (acc + size r) x rs w (omega arith) in
        rw here (ap (λ a. word_weight plus greater weight a x rs) sum ∙ same, lt)
    | inr apart ↦ rw apart (word_weight-total_weight acc x rs w (omega arith))
  ]

  choose_heaviest-total_weight :
      (k v : ℕ) (rs : List (Range ℕ))
      → AreSized rs
      → total_size size rs < limit
      → lookup k rs ≡ some v
      → total_weight size 0 v rs ≤ total_weight size 0 (choose_heaviest plus greater weight rs) rs
  choose_heaviest-total_weight k v rs w h found =
      let at : (x : ℕ)
          → (word_weight plus greater weight 0 x rs ≡ total_weight size 0 x rs)
            × (total_weight size 0 x rs < limit) =
        λ x. word_weight-total_weight 0 x rs w (omega arith) in
      let most =
        choose_heaviest-word_weight plus greater weight k v rs
          (λ x n. tests (word_weight plus greater weight 0 x rs) n (below x (at x).0 (at x).1))
          found in
      omega (arith, most, (at v).0, (at (choose_heaviest plus greater weight rs)).0)
    where
      below :
          (x : ℕ)
          → word_weight plus greater weight 0 x rs ≡ total_weight size 0 x rs
          → total_weight size 0 x rs < limit
          → word_weight plus greater weight 0 x rs < limit
      below x e lt = omega (arith, e, lt)

add_ull_exact : (a b : ℕ) → a + b < key_mod → add_ull a b ≡ a + b
add_ull_exact a b h = omega arith

greater_ull_exact : (a n : ℕ) → a < key_mod → greater_ull a n ≡ ltb n a
greater_ull_exact a n h = refl

add_int_exact : (a b : ℕ) → a + b < 2 ^ 31 → add_int a b ≡ a + b
add_int_exact a b h = omega arith

greater_int_exact : (a n : ℕ) → a < 2 ^ 31 → greater_int a n ≡ ltb n a
greater_int_exact a n h = ground arith

span-AreSized :
    (b : ℕ) (rs : List (Range ℕ))
    → IsAscending b rs
    → total_size num_keys rs < key_mod
    → AreSized add_ull greater_ull key_mod add_ull_exact greater_ull_exact
        (λ r. span r.low_key r.high_key)
        num_keys
        rs
span-AreSized b [] asc h = tt
span-AreSized b (r ∷ rs) asc h = (
  span-eq r.low_key r.high_key asc.1 asc.2 (omega arith),
  span-AreSized (suc r.high_key) rs asc.3 (omega arith),
)

ranges-AreSized :
    (rs : List (Range ℕ))
    → AreSized add_int greater_int (2 ^ 31) add_int_exact greater_int_exact (λ r. 1) one_range rs
ranges-AreSized [] = tt
ranges-AreSized (r ∷ rs) = (refl, ranges-AreSized rs)

-- For ascending ranges of keys that are fewer than 2^64 together, and fewer than 2^31 ranges,
-- whatever transition `v` a state has on a key: the transition that `chooseDefaultSpan` chooses
-- takes no fewer keys than `v`, the one that `chooseDefaultNumRanges` chooses no fewer ranges, and
-- each takes one at least.
pub choose_default-total_weight :
    (k v b : ℕ) (state : RedState)
    → IsAscending b state.out_range
    → total_size num_keys state.out_range < key_mod
    → total_size one_range state.out_range < 2 ^ 31
    → lookup k state.out_range ≡ some v
    → (1 ≤ total_weight num_keys 0 v state.out_range)
      × (total_weight num_keys 0 v state.out_range
          ≤ total_weight num_keys 0 (choose_default_span state) state.out_range)
      × (1 ≤ total_weight one_range 0 v state.out_range)
      × (total_weight one_range 0 v state.out_range
          ≤ total_weight one_range 0 (choose_default_num_ranges state) state.out_range)
unfolding choose_default_span choose_default_num_ranges
choose_default-total_weight k v b state asc few few' found = (
  total_weight_pos num_keys (λ r. omega arith) k v 0 state.out_range found,
  choose_heaviest-total_weight add_ull greater_ull key_mod add_ull_exact greater_ull_exact
      (λ r. span r.low_key r.high_key) num_keys k v state.out_range
      (span-AreSized b state.out_range asc few) few found,
  total_weight_pos one_range (λ r. omega arith) k v 0 state.out_range found,
  choose_heaviest-total_weight add_int greater_int (2 ^ 31) add_int_exact greater_int_exact (λ r. 1)
      one_range k v state.out_range (ranges-AreSized state.out_range) few' found,
)

-- For ascending ranges and any alphabet: after the round of `chooseDefaultSpan` for a state its
-- ranges ascend, and every key that had a transition still takes it.
pub default_span_state-keeps :
    (min_key max_key k v b : ℕ) (state : RedState)
    → IsAscending b state.out_range
    → lookup k state.out_range ≡ some v
    → IsAscending b (default_span_state min_key max_key state).out_range
      × (take_trans k (default_span_state min_key max_key state) ≡ v)
unfolding default_span_state
default_span_state-keeps min_key max_key k v b state u found =
    let (asc, taken, rest) =
      move_to_default-keeps (choose_default_span state) k v b state u found in
    elim (Bool-cases (alphabet_covered min_key max_key state.out_range)) [
      | inl covered ↦ rw covered (asc, taken)
      | inr open' ↦ rw open' (u, rw (found, take_trans))
    ]
