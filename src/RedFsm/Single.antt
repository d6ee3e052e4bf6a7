-- ===== src/RedFsm/Single.antt =====
-- `moveTransToSingle` of src/redfsm.cc changes no transition.
use colm.Prelude.{
  ℕ, zero, suc, ◌<◌, ◌≡◌, refl, List, [], ◌∷◌, ◌++◌, Option, some, arith, length, Bool-cases, inl,
  inr, ◌==◌,
}
use colm.Key.{span, span_one}
use colm.Ranges.{
  Range, range, lookup, lookup_below, lookup-append, IsAscending, IsAscending-le, IsSingles,
  IsSingles-append, or_some,
}
use colm.RedFsm.{Split, can_extend, move_rest, RedState, move_trans_to_single}
use colm.RedFsm.Transfer.{extends_over-Transfers}

-- behind a range of several keys, which stays a range, the singles lie above it
abbrev SinglesAfter : List (Range ℕ) → List (Range ℕ) → Type 0
SinglesAfter [] single = Unit
SinglesAfter (el ∷ rest) single = el.low_key < el.high_key → IsAscending (suc el.high_key) single

-- the singles and ranges `o` that are made of the ranges `rs`, all from the key `b` on
pub record Splits (b : ℕ) (rs : List (Range ℕ)) (o : Option Split) : Type 0 where
  pub single : List (Range ℕ)
  pub ranges : List (Range ℕ)
  pub ends : o ≡ some (single, ranges)
  pub single_ascending : IsAscending b single
  pub ranges_ascending : IsAscending b ranges
  pub one_key : IsSingles single
  pub finds : (k : ℕ) → or_some (lookup k single) (lookup k ranges) ≡ lookup k rs

move_rest-Splits :
    (f b : ℕ) (rs : List (Range ℕ))
    → IsAscending b rs
    → length rs < f
    → (s : Splits b rs (move_rest f rs)) × SinglesAfter rs s.single
unfolding move_rest
move_rest-Splits zero b rs u m = absurd (omega arith)
move_rest-Splits (suc f) b [] u m = (
  record {
    single = [];
    ranges = [];
    ends = refl;
    single_ascending = tt;
    ranges_ascending = tt;
    one_key = tt;
    finds = λ k. refl;
  },
  tt,
)
move_rest-Splits (suc f) b (el ∷ rest) u m = elim (Bool-cases (can_extend el rest)) [
  | inl ext ↦
      let t = extends_over-Transfers el.item el.high_key rest u.3 ext in
      let wide = range el.low_key t.stop.high_key el.item in
      let (s, after) =
        move_rest-Splits f b (wide ∷ t.behind)
          (u.0, omega (arith, t.longer), t.bound, t.behind_ascending) (omega (arith, t.shorter)) in
      let above = t.append s.single (after (omega (arith, t.longer))) in
      (
        record {
          single = t.moved ++ s.single;
          ranges = s.ranges;
          ends = rw (ext, t.ends, s.ends);
          single_ascending = IsAscending-le _ _ (t.moved ++ s.single) (omega arith) above;
          ranges_ascending = s.ranges_ascending;
          one_key = IsSingles-append t.moved s.single t.singles s.one_key;
          finds = λ k. ground (
            arith,
            lookup-append k t.moved s.single,
            s.finds k,
            t.finds k,
            t.longer,
            lookup_below k (suc el.high_key) t.moved t.ascending,
          );
        },
        λ _. above,
      )
  | inr fixed ↦
      let (s, after) = move_rest-Splits f (suc el.high_key) rest u.3 (omega arith) in
      elim (Bool-cases (span el.low_key el.high_key == 1)) [
        | inl one ↦
            let same : el.low_key ≡ el.high_key =
              ground (arith, span_one el.low_key el.high_key u.1 u.2) in
            (
              record {
                single = el ∷ s.single;
                ranges = s.ranges;
                ends = rw (fixed, one, s.ends);
                single_ascending = (u.0, u.1, u.2, s.single_ascending);
                ranges_ascending = IsAscending-le _ _ s.ranges (omega arith) s.ranges_ascending;
                one_key = (same, s.one_key);
                finds = λ k. ground (arith, s.finds k);
              },
              λ wide. absurd (omega arith),
            )
        | inr wide ↦ (
          record {
            single = s.single;
            ranges = el ∷ s.ranges;
            ends = rw (fixed, wide, s.ends);
            single_ascending = IsAscending-le _ _ s.single (omega arith) s.single_ascending;
            ranges_ascending = (u.0, u.1, u.2, s.ranges_ascending);
            one_key = s.one_key;
            finds = λ k.
                ground
                  (arith, s.finds k, lookup_below k (suc el.high_key) s.single s.single_ascending);
          },
          λ _. s.single_ascending,
        )
      ]
]

-- what a key finds in the code that is generated: the single characters first, then the ranges
abbrev pub find_trans : ℕ → RedState → Option ℕ
find_trans k state = or_some (lookup k state.out_single) (lookup k state.out_range)

-- the state before the singles are chosen
abbrev pub in_ranges : ℕ → List (Range ℕ) → RedState
in_ranges d ranges = record { out_single = []; out_range = ranges; def_trans = d }

-- `o` is a result with the transitions and the default of a state with these ranges
pub record KeepsTrans (ranges : List (Range ℕ)) (d : ℕ) (o : Option RedState) : Type 0 where
  pub state : RedState
  pub ends : o ≡ some state
  pub single_ascending : IsAscending 0 state.out_single
  pub range_ascending : IsAscending 0 state.out_range
  pub one_key : IsSingles state.out_single
  pub default : state.def_trans ≡ d
  pub finds : (k : ℕ) → find_trans k state ≡ lookup k ranges

-- For a state with its transitions in ascending ranges: `moveTransToSingle` ends, reads within
-- the table, leaves singles and ranges that each ascend, with one key to a single, and every key
-- finds the transition that it found before, the singles being tried first.
pub move_trans_to_single-KeepsTrans :
    (ranges : List (Range ℕ)) (d : ℕ)
    → IsAscending 0 ranges
    → KeepsTrans ranges d (move_trans_to_single (in_ranges d ranges))
unfolding move_trans_to_single
move_trans_to_single-KeepsTrans ranges d u =
    let s = (move_rest-Splits (suc (length ranges)) 0 ranges u (omega arith)).0 in
    record {
      state = record { out_single = s.single; out_range = s.ranges; def_trans = d };
      ends = rw s.ends;
      single_ascending = s.single_ascending;
      range_ascending = s.ranges_ascending;
      one_key = s.one_key;
      default = refl;
      finds = s.finds;
    }
