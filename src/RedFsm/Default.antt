-- ===== src/RedFsm/Default.antt =====
-- `moveToDefault` of src/redfsm.cc takes no transition from a key.
use colm.Prelude.{ℕ, suc, ◌≡◌, refl, List, [], ◌∷◌, Option, none, some, arith, ◌==◌, if◌then◌else◌}
use colm.Ranges.{Range, lookup, lookup_below, IsAscending, IsAscending-le}
use colm.RedFsm.{RedState, without, move_to_default}

-- `v`, unless it is the default transition
abbrev pub unless_default : ℕ → Option ℕ → Option ℕ
unless_default d none = none
unless_default d (some v) = if v == d then none else some v

lookup-without :
    (k d b : ℕ) (rs : List (Range ℕ))
    → IsAscending b rs
    → lookup k (without d rs) ≡ unless_default d (lookup k rs)
unfolding without
lookup-without k d b [] u = refl
lookup-without k d b (r ∷ rs) u =
    ground
      (arith, lookup-without k d (suc r.high_key) rs u.3, lookup_below k (suc r.high_key) rs u.3)

without-IsAscending :
    (d b : ℕ) (rs : List (Range ℕ)) → IsAscending b rs → IsAscending b (without d rs)
unfolding without
without-IsAscending d b [] u = tt
without-IsAscending d b (r ∷ rs) u = ground (
  arith,
  without-IsAscending d (suc r.high_key) rs u.3,
  IsAscending-le b (suc r.high_key) (without d rs),
)

-- what the generated code takes on a key: a range, or else the default transition
abbrev pub take_trans : ℕ → RedState → ℕ
take_trans k state = elim (lookup k state.out_range) [ none ↦ state.def_trans | some v ↦ v ]

-- For ascending ranges and any choice of a default: after `moveToDefault` the ranges ascend, none
-- of them leads to the default, and every key that had a transition still takes it.
pub move_to_default-keeps :
    (d k v b : ℕ) (state : RedState)
    → IsAscending b state.out_range
    → lookup k state.out_range ≡ some v
    → IsAscending b (move_to_default d state).out_range
      × (take_trans k (move_to_default d state) ≡ v)
      × (lookup k (move_to_default d state).out_range ≡ unless_default d (some v))
unfolding move_to_default
move_to_default-keeps d k v b state u found = (
  without-IsAscending d b state.out_range u,
  ground (arith, lookup-without k d b state.out_range u),
  ground (arith, lookup-without k d b state.out_range u),
)
