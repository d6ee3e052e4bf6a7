-- ===== src/Priors.antt =====
-- src/fsmap.cc: the priority tables of transitions, `setPrior`, `setPriors` and `comparePrior`.
--
-- A table is a set of `PriorEl` in ascending order of the keys of their descriptors, one for a key.
-- `descs` is the descriptor at an address.
pub mod Set
pub mod Precedence
use Prim.Native.Nat.{Ordering}
use Prim.Native.Nat.Ordering.{lt, eq, gt}
use colm.Prelude.{
  ℕ, zero, suc, ◌+◌, List, [], ◌∷◌, Option, none, some, ltb, leb, if◌then◌else◌, length,
}
use colm.Fsm.{PriorDesc, PriorEl}

module _ (descs : ℕ → PriorDesc) where
  abbrev pub prior_key : PriorEl → ℕ
  prior_key el = (descs el.desc).key

  abbrev pub prior_priority : PriorEl → ℕ
  prior_priority el = (descs el.desc).priority

  -- `PriorTable::setPrior`, of the element with its ordering and descriptor
  unfoldable pub set_prior : PriorEl → List PriorEl → List PriorEl
  set_prior el [] = el ∷ []
  set_prior el (x ∷ table) =
      let rest = set_prior el table in
      if ltb (prior_key el) (prior_key x)
      then el ∷ x ∷ table
      else if ltb (prior_key x) (prior_key el)
      then x ∷ rest
      else if leb x.ordering el.ordering
      then el ∷ table
      else x ∷ table

  -- `PriorTable::setPriors`
  unfoldable pub set_priors : List PriorEl → List PriorEl → List PriorEl
  unfolding set_prior
  set_priors [] table = table
  set_priors (el ∷ other) table = set_priors other (set_prior el table)

  -- the loop of `FsmGraph::comparePrior`; `none` is a loop that has not ended in so many rounds
  unfoldable pub compare_rest : ℕ → List PriorEl → List PriorEl → Option Ordering
  compare_rest zero pd1 pd2 = none
  compare_rest (suc f) [] pd2 = some eq
  compare_rest (suc f) (x ∷ pd1) [] = some eq
  compare_rest (suc f) (x ∷ pd1) (y ∷ pd2) =
      let skip1 = compare_rest f pd1 (y ∷ pd2) in
      let skip2 = compare_rest f (x ∷ pd1) pd2 in
      let both = compare_rest f pd1 pd2 in
      if ltb (prior_key x) (prior_key y)
      then skip1
      else if ltb (prior_key y) (prior_key x)
      then skip2
      else if ltb (prior_priority x) (prior_priority y)
      then some lt
      else if ltb (prior_priority y) (prior_priority x)
      then some gt
      else both

  -- `FsmGraph::comparePrior`: each round leaves an element of one table behind
  unfoldable pub compare_prior : List PriorEl → List PriorEl → Option Ordering
  unfolding compare_rest
  compare_prior table1 table2 = compare_rest (suc (length table1 + length table2)) table1 table2
