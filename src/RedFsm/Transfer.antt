-- ===== src/RedFsm/Transfer.antt =====
-- What `canExtend` of src/redfsm.cc guarantees to the inner loop of `moveTransToSingle`.
use colm.Prelude.{
  ℕ, suc, ◌<◌, ◌≡◌, List, [], ◌∷◌, ◌++◌, some, true, arith, length, Bool-cases, inl, inr, ◌==◌,
}
use colm.Key.{key_mod, decrement-eq, span-eq}
use colm.Ranges.{Range, range, lookup, IsAscending, IsAscending-le, IsSingles, or_some}
use colm.RedFsm.{extends_over, transfer}

-- the elements `rest` behind one that ends at `h` and has the value `v`
pub record Transfers (v h : ℕ) (rest : List (Range ℕ)) : Type 0 where
  pub moved : List (Range ℕ)
  pub stop : Range ℕ
  pub behind : List (Range ℕ)
  pub ends : transfer v rest ≡ some (moved, stop, behind)
  pub longer : h < stop.high_key
  pub bound : stop.high_key < key_mod
  pub shorter : length behind < length rest
  pub singles : IsSingles moved
  pub append :
      (ys : List (Range ℕ)) → IsAscending (suc stop.high_key) ys → IsAscending (suc h) (moved ++ ys)
  pub ascending : IsAscending (suc h) moved
  pub behind_ascending : IsAscending (suc stop.high_key) behind
  pub finds :
      (k : ℕ)
      → or_some (lookup k moved) (lookup k (range (suc h) stop.high_key v ∷ behind)) ≡ lookup k rest

pub extends_over-Transfers :
    (v h : ℕ) (rest : List (Range ℕ))
    → IsAscending (suc h) rest
    → extends_over v h rest ≡ true
    → Transfers v h rest
unfolding extends_over transfer
extends_over-Transfers v h [] u e = cc
extends_over-Transfers v h (next ∷ rest) u e = elim (Bool-cases (v == next.item)) [
  | inl same ↦ record {
    moved = [];
    stop = next;
    behind = rest;
    ends = rw same;
    longer = omega arith;
    bound = u.2;
    shorter = omega arith;
    singles = tt;
    append = λ ys a. IsAscending-le _ _ ys (omega arith) a;
    ascending = tt;
    behind_ascending = u.3;
    finds = λ k. ground (arith, decrement-eq next.low_key h);
  }
  | inr other ↦
      let t = extends_over-Transfers v next.high_key rest u.3 (ground arith) in
      let one : next.low_key ≡ next.high_key = ground (arith, span-eq next.low_key next.high_key) in
      let close : next.low_key ≡ suc h = ground (arith, decrement-eq next.low_key h) in
      record {
        moved = next ∷ t.moved;
        stop = t.stop;
        behind = t.behind;
        ends = rw (other, t.ends);
        longer = omega (arith, t.longer);
        bound = t.bound;
        shorter = omega (arith, t.shorter);
        singles = (one, t.singles);
        append = λ ys a. (u.0, u.1, u.2, t.append ys a);
        ascending = (u.0, u.1, u.2, t.ascending);
        behind_ascending = t.behind_ascending;
        finds = λ k. ground (arith, t.finds k, t.longer);
      }
]
