-- ===== src/Compare.antt =====
-- src/aapl/compare.h: `CmpOrd`, `CmpTable` and `CmpSTable`, the comparisons that the sorted tables
-- and the state comparisons are built from.
--
-- A result -1, 0 or 1 is `lt`, `eq` or `gt`. A number that is only compared (an int, a pointer)
-- is a natural number in the same order.
pub mod Laws
use Prim.Native.Nat.{Ordering}
use Prim.Native.Nat.Ordering.{lt, eq, gt}
use colm.Prelude.{ℕ, List, [], ◌∷◌, ltb, if◌then◌else◌, length}

-- `if ( cmpRes != 0 ) return cmpRes;` and what follows
abbrev pub or_else : Ordering → Ordering → Ordering
or_else lt next = lt
or_else gt next = gt
or_else eq next = next

-- `CmpOrd::compare`
unfoldable pub cmp_ord : ℕ → ℕ → Ordering
cmp_ord k1 k2 = if ltb k1 k2 then lt else if ltb k2 k1 then gt else eq

module _ {ℓ} {A : Type ℓ} (cmp : A → A → Ordering) where
  -- the loop over the positions of two tables of one length
  unfoldable pub cmp_items : List A → List A → Ordering
  cmp_items [] t2 = eq
  cmp_items (a ∷ t1) [] = eq
  cmp_items (a ∷ t1) (b ∷ t2) = or_else (cmp a b) (cmp_items t1 t2)

  -- `CmpTable::compare` and `CmpSTable::compare`
  unfoldable pub cmp_table : List A → List A → Ordering
  unfolding cmp_items
  cmp_table t1 t2 =
      if ltb (length t1) (length t2)
      then lt
      else if ltb (length t2) (length t1)
      then gt
      else cmp_items t1 t2
