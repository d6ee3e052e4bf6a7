-- ===== src/Compare/Laws.antt =====
-- The order that a compare routine of src/aapl/compare.h has to be, and that tables inherit it.
use Prim.Native.Nat.{Ordering}
use Prim.Native.Nat.Ordering.{lt, eq, gt}
use colm.Prelude.{◌≡◌, refl, List, [], ◌∷◌, length, arith}
use colm.Compare.{cmp_ord, cmp_items, cmp_table}

-- what strcmp would answer with its arguments exchanged
abbrev pub flip : Ordering → Ordering
flip lt = gt
flip gt = lt
flip eq = eq

-- a strict total order, with 0 for equal values only
pub record IsCompare {ℓ} {A : Type ℓ} (cmp : A → A → Ordering) : Type ℓ where
  pub cmp_refl : (a : A) → cmp a a ≡ eq
  pub eq_of_cmp : (a b : A) → cmp a b ≡ eq → a ≡ b
  pub cmp_flip : (a b : A) → cmp b a ≡ flip (cmp a b)
  pub lt_trans : (a b c : A) → cmp a b ≡ lt → cmp b c ≡ lt → cmp a c ≡ lt

pub cmp_ord-IsCompare : IsCompare cmp_ord
unfolding cmp_ord
cmp_ord-IsCompare = record {
  cmp_refl = λ a. ground arith;
  eq_of_cmp = λ a b h. ground arith;
  cmp_flip = λ a b. ground arith;
  lt_trans = λ a b c h k. ground arith;
}

module _ {A : Type 0} {cmp : A → A → Ordering} (o : IsCompare cmp) where
  cmp_items_refl : (t : List A) → cmp_items cmp t t ≡ eq
  unfolding cmp_items
  cmp_items_refl [] = refl
  cmp_items_refl (a ∷ t) = rw (o.cmp_refl a) (cmp_items_refl t)

  cmp_items-eq : (t u : List A) → length t ≡ length u → cmp_items cmp t u ≡ eq → t ≡ u
  unfolding cmp_items
  cmp_items-eq [] [] l h = refl
  cmp_items-eq [] (b ∷ u) l h = absurd (omega arith)
  cmp_items-eq (a ∷ t) [] l h = absurd (omega arith)
  cmp_items-eq (a ∷ t) (b ∷ u) l h = ground (arith, o.eq_of_cmp a b, cmp_items-eq t u)

  cmp_items-flip : (t u : List A) → cmp_items cmp u t ≡ flip (cmp_items cmp t u)
  unfolding cmp_items
  cmp_items-flip [] [] = refl
  cmp_items-flip [] (b ∷ u) = refl
  cmp_items-flip (a ∷ t) [] = refl
  cmp_items-flip (a ∷ t) (b ∷ u) = ground (arith, o.cmp_flip a b, cmp_items-flip t u)

  cmp_items_trans :
      (t u v : List A)
      → length t ≡ length u
      → length u ≡ length v
      → cmp_items cmp t u ≡ lt
      → cmp_items cmp u v ≡ lt
      → cmp_items cmp t v ≡ lt
  unfolding cmp_items
  cmp_items_trans [] u v l m h k = cc
  cmp_items_trans (a ∷ t) [] v l m h k = cc
  cmp_items_trans (a ∷ t) (b ∷ u) [] l m h k = cc
  cmp_items_trans (a ∷ t) (b ∷ u) (c ∷ v) l m h k =
      ground (arith, o.eq_of_cmp a b, o.eq_of_cmp b c, o.lt_trans a b c, cmp_items_trans t u v)

  -- Tables compare as a strict total order if their elements do: shorter tables first, and
  -- tables of one length by the first place where they differ.
  pub cmp_table-IsCompare : IsCompare (cmp_table cmp)
  unfolding cmp_table
  cmp_table-IsCompare = record {
    cmp_refl = λ t. ground (arith, cmp_items_refl t);
    eq_of_cmp = λ t u h. ground (arith, cmp_items-eq t u);
    cmp_flip = λ t u. ground (arith, cmp_items-flip t u);
    lt_trans = λ t u v h k. ground (arith, cmp_items_trans t u v);
  }
