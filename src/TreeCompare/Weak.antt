-- ===== src/TreeCompare/Weak.antt =====
-- Orders in which different values may be equal, and comparisons that go on where a first one
-- answers 0.
use Prim.Native.Nat.{Ordering}
use Prim.Native.Nat.Ordering.{lt, eq, gt}
use colm.Prelude.{◌≡◌, refl, sym, ◌∙◌, ap}
use colm.Compare.{or_else}
use colm.Compare.Laws.{flip, IsCompare}

-- what two results say about the third
abbrev pub Transits : Ordering → Ordering → Ordering → Type 0
Transits lt lt r = r ≡ lt
Transits lt eq r = r ≡ lt
Transits lt gt r = Unit
Transits eq lt r = r ≡ lt
Transits eq eq r = r ≡ eq
Transits eq gt r = Unit
Transits gt q r = Unit

-- an order in which different values may be equal
pub record IsWeakOrder {A : Type 0} (cmp : A → A → Ordering) : Type 0 where
  pub cmp_refl : (a : A) → cmp a a ≡ eq
  pub cmp_flip : (a b : A) → cmp b a ≡ flip (cmp a b)
  pub transits : (a b c : A) → Transits (cmp a b) (cmp b c) (cmp a c)

pub or_else-Transits :
    (p q r p' q' r' : Ordering)
    → Transits p q r
    → (p ≡ eq → q ≡ eq → Transits p' q' r')
    → Transits (or_else p p') (or_else q q') (or_else r r')
or_else-Transits lt lt r p' q' r' t u = rw t
or_else-Transits lt eq r p' lt r' t u = rw t
or_else-Transits lt eq r p' eq r' t u = rw t
or_else-Transits lt eq r p' gt r' t u = tt
or_else-Transits lt gt r p' q' r' t u = tt
or_else-Transits eq lt r lt q' r' t u = rw t
or_else-Transits eq lt r eq q' r' t u = rw t
or_else-Transits eq lt r gt q' r' t u = tt
or_else-Transits eq eq r p' q' r' t u = rw t (u refl refl)
or_else-Transits eq gt r lt q' r' t u = tt
or_else-Transits eq gt r eq q' r' t u = tt
or_else-Transits eq gt r gt q' r' t u = tt
or_else-Transits gt q r p' q' r' t u = tt

pub or_else-flip :
    (p p' q q' : Ordering)
    → p' ≡ flip p
    → (p ≡ eq → q' ≡ flip q)
    → or_else p' q' ≡ flip (or_else p q)
or_else-flip lt p' q q' e u = rw e
or_else-flip eq p' q q' e u = rw e (u refl)
or_else-flip gt p' q q' e u = rw e

pub or_else-eq : (p q : Ordering) → p ≡ eq → q ≡ eq → or_else p q ≡ eq
or_else-eq p q e u = rw e u

pub from_least : (r : Ordering) → Transits lt r lt
from_least lt = refl
from_least eq = refl
from_least gt = tt

pub to_least : (r : Ordering) → Transits r gt gt
to_least lt = tt
to_least eq = tt
to_least gt = tt

pub of_compare : {A : Type 0} (cmp : A → A → Ordering) → IsCompare cmp → IsWeakOrder cmp
of_compare cmp o = record {
  cmp_refl = o.cmp_refl;
  cmp_flip = o.cmp_flip;
  transits = λ a b c. by_result a b c (cmp a b) (cmp b c) refl refl;
}
  where
    by_result : (a b c : _) (p q : Ordering) → cmp a b ≡ p → cmp b c ≡ q → Transits p q (cmp a c)
    by_result a b c lt lt e e' = o.lt_trans a b c e e'
    by_result a b c lt eq e e' = ap (cmp a) (sym (o.eq_of_cmp b c e')) ∙ e
    by_result a b c lt gt e e' = tt
    by_result a b c eq lt e e' = ap (λ x. cmp x c) (o.eq_of_cmp a b e) ∙ e'
    by_result a b c eq eq e e' = ap (λ x. cmp x c) (o.eq_of_cmp a b e) ∙ e'
    by_result a b c eq gt e e' = tt
    by_result a b c gt q e e' = tt

-- values compared by what a function reads of them
pub along :
    {A B : Type 0} (f : A → B) (cmp : B → B → Ordering)
    → IsWeakOrder cmp
    → IsWeakOrder (λ a b. cmp (f a) (f b))
along f cmp o = record {
  cmp_refl = λ a. o.cmp_refl (f a);
  cmp_flip = λ a b. o.cmp_flip (f a) (f b);
  transits = λ a b c. o.transits (f a) (f b) (f c);
}
