-- ===== src/Links/Sequence.antt =====
-- Elements within a sequence and outside of it, and sequences of distinct elements.
use colm.Prelude.{ℕ, ◌≡◌, ◌≢◌, sym, ◌∙◌, true, false, List, [], ◌∷◌, ◌++◌, ◌==◌, arith}
use colm.Links.{update}
use colm.Links.Chain.{last, has, IsDistinct, Chain, last-append, has-append}

pub IsDistinct-append :
    (xs ys : List ℕ)
    → IsDistinct (xs ++ ys)
    → IsDistinct xs × IsDistinct ys × ((a : ℕ) → has a xs ≡ true → has a ys ≡ false)
IsDistinct-append [] ys u = (tt, u, λ a h. cc)
IsDistinct-append (x ∷ xs) ys u =
    let (v, w, apart) = IsDistinct-append xs ys u.1 in
    ((ground (arith, has-append x xs ys), v), w, λ a h. ground (arith, has-append x xs ys, apart a))

pub append-IsDistinct :
    (xs ys : List ℕ)
    → IsDistinct xs
    → IsDistinct ys
    → ((a : ℕ) → has a xs ≡ true → has a ys ≡ false)
    → IsDistinct (xs ++ ys)
append-IsDistinct [] ys u v apart = v
append-IsDistinct (x ∷ xs) ys u v apart = (
  ground (arith, has-append x xs ys, apart x),
  append-IsDistinct xs ys u.1 v (λ a h. ground (arith, apart a)),
)

pub has-last : (x : ℕ) (xs : List ℕ) → has (last x xs) (x ∷ xs) ≡ true
has-last x [] = ground arith
has-last x (y ∷ xs) = ground (arith, has-last y xs)

pub has_self : (x : ℕ) (xs : List ℕ) → has x (x ∷ xs) ≡ true
has_self x xs = ground arith

pub last-ne-zero :
    (next prev : ℕ → ℕ) (p x : ℕ) (xs : List ℕ) (n : ℕ)
    → Chain next prev p (x ∷ xs) n
    → last x xs ≢ 0
last-ne-zero next prev p x [] n c = c.0
last-ne-zero next prev p x (y ∷ xs) n c = last-ne-zero next prev x y xs n c.3

-- a new element in a sequence
pub IsDistinct-insert :
    (new : ℕ) (xs ys : List ℕ)
    → has new (xs ++ ys) ≡ false
    → IsDistinct (xs ++ ys)
    → IsDistinct (xs ++ new ∷ ys)
IsDistinct-insert new xs ys o u =
    let (v, w, apart) = IsDistinct-append xs ys u in
    append-IsDistinct xs (new ∷ ys) v (ground (arith, has-append new xs ys), w)
      (λ a h. ground (arith, has-append new xs ys, apart a))

-- how an element outside of a sequence, or in one, is told from others
pub outside-append :
    (a : ℕ) (xs ys : List ℕ) → has a (xs ++ ys) ≡ false → (has a xs ≡ false) × (has a ys ≡ false)
outside-append a xs ys o = ground (arith, has-append a xs ys)

pub ne_of_has : (a b : ℕ) (xs : List ℕ) → has a xs ≡ false → has b xs ≡ true → (a == b) ≡ false
ne_of_has a b [] o h = cc
ne_of_has a b (x ∷ xs) o h = ground (arith, ne_of_has a b xs)

pub outside_of_apart :
    (y : ℕ) (xs ys : List ℕ)
    → ((a : ℕ) → has a xs ≡ true → has a (y ∷ ys) ≡ false)
    → has y xs ≡ false
outside_of_apart y xs ys apart = ground (arith, apart y)

pub eq_flip : (a b : ℕ) → (a == b) ≡ false → (b == a) ≡ false
eq_flip a b h = ground arith

pub update_self : (f : ℕ → ℕ) (a v : ℕ) → update f a v a ≡ v
update_self f a v = ground arith

pub update-other : (f : ℕ → ℕ) (a v b : ℕ) → (b == a) ≡ false → update f a v b ≡ f b
update-other f a v b h = rw h

pub last-insert :
    (p new y : ℕ) (xs ys : List ℕ) → last p (xs ++ new ∷ y ∷ ys) ≡ last p (xs ++ y ∷ ys)
last-insert p new y xs ys = last-append p xs (new ∷ y ∷ ys) ∙ sym (last-append p xs (y ∷ ys))
