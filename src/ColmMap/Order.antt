-- ===== src/ColmMap/Order.antt =====
-- The order of the elements of a map, around a place in its tree.
use Prim.Native.Nat.{Ordering}
use Prim.Native.Nat.Ordering.{lt, eq, gt}
use colm.Prelude.{ℕ, ◌≡◌, refl, sym, ◌∙◌, ap, List, [], ◌∷◌, ◌++◌}
use colm.ColmMap.{MapTree, node, Frame, left_of, right_of, plug}
use colm.ColmMap.Balance.{inorder}
use colm.Compare.Laws.{flip}
use mathlib.Core.List.{append-nil, append_assoc}

-- what stands ahead of a place, and what stands behind it
abbrev pub before : List Frame → List ℕ
before [] = []
before (left_of e h r ∷ way) = before way
before (right_of l e h ∷ way) = before way ++ inorder l ++ e ∷ []

abbrev pub after : List Frame → List ℕ
after [] = []
after (left_of e h r ∷ way) = e ∷ inorder r ++ after way
after (right_of l e h ∷ way) = after way

pub inorder-plug_lem :
    (t : MapTree) (way : List Frame) → inorder (plug t way) ≡ before way ++ inorder t ++ after way
inorder-plug_lem t [] = simp append-nil
inorder-plug_lem t (left_of e h r ∷ way) = inorder-plug_lem (node t e h r) way ∙ (simp append_assoc)
inorder-plug_lem t (right_of l e h ∷ way) =
    inorder-plug_lem (node l e h t) way ∙ (simp append_assoc)

pub before-append : (a b : List Frame) → before (a ++ b) ≡ before b ++ before a
before-append [] b = sym (append-nil (before b))
before-append (left_of e h r ∷ a) b = before-append a b
before-append (right_of l e h ∷ a) b =
    ap (λ xs. xs ++ inorder l ++ e ∷ []) (before-append a b) ∙ (simp append_assoc)

pub after-append : (a b : List Frame) → after (a ++ b) ≡ after a ++ after b
after-append [] b = refl
after-append (left_of e h r ∷ a) b =
    ap (λ xs. e ∷ inorder r ++ xs) (after-append a b) ∙ (simp append_assoc)
after-append (right_of l e h ∷ a) b = after-append a b

-- the order of keys that a comparison gives
pub record IsKeyOrder {K : Type 0} (cmp : K → K → Ordering) : Type 0 where
  pub cmp_refl : (a : K) → cmp a a ≡ eq
  pub cmp_flip : (a b : K) → cmp b a ≡ flip (cmp a b)
  pub lt_trans : (a b c : K) → cmp a b ≡ lt → cmp b c ≡ lt → cmp a c ≡ lt
  pub eq_lt_trans : (a b c : K) → cmp a b ≡ eq → cmp b c ≡ lt → cmp a c ≡ lt

module _ {K : Type 0} (cmp : K → K → Ordering) (key : ℕ → K) where
  -- all keys of the elements are less than `k`, and greater
  abbrev pub Below : K → List ℕ → Type 0
  Below k [] = Unit
  Below k (x ∷ xs) = (cmp (key x) k ≡ lt) × Below k xs

  abbrev pub Above : K → List ℕ → Type 0
  Above k [] = Unit
  Above k (x ∷ xs) = (cmp k (key x) ≡ lt) × Above k xs

  abbrev pub IsSorted : List ℕ → Type 0
  IsSorted [] = Unit
  IsSorted (x ∷ xs) = Above (key x) xs × IsSorted xs

  pub Above-append : (k : K) (xs ys : List ℕ) → Above k (xs ++ ys) → Above k xs × Above k ys
  Above-append k [] ys a = (tt, a)
  Above-append k (x ∷ xs) ys (a, b) = let (c, d) = Above-append k xs ys b in ((a, c), d)

  pub append-Above : (k : K) (xs ys : List ℕ) → Above k xs → Above k ys → Above k (xs ++ ys)
  append-Above k [] ys a b = b
  append-Above k (x ∷ xs) ys (a, c) b = (a, append-Above k xs ys c b)

  pub append-Below : (k : K) (xs ys : List ℕ) → Below k xs → Below k ys → Below k (xs ++ ys)
  append-Below k [] ys a b = b
  append-Below k (x ∷ xs) ys (a, c) b = (a, append-Below k xs ys c b)

  pub IsSorted-split :
      (xs : List ℕ) (y : ℕ) (ys : List ℕ)
      → IsSorted (xs ++ y ∷ ys)
      → IsSorted xs × Below (key y) xs × Above (key y) ys × IsSorted ys
  IsSorted-split [] y ys s = (tt, tt, s.0, s.1)
  IsSorted-split (x ∷ xs) y ys (a, s) =
      let (s1, b, c, s2) = IsSorted-split xs y ys s in
      let (a1, a2) = Above-append (key x) xs (y ∷ ys) a in ((a1, s1), (a2.0, b), c, s2)

  -- an element taken out of a sequence
  pub IsSorted-remove :
      (xs : List ℕ) (y : ℕ) (ys : List ℕ) → IsSorted (xs ++ y ∷ ys) → IsSorted (xs ++ ys)
  IsSorted-remove [] y ys s = s.1
  IsSorted-remove (x ∷ xs) y ys (a, s) =
      let (a1, a2) = Above-append (key x) xs (y ∷ ys) a in
      (append-Above (key x) xs ys a1 a2.1, IsSorted-remove xs y ys s)

  -- an element put between smaller keys and greater ones
  pub IsSorted-insert :
      (xs : List ℕ) (y : ℕ) (ys : List ℕ)
      → IsSorted (xs ++ ys)
      → Below (key y) xs
      → Above (key y) ys
      → IsSorted (xs ++ y ∷ ys)
  IsSorted-insert [] y ys s b a = (a, s)
  IsSorted-insert (x ∷ xs) y ys (c, s) (d, b) a =
      let (a1, a2) = Above-append (key x) xs ys c in
      (append-Above (key x) xs (y ∷ ys) a1 (d, a2), IsSorted-insert xs y ys s b a)

  module _ (o : IsKeyOrder cmp) where
    pub Above-trans : (j k : K) (xs : List ℕ) → cmp j k ≡ lt → Above k xs → Above j xs
    Above-trans j k [] h a = tt
    Above-trans j k (x ∷ xs) h (a, b) = (o.lt_trans j k (key x) h a, Above-trans j k xs h b)

    pub Below-trans : (j k : K) (xs : List ℕ) → Below j xs → cmp j k ≡ lt → Below k xs
    Below-trans j k [] a h = tt
    Below-trans j k (x ∷ xs) (a, b) h = (o.lt_trans (key x) j k a h, Below-trans j k xs b h)

    pub lt_of_gt : (j k : K) → cmp j k ≡ gt → cmp k j ≡ lt
    lt_of_gt j k h = o.cmp_flip j k ∙ ap flip h
