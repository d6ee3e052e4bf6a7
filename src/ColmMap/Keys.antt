-- ===== src/ColmMap/Keys.antt =====
-- What the keys of a well-formed map tell of its elements.
use Prim.Native.Nat.{Ordering}
use Prim.Native.Nat.Ordering.{lt, eq, gt}
use colm.Prelude.{
  ℕ, ◌≡◌, ◌≢◌, ◌⊎◌, inl, inr, sym, ◌∙◌, ap, true, false, List, [], ◌∷◌, ◌++◌, ◌==◌, arith,
  Bool-cases,
}
use colm.Links.Chain.{has, has-append}
use colm.Compare.Laws.{flip}
use colm.ColmMap.Grow.{eq_of_test}
use colm.ColmMap.Order.{IsKeyOrder, Below, Above, IsSorted}

pub lt-ne-eq : lt ≡ eq → ⊥
lt-ne-eq h = cc

pub gt-ne-eq : gt ≡ eq → ⊥
gt-ne-eq h = cc

pub has-append_right : (a : ℕ) (xs ys : List ℕ) → has a ys ≡ true → has a (xs ++ ys) ≡ true
has-append_right a xs ys h = ground (arith, has-append a xs ys)

pub later : (a x : ℕ) (xs : List ℕ) → (a == x) ≡ false → has a (x ∷ xs) ≡ true → has a xs ≡ true
later a x xs e h = ground arith

pub either_has :
    (a : ℕ) (xs ys : List ℕ) → has a (xs ++ ys) ≡ true → (has a xs ≡ true) ⊎ (has a ys ≡ true)
either_has a xs ys h = elim (Bool-cases (has a xs)) [
  | inl here ↦ inl here
  | inr absent ↦ inr (ground (arith, has-append a xs ys))
]

pub has_cases : (a x : ℕ) (xs : List ℕ) → has a (x ∷ xs) ≡ true → (a ≡ x) ⊎ (has a xs ≡ true)
has_cases a x xs h = elim (Bool-cases (a == x)) [
  | inl same ↦ inl (eq_of_test a x same)
  | inr apart ↦ inr (later a x xs apart h)
]

module _ {K : Type 0} (cmp : K → K → Ordering) (key : ℕ → K) where
  pub Above-has :
      (k : K) (a : ℕ) (xs : List ℕ) → has a xs ≡ true → Above cmp key k xs → cmp k (key a) ≡ lt
  Above-has k a [] h b = cc
  Above-has k a (x ∷ xs) h (b, c) = elim (Bool-cases (a == x)) [
    | inl same ↦ ap (λ y. cmp k (key y)) (eq_of_test a x same) ∙ b
    | inr apart ↦ Above-has k a xs (later a x xs apart h) c
  ]

  pub Below-has :
      (k : K) (a : ℕ) (xs : List ℕ) → has a xs ≡ true → Below cmp key k xs → cmp (key a) k ≡ lt
  Below-has k a [] h b = cc
  Below-has k a (x ∷ xs) h (b, c) = elim (Bool-cases (a == x)) [
    | inl same ↦ ap (λ y. cmp (key y) k) (eq_of_test a x same) ∙ b
    | inr apart ↦ Below-has k a xs (later a x xs apart h) c
  ]

  module _ (o : IsKeyOrder cmp) where
    -- two elements of a sorted sequence with one key are one
    pub one_of_key :
        (a b : ℕ) (xs : List ℕ)
        → IsSorted cmp key xs
        → has a xs ≡ true
        → has b xs ≡ true
        → cmp (key a) (key b) ≡ eq
        → a ≡ b
    one_of_key a b [] s h i e = cc
    one_of_key a b (x ∷ xs) (u, s) h i e = elim (has_cases a x xs h) [
      | inl a_first ↦ elim (has_cases b x xs i) [
        | inl b_first ↦ a_first ∙ sym b_first
        | inr b_later ↦ absurd (
            lt-ne-eq (
              sym (Above-has (key x) b xs b_later u)
              ∙ ap (λ y. cmp (key y) (key b)) (sym a_first)
              ∙ e))
      ]
      | inr a_later ↦ elim (has_cases b x xs i) [
        | inl b_first ↦ absurd (
            gt-ne-eq (
              sym (o.cmp_flip (key x) (key a) ∙ ap flip (Above-has (key x) a xs a_later u))
              ∙ ap (λ y. cmp (key a) (key y)) (sym b_first)
              ∙ e))
        | inr b_later ↦ one_of_key a b xs s a_later b_later e
      ]
    ]

    -- no element has a key that is greater than `xs` and less than `ys`
    pub no_key :
        (k : K) (a : ℕ) (xs ys : List ℕ)
        → Below cmp key k xs
        → Above cmp key k ys
        → has a (xs ++ ys) ≡ true
        → cmp k (key a) ≢ eq
    no_key k a [] ys lo hi h e = lt-ne-eq (sym (Above-has k a ys h hi) ∙ e)
    no_key k a (x ∷ xs) ys (l, lo) hi h e = elim (has_cases a x (xs ++ ys) h) [
      | inl first ↦
          gt-ne-eq (sym (o.cmp_flip (key a) k ∙ ap flip (ap (λ y. cmp (key y) k) first ∙ l)) ∙ e)
      | inr rest ↦ no_key k a xs ys lo hi rest e
    ]
