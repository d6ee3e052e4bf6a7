-- ===== src/Priors/Precedence.antt =====
-- What `comparePrior` of src/fsmap.cc compares.
use Prim.Native.Nat.{Ordering}
use Prim.Native.Nat.Ordering.{lt, gt}
use colm.Prelude.{
  ℕ, zero, suc, ◌+◌, ◌<◌, ◌≡◌, refl, ◌∙◌, List, [], ◌∷◌, Option, none, some, arith, ltb, false,
  length, Bool-cases, inl, inr, ltb→lt, ltb→le,
}
use colm.PairIter.Loop.{First}
use colm.Compare.{cmp_ord}
use colm.Fsm.{PriorDesc, PriorEl}
use colm.Fsm.Compare.{nonzero, after_loop}
use colm.Priors.{prior_key, prior_priority, compare_rest, compare_prior}
use colm.Priors.Set.{IsPriors, prior_at, prior_at_below}

First-same :
    (at at' : ℕ → Option Ordering) (r : Option Ordering)
    → ((k : ℕ) → at' k ≡ at k)
    → First at r
    → First at' r
First-same at at' none e h = λ k. e k ∙ h k
First-same at at' (some r) e h = (h.0, e h.0 ∙ h.1, λ j lt'. e j ∙ h.2 j lt')

module _ (descs : ℕ → PriorDesc) where
  -- the answer for one key: which priority is greater, if both tables have one
  abbrev pub precedence : Option PriorEl → Option PriorEl → Option Ordering
  precedence (some x) (some y) = nonzero (cmp_ord (prior_priority descs x) (prior_priority descs y))
  precedence _ _ = none

  abbrev pub precedence_at : List PriorEl → List PriorEl → ℕ → Option Ordering
  precedence_at t1 t2 k = precedence (prior_at descs k t1) (prior_at descs k t2)

  precedence-none : (a : Option PriorEl) → precedence a none ≡ none
  precedence-none none = refl
  precedence-none (some x) = refl

  -- the loop ends with the answer of the least key that has one
  abbrev Ends : ℕ → List PriorEl → List PriorEl → Type 0
  Ends f t1 t2 =
      (r : Option Ordering) × (compare_rest descs f t1 t2 ≡ some (after_loop r))
      × First (precedence_at t1 t2) r

  below_same_key :
      (k : ℕ) (x y : PriorEl) (t1 t2 : List PriorEl)
      → IsPriors descs (suc (prior_key descs x)) t1
      → k < prior_key descs x
      → precedence_at (x ∷ t1) (y ∷ t2) k ≡ none
  below_same_key k x y t1 t2 u lt' =
      ground (arith, prior_at_below descs k (suc (prior_key descs x)) t1 u)

  -- two elements on one key
  same_key :
      (f : ℕ) (x y : PriorEl) (t1 t2 : List PriorEl)
      → IsPriors descs (suc (prior_key descs x)) t1
      → IsPriors descs (suc (prior_key descs y)) t2
      → prior_key descs x ≡ prior_key descs y
      → ltb (prior_key descs x) (prior_key descs y) ≡ false
      → ltb (prior_key descs y) (prior_key descs x) ≡ false
      → Ends f t1 t2
      → Ends (suc f) (x ∷ t1) (y ∷ t2)
  unfolding compare_rest cmp_ord
  same_key f x y t1 t2 u v e c d (r, ends, first) =
      let m = prior_priority descs x in
      let n = prior_priority descs y in
      elim (Bool-cases (ltb m n)) [
        | inl g ↦ (
          some lt,
          rw (c, d, g) refl,
          (prior_key descs x, ground (arith, g), λ j. below_same_key j x y t1 t2 u),
        )
        | inr g ↦ elim (Bool-cases (ltb n m)) [
          | inl h ↦ (
            some gt,
            rw (c, d, g, h) refl,
            (prior_key descs x, ground (arith, g, h), λ j. below_same_key j x y t1 t2 u),
          )
          | inr h ↦ (
            r,
            rw (c, d, g, h) ends,
            First-same (precedence_at t1 t2) (precedence_at (x ∷ t1) (y ∷ t2)) r
                (λ k. ground (
                  arith,
                  g,
                  h,
                  prior_at_below descs k (suc (prior_key descs x)) t1 u,
                  prior_at_below descs k (suc (prior_key descs y)) t2 v,
                ))
                first,
          )
        ]
      ]

  compare_rest-Ends :
      (f a b : ℕ) (t1 t2 : List PriorEl)
      → IsPriors descs a t1
      → IsPriors descs b t2
      → length t1 + length t2 < f
      → Ends f t1 t2
  unfolding compare_rest cmp_ord
  compare_rest-Ends zero a b t1 t2 u v h = absurd (omega arith)
  compare_rest-Ends (suc f) a b [] t2 u v h = (none, refl, λ k. refl)
  compare_rest-Ends (suc f) a b (x ∷ t1) [] u v h =
      (none, refl, λ k. precedence-none (prior_at descs k (x ∷ t1)))
  compare_rest-Ends (suc f) a b (x ∷ t1) (y ∷ t2) u v h =
      let p = prior_key descs x in
      let q = prior_key descs y in
      elim (Bool-cases (ltb p q)) [
        | inl c ↦
            let lt1 = ltb→lt p q c in
            let (r, ends, first) = compare_rest-Ends f (suc p) b t1 (y ∷ t2) u.1 v (omega arith) in
            (
              r,
              rw c ends,
              First-same (precedence_at t1 (y ∷ t2)) (precedence_at (x ∷ t1) (y ∷ t2)) r
                  (λ k. ground (
                    arith,
                    prior_at_below descs k (suc q) t2 v.1,
                    prior_at_below descs k (suc p) t1 u.1,
                  ))
                  first,
            )
        | inr c ↦
            let le1 = ltb→le p q c in
            elim (Bool-cases (ltb q p)) [
              | inl d ↦
                  let lt2 = ltb→lt q p d in
                  let (r, ends, first) =
                    compare_rest-Ends f a (suc q) (x ∷ t1) t2 u v.1 (omega arith) in
                  (
                    r,
                    rw (c, d) ends,
                    First-same (precedence_at (x ∷ t1) t2) (precedence_at (x ∷ t1) (y ∷ t2)) r
                        (λ k. ground (
                          arith,
                          prior_at_below descs k (suc q) t2 v.1,
                          prior_at_below descs k (suc p) t1 u.1,
                        ))
                        first,
                  )
              | inr d ↦
                  let le2 = ltb→le q p d in
                  same_key f x y t1 t2 u.1 v.1 (omega arith) c d
                    (compare_rest-Ends f (suc p) (suc q) t1 t2 u.1 v.1 (omega arith))
            ]
      ]

  -- For tables with ascending keys: `comparePrior` ends, and returns the answer for the least key on
  -- which both tables have a priority and the two differ, or 0 if there is none.
  pub compare_prior-First :
      (t1 t2 : List PriorEl)
      → IsPriors descs 0 t1
      → IsPriors descs 0 t2
      → (r : Option Ordering) × (compare_prior descs t1 t2 ≡ some (after_loop r))
        × First (λ k. precedence (prior_at descs k t1) (prior_at descs k t2)) r
  unfolding compare_prior
  compare_prior-First t1 t2 u v =
      compare_rest-Ends (suc (length t1 + length t2)) 0 0 t1 t2 u v (omega arith)
