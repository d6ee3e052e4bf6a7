-- ===== src/PairIter/Refines.antt =====
-- The coroutine of src/fsmgraph.h's `PairIter` walks as the reference `merge`.
use mathlib.Core.Option
use colm.Prelude.{
  ℕ, zero, suc, ◌≡◌, refl, List, [], ◌∷◌, Option, none, some, arith, inl, inr, ltb, ltb→lt, ltb→le,
  Bool-cases, false,
}
use colm.Key.{increment, increment-eq, decrement-eq}
use colm.Ranges.{Range, range, IsAscending}
use colm.PairIter.{
  PairIter, co_return, consume_s1_range, consume_s2_range, only_in_s1_range, only_in_s2_range,
  s1_sticks_out, s2_sticks_out, s1_drags_behind, s2_drags_behind, exact_overlap, range_in_s1,
  range_in_s2, range_overlap, break_front1, break_front2, break_back1, break_back2, set_trans, scan,
  scan_rest1, find_next, start,
}
use colm.PairIter.Walk.{Segment, copy_trans1, walk_from, walk_from-suc, walk}
use colm.PairIter.Merge.{merge, cons_some}

-- the rounds that the walk is given: two for each round of `merge`
abbrev pub double : ℕ → ℕ
double zero = zero
double (suc f) = suc (suc (double f))

module _ {ℓ} {A : Type ℓ} where
  cons_some-eq :
      (a : A) (o o' : Option (List A)) (l : List A)
      → ((s : List A) → o ≡ some s → o' ≡ some s)
      → cons_some a o ≡ some l
      → cons_some a o' ≡ some l
  cons_some-eq a none o' l up h = cc
  cons_some-eq a (some s) o' l up h = rw (up s refl) h

  -- the same behind a break, where the caller gathers nothing
  break-cons_some-eq :
      (a : A) (o o' : Option (List A)) (l : List A)
      → ((s : List A) → o ≡ some s → o' ≡ some s)
      → cons_some a o ≡ some l
      → Option.map (λ rest. rest) (cons_some a o') ≡ some l
  break-cons_some-eq a none o' l up h = cc
  break-cons_some-eq a (some s) o' l up h = rw (up s refl) h

module _ {ℓ κ} {A : Type ℓ} {B : Type κ} where
  -- the iterator with these ranges left
  abbrev loaded : List (Range A) → List (Range B) → PairIter A B → PairIter A B
  loaded l1 l2 it = record it { s1_tel = set_trans l1 it.s1_tel; s2_tel = set_trans l2 it.s2_tel }

  rest1-scan :
      (l1 : List (Range A)) (it : PairIter A B)
      → scan_rest1 (loaded l1 [] it) ≡ scan (loaded l1 [] it)
  unfolding scan
  rest1-scan [] it = refl
  rest1-scan (r ∷ l1) it = refl

-- in `f` rounds of `merge` and two for each of the walk, the two agree
abbrev Agrees {ℓ κ} : (A : Type ℓ) (B : Type κ) → (A → A) → ℕ → Type (ℓ ⊔ κ)
Agrees A B dup f =
    (b c : ℕ) (l1 : List (Range A)) (l2 : List (Range B)) (it : PairIter A B)
    (segs : List (Segment A B))
    → IsAscending b l1
    → IsAscending c l2
    → merge dup f l1 l2 ≡ some segs
    → walk_from dup (suc (double f)) (scan (loaded l1 l2 it)) ≡ some segs

module _ {ℓ κ} {A : Type ℓ} {B : Type κ} (dup : A → A) where
  -- what the walk gathers from the top of the loop on
  abbrev walk_top : ℕ → List (Range A) → List (Range B) → PairIter A B → Option (List (Segment A B))
  walk_top f l1 l2 it = walk_from dup (suc (double f)) (scan (loaded l1 l2 it))

  module _ (f : ℕ) (ih : Agrees A B dup f) (b c : ℕ) (r : Range A) (l1 : List (Range A))
      (s : Range B) (l2 : List (Range B)) (it : PairIter A B) (segs : List (Segment A B))
      (p : IsAscending b (r ∷ l1)) (q : IsAscending c (s ∷ l2))
      (h : merge dup (suc f) (r ∷ l1) (s ∷ l2) ≡ some segs) where
    abbrev top : PairIter A B
    top = loaded (r ∷ l1) (s ∷ l2) it

    module _ (e1 : ltb r.high_key s.low_key ≡ false) (e2 : ltb s.high_key r.low_key ≡ false) where
      -- the ranges overlap, and their low ends are even
      walk_top_even :
          ltb r.low_key s.low_key ≡ false
          → ltb s.low_key r.low_key ≡ false
          → walk_top (suc f) (r ∷ l1) (s ∷ l2) it ≡ some segs
      unfolding merge walk_from scan find_next
      walk_top_even e3 e4 = elim (Bool-cases (ltb r.high_key s.high_key)) [
        | inl e5 ↦
            let inc = increment-eq r.high_key s.high_key (ltb→lt _ _ e5) q.2 in
            let rest = range (increment r.high_key) s.high_key s.item ∷ l2 in
            let it' = co_return s2_drags_behind range_overlap (break_back2 top) in
            rw (e1, e2, e3, e4, e5)
              (break-cons_some-eq _ (merge dup f l1 rest) (walk_top f l1 rest it') segs
                (λ t e.
                  ih (suc r.high_key) 0 l1 rest it' t p.3
                    (omega arith, omega (arith, inc, ltb→lt _ _ e5), q.2, q.3) e)
                (rw (e1, e2, e3, e4, e5, ← inc) at h))
        | inr e5 ↦ elim (Bool-cases (ltb s.high_key r.high_key)) [
          | inl e6 ↦
              let inc = increment-eq s.high_key r.high_key (ltb→lt _ _ e6) p.2 in
              let rest = range (increment s.high_key) r.high_key r.item ∷ l1 in
              let it' =
                co_return s1_drags_behind range_overlap (copy_trans1 dup (break_back1 top)) in
              rw (e1, e2, e3, e4, e5, e6)
                (break-cons_some-eq _ (merge dup f rest l2) (walk_top f rest l2 it') segs
                  (λ t e.
                    ih 0 (suc s.high_key) rest l2 it' t
                      (omega arith, omega (arith, inc, ltb→lt _ _ e6), p.2, p.3) q.3 e)
                  (rw (e1, e2, e3, e4, e5, e6, ← inc) at h))
          | inr e6 ↦
              let it' = co_return exact_overlap range_overlap top in
              rw (e1, e2, e3, e4, e5, e6)
                (cons_some-eq _ (merge dup f l1 l2)
                  (walk_from dup (suc (suc (double f))) (scan (loaded l1 l2 it'))) segs
                  (λ t e.
                    walk_from-suc dup (suc (double f)) (scan (loaded l1 l2 it')) t
                      (ih (suc r.high_key) (suc s.high_key) l1 l2 it' t p.3 q.3 e))
                  (rw (e1, e2, e3, e4, e5, e6) at h))
        ]
      ]

      -- the ranges overlap
      walk_top_overlap : walk_top (suc f) (r ∷ l1) (s ∷ l2) it ≡ some segs
      unfolding merge walk_from scan find_next
      walk_top_overlap = elim (Bool-cases (ltb r.low_key s.low_key)) [
        | inl e3 ↦
            let dec = decrement-eq s.low_key r.low_key (ltb→lt _ _ e3) (omega arith) in
            let rest = range s.low_key r.high_key r.item ∷ l1 in
            let it' = co_return s1_sticks_out range_in_s1 (copy_trans1 dup (break_front1 top)) in
            rw (e1, e2, e3)
              (break-cons_some-eq _ (merge dup f rest (s ∷ l2)) (walk_top f rest (s ∷ l2) it') segs
                (λ t e. ih 0 c rest (s ∷ l2) it' t (omega arith, ltb→le _ _ e1, p.2, p.3) q e)
                (rw (e1, e2, e3, ← dec) at h))
        | inr e3 ↦ elim (Bool-cases (ltb s.low_key r.low_key)) [
          | inl e4 ↦
              let dec = decrement-eq r.low_key s.low_key (ltb→lt _ _ e4) (omega arith) in
              let rest = range r.low_key s.high_key s.item ∷ l2 in
              let it' = co_return s2_sticks_out range_in_s2 (break_front2 top) in
              rw (e1, e2, e3, e4)
                (break-cons_some-eq _ (merge dup f (r ∷ l1) rest) (walk_top f (r ∷ l1) rest it')
                  segs
                  (λ t e. ih b 0 (r ∷ l1) rest it' t p (omega arith, ltb→le _ _ e2, q.2, q.3) e)
                  (rw (e1, e2, e3, e4, ← dec) at h))
          | inr e4 ↦ walk_top_even e3 e4
        ]
      ]

    -- one of the ranges lies before the other
    walk_top_both : walk_top (suc f) (r ∷ l1) (s ∷ l2) it ≡ some segs
    unfolding merge walk_from scan find_next
    walk_top_both = elim (Bool-cases (ltb r.high_key s.low_key)) [
      | inl e1 ↦
          let it' = co_return only_in_s1_range range_in_s1 top in
          rw e1 (
            cons_some-eq _ (merge dup f l1 (s ∷ l2))
              (walk_from dup (suc (suc (double f))) (scan (loaded l1 (s ∷ l2) it'))) segs
              (λ t e.
                walk_from-suc dup (suc (double f)) (scan (loaded l1 (s ∷ l2) it')) t
                  (ih (suc r.high_key) c l1 (s ∷ l2) it' t p.3 q e))
              (rw e1 at h))
      | inr e1 ↦ elim (Bool-cases (ltb s.high_key r.low_key)) [
        | inl e2 ↦
            let it' = co_return only_in_s2_range range_in_s2 top in
            rw (e1, e2)
              (cons_some-eq _ (merge dup f (r ∷ l1) l2)
                (walk_from dup (suc (suc (double f))) (scan (loaded (r ∷ l1) l2 it'))) segs
                (λ t e.
                  walk_from-suc dup (suc (double f)) (scan (loaded (r ∷ l1) l2 it')) t
                    (ih b (suc s.high_key) (r ∷ l1) l2 it' t p q.3 e))
                (rw (e1, e2) at h))
        | inr e2 ↦ walk_top_overlap e1 e2
      ]
    ]

  walk_top-merge : (f : ℕ) → Agrees A B dup f
  unfolding merge walk_from scan find_next
  walk_top-merge zero b c l1 l2 it segs p q h = cc
  walk_top-merge (suc f) b c [] [] it segs p q h = h
  walk_top-merge (suc f) b c [] (s ∷ l2) it segs p q h =
      let it' = co_return consume_s2_range range_in_s2 (loaded [] (s ∷ l2) it) in
      cons_some-eq _ (merge dup f [] l2)
        (walk_from dup (suc (suc (double f))) (scan (loaded [] l2 it'))) segs
        (λ t e.
          walk_from-suc dup (suc (double f)) (scan (loaded [] l2 it')) t
            (walk_top-merge f b (suc s.high_key) [] l2 it' t tt q.3 e))
        h
  walk_top-merge (suc f) b c (r ∷ l1) [] it segs p q h =
      let it' = co_return consume_s1_range range_in_s1 (loaded (r ∷ l1) [] it) in
      cons_some-eq _ (merge dup f l1 [])
        (walk_from dup (suc (suc (double f))) (scan_rest1 (loaded l1 [] it'))) segs
        (λ t e.
          walk_from-suc dup (suc (double f)) (scan_rest1 (loaded l1 [] it')) t
            (rw (rest1-scan l1 it') (walk_top-merge f (suc r.high_key) b l1 [] it' t p.3 tt e)))
        h
  walk_top-merge (suc f) b c (r ∷ l1) (s ∷ l2) it segs p q h =
      walk_top_both f (walk_top-merge f) b c r l1 s l2 it segs p q h

  -- Where the reference ends in `f` rounds, the loop over the iterator ends with the same segments.
  pub walk-merge :
      (f : ℕ) (l1 : List (Range A)) (l2 : List (Range B)) (segs : List (Segment A B))
      → IsAscending 0 l1
      → IsAscending 0 l2
      → merge dup f l1 l2 ≡ some segs
      → walk dup (suc (double f)) l1 l2 ≡ some segs
  unfolding walk
  walk-merge f l1 l2 segs p q h = walk_top-merge f 0 0 l1 l2 (start l1 l2) segs p q h
