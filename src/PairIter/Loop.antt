-- ===== src/PairIter/Loop.antt =====
-- The comparing users of src/fsmgraph.h's `PairIter` (src/fsmstate.cc): a loop whose range cases
-- may return, and whose break cases do nothing.
use mathlib.Core.Option
use colm.Prelude.{
  ℕ, zero, suc, ◌<◌, ◌≡◌, refl, sym, ap, ◌∙◌, List, [], ◌∷◌, Option, none, some, arith,
  Option-cases, Bool, inl, inr, true, false, if◌then◌else◌,
}
use colm.Ranges.{Range, covers, lookup, IsAscending}
use colm.PairIter.{
  PairIter, range_in_s1, range_in_s2, range_overlap, break_s1, break_s2, find_next, pair_iter,
}
use colm.PairIter.Walk.{Segment, is_end, copy_trans1, advance, visit, round, walk_from, walk}
use colm.PairIter.Cover.{sides_at, pair_up}
use colm.PairIter.Partition.{walk_rounds, walk-Mixes}

-- a caller that copies nothing leaves the iterator as it is
copy_trans1_id : {A B : Type 0} (it : PairIter A B) → copy_trans1 (λ a. a) it ≡ it
copy_trans1_id it =
    ap (λ o. record it { s1_tel = record (it.s1_tel) { trans = o } })
      (ap (λ f. f it.s1_tel.trans) Option.map-id)

advance_id : {A B : Type 0} (it : PairIter A B) → advance (λ a. a) it ≡ find_next it
advance_id it = ground (arith, copy_trans1_id it)

-- `r` is what the first key returns at which `at` returns, and none if no key does
abbrev pub First : {R : Type 0} → (ℕ → Option R) → Option R → Type 0
First at none = (k : ℕ) → at k ≡ none
First at (some r) = (k : ℕ) × (at k ≡ some r) × ((j : ℕ) → j < k → at j ≡ none)

module _ {A B R : Type 0} (stop : Option A → Option B → Option R) where
  -- what the `switch` returns at this item, if it returns
  abbrev pub stop_here : PairIter A B → Option R
  stop_here it = elim it.user_state [
    | range_in_s1 ↦ stop it.s1_tel.trans none
    | range_in_s2 ↦ stop none it.s2_tel.trans
    | range_overlap ↦ stop it.s1_tel.trans it.s2_tel.trans
    | break_s1 ↦ none
    | break_s2 ↦ none
  ]

  -- the loop: `none` if it has not ended in so many rounds, `some none` if it has run to the end
  unfoldable pub loop_from : ℕ → PairIter A B → Option (Option R)
  loop_from zero it = none
  loop_from (suc f) it =
      let rest = loop_from f (find_next it) in
      elim (is_end it) [
        | true ↦ some none
        | false ↦ elim (stop_here it) [ none ↦ rest | some r ↦ some (some r) ]
      ]

  unfoldable pub pair_loop : ℕ → List (Range A) → List (Range B) → Option (Option R)
  unfolding loop_from pair_iter
  pair_loop f l1 l2 = loop_from f (pair_iter l1 l2)

  -- the same on the segments of the whole walk
  abbrev first_stop : List (Segment A B) → Option R
  first_stop [] = none
  first_stop (g ∷ segs) = elim (stop g.item.left g.item.right) [
    | none ↦ first_stop segs
    | some r ↦ some r
  ]

  abbrev pub stop_at : ℕ → List (Segment A B) → Option R
  stop_at k segs = elim (sides_at (λ a. a) k segs) [ none ↦ none | some (a, b) ↦ stop a b ]

  visit-first_stop :
      (it : PairIter A B) (rest : List (Segment A B))
      → first_stop (visit it rest)
        ≡ elim (stop_here it) [ none ↦ first_stop rest | some r ↦ some r ]
  visit-first_stop it rest = ground arith

  loop_from-walk_from :
      (f : ℕ) (it : PairIter A B) (segs : List (Segment A B))
      → walk_from (λ a. a) f it ≡ some segs
      → loop_from f it ≡ some (first_stop segs)
  unfolding loop_from walk_from
  loop_from-walk_from zero it segs h = cc
  loop_from-walk_from (suc f) it segs h =
      go (is_end it) (stop_here it) (walk_from (λ a. a) f (advance (λ a. a) it))
        (visit-first_stop it)
        (λ rest e. rw (← advance_id it) (loop_from-walk_from f (advance (λ a. a) it) rest e)) h
    where
      go :
          (done : Bool) (stopped : Option R) (o : Option (List (Segment A B)))
          → ((rest : List (Segment A B))
              → first_stop (visit it rest)
                ≡ elim stopped [ none ↦ first_stop rest | some r ↦ some r ])
          → ((rest : List (Segment A B))
              → o ≡ some rest
              → loop_from f (find_next it) ≡ some (first_stop rest))
          → round done (visit it) o ≡ some segs
          → elim done [
            | true ↦ some none
            | false ↦ elim stopped [ none ↦ loop_from f (find_next it) | some r ↦ some (some r) ]
          ]
            ≡ some (first_stop segs)
      go true stopped o v ih e = ap (Option.map first_stop) e
      go false stopped none v ih e = cc
      go false none (some rest) v ih e =
          ih rest refl ∙ sym (ap some (v rest)) ∙ ap (Option.map first_stop) e
      go false (some r) (some rest) v ih e = sym (ap some (v rest)) ∙ ap (Option.map first_stop) e

  First-ext :
      (at at' : ℕ → Option R) (r : Option R) → ((k : ℕ) → at' k ≡ at k) → First at r → First at' r
  First-ext at at' none e h = λ k. e k ∙ h k
  First-ext at at' (some r) e h = (h.0, e h.0 ∙ h.1, λ j lt. e j ∙ h.2 j lt)

  stop_at-cons :
      (k : ℕ) (g : Segment A B) (segs : List (Segment A B))
      → stop_at k (g ∷ segs)
        ≡ (if covers g k then stop g.item.left g.item.right else stop_at k segs)
  stop_at-cons k g segs = ground (arith, ap (λ f. f g.item.left) Option.map-id)

  stop_at_below :
      (k b : ℕ) (segs : List (Segment A B)) → IsAscending b segs → k < b → stop_at k segs ≡ none
  stop_at_below k b [] u lt = refl
  stop_at_below k b (g ∷ segs) u lt =
      ground (arith, stop_at-cons k g segs, stop_at_below k (suc g.high_key) segs u.3)

  -- the first segment that stops, stops on its low key, and no key before it does
  first_stop-First :
      (b : ℕ) (segs : List (Segment A B))
      → IsAscending b segs
      → First (λ k. stop_at k segs) (first_stop segs)
  first_stop-First b [] u = λ k. refl
  first_stop-First b (g ∷ segs) u = elim (Option-cases (stop g.item.left g.item.right)) [
    | inl quiet ↦
        rw (quiet, first_stop)
          (First-ext (λ k. stop_at k segs) (λ k. stop_at k (g ∷ segs)) (first_stop segs)
            (λ k. ground (arith, stop_at-cons k g segs, stop_at_below k (suc g.high_key) segs u.3))
            (first_stop-First (suc g.high_key) segs u.3))
    | inr (r, stops) ↦
        rw (stops, first_stop)
          (
            g.low_key,
            ground (arith, stop_at-cons g.low_key g segs),
            λ j lt. stop_at_below j g.low_key (g ∷ segs) (omega arith, u.1, u.2, u.3) lt,
          )
  ]

  -- a key in no range of either list does not stop the loop
  module _ (quiet : stop none none ≡ none) where
    stop_at-sides :
        (k : ℕ) (segs : List (Segment A B)) (a : Option A) (b : Option B)
        → sides_at (λ a. a) k segs ≡ pair_up (Option.map (λ a. a) a) b
        → stop_at k segs ≡ stop a b
    stop_at-sides k segs none none e = rw (e, stop_at) (sym quiet)
    stop_at-sides k segs none (some b) e = rw (e, stop_at)
    stop_at-sides k segs (some a) b e = rw (e, stop_at)

    -- For ascending lists and a body that does not return where neither list has a range: the loop
    -- ends within `walk_rounds` rounds, and returns what the least key returns at which the body
    -- returns; it runs to the end if there is no such key.
    pub pair_loop-First :
        (l1 : List (Range A)) (l2 : List (Range B))
        → IsAscending 0 l1
        → IsAscending 0 l2
        → (r : Option R) × (pair_loop (walk_rounds l1 l2) l1 l2 ≡ some r)
          × First (λ k. stop (lookup k l1) (lookup k l2)) r
    unfolding pair_loop walk
    pair_loop-First l1 l2 u v =
        let m = walk-Mixes (λ a. a) (λ a. a) (λ a. refl) l1 l2 u v in
        (
          first_stop m.segs,
          loop_from-walk_from (walk_rounds l1 l2) (pair_iter l1 l2) m.segs m.ends,
          First-ext (λ k. stop_at k m.segs) (λ k. stop (lookup k l1) (lookup k l2))
              (first_stop m.segs)
              (λ k. sym (stop_at-sides k m.segs (lookup k l1) (lookup k l2) (m.sides k)))
              (first_stop-First 0 m.segs m.ascending),
        )
