-- ===== src/PairIter/Cover.antt =====
-- What the walk of src/fsmgraph.h's `PairIter` comes to: the reference ends, its segments ascend,
-- and a segment lies on each key of either list, with what the two lists have there.
use mathlib.Core.Option
use colm.Prelude.{
  ℕ, zero, suc, ◌+◌, ◌-◌, ◌*◌, ◌≤◌, ◌<◌, ◌≡◌, refl, List, [], ◌∷◌, Option, none, some, arith, inl,
  inr, ltb, ltb→lt, ltb→le, Bool-cases, false, ◌==◌, if◌then◌else◌, length,
}
use colm.Key.{key_mod}
use colm.Ranges.{Range, range, covers, lookup, lookup_below, IsAscending, IsAscending-le}
use colm.PairIter.Walk.{Segment, segment}
use colm.PairIter.Merge.{merge, cons_some}

module _ {P B : Type 0} where
  -- the two sides on one key; a key with neither lies in no segment
  abbrev pub pair_up : Option P → Option B → Option (Option P × Option B)
  pair_up none none = none
  pair_up (some a) b = some (some a, b)
  pair_up none (some b) = some (none, some b)

module _ {A B P : Type 0} (p : A → P) where
  -- what the segments say of a key, where `p` is what is read of a transition on the left
  abbrev pub sides_at : ℕ → List (Segment A B) → Option (Option P × Option B)
  sides_at k [] = none
  sides_at k (g ∷ segs) =
      if covers g k then some (Option.map p g.item.left, g.item.right) else sides_at k segs

  -- the segments `o` of two lists, from the key `b` on
  pub record Mixes (b : ℕ) (l1 : List (Range A)) (l2 : List (Range B))
      (o : Option (List (Segment A B))) : Type 0 where
    pub segs : List (Segment A B)
    pub ends : o ≡ some segs
    pub ascending : IsAscending b segs
    pub sides : (k : ℕ) → sides_at k segs ≡ pair_up (Option.map p (lookup k l1)) (lookup k l2)

  Mixes-cons :
      (b : ℕ) (l1 l1' : List (Range A)) (l2 l2' : List (Range B)) (g : Segment A B)
      (o : Option (List (Segment A B)))
      → b ≤ g.low_key
      → g.low_key ≤ g.high_key
      → g.high_key < key_mod
      → Mixes (suc g.high_key) l1' l2' o
      → ((k : ℕ) (segs : List (Segment A B))
          → sides_at k segs ≡ pair_up (Option.map p (lookup k l1')) (lookup k l2')
          → sides_at k (g ∷ segs) ≡ pair_up (Option.map p (lookup k l1)) (lookup k l2))
      → Mixes b l1 l2 (cons_some g o)
  Mixes-cons b l1 l1' l2 l2' g o low order bound m step = record {
    segs = g ∷ m.segs;
    ends = rw m.ends;
    ascending = (low, order, bound, m.ascending);
    sides = λ k. step k m.segs (m.sides k);
  }

module _ {A B : Type 0} where
  -- the rounds left: two for each range, and one where the low ends differ
  abbrev pub uneven : List (Range A) → List (Range B) → ℕ
  uneven [] l2 = 0
  uneven (r ∷ l1) [] = 0
  uneven (r ∷ l1) (s ∷ l2) = if r.low_key == s.low_key then 0 else 1

  pub uneven-le : (l1 : List (Range A)) (l2 : List (Range B)) → uneven l1 l2 ≤ 1
  uneven-le [] l2 = omega arith
  uneven-le (r ∷ l1) [] = omega arith
  uneven-le (r ∷ l1) (s ∷ l2) = ground arith

  abbrev pub rounds : List (Range A) → List (Range B) → ℕ
  rounds l1 l2 = 2 * (length l1 + length l2) + uneven l1 l2

-- in more rounds than are left for the lists the reference ends
abbrev pub Mixed : {A : Type 0} (B : Type 0) {P : Type 0} → (A → A) → (A → P) → ℕ → Type 0
Mixed {A} B dup p f =
    (b : ℕ) (l1 : List (Range A)) (l2 : List (Range B))
    → IsAscending b l1
    → IsAscending b l2
    → rounds l1 l2 < f
    → Mixes p b l1 l2 (merge dup f l1 l2)

module _ {A B P : Type 0} (dup : A → A) (p : A → P) (same : (a : A) → p (dup a) ≡ p a) where
  module _ (f : ℕ) (ih : Mixed B dup p f) (b : ℕ) (r : Range A) (l1 : List (Range A)) (s : Range B)
      (l2 : List (Range B)) (u : IsAscending b (r ∷ l1)) (v : IsAscending b (s ∷ l2))
      (m : rounds (r ∷ l1) (s ∷ l2) < suc f) where
    module _ (e1 : ltb r.high_key s.low_key ≡ false) (e2 : ltb s.high_key r.low_key ≡ false) where
      merge-Mixes_even :
          ltb r.low_key s.low_key ≡ false
          → ltb s.low_key r.low_key ≡ false
          → Mixes p b (r ∷ l1) (s ∷ l2) (merge dup (suc f) (r ∷ l1) (s ∷ l2))
      unfolding merge
      merge-Mixes_even e3 e4 =
          let ge = ltb→le r.low_key s.low_key e3 in
          let le = ltb→le s.low_key r.low_key e4 in
          elim (Bool-cases (ltb r.high_key s.high_key)) [
            | inl e5 ↦
                let lt = ltb→lt r.high_key s.high_key e5 in
                let rest = range (r.high_key + 1) s.high_key s.item ∷ l2 in
                rw (e1, e2, e3, e4, e5)
                  (Mixes-cons p b (r ∷ l1) l1 (s ∷ l2) rest
                    (segment r.low_key r.high_key (some r.item) (some s.item)) _ u.0 u.1 u.2
                    (ih (suc r.high_key) l1 rest u.3 (omega arith, omega arith, v.2, v.3)
                      (omega (arith, uneven-le l1 rest)))
                    (λ k segs e. ground (arith, e, lookup_below k (suc r.high_key) l1 u.3)))
            | inr e5 ↦ elim (Bool-cases (ltb s.high_key r.high_key)) [
              | inl e6 ↦
                  let lt = ltb→lt s.high_key r.high_key e6 in
                  let rest = range (s.high_key + 1) r.high_key r.item ∷ l1 in
                  rw (e1, e2, e3, e4, e5, e6)
                    (Mixes-cons p b (r ∷ l1) rest (s ∷ l2) l2
                      (segment r.low_key s.high_key (some (dup r.item)) (some s.item)) _ u.0
                      (omega arith) v.2
                      (ih (suc s.high_key) rest l2 (omega arith, omega arith, u.2, u.3) v.3
                        (omega (arith, uneven-le rest l2)))
                      (λ k segs e. ground (arith, e, same r.item)))
              | inr e6 ↦
                  let ge' = ltb→le r.high_key s.high_key e5 in
                  let le' = ltb→le s.high_key r.high_key e6 in
                  rw (e1, e2, e3, e4, e5, e6)
                    (Mixes-cons p b (r ∷ l1) l1 (s ∷ l2) l2
                      (segment r.low_key r.high_key (some r.item) (some s.item)) _ u.0 u.1 u.2
                      (ih (suc r.high_key) l1 l2 u.3
                        (IsAscending-le _ (suc s.high_key) l2 (omega arith) v.3)
                        (omega (arith, uneven-le l1 l2)))
                      (λ k segs e. ground (arith, e)))
            ]
          ]

      merge-Mixes_overlap : Mixes p b (r ∷ l1) (s ∷ l2) (merge dup (suc f) (r ∷ l1) (s ∷ l2))
      unfolding merge
      merge-Mixes_overlap =
          let reach1 = ltb→le r.high_key s.low_key e1 in
          let reach2 = ltb→le s.high_key r.low_key e2 in
          elim (Bool-cases (ltb r.low_key s.low_key)) [
            | inl e3 ↦
                let lt = ltb→lt r.low_key s.low_key e3 in
                let rest = range s.low_key r.high_key r.item ∷ l1 in
                rw (e1, e2, e3)
                  (Mixes-cons p b (r ∷ l1) rest (s ∷ l2) (s ∷ l2)
                    (segment r.low_key (s.low_key - 1) (some (dup r.item)) none) _ u.0 (omega arith)
                    (omega arith)
                    (ih (suc (s.low_key - 1)) rest (s ∷ l2) (omega arith, reach1, u.2, u.3)
                      (omega arith, v.1, v.2, v.3) (ground arith))
                    (λ k segs e.
                      ground (arith, e, same r.item, lookup_below k (suc s.high_key) l2 v.3)))
            | inr e3 ↦ elim (Bool-cases (ltb s.low_key r.low_key)) [
              | inl e4 ↦
                  let lt = ltb→lt s.low_key r.low_key e4 in
                  let rest = range r.low_key s.high_key s.item ∷ l2 in
                  rw (e1, e2, e3, e4)
                    (Mixes-cons p b (r ∷ l1) (r ∷ l1) (s ∷ l2) rest
                      (segment s.low_key (r.low_key - 1) none (some s.item)) _ v.0 (omega arith)
                      (omega arith)
                      (ih (suc (r.low_key - 1)) (r ∷ l1) rest (omega arith, u.1, u.2, u.3)
                        (omega arith, reach2, v.2, v.3) (ground arith))
                      (λ k segs e. ground (arith, e, lookup_below k (suc r.high_key) l1 u.3)))
              | inr e4 ↦ merge-Mixes_even e3 e4
            ]
          ]

    merge-Mixes_both : Mixes p b (r ∷ l1) (s ∷ l2) (merge dup (suc f) (r ∷ l1) (s ∷ l2))
    unfolding merge
    merge-Mixes_both = elim (Bool-cases (ltb r.high_key s.low_key)) [
      | inl e1 ↦
          let lt = ltb→lt r.high_key s.low_key e1 in
          rw e1 (
            Mixes-cons p b (r ∷ l1) l1 (s ∷ l2) (s ∷ l2)
              (segment r.low_key r.high_key (some r.item) none) _ u.0 u.1 u.2
              (ih (suc r.high_key) l1 (s ∷ l2) u.3 (lt, v.1, v.2, v.3)
                (omega (arith, uneven-le l1 (s ∷ l2))))
              (λ k segs e. ground (arith, e, lookup_below k (suc s.high_key) l2 v.3)))
      | inr e1 ↦ elim (Bool-cases (ltb s.high_key r.low_key)) [
        | inl e2 ↦
            let lt = ltb→lt s.high_key r.low_key e2 in
            rw (e1, e2)
              (Mixes-cons p b (r ∷ l1) (r ∷ l1) (s ∷ l2) l2
                (segment s.low_key s.high_key none (some s.item)) _ v.0 v.1 v.2
                (ih (suc s.high_key) (r ∷ l1) l2 (lt, u.1, u.2, u.3) v.3
                  (omega (arith, uneven-le (r ∷ l1) l2)))
                (λ k segs e. ground (arith, e, lookup_below k (suc r.high_key) l1 u.3)))
        | inr e2 ↦ merge-Mixes_overlap e1 e2
      ]
    ]

  pub merge-Mixes : (f : ℕ) → Mixed B dup p f
  unfolding merge
  merge-Mixes zero b l1 l2 u v m = absurd (omega arith)
  merge-Mixes (suc f) b [] [] u v m = record {
    segs = [];
    ends = refl;
    ascending = tt;
    sides = λ k. refl;
  }
  merge-Mixes (suc f) b [] (s ∷ l2) u v m =
      Mixes-cons p b [] [] (s ∷ l2) l2 (segment s.low_key s.high_key none (some s.item)) _ v.0 v.1
        v.2 (merge-Mixes f (suc s.high_key) [] l2 tt v.3 (omega arith))
        (λ k segs e. ground (arith, e))
  merge-Mixes (suc f) b (r ∷ l1) [] u v m =
      Mixes-cons p b (r ∷ l1) l1 [] [] (segment r.low_key r.high_key (some r.item) none) _ u.0 u.1
        u.2 (merge-Mixes f (suc r.high_key) l1 [] u.3 tt (omega (arith, uneven-le {B = B} l1 [])))
        (λ k segs e. ground (arith, e))
  merge-Mixes (suc f) b (r ∷ l1) (s ∷ l2) u v m =
      merge-Mixes_both f (merge-Mixes f) b r l1 s l2 u v m
