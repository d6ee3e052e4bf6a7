-- ===== src/Fsm/Partition.antt =====
-- What `PartitionCompare::compare` of src/fsmstate.cc tells apart.
use Prim.Native.Nat.{Ordering}
use Prim.Native.Nat.Ordering.{lt, eq, gt}
use colm.Prelude.{
  ℕ, ◌≡◌, ◌≢◌, ◌↔◌, ◌⊎◌, inl, inr, refl, Option, none, some, arith, ltb, ◌==◌, Bool-cases,
}
use colm.Ranges.{lookup, IsAscending}
use colm.PairIter.Loop.{pair_loop-First}
use colm.PairIter.Decide.{Decides, First-Decided}
use colm.Compare.{cmp_ord}
use colm.Fsm.{FsmTrans, FsmState}
use colm.Fsm.Compare.{Outcome, returned, compare_part_ptr, part_stop, partition_compare}

-- two states have transitions on the same keys
abbrev pub SameKeys : FsmState → FsmState → Type 0
SameKeys s t = (k : ℕ) → (lookup k s.out_list ≡ none) ↔ (lookup k t.out_list ≡ none)

module _ (partition : ℕ → ℕ) where
  -- both targets are the error state, or both are states of one partition
  abbrev pub SamePart : Option FsmTrans → Option FsmTrans → Type 0
  SamePart none none = Unit
  SamePart (some t) (some u) =
      ((t.to_state ≡ 0) × (u.to_state ≡ 0))
      ⊎ ((t.to_state ≢ 0) × (u.to_state ≢ 0) × (partition t.to_state ≡ partition u.to_state))
  SamePart _ _ = ⊥

  -- the loop returns an answer other than 0
  abbrev Answers : Outcome Ordering → Type 0
  Answers o = (q : Ordering) × (o ≡ returned q) × (q ≢ eq)

  part_stop-Decides :
      (a b : Option FsmTrans)
      → (a ≡ none) ↔ (b ≡ none)
      → Decides {R = Outcome Ordering}
          (λ _. part_stop partition a b)
          (λ _. SamePart a b)
          (λ _. ¬ SamePart a b)
          Answers
          0
  unfolding compare_part_ptr cmp_ord
  part_stop-Decides none none same = inl (refl, tt)
  part_stop-Decides none (some u) same = let e : some u ≡ none = same.0 refl in cc
  part_stop-Decides (some t) none same = let e : some t ≡ none = same.1 refl in cc
  part_stop-Decides (some t) (some u) same =
      let p = partition t.to_state in
      let q = partition u.to_state in
      elim (Bool-cases (t.to_state == 0)) [
        | inl a ↦ elim (Bool-cases (u.to_state == 0)) [
          | inl b ↦ inl (ground arith, inl (ground arith, ground arith))
          | inr b ↦ inr (returned lt, ground arith, (lt, refl, λ e. cc), λ c. ground arith)
        ]
        | inr a ↦ elim (Bool-cases (u.to_state == 0)) [
          | inl b ↦ inr (returned gt, ground arith, (gt, refl, λ e. cc), λ c. ground arith)
          | inr b ↦ elim (Bool-cases (ltb p q)) [
            | inl c ↦ inr (returned lt, ground arith, (lt, refl, λ e. cc), λ e. ground arith)
            | inr c ↦ elim (Bool-cases (ltb q p)) [
              | inl d ↦ inr (returned gt, ground arith, (gt, refl, λ e. cc), λ e. ground arith)
              | inr d ↦ inl (ground arith, inr (ground arith, ground arith, ground arith))
            ]
          ]
        ]
      ]

  module _ (s t : FsmState) (u : IsAscending 0 s.out_list) (v : IsAscending 0 t.out_list) where
    -- For states whose out lists ascend and have transitions on the same keys,
    -- `PartitionCompare::compare` returns without reading through a null pointer, and it returns 0
    -- exactly when on every key with transitions both go to the error state, or both go to states
    -- of one partition.
    pub partition_compare-SamePart :
        SameKeys s t
        → (q : Ordering) × (partition_compare partition s t ≡ some (returned q))
          × ((q ≡ eq) ↔ ((k : ℕ) → SamePart (lookup k s.out_list) (lookup k t.out_list)))
    unfolding partition_compare
    partition_compare-SamePart same =
        let (r, ends, first) =
          pair_loop-First (part_stop partition) refl s.out_list t.out_list u v in
        let decided =
          First-Decided (λ k. part_stop partition (lookup k s.out_list) (lookup k t.out_list))
            (λ k. SamePart (lookup k s.out_list) (lookup k t.out_list))
            (λ k. ¬ SamePart (lookup k s.out_list) (lookup k t.out_list)) Answers r first
            (λ k. part_stop-Decides (lookup k s.out_list) (lookup k t.out_list) (same k)) in
        elim decided [
          | inl (e, all) ↦ (eq, rw (ends, e), (λ _. all, λ _. refl))
          | inr (o, e, (q, is, ne), k, differ) ↦
              (q, rw (ends, e, is), (λ h. absurd (ne h), λ all. absurd (differ (all k))))
        ]
