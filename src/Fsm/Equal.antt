-- ===== src/Fsm/Equal.antt =====
-- When the comparisons of src/fsmstate.cc find two states the same.
use Prim.Native.Nat.{Ordering}
use Prim.Native.Nat.Ordering.{eq}
use mathlib.Core.Option
use colm.Prelude.{ℕ, List, ◌≡◌, ◌≢◌, ◌↔◌, ◌⊎◌, refl, ap, Option, none, some, arith}
use colm.Ranges.{IsAscending, lookup}
use colm.PairIter.Loop.{First, pair_loop-First}
use colm.Compare.{or_else, cmp_ord, cmp_table}
use colm.Compare.Laws.{IsCompare, cmp_ord-IsCompare, cmp_table-IsCompare}
use colm.Fsm.{
  PriorEl, ActionTableEl, ErrActionTableEl, FsmTrans, FsmState, cmp_action_table_el,
  cmp_err_action_table_el, cmp_prior_el,
}
use colm.Fsm.Order.{
  cmp_action_table_el-IsCompare, cmp_err_action_table_el-IsCompare, cmp_prior_el-IsCompare,
}
use colm.Fsm.Compare.{
  compare_trans_data, compare_state_data, compare_data_ptr, compare_full_ptr, nonzero, after_loop,
  compare_final, or_loop, compare_out, init_partition_compare, approx_compare,
}

-- tables compare as 0 exactly when they are equal
module _ {A : Type 0} {cmp : A → A → Ordering} (o : IsCompare cmp) where
  table_iff : (t u : List A) → (cmp_table cmp t u ≡ eq) ↔ (t ≡ u)
  table_iff t u = let c = cmp_table-IsCompare o in (c.eq_of_cmp t u, λ e. rw e (c.cmp_refl u))

priors_iff : (t u : List PriorEl) → (cmp_table cmp_prior_el t u ≡ eq) ↔ (t ≡ u)
priors_iff = table_iff cmp_prior_el-IsCompare

pub actions_iff : (t u : List ActionTableEl) → (cmp_table cmp_action_table_el t u ≡ eq) ↔ (t ≡ u)
actions_iff = table_iff cmp_action_table_el-IsCompare

errors_iff : (t u : List ErrActionTableEl) → (cmp_table cmp_err_action_table_el t u ≡ eq) ↔ (t ≡ u)
errors_iff = table_iff cmp_err_action_table_el-IsCompare

ints_iff : (t u : List ℕ) → (cmp_table cmp_ord t u ≡ eq) ↔ (t ≡ u)
ints_iff = table_iff cmp_ord-IsCompare

-- the data of two transitions is the same
pub record SameData (t u : FsmTrans) : Type 0 where
  pub priors : t.prior_table ≡ u.prior_table
  pub lm_actions : t.lm_action_table ≡ u.lm_action_table
  pub actions : t.action_table ≡ u.action_table

-- the data embedded in two states is the same
pub record SameStateData (s t : FsmState) : Type 0 where
  pub out_priors : s.out_prior_table ≡ t.out_prior_table
  pub to_state : s.to_state_action_table ≡ t.to_state_action_table
  pub from_state : s.from_state_action_table ≡ t.from_state_action_table
  pub out_actions : s.out_action_table ≡ t.out_action_table
  pub out_conds : s.out_cond_set ≡ t.out_cond_set
  pub err_actions : s.err_action_table ≡ t.err_action_table
  pub eof_actions : s.eof_action_table ≡ t.eof_action_table

module _ (t u : FsmTrans) where
  -- `compareTransData` answers 0 exactly for two transitions with the same priority table, the
  -- same longest-match action table and the same action table.
  pub compare_trans_data-eq : (compare_trans_data t u ≡ eq) ↔ SameData t u
  unfolding compare_trans_data
  compare_trans_data-eq =
      (λ h. ground (arith, prior, lm, action), λ h. ground (arith, prior, lm, action))
    where
      prior :
          (cmp_table cmp_prior_el t.prior_table u.prior_table ≡ eq)
          ↔ (t.prior_table ≡ u.prior_table)
      prior = priors_iff t.prior_table u.prior_table

      lm :
          (cmp_table cmp_action_table_el t.lm_action_table u.lm_action_table ≡ eq)
          ↔ (t.lm_action_table ≡ u.lm_action_table)
      lm = actions_iff t.lm_action_table u.lm_action_table

      action :
          (cmp_table cmp_action_table_el t.action_table u.action_table ≡ eq)
          ↔ (t.action_table ≡ u.action_table)
      action = actions_iff t.action_table u.action_table

module _ (s t : FsmState) where
  -- `compareStateData` answers 0 exactly for two states with the same out priorities, to-state,
  -- from-state, out, error and end-of-file actions, and the same out conditions.
  pub compare_state_data-eq : (compare_state_data s t ≡ eq) ↔ SameStateData s t
  unfolding compare_state_data
  compare_state_data-eq =
      let a = priors_iff s.out_prior_table t.out_prior_table in
      let b = actions_iff s.to_state_action_table t.to_state_action_table in
      let c = actions_iff s.from_state_action_table t.from_state_action_table in
      let d = actions_iff s.out_action_table t.out_action_table in
      let e = ints_iff s.out_cond_set t.out_cond_set in
      let f = errors_iff s.err_action_table t.err_action_table in
      let g = actions_iff s.eof_action_table t.eof_action_table in
      (λ h. ground (arith, a, b, c, d, e, f, g), λ h. ground (arith, a, b, c, d, e, f, g))

-- what two states do on one key: both have no transition, or the comparison finds theirs the same
nonzero-eq : (r : Ordering) → nonzero r ≡ none → r ≡ eq
nonzero-eq r h = ground arith

nonzero-some : (x r : Ordering) → nonzero x ≡ some r → (r ≢ eq) × (x ≢ eq)
nonzero-some x r h = (λ e. ground arith, λ e. ground arith)

module _ (cmp : Option FsmTrans → Option FsmTrans → Ordering) (quiet : cmp none none ≡ eq)
    (s t : FsmState) (u : IsAscending 0 s.out_list) (v : IsAscending 0 t.out_list) where
  -- the loop over the transition pairs returns, and returns 0 exactly when every key compares as 0
  compare_out-eq :
      (r : Ordering) × (compare_out cmp s t ≡ some r)
      × ((r ≡ eq) ↔ ((k : ℕ) → cmp (lookup k s.out_list) (lookup k t.out_list) ≡ eq))
  compare_out-eq =
      let stop = λ (a b : Option FsmTrans). nonzero (cmp a b) in
      let (r, ends, first) = pair_loop-First stop (ap nonzero quiet) s.out_list t.out_list u v in
      (after_loop r, ap (Option.map after_loop) ends, go r first)
    where
      go :
          (r : Option Ordering)
          → First (λ k. nonzero (cmp (lookup k s.out_list) (lookup k t.out_list))) r
          → (after_loop r ≡ eq) ↔ ((k : ℕ) → cmp (lookup k s.out_list) (lookup k t.out_list) ≡ eq)
      go none h = (λ e k. nonzero-eq _ (h k), λ e. refl)
      go (some r) (k, at, least) =
          let n = nonzero-some _ r at in (λ e. absurd (n.0 e), λ e. absurd (n.1 (e k)))

-- the parts of both whole-state comparisons that stand before their loops
pub record SameHead (s t : FsmState) : Type 0 where
  pub final : s.is_fin_state ≡ t.is_fin_state
  pub epsilon : s.epsilon_trans ≡ t.epsilon_trans
  pub state_data : SameStateData s t

compare_final-eq : (s t : FsmState) → (compare_final s t ≡ eq) ↔ (s.is_fin_state ≡ t.is_fin_state)
unfolding compare_final
compare_final-eq s t = (λ h. ground arith, λ h. ground arith)

abbrev compare_states : FsmState → FsmState → Option Ordering → Option Ordering
compare_states s t loop = or_loop (compare_final s t) (
    or_loop (cmp_table cmp_ord s.epsilon_trans t.epsilon_trans)
      (or_loop (compare_state_data s t) loop))

or_loop-some : (a r : Ordering) → or_loop a (some r) ≡ some (or_else a r)
or_loop-some a r = ground arith

or_else-eq : (a b : Ordering) → (or_else a b ≡ eq) ↔ ((a ≡ eq) × (b ≡ eq))
or_else-eq a b = (λ h. ground arith, λ h. ground arith)

compare_states-eq :
    (s t : FsmState) (loop : Option Ordering) (r : Ordering)
    → loop ≡ some r
    → (q : Ordering) × (compare_states s t loop ≡ some q) × ((q ≡ eq) ↔ (SameHead s t × (r ≡ eq)))
compare_states-eq s t loop r h =
    let a = compare_final s t in
    let b = cmp_table cmp_ord s.epsilon_trans t.epsilon_trans in
    let c = compare_state_data s t in
    let at_a = or_else-eq a (or_else b (or_else c r)) in
    let at_b = or_else-eq b (or_else c r) in
    let at_c = or_else-eq c r in
    (
      or_else a (or_else b (or_else c r)),
      simp (h, or_loop-some),
      (
        λ e.
            let (ea, rest) = at_a.0 e in
            let (eb, rest') = at_b.0 rest in
            let (ec, er) = at_c.0 rest' in
            (
              record {
                final = (compare_final-eq s t).0 ea;
                epsilon = (ints_iff s.epsilon_trans t.epsilon_trans).0 eb;
                state_data = (compare_state_data-eq s t).0 ec;
              },
              er,
            ),
        λ both. at_a.1 (
          (compare_final-eq s t).1 (both.0).final,
          at_b.1 (
            (ints_iff s.epsilon_trans t.epsilon_trans).1 (both.0).epsilon,
            at_c.1 ((compare_state_data-eq s t).1 (both.0).state_data, both.1),
          ),
        ),
      ),
    )

-- on one key: neither state has a transition, or both have, with the same data
abbrev pub SameDataPtr : Option FsmTrans → Option FsmTrans → Type 0
SameDataPtr none none = Unit
SameDataPtr (some t) (some u) = SameData t u
SameDataPtr _ _ = ⊥

-- on one key: neither state has a transition, or both have, to the same state, with the same data
-- unless the transitions go to the error state (0)
abbrev pub SameFullPtr : Option FsmTrans → Option FsmTrans → Type 0
SameFullPtr none none = Unit
SameFullPtr (some t) (some u) = (t.to_state ≡ u.to_state) × ((t.to_state ≡ 0) ⊎ SameData t u)
SameFullPtr _ _ = ⊥

compare_data_ptr-eq : (a b : Option FsmTrans) → (compare_data_ptr a b ≡ eq) ↔ SameDataPtr a b
unfolding compare_data_ptr
compare_data_ptr-eq none none = (λ h. tt, λ h. refl)
compare_data_ptr-eq none (some u) = (λ h. cc, λ h. absurd h)
compare_data_ptr-eq (some t) none = (λ h. cc, λ h. absurd h)
compare_data_ptr-eq (some t) (some u) = compare_trans_data-eq t u

compare_full_ptr-eq : (a b : Option FsmTrans) → (compare_full_ptr a b ≡ eq) ↔ SameFullPtr a b
unfolding compare_full_ptr
compare_full_ptr-eq none none = (λ h. tt, λ h. refl)
compare_full_ptr-eq none (some u) = (λ h. cc, λ h. absurd h)
compare_full_ptr-eq (some t) none = (λ h. cc, λ h. absurd h)
compare_full_ptr-eq (some t) (some u) =
    let same = compare_trans_data-eq t u in (λ h. ground (arith, same), λ h. ground (arith, same))

quiet_data : compare_data_ptr none none ≡ eq
unfolding compare_data_ptr
quiet_data = refl

quiet_full : compare_full_ptr none none ≡ eq
unfolding compare_full_ptr
quiet_full = refl

module _ (s t : FsmState) where
  -- what `InitPartitionCompare::compare` tells apart
  abbrev pub SameInit : Type 0
  SameInit = SameHead s t × ((k : ℕ) → SameDataPtr (lookup k s.out_list) (lookup k t.out_list))

  -- what `ApproxCompare::compare` tells apart
  abbrev pub SameApprox : Type 0
  SameApprox = SameHead s t × ((k : ℕ) → SameFullPtr (lookup k s.out_list) (lookup k t.out_list))

  module _ (u : IsAscending 0 s.out_list) (v : IsAscending 0 t.out_list) where
    -- For states whose out lists ascend, `InitPartitionCompare::compare` returns, and it returns 0
    -- exactly when the states agree in final status, epsilon transitions and embedded data, and on
    -- every key either both have no transition or both have one with the same data.
    pub init_partition_compare-eq :
        (q : Ordering) × (init_partition_compare s t ≡ some q) × ((q ≡ eq) ↔ SameInit)
    unfolding init_partition_compare
    init_partition_compare-eq =
        let (r, ends, iff) = compare_out-eq compare_data_ptr quiet_data s t u v in
        let (q, ends', iff') = compare_states-eq s t (compare_out compare_data_ptr s t) r ends in
        (
          q,
          ends',
          (
            λ e. ((iff'.0 e).0, λ k. (compare_data_ptr-eq _ _).0 (iff.0 (iff'.0 e).1 k)),
            λ h. iff'.1 (h.0, iff.1 (λ k. (compare_data_ptr-eq _ _).1 (h.1 k))),
          ),
        )

    -- For states whose out lists ascend, `ApproxCompare::compare` returns, and it returns 0 exactly
    -- when the states agree in final status, epsilon transitions and embedded data, and on every
    -- key either both have no transition, or both go to the error state, or both go to one state
    -- with the same data. What is embedded in two error transitions is not compared.
    pub approx_compare-eq : (q : Ordering) × (approx_compare s t ≡ some q) × ((q ≡ eq) ↔ SameApprox)
    unfolding approx_compare
    approx_compare-eq =
        let (r, ends, iff) = compare_out-eq compare_full_ptr quiet_full s t u v in
        let (q, ends', iff') = compare_states-eq s t (compare_out compare_full_ptr s t) r ends in
        (
          q,
          ends',
          (
            λ e. ((iff'.0 e).0, λ k. (compare_full_ptr-eq _ _).0 (iff.0 (iff'.0 e).1 k)),
            λ h. iff'.1 (h.0, iff.1 (λ k. (compare_full_ptr-eq _ _).1 (h.1 k))),
          ),
        )
