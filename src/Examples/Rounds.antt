-- ===== src/Examples/Rounds.antt =====
-- The rounds of minimization of src/fsmmin.cc on three states.
use mathlib.Core.Option
use mathlib.Core.Path.{subst}
use colm.Prelude.{
  ℕ, zero, suc, ◌<◌, ◌≡◌, ◌⊎◌, refl, ap, List, [], ◌∷◌, true, false, none, some, arith, get_elem?,
  min,
}
use colm.Ranges.{range, lookup, IsAscending}
use colm.Fsm.{FsmTrans, FsmState}
use colm.MarkIndex.{MarkIndex, is_pair_marked}
use colm.Mark.Targets.{HasTargets}
use colm.PairIter.Loop.{pair_loop}
use colm.Compare.{cmp_table}
use colm.Fsm.Compare.{init_partition_compare}
use colm.Mark.{should_mark}
use colm.Mark.Rounds.{initial_mark, mark_step, minimize_marks}
use colm.Mark.Run.{Told, Indistinct}
use colm.Mark.Words.{minimize_marks-Indistinct}

abbrev to_final : ℕ → FsmState
to_final address = record {
  is_fin_state = false;
  out_list =
      range 10 20
        (record { to_state = address; action_table = []; prior_table = []; lm_action_table = [] })
      ∷ [];
  epsilon_trans = [];
  out_prior_table = [];
  to_state_action_table = [];
  from_state_action_table = [];
  out_action_table = [];
  out_cond_set = [];
  err_action_table = [];
  eof_action_table = [];
}

abbrev final_state : FsmState
final_state = record (to_final 0) { is_fin_state = true; out_list = [] }

-- The addresses from 2 on are those of the last state.
abbrev graph : List FsmState
graph = to_final 2 ∷ to_final 3 ∷ final_state ∷ []

abbrev num : ℕ → ℕ
num address = min address 2

to_final-HasTargets : (a : ℕ) → 0 < a → HasTargets (to_final a)
to_final-HasTargets a pos k t h e =
    let g : Option.map (λ (x : FsmTrans). x.to_state) (lookup k (to_final a).out_list)
        ≡ some t.to_state =
      ap (Option.map (λ x. x.to_state)) h in
    ground arith

final_state-HasTargets : HasTargets final_state
final_state-HasTargets k t h e = let x : none ≡ some t = h in cc

graph_fit :
    (i : ℕ) (s : FsmState) → get_elem? graph i ≡ some s → IsAscending 0 s.out_list × HasTargets s
graph_fit zero s h =
    let e : to_final 2 ≡ s = cc in
    subst (λ (x : FsmState). IsAscending 0 x.out_list × HasTargets x) e
      (omega arith, to_final-HasTargets 2 (omega arith))
graph_fit (suc zero) s h =
    let e : to_final 3 ≡ s = cc in
    subst (λ (x : FsmState). IsAscending 0 x.out_list × HasTargets x) e
      (omega arith, to_final-HasTargets 3 (omega arith))
graph_fit (suc (suc zero)) s h =
    let e : final_state ≡ s = cc in
    subst (λ (x : FsmState). IsAscending 0 x.out_list × HasTargets x) e
      (omega arith, final_state-HasTargets)
graph_fit (suc (suc (suc i))) s h = let x : none ≡ some s = h in absurd cc

minimize_marks-Indistinct_example :
    (m : MarkIndex) × (minimize_marks num graph ≡ some m)
    × (((is_pair_marked m 1 0 ≡ some true) × Told num graph 1 0)
        ⊎ ((is_pair_marked m 1 0 ≡ some false) × Indistinct num graph 1 0))
minimize_marks-Indistinct_example =
    minimize_marks-Indistinct num graph (λ a. omega arith) graph_fit (omega arith) 1 0 (omega arith)
      (omega arith)

-- Only the pairs with the final state are marked.
graph_marks :
    Option.map (λ (m : MarkIndex). m.array) (minimize_marks num graph)
    ≡ some (false ∷ false ∷ false ∷ false ∷ false ∷ false ∷ true ∷ true ∷ false ∷ [])
unfolding minimize_marks initial_mark init_partition_compare cmp_table pair_loop mark_step
    is_pair_marked should_mark
graph_marks = refl
