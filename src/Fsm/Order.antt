-- ===== src/Fsm/Order.antt =====
-- The element comparisons of src/fsmgraph.h are strict total orders.
use colm.Prelude.{arith}
use colm.Compare.Laws.{IsCompare}
use colm.Fsm.{cmp_action_table_el, cmp_err_action_table_el, cmp_prior_el}

-- The comparison of action table elements, by ordering and then by address,
-- is a strict total order that answers 0 for equal elements only.
pub cmp_action_table_el-IsCompare : IsCompare cmp_action_table_el
unfolding cmp_action_table_el
cmp_action_table_el-IsCompare = record {
  cmp_refl = λ a. ground arith;
  eq_of_cmp = λ a b h. ground arith;
  cmp_flip = λ a b. ground arith;
  lt_trans = λ a b c h k. ground arith;
}

-- The comparison of error action table elements, by ordering, action and transfer
-- point,
-- is a strict total order that answers 0 for equal elements only.
pub cmp_err_action_table_el-IsCompare : IsCompare cmp_err_action_table_el
unfolding cmp_err_action_table_el
cmp_err_action_table_el-IsCompare = record {
  cmp_refl = λ a. ground arith;
  eq_of_cmp = λ a b h. ground arith;
  cmp_flip = λ a b. ground arith;
  lt_trans = λ a b c h k. ground arith;
}

-- The comparison of priority elements, by descriptor and then by ordering,
-- is a strict total order that answers 0 for equal elements only.
pub cmp_prior_el-IsCompare : IsCompare cmp_prior_el
unfolding cmp_prior_el
cmp_prior_el-IsCompare = record {
  cmp_refl = λ a. ground arith;
  eq_of_cmp = λ a b h. ground arith;
  cmp_flip = λ a b. ground arith;
  lt_trans = λ a b c h k. ground arith;
}
