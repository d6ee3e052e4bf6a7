-- ===== src/Fsm.antt =====
-- src/fsmgraph.h: the data of a finite state machine: the tables that transitions and states
-- carry, `FsmTrans` and `FsmState`, as far as the comparisons read them.
--
-- A pointer to an `Action`, a `TokenInstance`, a `PriorDesc` or a state is its address, and the
-- null pointer is 0. Actions and tokens are nowhere read through their pointers here.
pub mod Order
pub mod Compare
pub mod Equal
pub mod Partition
use Prim.Native.Nat.{Ordering}
use Prim.Native.Nat.Ordering.{lt, eq, gt}
use colm.Prelude.{ℕ, List, Bool, ltb, if◌then◌else◌}
use colm.Ranges.{Range}

-- `SBstMapEl< int, Action* >` and `SBstMapEl< int, TokenInstance* >`
pub record ActionTableEl : Type 0 where
  pub key : ℕ
  pub value : ℕ

-- `ErrActionTableEl`
pub record ErrActionTableEl : Type 0 where
  pub ordering : ℕ
  pub action : ℕ
  pub transfer_point : ℕ

-- `PriorDesc`, and `PriorEl` with the address of its descriptor
pub record PriorDesc : Type 0 where
  pub key : ℕ
  pub priority : ℕ

pub record PriorEl : Type 0 where
  pub ordering : ℕ
  pub desc : ℕ

-- `FsmTrans`; its keys stand in the `Range` around it
pub record FsmTrans : Type 0 where
  pub to_state : ℕ
  pub action_table : List ActionTableEl
  pub prior_table : List PriorEl
  pub lm_action_table : List ActionTableEl

-- `FsmState`
pub record FsmState : Type 0 where
  pub is_fin_state : Bool
  pub out_list : List (Range FsmTrans)
  pub epsilon_trans : List ℕ
  pub out_prior_table : List PriorEl
  pub to_state_action_table : List ActionTableEl
  pub from_state_action_table : List ActionTableEl
  pub out_action_table : List ActionTableEl
  pub out_cond_set : List ℕ
  pub err_action_table : List ErrActionTableEl
  pub eof_action_table : List ActionTableEl

-- `CmpActionTableEl::compare` and `CmpLmActionTableEl::compare`
unfoldable pub cmp_action_table_el : ActionTableEl → ActionTableEl → Ordering
cmp_action_table_el action1 action2 =
    if ltb action1.key action2.key
    then lt
    else if ltb action2.key action1.key
    then gt
    else if ltb action1.value action2.value
    then lt
    else if ltb action2.value action1.value
    then gt
    else eq

-- `CmpErrActionTableEl::compare`
unfoldable pub cmp_err_action_table_el : ErrActionTableEl → ErrActionTableEl → Ordering
cmp_err_action_table_el action1 action2 =
    if ltb action1.ordering action2.ordering
    then lt
    else if ltb action2.ordering action1.ordering
    then gt
    else if ltb action1.action action2.action
    then lt
    else if ltb action2.action action1.action
    then gt
    else if ltb action1.transfer_point action2.transfer_point
    then lt
    else if ltb action2.transfer_point action1.transfer_point
    then gt
    else eq

-- `CmpPriorEl::compare`
unfoldable pub cmp_prior_el : PriorEl → PriorEl → Ordering
cmp_prior_el pel1 pel2 =
    if ltb pel1.desc pel2.desc
    then lt
    else if ltb pel2.desc pel1.desc
    then gt
    else if ltb pel1.ordering pel2.ordering
    then lt
    else if ltb pel2.ordering pel1.ordering
    then gt
    else eq
