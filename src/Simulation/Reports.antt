-- ===== src/Simulation/Reports.antt =====
-- include/fix/fix_message_builder.hpp: an execution report as a message. Its time is an argument.
use fix4_0_demo.Prelude.{
  ◌&&◌, Bool, true, false, [], if◌then◌else◌, not, Text, codes, is_empty, ℤ, pos, ltb_ℤ, eqb_ℤ,
  print_ℤ, Double, nought, DoubleText,
}
use fix4_0_demo.Fix.Tags
use fix4_0_demo.Fix.Message.{FixMessage, set}
use fix4_0_demo.Engine.Order.{OrderSide, OrderType, OrderStatus, ExecTransType, is_limit}
use fix4_0_demo.Engine.Events.{ExecutionReport}

abbrev pub side_to_fix : OrderSide → Text
side_to_fix OrderSide.buy = codes "1"
side_to_fix OrderSide.sell = codes "2"

abbrev pub ord_type_to_fix : OrderType → Text
ord_type_to_fix OrderType.market = codes "1"
ord_type_to_fix OrderType.limit = codes "2"

abbrev pub ord_status_to_fix : OrderStatus → Text
ord_status_to_fix OrderStatus.new = codes "0"
ord_status_to_fix OrderStatus.partially_filled = codes "1"
ord_status_to_fix OrderStatus.filled = codes "2"
ord_status_to_fix OrderStatus.canceled = codes "4"
ord_status_to_fix OrderStatus.pending_cancel = codes "6"
ord_status_to_fix OrderStatus.rejected = codes "8"
ord_status_to_fix OrderStatus.pending_new = codes "A"

abbrev pub exec_trans_type_to_fix : ExecTransType → Text
exec_trans_type_to_fix ExecTransType.new = codes "0"
exec_trans_type_to_fix ExecTransType.cancel = codes "1"
exec_trans_type_to_fix ExecTransType.correct = codes "2"
exec_trans_type_to_fix ExecTransType.status = codes "3"

abbrev pub is_rejected : OrderStatus → Bool
is_rejected OrderStatus.rejected = true
is_rejected _ = false

-- A field that is set under a condition.
abbrev pub set_if : Bool → ℤ → Text → FixMessage → FixMessage
set_if test tag value msg = if test then set tag value msg else msg

module _ {W : Type 0} ⦃d : Double W⦄ ⦃t : DoubleText W⦄ where
  -- The identifiers, the execution and the order.
  unfoldable pub order_fields : ExecutionReport W → FixMessage
  order_fields r =
      let ids = set_if (not (is_empty r.orig_cl_ord_id)) Tags.orig_cl_ord_id r.orig_cl_ord_id (
        set Tags.exec_id r.exec_id (
          set Tags.cl_ord_id r.cl_ord_id
            (set Tags.order_id r.order_id (set Tags.msg_type (codes "8") [])))) in
      let order = set Tags.order_qty (print_ℤ r.order_qty) (
        set Tags.side (side_to_fix r.side) (
          set Tags.symbol r.symbol (
            set Tags.ord_status (ord_status_to_fix r.ord_status)
              (set Tags.exec_trans_type (exec_trans_type_to_fix r.exec_trans_type) ids)))) in
      set Tags.ord_type (ord_type_to_fix r.ord_type)
        (set_if (is_limit r.ord_type && d.lt nought r.price) Tags.price (t.fixed 6 r.price) order)

  unfoldable pub build_execution_report : Text → ExecutionReport W → FixMessage
  unfolding order_fields
  build_execution_report transact_time r =
      let done =
        set Tags.avg_px (t.fixed 6 r.avg_px)
          (set Tags.cum_qty (print_ℤ r.cum_qty) (order_fields r)) in
      let filled = ltb_ℤ (pos 0) r.last_shares in
      let last =
        set_if filled Tags.last_px (t.fixed 6 r.last_px)
          (set_if filled Tags.last_shares (print_ℤ r.last_shares) done) in
      let timed = set Tags.transact_time transact_time last in
      let reasoned =
        set_if (is_rejected r.ord_status && not (eqb_ℤ r.ord_rej_reason (pos 0)))
          Tags.ord_rej_reason (print_ℤ r.ord_rej_reason) timed in
      set_if (not (is_empty r.text)) Tags.text r.text reasoned
