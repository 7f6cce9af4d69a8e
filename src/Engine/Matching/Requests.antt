-- ===== src/Engine/Matching/Requests.antt =====
-- src/app/engine/matching_engine.cpp: orders and cancel requests, the rounds of the loop, and
-- stopping.
use fix4_0_demo.Prelude.{
  ℕ, ◌+◌, false, not, List, [], ◌∷◌, Option, none, some, if◌then◌else◌, pos, Text, codes, is_empty,
  Double, nought, lookup, put,
}
use fix4_0_demo.Engine.Order.{Order, OrderStatus, SessionId, is_buy, is_market}
use fix4_0_demo.Engine.Events.{
  CancelRequest, ExecutionReport, empty_report, OrderEvent, OrderEventType, MarketData, empty_event,
  get_order, get_cancel_request,
}
use fix4_0_demo.Engine.OrderBook.Removal.{find_in, erase_in, cancel_order}
use fix4_0_demo.Engine.Matching.{
  MatchingEngine, exec_id_of, order_id_of, send_execution_report, next_exec, forget, submit,
  add_to_pending_orders, empty_snapshot,
}
use fix4_0_demo.Engine.Matching.Market.{
  match_price, report_of, build_reject_report, execute_fill, handle_market_data,
}
use fix4_0_demo.Manager.Risk.{MarketDataSnapshot, RejectReason}

module _ {W : Type 0} where
  unfoldable pub stop : MatchingEngine W → MatchingEngine W
  unfolding submit
  stop e = if not e.running then e else submit empty_event (record e { running = false })

  -- The copy of the order that the engine works on.
  abbrev pub received : Order W → ℕ → Order W
  received o n = record o {
    order_id = order_id_of n;
    leaves_qty = o.order_qty;
    status = OrderStatus.pending_new;
  }

  abbrev pub with_status : OrderStatus → Order W → Order W
  with_status status o = record o { status = status }

  abbrev pub next_order : MatchingEngine W → MatchingEngine W
  next_order e = record e { next_order_id = e.next_order_id + 1 }

  -- `orderSessionMap_` and `orderUserMap_` take the order up.
  abbrev pub remember : Text → SessionId → Text → MatchingEngine W → MatchingEngine W
  remember id session_id user_id e = record e {
    order_session_map = put id session_id e.order_session_map;
    order_user_map = put id user_id e.order_user_map;
  }

  abbrev pub no_counter_party_text : Order W → Text
  no_counter_party_text o =
      if is_buy o.side
      then codes "No counter party (ask side empty)"
      else codes "No counter party (bid side empty)"

module _ {W : Type 0} ⦃d : Double W⦄ where
  abbrev pub reject_order :
      SessionId → Order W → RejectReason → Text → MatchingEngine W → MatchingEngine W
  reject_order session_id o reason text e =
      let report = build_reject_report o reason text in
      send_execution_report session_id (record report { exec_id = exec_id_of e.next_exec_id })
        (next_exec e)

  abbrev pub acknowledgement : Order W → ℕ → ExecutionReport W
  acknowledgement o n = record (report_of o) {
    exec_id = exec_id_of n;
    ord_status = OrderStatus.new;
    cum_qty = pos 0;
    avg_px = nought;
    leaves_qty = o.leaves_qty;
  }

  abbrev pub snapshot_for : Text → MatchingEngine W → MarketDataSnapshot W
  snapshot_for symbol e = elim (lookup symbol e.market_snapshots) [
    | none ↦ empty_snapshot symbol
    | some s ↦ s
  ]

  -- An order of a known user: filled at once, rejected, or put with the orders that wait.
  unfoldable pub place_order : SessionId → Order W → MatchingEngine W → MatchingEngine W
  place_order session_id o e = elim (match_price o (snapshot_for o.symbol e)) [
    | some price ↦
        forget o.cl_ord_id (execute_fill (with_status OrderStatus.new o) price o.order_qty e).1
    | none ↦
        if is_market o.ord_type
        then forget o.cl_ord_id
            (reject_order session_id o RejectReason.no_counter_party (no_counter_party_text o) e)
        else add_to_pending_orders (with_status OrderStatus.new o)
            (send_execution_report session_id (acknowledgement o e.next_exec_id) (next_exec e))
  ]

  unfoldable pub handle_new_order : OrderEvent W → MatchingEngine W → MatchingEngine W
  handle_new_order event e = elim (get_order event) [
    | none ↦ e
    | some order ↦
        let o = received order e.next_order_id in
        if is_empty event.user_id
        then reject_order event.session_id o RejectReason.none (codes "Invalid user identity")
            (next_order e)
        else place_order event.session_id o
            (remember o.cl_ord_id event.session_id event.user_id (next_order e))
  ]

  -- `removeFromPendingOrders`: the first order with the id, taken out.
  unfoldable pub remove_from_pending_orders :
      Text → Text → MatchingEngine W → Option (Order W) × MatchingEngine W
  remove_from_pending_orders symbol id e = elim (lookup symbol e.pending_orders) [
    | none ↦ (none, e)
    | some orders ↦ elim (find_in id orders) [
      | none ↦ (none, e)
      | some o ↦
          (some o, record e { pending_orders = put symbol (erase_in id orders) e.pending_orders })
    ]
  ]

  -- The order is looked for in the book of the symbol.
  unfoldable pub cancel_in_book :
      Text → Text → MatchingEngine W → Option (Order W) × MatchingEngine W
  cancel_in_book symbol id e = elim (lookup symbol e.order_books) [
    | none ↦ (none, e)
    | some book ↦
        let (book', canceled) = cancel_order book id in
        (canceled, record e { order_books = put symbol book' e.order_books })
  ]

  abbrev pub or_in_book :
      Text → Text → Option (Order W) × MatchingEngine W → Option (Order W) × MatchingEngine W
  or_in_book symbol id (some o, e) = (some o, e)
  or_in_book symbol id (none, e) = cancel_in_book symbol id e

  abbrev pub cancel_anywhere : Text → Text → MatchingEngine W → Option (Order W) × MatchingEngine W
  cancel_anywhere symbol id e = or_in_book symbol id (remove_from_pending_orders symbol id e)

  abbrev pub cancel_report : CancelRequest → ℕ → ExecutionReport W
  cancel_report r n = record (empty_report {W = W}) {
    cl_ord_id = r.cl_ord_id;
    orig_cl_ord_id = r.orig_cl_ord_id;
    exec_id = exec_id_of n;
    symbol = r.symbol;
  }

  abbrev pub canceled_report : CancelRequest → Order W → ℕ → ExecutionReport W
  canceled_report r o n = record (cancel_report r n) {
    order_id = o.order_id;
    side = o.side;
    order_qty = o.order_qty;
    price = o.price;
    ord_type = o.ord_type;
    ord_status = OrderStatus.canceled;
    cum_qty = o.cum_qty;
    avg_px = o.avg_px;
    leaves_qty = pos 0;
  }

  abbrev pub unknown_report : CancelRequest → ℕ → ExecutionReport W
  unknown_report r n = record (cancel_report r n) {
    ord_status = OrderStatus.rejected;
    text = codes "Order not found or already filled";
  }

  -- The report on a request, once it is known whether there was an order.
  abbrev pub answer_cancel :
      CancelRequest → SessionId → ℕ → Option (Order W) × MatchingEngine W → MatchingEngine W
  answer_cancel r session_id n (some o, e) =
      send_execution_report session_id (canceled_report r o n) (forget r.orig_cl_ord_id e)
  answer_cancel r session_id n (none, e) = send_execution_report session_id (unknown_report r n) e

  unfoldable pub handle_cancel_request : OrderEvent W → MatchingEngine W → MatchingEngine W
  handle_cancel_request event e = elim (get_cancel_request event) [
    | none ↦ e
    | some r ↦
        answer_cancel r event.session_id e.next_exec_id
          (cancel_anywhere r.symbol r.orig_cl_ord_id (next_exec e))
  ]

  unfoldable pub process_event : OrderEvent W → MatchingEngine W → MatchingEngine W
  process_event event e = elim event.type [
    | OrderEventType.new_order ↦ handle_new_order event e
    | OrderEventType.cancel_request ↦ handle_cancel_request event e
    | OrderEventType.session_logon ↦ e
    | OrderEventType.session_logout ↦ e
  ]

-- What one of the queues hands to the loop.
pub data Turn (W : Type 0) : Type 0 where
  market : MarketData W → Turn W
  event : OrderEvent W → Turn W

module _ {W : Type 0} ⦃d : Double W⦄ where
  -- What comes out of a queue after `running_` was cleared is dropped.
  abbrev pub run_turn : Turn W → MatchingEngine W → MatchingEngine W
  run_turn (Turn.market md) e = if e.running then handle_market_data md e else e
  run_turn (Turn.event ev) e = if e.running then process_event ev e else e

  abbrev pub run : List (Turn W) → MatchingEngine W → MatchingEngine W
  run [] e = e
  run (turn ∷ turns) e = run turns (run_turn turn e)
