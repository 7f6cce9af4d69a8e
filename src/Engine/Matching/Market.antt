-- ===== src/Engine/Matching/Market.antt =====
-- src/app/engine/matching_engine.cpp: market data, and the fills that they bring.
use fix4_0_demo.Prelude.{
  ℕ, Bool, true, false, not, ◌&&◌, List, [], ◌∷◌, Option, none, some, if◌then◌else◌, ℤ, ◌+ℤ◌, ◌-ℤ◌,
  Text, Double, nought, lookup, put,
}
use fix4_0_demo.Engine.Order.{Order, OrderStatus, is_buy, is_market}
use fix4_0_demo.Engine.Events.{ExecutionReport, empty_report, MarketData}
use fix4_0_demo.Engine.OrderBook.{is_zero, is_pos}
use fix4_0_demo.Manager.Risk.{MarketDataSnapshot, RejectReason, has_bid, has_ask}
use fix4_0_demo.Engine.Matching.{
  Effect, MatchingEngine, emit, exec_id_of, forget, next_exec, reason_code, send_execution_report,
}

module _ {W : Type 0} ⦃d : Double W⦄ where
  unfoldable pub can_match_buy_order : Order W → MarketDataSnapshot W → Bool
  can_match_buy_order o s =
      if not (has_ask s)
      then false
      else if is_market o.ord_type
      then true
      else d.le s.ask_price o.price

  unfoldable pub can_match_sell_order : Order W → MarketDataSnapshot W → Bool
  can_match_sell_order o s =
      if not (has_bid s)
      then false
      else if is_market o.ord_type
      then true
      else d.le o.price s.bid_price

  -- The price at which an order is filled now, if it is.
  abbrev pub match_price : Order W → MarketDataSnapshot W → Option W
  match_price o s =
      if is_buy o.side
      then (if can_match_buy_order o s then some s.ask_price else none)
      else (if can_match_sell_order o s then some s.bid_price else none)

  -- The fields of a report that come from the order.
  abbrev pub report_of : Order W → ExecutionReport W
  report_of o = record (empty_report {W = W}) {
    order_id = o.order_id;
    cl_ord_id = o.cl_ord_id;
    symbol = o.symbol;
    side = o.side;
    order_qty = o.order_qty;
    price = o.price;
    ord_type = o.ord_type;
  }

  abbrev pub build_reject_report : Order W → RejectReason → Text → ExecutionReport W
  build_reject_report o reason text = record (report_of o) {
    ord_status = OrderStatus.rejected;
    ord_rej_reason = reason_code reason;
    text = text;
  }

  -- The order after a fill.
  unfoldable pub filled_order : Order W → W → ℤ → Order W
  filled_order o price qty =
      let cum = o.cum_qty +ℤ qty in
      let leaves = o.order_qty -ℤ cum in
      record o {
        cum_qty = cum;
        leaves_qty = leaves;
        avg_px =
            if is_pos cum
            then d.div (d.add (d.mul o.avg_px (d.of_int o.cum_qty)) (d.mul price (d.of_int qty)))
                (d.of_int cum)
            else o.avg_px;
        status = if is_zero leaves then OrderStatus.filled else OrderStatus.partially_filled;
      }

  abbrev pub fill_report : Order W → W → ℤ → ℕ → ExecutionReport W
  fill_report o price qty n = record (report_of o) {
    exec_id = exec_id_of n;
    ord_status = o.status;
    cum_qty = o.cum_qty;
    avg_px = o.avg_px;
    leaves_qty = o.leaves_qty;
    last_shares = qty;
    last_px = price;
  }

  -- The fill is reported to the session that the order's id is mapped to, if there is one.
  unfoldable pub execute_fill : Order W → W → ℤ → MatchingEngine W → Order W × MatchingEngine W
  execute_fill o price qty e =
      let o' = filled_order o price qty in
      elim (lookup o'.cl_ord_id e.order_session_map) [
        | none ↦ (o', e)
        | some session_id ↦ (
          o',
          send_execution_report session_id (fill_report o' price qty e.next_exec_id) (next_exec e),
        )
      ]

  unfoldable pub try_match :
      Order W → MarketDataSnapshot W → MatchingEngine W → Bool × MatchingEngine W
  try_match o s e = elim (match_price o s) [
    | none ↦ (false, e)
    | some price ↦ (true, (execute_fill o price o.leaves_qty e).1)
  ]

  -- The loop over the orders that wait for the instrument: those that go on waiting.
  unfoldable pub match_pending :
      MarketDataSnapshot W → List (Order W) → MatchingEngine W → List (Order W) × MatchingEngine W
  match_pending s [] e = ([], e)
  match_pending s (o ∷ orders) e =
      let (matched, e') = try_match o s e in
      let (kept, e'') = match_pending s orders (if matched then forget o.cl_ord_id e' else e') in
      (if matched then kept else o ∷ kept, e'')

  abbrev pub snapshot_of : MarketData W → MarketDataSnapshot W
  snapshot_of md = record {
    instrument_id = md.instrument_id;
    last_price = md.last_price;
    bid_price = md.bid_price;
    bid_volume = md.bid_volume;
    ask_price = md.ask_price;
    ask_volume = md.ask_volume;
    upper_limit_price = md.upper_limit_price;
    lower_limit_price = md.lower_limit_price;
  }

  -- The snapshot is kept, and the instrument manager and the callback are told.
  unfoldable pub take_snapshot : MarketData W → MatchingEngine W → MatchingEngine W
  take_snapshot md e =
      let kept : MatchingEngine W = record e {
        market_snapshots = put md.instrument_id (snapshot_of md) e.market_snapshots;
      } in
      let limited =
        if e.instrument_manager
        then emit (Effect.limits md.instrument_id md.upper_limit_price md.lower_limit_price) kept
        else kept in
      if e.market_data_update_callback && d.lt nought md.last_price
      then emit (Effect.updated md.instrument_id md.last_price) limited
      else limited

  unfoldable pub handle_market_data : MarketData W → MatchingEngine W → MatchingEngine W
  handle_market_data md e =
      let e' = take_snapshot md e in
      elim (lookup md.instrument_id e'.pending_orders) [
        | none ↦ e'
        | some orders ↦
            let (kept, e'') = match_pending (snapshot_of md) orders e' in
            record e'' { pending_orders = put md.instrument_id kept e''.pending_orders }
      ]
