-- ===== src/Engine/Matching/Fills.antt =====
-- src/app/engine/matching_engine.cpp: what is true of every fill that the engine reports, through
-- the loop over the orders that wait.
pub mod Running
use fix4_0_demo.Prelude.{
  ℕ, ◌≡◌, refl, sym, subst, Bool, true, false, not, ◌&&◌, ◌||◌, Bool-cases, Option-cases, inl, inr,
  by_test, by_test_of, by_option, by_option_of, List, [], ◌∷◌, ◌++◌, Option, none, some,
  if◌then◌else◌, All, All-append, ℤ, pos, ◌+ℤ◌, ◌-ℤ◌, eqb_ℤ, eqb_ℤ_refl, ltb_ℤ, int_laws, int_eq,
  arith, Text, is_empty, Double, nought, lookup, put, AllValues, AllValues-put, AllValues-lookup,
  IfSome, AllEntries, AllEntries-put, AllEntries-remove, AllEntries-lookup, text_eq,
}
use fix4_0_demo.Engine.Order.{
  Order, OrderSide, OrderType, OrderStatus, SessionId, is_buy, is_market,
}
use fix4_0_demo.Engine.Events.{
  CancelRequest, ExecutionReport, OrderEvent, OrderEventType, EventData, MarketData, get_order,
  get_cancel_request,
}
use fix4_0_demo.Engine.OrderBook.{is_zero, is_pos}
use fix4_0_demo.Engine.OrderBook.Removal.{find_in, erase_in, cancel_order}
use fix4_0_demo.Engine.Matching.{
  Effect, MatchingEngine, exec_id_of, send_execution_report, next_exec, forget, submit, start,
  add_to_pending_orders, pending_of,
}
use fix4_0_demo.Engine.Matching.Market.{
  match_price, can_match_buy_order, can_match_sell_order, filled_order, fill_report, execute_fill,
  try_match, match_pending, take_snapshot, snapshot_of, handle_market_data,
}
use fix4_0_demo.Engine.Matching.Requests.{
  place_order, handle_new_order, remove_from_pending_orders, cancel_in_book, handle_cancel_request,
  process_event, Turn, run_turn, run, received, snapshot_for, with_status, remember, next_order,
  or_in_book, answer_cancel,
}
use fix4_0_demo.Manager.Risk.{MarketDataSnapshot}

-- Of an order on which nothing has been filled.
abbrev pub IsUntouched : {W : Type 0} → Order W → Type 0
IsUntouched o = (o.cum_qty ≡ pos 0) × (o.leaves_qty ≡ o.order_qty)

module _ {W : Type 0} ⦃d : Double W⦄ where
  -- A price no worse than the order's own.
  abbrev pub within_limit : ExecutionReport W → Bool
  within_limit r =
      is_market r.ord_type
      || (if is_buy r.side then d.le r.last_px r.price else d.le r.price r.last_px)

  -- A fill is of the whole order, at a price within its limit; no order is filled in part.
  abbrev pub is_fair : ExecutionReport W → Bool
  is_fair r = elim r.ord_status [
    | OrderStatus.filled ↦
        eqb_ℤ r.last_shares r.order_qty
        && eqb_ℤ r.cum_qty r.order_qty
        && is_zero r.leaves_qty
        && within_limit r
    | OrderStatus.partially_filled ↦ false
    | _ ↦ true
  ]

  -- Which sessions the acknowledgement and the fills of an order go to.
  abbrev pub IsRouted : (Text → SessionId → Type 0) → SessionId → ExecutionReport W → Type 0
  IsRouted Route session_id r = elim r.ord_status [
    | OrderStatus.new ↦ Route r.cl_ord_id session_id
    | OrderStatus.filled ↦ Route r.cl_ord_id session_id
    | _ ↦ Unit
  ]

  match_price-within_limit :
      (o : Order W) (s : MarketDataSnapshot W) (price : W) (qty : ℤ) (n : ℕ)
      → match_price o s ≡ some price
      → within_limit (fill_report (filled_order o price qty) price qty n) ≡ true
  unfolding can_match_buy_order can_match_sell_order filled_order
  match_price-within_limit o s price qty n h = ground arith

  filled_order-whole :
      (o : Order W) (price : W) (qty : ℤ)
      → o.cum_qty ≡ pos 0
      → qty ≡ o.order_qty
      → ((filled_order o price qty).cum_qty ≡ o.order_qty)
        × ((filled_order o price qty).leaves_qty ≡ pos 0)
        × ((filled_order o price qty).status ≡ OrderStatus.filled)
  unfolding filled_order ◌+ℤ◌ ◌-ℤ◌
  filled_order-whole o price qty c q =
      let cum : (filled_order o price qty).cum_qty ≡ o.order_qty =
        omega (int_laws, int_eq c, int_eq q) in
      let left : (filled_order o price qty).leaves_qty ≡ pos 0 = omega (int_laws, int_eq cum) in
      (cum, left, rw left refl)

  fill_report-IsFair :
      (o : Order W) (s : MarketDataSnapshot W) (price : W) (qty : ℤ) (n : ℕ)
      → o.cum_qty ≡ pos 0
      → qty ≡ o.order_qty
      → match_price o s ≡ some price
      → is_fair (fill_report (filled_order o price qty) price qty n) ≡ true
  unfolding filled_order
  fill_report-IsFair o s price qty n c q m = ground (
    arith,
    filled_order-whole o price qty c q,
    match_price-within_limit o s price qty n m,
    eqb_ℤ_refl o.order_qty,
  )

  -- A fill has the status of a whole order.
  fill_report-IsRouted :
      (Route : Text → SessionId → Type 0) (session_id : SessionId) (o : Order W) (price : W)
      (qty : ℤ) (n : ℕ)
      → o.cum_qty ≡ pos 0
      → qty ≡ o.order_qty
      → Route o.cl_ord_id session_id
      → IsRouted Route session_id (fill_report (filled_order o price qty) price qty n)
  unfolding filled_order
  fill_report-IsRouted Route session_id o price qty n c q h =
      rw ((filled_order-whole o price qty c q).2) h

  -- What sending leaves alone.
  pub sessions-send :
      (session_id : SessionId) (r : ExecutionReport W) (e : MatchingEngine W)
      → (send_execution_report session_id r e).order_session_map ≡ e.order_session_map
  unfolding send_execution_report
  sessions-send session_id r e =
      by_test (λ (x : MatchingEngine W). x.order_session_map ≡ e.order_session_map)
        e.exec_report_callback refl refl

  pub pending-send :
      (session_id : SessionId) (r : ExecutionReport W) (e : MatchingEngine W)
      → (send_execution_report session_id r e).pending_orders ≡ e.pending_orders
  unfolding send_execution_report
  pending-send session_id r e =
      by_test (λ (x : MatchingEngine W). x.pending_orders ≡ e.pending_orders) e.exec_report_callback
        refl refl

module _ {W : Type 0} ⦃d : Double W⦄ (Route : Text → SessionId → Type 0) where
  abbrev pub IsFair : Effect W → Type 0
  IsFair (Effect.reported session_id r) = (is_fair r ≡ true) × IsRouted Route session_id r
  IsFair _ = Unit

  pub record IsSound (e : MatchingEngine W) : Type 0 where
    pub untouched : AllValues (All IsUntouched) e.pending_orders
    pub mapped : AllEntries Route e.order_session_map
    pub fair : All IsFair e.effects

  AreFair-send :
      (session_id : SessionId) (r : ExecutionReport W) (e : MatchingEngine W)
      → IsFair (Effect.reported session_id r)
      → All IsFair e.effects
      → All IsFair (send_execution_report session_id r e).effects
  unfolding send_execution_report
  AreFair-send session_id r e f h =
      by_test (λ (x : MatchingEngine W). All IsFair x.effects) e.exec_report_callback (f, h) h

  pub send-IsSound :
      (session_id : SessionId) (r : ExecutionReport W) (e : MatchingEngine W)
      → IsFair (Effect.reported session_id r)
      → IsSound e
      → IsSound (send_execution_report session_id r e)
  send-IsSound session_id r e f h = record {
    untouched = rw (pending-send session_id r e) h.untouched;
    mapped = rw (sessions-send session_id r e) h.mapped;
    fair = AreFair-send session_id r e f h.fair;
  }

  pub execute_fill-IsSound :
      (o : Order W) (s : MarketDataSnapshot W) (price : W) (qty : ℤ) (e : MatchingEngine W)
      → o.cum_qty ≡ pos 0
      → qty ≡ o.order_qty
      → match_price o s ≡ some price
      → IsSound e
      → IsSound (execute_fill o price qty e).1
  unfolding execute_fill filled_order
  execute_fill-IsSound o s price qty e c q m h =
      by_option_of (λ (x : Order W × MatchingEngine W). IsSound x.1)
        (lookup o.cl_ord_id e.order_session_map) (λ _. h)
        (λ session_id found.
          send-IsSound session_id _ (next_exec e)
            (
              fill_report-IsFair o s price qty e.next_exec_id c q m,
              fill_report-IsRouted Route session_id o price qty e.next_exec_id c q (
                  AllEntries-lookup Route o.cl_ord_id session_id e.order_session_map h.mapped
                    found),
            )
            (record { untouched = h.untouched; mapped = h.mapped; fair = h.fair }))

  try_match-IsSound :
      (o : Order W) (s : MarketDataSnapshot W) (e : MatchingEngine W)
      → IsUntouched o
      → IsSound e
      → IsSound (try_match o s e).1
  unfolding try_match
  try_match-IsSound o s e (c, l) h =
      by_option_of (λ (x : Bool × MatchingEngine W). IsSound x.1) (match_price o s) (λ _. h)
        (λ price m. execute_fill-IsSound o s price o.leaves_qty e c l m h)

  pub forget-IsSound : (id : Text) (e : MatchingEngine W) → IsSound e → IsSound (forget id e)
  forget-IsSound id e h = record {
    untouched = h.untouched;
    mapped = AllEntries-remove Route id e.order_session_map h.mapped;
    fair = h.fair;
  }

  pub match_pending-IsSound :
      (s : MarketDataSnapshot W) (orders : List (Order W)) (e : MatchingEngine W)
      → All IsUntouched orders
      → IsSound e
      → All IsUntouched (match_pending s orders e).0 × IsSound (match_pending s orders e).1
  unfolding match_pending
  match_pending-IsSound s [] e us h = (tt, h)
  match_pending-IsSound s (o ∷ orders) e (u, us) h =
      let e' = (try_match o s e).1 in
      let h' = try_match-IsSound o s e u h in
      elim (Bool-cases (try_match o s e).0) [
        | inl m ↦ rw m (
            match_pending-IsSound s orders (forget o.cl_ord_id e') us
              (forget-IsSound o.cl_ord_id e' h'))
        | inr m ↦ let rest = match_pending-IsSound s orders e' us h' in rw m ((u, rest.0), rest.1)
      ]
