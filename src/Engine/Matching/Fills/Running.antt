-- ===== src/Engine/Matching/Fills/Running.antt =====
-- src/app/engine/matching_engine.cpp: what is true of every fill, through all that the loop does.
use fix4_0_demo.Prelude.{
  ℕ, ◌≡◌, refl, subst, ◌&&◌, by_test, by_option, by_option_of, List, [], ◌∷◌, ◌++◌, Option, none,
  some, All, All-append, pos, Text, is_empty, Double, nought, lookup, put, AllValues-put,
  AllValues-lookup, IfSome, AllEntries-put, text_eq,
}
use fix4_0_demo.Engine.Order.{Order, OrderStatus, SessionId, is_market}
use fix4_0_demo.Engine.Events.{
  CancelRequest, OrderEvent, OrderEventType, MarketData, get_order, get_cancel_request,
}
use fix4_0_demo.Engine.OrderBook.Removal.{find_in, erase_in}
use fix4_0_demo.Engine.Matching.{
  Effect, MatchingEngine, next_exec, forget, add_to_pending_orders, pending_of,
}
use fix4_0_demo.Engine.Matching.Market.{
  match_price, can_match_buy_order, can_match_sell_order, match_pending, take_snapshot, snapshot_of,
  handle_market_data,
}
use fix4_0_demo.Engine.Matching.Requests.{
  place_order, handle_new_order, remove_from_pending_orders, cancel_in_book, handle_cancel_request,
  process_event, Turn, run_turn, run, received, snapshot_for, with_status, remember, next_order,
  or_in_book, answer_cancel,
}
use fix4_0_demo.Engine.Matching.Fills.{
  IsUntouched, IsSound, send-IsSound, execute_fill-IsSound, forget-IsSound, match_pending-IsSound,
}

module _ {W : Type 0} ⦃d : Double W⦄ (Route : Text → SessionId → Type 0) where
  -- What the queues hand out: an order is new, and its id belongs to its session.
  abbrev pub IsNew : Turn W → Type 0
  IsNew (Turn.market md) = Unit
  IsNew (Turn.event ev) =
      IfSome (λ o. (o.cum_qty ≡ pos 0) × Route o.cl_ord_id ev.session_id) (get_order ev)

  take_snapshot-IsSound :
      (md : MarketData W) (e : MatchingEngine W)
      → IsSound Route e
      → IsSound Route (take_snapshot md e)
  unfolding take_snapshot
  take_snapshot-IsSound md e h =
      by_test (IsSound Route) (e.market_data_update_callback && d.lt nought md.last_price)
        (by_test
          (λ (x : MatchingEngine W).
            IsSound Route
              (record x { effects = Effect.updated md.instrument_id md.last_price ∷ x.effects }))
          e.instrument_manager
          (record { untouched = h.untouched; mapped = h.mapped; fair = (tt, (tt, h.fair)) })
          (record { untouched = h.untouched; mapped = h.mapped; fair = (tt, h.fair) }))
        (by_test (IsSound Route) e.instrument_manager
          (record { untouched = h.untouched; mapped = h.mapped; fair = (tt, h.fair) })
          (record { untouched = h.untouched; mapped = h.mapped; fair = h.fair }))

  -- The orders that wait for an instrument replaced.
  waiting-IsSound :
      (id : Text) (orders : List (Order W)) (e : MatchingEngine W)
      → All IsUntouched orders
      → IsSound Route e
      → IsSound Route (record e { pending_orders = put id orders e.pending_orders })
  waiting-IsSound id orders e us h = record {
    untouched = AllValues-put (All IsUntouched) id orders e.pending_orders us h.untouched;
    mapped = h.mapped;
    fair = h.fair;
  }

  handle_market_data-IsSound :
      (md : MarketData W) (e : MatchingEngine W)
      → IsSound Route e
      → IsSound Route (handle_market_data md e)
  unfolding handle_market_data
  handle_market_data-IsSound md e h =
      let e' = take_snapshot md e in
      let h' = take_snapshot-IsSound md e h in
      by_option_of (IsSound Route) (lookup md.instrument_id e'.pending_orders) (λ _. h')
        (λ orders w.
          let matched =
            match_pending-IsSound Route (snapshot_of md) orders e'
              (AllValues-lookup (All IsUntouched) md.instrument_id orders e'.pending_orders
                h'.untouched w)
              h' in
          waiting-IsSound md.instrument_id _ (match_pending (snapshot_of md) orders e').1 matched.0
            matched.1)

  pending_of-IsUntouched :
      (id : Text) (e : MatchingEngine W) → IsSound Route e → All IsUntouched (pending_of id e)
  pending_of-IsUntouched id e h =
      by_option_of (All IsUntouched) (lookup id e.pending_orders) (λ _. tt)
        (λ orders w. AllValues-lookup (All IsUntouched) id orders e.pending_orders h.untouched w)

  add-IsSound :
      (o : Order W) (e : MatchingEngine W)
      → IsUntouched o
      → IsSound Route e
      → IsSound Route (add_to_pending_orders o e)
  add-IsSound o e u h =
      waiting-IsSound o.symbol (pending_of o.symbol e ++ (o ∷ [])) e
        (All-append IsUntouched (pending_of o.symbol e) (o ∷ [])
          (pending_of-IsUntouched o.symbol e h) (u, tt))
        h

  place_order-IsSound :
      (session_id : SessionId) (o : Order W) (e : MatchingEngine W)
      → IsUntouched o
      → Route o.cl_ord_id session_id
      → IsSound Route e
      → IsSound Route (place_order session_id o e)
  unfolding place_order can_match_buy_order can_match_sell_order
  place_order-IsSound session_id o e (c, l) route h =
      let h' : IsSound Route (next_exec e) = record {
        untouched = h.untouched;
        mapped = h.mapped;
        fair = h.fair;
      } in
      by_option_of (IsSound Route) (match_price o (snapshot_for o.symbol e))
        (λ _.
          by_test (IsSound Route) (is_market o.ord_type)
            (forget-IsSound Route o.cl_ord_id _
              (send-IsSound Route session_id _ (next_exec e) (refl, tt) h'))
            (add-IsSound _ _ (c, l)
              (send-IsSound Route session_id _ (next_exec e) (refl, route) h')))
        (λ price m. forget-IsSound Route o.cl_ord_id _ (
          execute_fill-IsSound Route (with_status OrderStatus.new o) (snapshot_for o.symbol e) price
            o.order_qty e c refl m h))

  handle_new_order-IsSound :
      (ev : OrderEvent W) (e : MatchingEngine W)
      → IsNew (Turn.event ev)
      → IsSound Route e
      → IsSound Route (handle_new_order ev e)
  unfolding handle_new_order
  handle_new_order-IsSound ev e new h =
      by_option_of (IsSound Route) (get_order ev) (λ _. h)
        (λ order g.
          let o = received order e.next_order_id in
          let N : Order W → Type 0 = λ x. (x.cum_qty ≡ pos 0) × Route x.cl_ord_id ev.session_id in
          let (c, route) = subst (IfSome N) g new in
          by_test (IsSound Route) (is_empty ev.user_id)
            (send-IsSound Route ev.session_id _ (next_exec (next_order e)) (refl, tt)
              (record { untouched = h.untouched; mapped = h.mapped; fair = h.fair }))
            (place_order-IsSound ev.session_id o
              (remember o.cl_ord_id ev.session_id ev.user_id (next_order e)) (c, refl) route
              (record {
                untouched = h.untouched;
                mapped =
                    AllEntries-put Route o.cl_ord_id ev.session_id e.order_session_map route
                      h.mapped;
                fair = h.fair;
              })))

  All-erase_in :
      (id : Text) (orders : List (Order W))
      → All IsUntouched orders
      → All IsUntouched (erase_in id orders)
  unfolding erase_in
  All-erase_in id [] us = tt
  All-erase_in id (o ∷ orders) (u, us) =
      by_test (All IsUntouched) (text_eq o.cl_ord_id id) us (u, All-erase_in id orders us)

  remove-IsSound :
      (symbol id : Text) (e : MatchingEngine W)
      → IsSound Route e
      → IsSound Route (remove_from_pending_orders symbol id e).1
  unfolding remove_from_pending_orders
  remove-IsSound symbol id e h =
      let P : Option (Order W) × MatchingEngine W → Type 0 = λ x. IsSound Route x.1 in
      by_option_of P (lookup symbol e.pending_orders) (λ _. h)
        (λ orders w. by_option P (find_in id orders) h (λ o.
          waiting-IsSound symbol (erase_in id orders) e
            (All-erase_in id orders
              (AllValues-lookup (All IsUntouched) symbol orders e.pending_orders h.untouched w))
            h))

  cancel_in_book-IsSound :
      (symbol id : Text) (e : MatchingEngine W)
      → IsSound Route e
      → IsSound Route (cancel_in_book symbol id e).1
  unfolding cancel_in_book
  cancel_in_book-IsSound symbol id e h =
      by_option (λ (x : Option (Order W) × MatchingEngine W). IsSound Route x.1)
        (lookup symbol e.order_books) h
        (λ book. record { untouched = h.untouched; mapped = h.mapped; fair = h.fair })

  or_in_book-IsSound :
      (symbol id : Text) (x : Option (Order W) × MatchingEngine W)
      → IsSound Route x.1
      → IsSound Route (or_in_book symbol id x).1
  or_in_book-IsSound symbol id (some o, e) h = h
  or_in_book-IsSound symbol id (none, e) h = cancel_in_book-IsSound symbol id e h

  answer_cancel-IsSound :
      (r : CancelRequest) (session_id : SessionId) (n : ℕ) (x : Option (Order W) × MatchingEngine W)
      → IsSound Route x.1
      → IsSound Route (answer_cancel r session_id n x)
  answer_cancel-IsSound r session_id n (some o, e) h =
      send-IsSound Route session_id _ (forget r.orig_cl_ord_id e) (refl, tt)
        (forget-IsSound Route r.orig_cl_ord_id e h)
  answer_cancel-IsSound r session_id n (none, e) h = send-IsSound Route session_id _ e (refl, tt) h

  handle_cancel_request-IsSound :
      (ev : OrderEvent W) (e : MatchingEngine W)
      → IsSound Route e
      → IsSound Route (handle_cancel_request ev e)
  unfolding handle_cancel_request
  handle_cancel_request-IsSound ev e h = by_option (IsSound Route) (get_cancel_request ev) h (λ r.
      answer_cancel-IsSound r ev.session_id e.next_exec_id _ (
        or_in_book-IsSound r.symbol r.orig_cl_ord_id _ (
          remove-IsSound r.symbol r.orig_cl_ord_id (next_exec e)
            (record { untouched = h.untouched; mapped = h.mapped; fair = h.fair }))))

  process_event-IsSound :
      (ev : OrderEvent W) (e : MatchingEngine W)
      → IsNew (Turn.event ev)
      → IsSound Route e
      → IsSound Route (process_event ev e)
  unfolding process_event
  process_event-IsSound ev e new h =
      elim ev.type
        as (λ t. IsSound Route (elim t [
          | OrderEventType.new_order ↦ handle_new_order ev e
          | OrderEventType.cancel_request ↦ handle_cancel_request ev e
          | OrderEventType.session_logon ↦ e
          | OrderEventType.session_logout ↦ e
        ])) [
          | OrderEventType.new_order ↦ handle_new_order-IsSound ev e new h
          | OrderEventType.cancel_request ↦ handle_cancel_request-IsSound ev e h
          | OrderEventType.session_logon ↦ h
          | OrderEventType.session_logout ↦ h
        ]

  pub run_turn-IsSound :
      (turn : Turn W) (e : MatchingEngine W)
      → IsNew turn
      → IsSound Route e
      → IsSound Route (run_turn turn e)
  run_turn-IsSound (Turn.market md) e new h =
      by_test (IsSound Route) e.running (handle_market_data-IsSound md e h) h
  run_turn-IsSound (Turn.event ev) e new h =
      by_test (IsSound Route) e.running (process_event-IsSound ev e new h) h

  -- Whatever the queues hand out to an engine of which this is true so far, if the orders are new and
  -- the id of each belongs to its session (`Route` says to which sessions an id belongs): every fill
  -- that is reported is of the whole order, with nothing left, and at a price no worse than the limit
  -- of a limit order; each acknowledgement and fill goes to a session that the id of its order
  -- belongs to; and nothing has been filled of the orders that wait.
  pub run-IsSound :
      (turns : List (Turn W)) (e : MatchingEngine W)
      → All IsNew turns
      → IsSound Route e
      → IsSound Route (run turns e)
  run-IsSound [] e new h = h
  run-IsSound (turn ∷ turns) e (new, news) h =
      run-IsSound turns (run_turn turn e) news (run_turn-IsSound turn e new h)
