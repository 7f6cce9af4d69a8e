-- ===== src/Engine/Matching/Cancelling.antt =====
-- src/app/engine/matching_engine.cpp: an order that waits, and the request that cancels it.
use fix4_0_demo.Prelude.{
  ◌+◌, ◌≡◌, refl, ap, ◌∙◌, true, false, Bool-cases, inl, inr, List, [], ◌∷◌, ◌++◌, none, some,
  if◌then◌else◌, Text, text_eq, text_eq_refl, is_empty, Double, lookup, put, lookup-put_self,
}
use fix4_0_demo.Engine.Order.{Order, OrderStatus, SessionId, is_market}
use fix4_0_demo.Engine.Events.{
  CancelRequest, ExecutionReport, new_order_event, cancel_request_event,
}
use fix4_0_demo.Engine.OrderBook.Removal.{find_in, erase_in}
use fix4_0_demo.Engine.Matching.{
  Effect, MatchingEngine, emit, send_execution_report, pending_of, add_to_pending_orders, next_exec,
  forget,
}
use fix4_0_demo.Engine.Matching.Market.{match_price, can_match_buy_order, can_match_sell_order}
use fix4_0_demo.Engine.Matching.Waiting.{list_of}
use fix4_0_demo.Engine.Matching.Requests.{
  received, with_status, next_order, remember, snapshot_for, acknowledgement, place_order,
  handle_new_order, remove_from_pending_orders, canceled_report, or_in_book, answer_cancel,
  handle_cancel_request,
}

module _ {W : Type 0} ⦃d : Double W⦄ where
  find_in-last :
      (id : Text) (orders : List (Order W)) (o : Order W)
      → find_in id orders ≡ none
      → text_eq o.cl_ord_id id ≡ true
      → (find_in id (orders ++ (o ∷ [])) ≡ some o) × (erase_in id (orders ++ (o ∷ [])) ≡ orders)
  unfolding find_in erase_in
  find_in-last id [] o h t = rw t (refl, refl)
  find_in-last id (p ∷ orders) o h t = elim (Bool-cases (text_eq p.cl_ord_id id)) [
    | inl e ↦ cc (rw e at h)
    | inr e ↦ let (q, r) = find_in-last id orders o (rw e at h) t in rw e (q, ap (◌∷◌ p) r)
  ]

  -- The order as it waits.
  abbrev pub waiting_order : Order W → MatchingEngine W → Order W
  waiting_order o e = with_status OrderStatus.new (received o e.next_order_id)

  -- The engine after an order began to wait.
  abbrev pub with_waiting : Order W → Text → MatchingEngine W → MatchingEngine W
  with_waiting o user_id e = add_to_pending_orders (waiting_order o e) (
      emit (Effect.reported o.session_id (acknowledgement (waiting_order o e) e.next_exec_id))
        (next_exec (remember o.cl_ord_id o.session_id user_id (next_order e))))

  place_order-waits :
      (session_id : SessionId) (o : Order W) (e : MatchingEngine W)
      → is_market o.ord_type ≡ false
      → match_price o (snapshot_for o.symbol e) ≡ none
      → e.exec_report_callback ≡ true
      → place_order session_id o e
        ≡ add_to_pending_orders
            (with_status OrderStatus.new o)
            (emit (Effect.reported session_id (acknowledgement o e.next_exec_id)) (next_exec e))
  unfolding place_order send_execution_report
  place_order-waits session_id o e l m c = rw (m, place_order) (rw l (rw c refl))

  -- A limit order of a known user that the snapshot does not fill is acknowledged to its session,
  -- and waits behind the other orders of its symbol.
  pub handle_new_order-waits :
      (o : Order W) (user_id : Text) (e : MatchingEngine W)
      → is_empty user_id ≡ false
      → is_market o.ord_type ≡ false
      → match_price o (snapshot_for o.symbol e) ≡ none
      → e.exec_report_callback ≡ true
      → handle_new_order (new_order_event o user_id) e ≡ with_waiting o user_id e
  unfolding handle_new_order can_match_buy_order can_match_sell_order
  handle_new_order-waits o user_id e u l m c = rw u (
      place_order-waits o.session_id (received o e.next_order_id)
        (remember o.cl_ord_id o.session_id user_id (next_order e)) l m c)

  remove-waiting :
      (id : Text) (orders : List (Order W)) (o : Order W) (e : MatchingEngine W)
      → lookup o.symbol e.pending_orders ≡ some (orders ++ (o ∷ []))
      → find_in id orders ≡ none
      → text_eq o.cl_ord_id id ≡ true
      → remove_from_pending_orders o.symbol id e
        ≡ (some o, record e { pending_orders = put o.symbol orders e.pending_orders })
  unfolding remove_from_pending_orders
  remove-waiting id orders o e h f t =
      let (q, r) = find_in-last id orders o f t in
      rw (h, remove_from_pending_orders) (rw q (rw r refl))

  send_on :
      (session_id : SessionId) (r : ExecutionReport W) (e : MatchingEngine W)
      → e.exec_report_callback ≡ true
      → send_execution_report session_id r e ≡ emit (Effect.reported session_id r) e
  unfolding send_execution_report
  send_on session_id r e c = ap (λ b. if b then emit (Effect.reported session_id r) e else e) c

  -- A request for an order that is there.
  handle_cancel_request-found :
      (r : CancelRequest) (user_id : Text) (o : Order W) (e e' : MatchingEngine W)
      → remove_from_pending_orders r.symbol r.orig_cl_ord_id (next_exec e) ≡ (some o, e')
      → handle_cancel_request (cancel_request_event r user_id) e
        ≡ send_execution_report r.session_id
            (canceled_report r o e.next_exec_id)
            (forget r.orig_cl_ord_id e')
  unfolding handle_cancel_request
  handle_cancel_request-found r user_id o e e' h =
      ap (λ x. answer_cancel r r.session_id e.next_exec_id (or_in_book r.symbol r.orig_cl_ord_id x))
        h

  handle_cancel_request-last :
      (r : CancelRequest) (user_id : Text) (orders : List (Order W)) (o : Order W)
      (e : MatchingEngine W)
      → lookup o.symbol e.pending_orders ≡ some (orders ++ (o ∷ []))
      → find_in o.cl_ord_id orders ≡ none
      → e.exec_report_callback ≡ true
      → r.symbol ≡ o.symbol
      → r.orig_cl_ord_id ≡ o.cl_ord_id
      → handle_cancel_request (cancel_request_event r user_id) e
        ≡ emit (Effect.reported r.session_id (canceled_report r o e.next_exec_id)) (
            forget o.cl_ord_id (record e {
              next_exec_id = e.next_exec_id + 1;
              pending_orders = put o.symbol orders e.pending_orders;
            }))
  handle_cancel_request-last r user_id orders o e h f c s i =
      let e' : MatchingEngine W = record (next_exec e) {
        pending_orders = put o.symbol orders e.pending_orders;
      } in
      handle_cancel_request-found r user_id o e e' (
        rw (s, i)
          (remove-waiting o.cl_ord_id orders o (next_exec e) h f (text_eq_refl o.cl_ord_id)))
      ∙ send_on r.session_id (canceled_report r o e.next_exec_id) (forget r.orig_cl_ord_id e') c
      ∙ ap
          (λ id.
            emit (Effect.reported r.session_id (canceled_report r o e.next_exec_id)) (forget id e'))
          i

  -- A limit order of a known user that cannot be filled at once, with no other order of its id
  -- waiting for its symbol, and a request to cancel it, in an engine whose reports someone takes:
  -- the orders of the symbol that wait are as before, the order's session had an acknowledgement,
  -- and the session of the request has a report that the order is canceled.
  pub handle_cancel_request-waiting :
      (o : Order W) (r : CancelRequest) (user_id : Text) (e : MatchingEngine W)
      → is_empty user_id ≡ false
      → is_market o.ord_type ≡ false
      → match_price o (snapshot_for o.symbol e) ≡ none
      → e.exec_report_callback ≡ true
      → r.symbol ≡ o.symbol
      → r.orig_cl_ord_id ≡ o.cl_ord_id
      → find_in o.cl_ord_id (pending_of o.symbol e) ≡ none
      → let canceled =
          handle_cancel_request
            (cancel_request_event r user_id)
            (handle_new_order (new_order_event o user_id) e) in
        (pending_of o.symbol canceled ≡ pending_of o.symbol e)
        × (canceled.effects
            ≡ Effect.reported r.session_id
                (canceled_report r (waiting_order o e) (e.next_exec_id + 1))
              ∷ Effect.reported o.session_id (acknowledgement (waiting_order o e) e.next_exec_id)
              ∷ e.effects)
  handle_cancel_request-waiting o r user_id e u l m c s i f =
      let before = pending_of o.symbol e in
      let w = waiting_order o e in
      rw (handle_new_order-waits o user_id e u l m c) (
        rw
          (handle_cancel_request-last r user_id before w (with_waiting o user_id e)
            (lookup-put_self o.symbol (before ++ (w ∷ [])) e.pending_orders) f c s i)
          (ap list_of (lookup-put_self o.symbol before _), refl))
