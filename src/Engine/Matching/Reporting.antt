-- ===== src/Engine/Matching/Reporting.antt =====
-- src/app/engine/matching_engine.cpp: market data, and who is told of the fills.
use fix4_0_demo.Prelude.{
  ℕ, ◌≡◌, refl, ap, ◌∙◌, subst, Bool, true, false, by_test, by_option, List, [], ◌∷◌, some, text_eq,
  Double, All, All-Memᴰ, lookup, lookup-remove, ℤ, arith,
}
use mathlib.Core.List
use mathlib.Core.List.{Memᴰ}
use fix4_0_demo.Engine.Order.{Order, SessionId}
use fix4_0_demo.Engine.Events.{ExecutionReport, MarketData}
use fix4_0_demo.Engine.Matching.{
  Effect, MatchingEngine, emit, send_execution_report, next_exec, forget,
}
use fix4_0_demo.Engine.Matching.Market.{
  match_price, filled_order, fill_report, execute_fill, try_match, match_pending, take_snapshot,
  snapshot_of, handle_market_data,
}
use fix4_0_demo.Manager.Risk.{MarketDataSnapshot}

module _ {W : Type 0} where
  -- No two of the orders have the same id.
  abbrev pub AreDistinct : List (Order W) → Type 0
  AreDistinct [] = Unit
  AreDistinct (o ∷ orders) =
      All (λ p. text_eq o.cl_ord_id p.cl_ord_id ≡ false) orders × AreDistinct orders

module _ {W : Type 0} ⦃d : Double W⦄ where
  -- The fill of a waiting order, reported to this session.
  abbrev pub fill_of : SessionId → Order W → W → ℕ → Effect W
  fill_of session_id o price n =
      Effect.reported session_id
        (fill_report (filled_order o price o.leaves_qty) price o.leaves_qty n)

  -- What trying to match may change: an effect may be added.
  record Follows (e e' : MatchingEngine W) : Type 0 where
    sessions : e'.order_session_map ≡ e.order_session_map
    callback : e'.exec_report_callback ≡ e.exec_report_callback
    grows : (x : Effect W) → Memᴰ x e.effects → Memᴰ x e'.effects

  send-Follows :
      (session_id : SessionId) (r : ExecutionReport W) (e : MatchingEngine W)
      → Follows e (send_execution_report session_id r (next_exec e))
  unfolding send_execution_report
  send-Follows session_id r e =
      let sent : Follows e (emit (Effect.reported session_id r) (next_exec e)) = record {
        sessions = refl;
        callback = refl;
        grows = λ x m. List.Memᴰ.tail m;
      } in
      let silent : Follows e (next_exec e) = record {
        sessions = refl;
        callback = refl;
        grows = λ x m. m;
      } in
      by_test (Follows e) e.exec_report_callback sent silent

  same-Follows : (e : MatchingEngine W) → Follows e e
  same-Follows e = record { sessions = refl; callback = refl; grows = λ x m. m }

  execute_fill-Follows :
      (o : Order W) (price : W) (qty : ℤ) (e : MatchingEngine W)
      → Follows e (execute_fill o price qty e).1
  unfolding execute_fill
  execute_fill-Follows o price qty e =
      by_option (λ (y : Order W × MatchingEngine W). Follows e y.1) (lookup _ e.order_session_map)
        (same-Follows e) (λ session_id. send-Follows session_id _ e)

  try_match-Follows :
      (o : Order W) (s : MarketDataSnapshot W) (e : MatchingEngine W)
      → Follows e (try_match o s e).1
  unfolding try_match
  try_match-Follows o s e =
      by_option (λ (y : Bool × MatchingEngine W). Follows e y.1) (match_price o s) (same-Follows e)
        (λ price. execute_fill-Follows o price o.leaves_qty e)

  match_pending-grows :
      (s : MarketDataSnapshot W) (orders : List (Order W)) (e : MatchingEngine W) (x : Effect W)
      → Memᴰ x e.effects
      → Memᴰ x (match_pending s orders e).1.effects
  unfolding match_pending
  match_pending-grows s [] e x m = m
  match_pending-grows s (o ∷ orders) e x m =
      let e' = (try_match o s e).1 in
      let m' = (try_match-Follows o s e).grows x m in
      match_pending-grows s orders _ x
        (by_test (λ (y : MatchingEngine W). Memᴰ x y.effects) (try_match o s e).0 m' m')

  try_match-reports :
      (o : Order W) (s : MarketDataSnapshot W) (e : MatchingEngine W) (price : W)
      (session_id : SessionId)
      → match_price o s ≡ some price
      → lookup o.cl_ord_id e.order_session_map ≡ some session_id
      → e.exec_report_callback ≡ true
      → Memᴰ (fill_of session_id o price e.next_exec_id) (try_match o s e).1.effects
  unfolding try_match execute_fill send_execution_report filled_order
  try_match-reports o s e price session_id m l c =
      rw (m, try_match) (rw (l, execute_fill) (rw (c, send_execution_report) (List.Memᴰ.head refl)))

  match_pending-reports :
      (s : MarketDataSnapshot W) (orders : List (Order W)) (o : Order W) (price : W)
      (session_id : SessionId) (e : MatchingEngine W)
      → AreDistinct orders
      → Memᴰ o orders
      → match_price o s ≡ some price
      → lookup o.cl_ord_id e.order_session_map ≡ some session_id
      → e.exec_report_callback ≡ true
      → (n : ℕ) × Memᴰ (fill_of session_id o price n) (match_pending s orders e).1.effects
  unfolding match_pending
  match_pending-reports s [] o price session_id e ds m p l c = elim m [ ]
  match_pending-reports s (x ∷ orders) o price session_id e ds (List.Memᴰ.head i) p l c =
      let n = e.next_exec_id in
      let X = λ (y : MatchingEngine W). Memᴰ (fill_of session_id o price n) y.effects in
      let there : X (try_match x s e).1 =
        subst (λ y. Memᴰ (fill_of session_id o price n) (try_match y s e).1.effects) i
          (try_match-reports o s e price session_id p l c) in
      (
        n,
        match_pending-grows s orders _ (fill_of session_id o price n)
            (by_test X (try_match x s e).0 there there),
      )
  match_pending-reports s (x ∷ orders) o price session_id e (far, ds) (List.Memᴰ.tail m) p l c =
      let e' = (try_match x s e).1 in
      let f = try_match-Follows x s e in
      let other : text_eq x.cl_ord_id o.cl_ord_id ≡ false =
        All-Memᴰ (λ y. text_eq x.cl_ord_id y.cl_ord_id ≡ false) o orders far m in
      let known : lookup o.cl_ord_id e'.order_session_map ≡ some session_id =
        ap (lookup o.cl_ord_id) f.sessions ∙ l in
      let still : lookup o.cl_ord_id (forget x.cl_ord_id e').order_session_map ≡ some session_id =
        lookup-remove x.cl_ord_id o.cl_ord_id e'.order_session_map ∙ rw other known in
      match_pending-reports s orders o price session_id _ ds m p
        (by_test
          (λ (y : MatchingEngine W). lookup o.cl_ord_id y.order_session_map ≡ some session_id)
          (try_match x s e).0 still known)
        (by_test (λ (y : MatchingEngine W). y.exec_report_callback ≡ true) (try_match x s e).0
          (f.callback ∙ c) (f.callback ∙ c))

  -- What taking a snapshot leaves alone.
  take_snapshot-keeps :
      (md : MarketData W) (e : MatchingEngine W)
      → ((take_snapshot md e).pending_orders ≡ e.pending_orders)
        × ((take_snapshot md e).order_session_map ≡ e.order_session_map)
        × ((take_snapshot md e).exec_report_callback ≡ e.exec_report_callback)
  unfolding take_snapshot
  take_snapshot-keeps md e = ground arith

  -- Market data that fill an order that waits for their instrument: the fill is reported to the
  -- session of the order, if someone takes the engine's reports, if the session of the order is
  -- known, and if no two orders that wait for the instrument have the same id.
  pub handle_market_data-reports :
      (md : MarketData W) (orders : List (Order W)) (o : Order W) (price : W)
      (session_id : SessionId) (e : MatchingEngine W)
      → lookup md.instrument_id e.pending_orders ≡ some orders
      → AreDistinct orders
      → Memᴰ o orders
      → match_price o (snapshot_of md) ≡ some price
      → lookup o.cl_ord_id e.order_session_map ≡ some session_id
      → e.exec_report_callback ≡ true
      → (n : ℕ) × Memᴰ (fill_of session_id o price n) (handle_market_data md e).effects
  unfolding handle_market_data
  handle_market_data-reports md orders o price session_id e w ds m p l c =
      let (pending, sessions, callback) = take_snapshot-keeps md e in
      rw (ap (lookup md.instrument_id) pending ∙ w, handle_market_data)
        (match_pending-reports (snapshot_of md) orders o price session_id (take_snapshot md e) ds m
          p (ap (lookup o.cl_ord_id) sessions ∙ l) (callback ∙ c))
