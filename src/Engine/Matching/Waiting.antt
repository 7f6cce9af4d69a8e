-- ===== src/Engine/Matching/Waiting.antt =====
-- src/app/engine/matching_engine.cpp: the orders that wait, under market data.
use fix4_0_demo.Prelude.{
  ◌≡◌, refl, sym, ap, ◌∙◌, Bool-cases, Option-cases, inl, inr, by_option, by_option_of, List, [],
  ◌∷◌, Option, none, some, if◌then◌else◌, is_some, arith, Text, text_eq, text_eq_iff, subst, Map,
  Double, lookup, put, lookup-put,
}
use fix4_0_demo.Engine.Order.{Order}
use fix4_0_demo.Engine.Events.{MarketData}
use fix4_0_demo.Engine.Matching.{MatchingEngine, forget, pending_of, next_exec}
use fix4_0_demo.Engine.Matching.Market.{
  match_price, execute_fill, try_match, match_pending, take_snapshot, snapshot_of,
  handle_market_data,
}
use fix4_0_demo.Engine.Matching.Fills.{pending-send}
use fix4_0_demo.Manager.Risk.{MarketDataSnapshot}

module _ {W : Type 0} ⦃d : Double W⦄ where
  -- The orders that a snapshot does not fill.
  abbrev pub unmatched : MarketDataSnapshot W → List (Order W) → List (Order W)
  unmatched s [] = []
  unmatched s (o ∷ orders) =
      if is_some (match_price o s) then unmatched s orders else o ∷ unmatched s orders

  pending-execute_fill :
      (o : Order W) (price : W) (qty : _) (e : MatchingEngine W)
      → (execute_fill o price qty e).1.pending_orders ≡ e.pending_orders
  unfolding execute_fill
  pending-execute_fill o price qty e =
      by_option (λ (x : Order W × MatchingEngine W). x.1.pending_orders ≡ e.pending_orders)
        (lookup _ e.order_session_map) refl (λ session_id. pending-send session_id _ (next_exec e))

  try_match_lem :
      (o : Order W) (s : MarketDataSnapshot W) (e : MatchingEngine W)
      → ((try_match o s e).0 ≡ is_some (match_price o s))
        × ((try_match o s e).1.pending_orders ≡ e.pending_orders)
  unfolding try_match
  try_match_lem o s e = elim (Option-cases (match_price o s)) [
    | inl m ↦ rw (m, try_match) (refl, refl)
    | inr (price, m) ↦ rw (m, try_match) (refl, pending-execute_fill o price o.leaves_qty e)
  ]

  match_pending_lem :
      (s : MarketDataSnapshot W) (orders : List (Order W)) (e : MatchingEngine W)
      → ((match_pending s orders e).0 ≡ unmatched s orders)
        × ((match_pending s orders e).1.pending_orders ≡ e.pending_orders)
  unfolding match_pending
  match_pending_lem s [] e = (refl, refl)
  match_pending_lem s (o ∷ orders) e =
      let (m, p) = try_match_lem o s e in
      let e' = (try_match o s e).1 in
      elim (Bool-cases (try_match o s e).0) [
        | inl t ↦
            let (q, r) = match_pending_lem s orders (forget o.cl_ord_id e') in
            rw t (rw (sym m ∙ t) q, r ∙ p)
        | inr t ↦
            let (q, r) = match_pending_lem s orders e' in
            rw t (rw (sym m ∙ t) (ap (◌∷◌ o) q), r ∙ p)
      ]

  pending-take_snapshot :
      (md : MarketData W) (e : MatchingEngine W)
      → (take_snapshot md e).pending_orders ≡ e.pending_orders
  unfolding take_snapshot
  pending-take_snapshot md e = ground arith

  abbrev pub list_of : Option (List (Order W)) → List (Order W)
  list_of none = []
  list_of (some orders) = orders

  list_at-none :
      (s : MarketDataSnapshot W) (k id : Text) (m : Map (List (Order W)))
      → lookup k m ≡ none
      → list_of (lookup id m)
        ≡ (if text_eq k id then unmatched s (list_of (lookup id m)) else list_of (lookup id m))
  list_at-none s k id m h = elim (Bool-cases (text_eq k id)) [
    | inl t ↦
        let same : lookup id m ≡ none = subst (λ x. lookup x m ≡ none) ((text_eq_iff k id).0 t) h in
        rw t (ap list_of same ∙ sym (ap (λ o. unmatched s (list_of o)) same))
    | inr t ↦ rw t refl
  ]

  list_at-put :
      (s : MarketDataSnapshot W) (k id : Text) (orders : List (Order W)) (m : Map (List (Order W)))
      → lookup k m ≡ some orders
      → list_of (lookup id (put k (unmatched s orders) m))
        ≡ (if text_eq k id then unmatched s (list_of (lookup id m)) else list_of (lookup id m))
  list_at-put s k id orders m h = elim (Bool-cases (text_eq k id)) [
    | inl t ↦
        let same : lookup id m ≡ some orders =
          subst (λ x. lookup x m ≡ some orders) ((text_eq_iff k id).0 t) h in
        let found = rw t at (lookup-put k id (unmatched s orders) m) in
        rw t (ap list_of found ∙ sym (ap (λ o. unmatched s (list_of o)) same))
    | inr t ↦
        let found = rw t at (lookup-put k id (unmatched s orders) m) in rw t (ap list_of found)
  ]

  -- Market data takes out of the orders that wait for its instrument those that it fills, keeps the
  -- others in their order, and leaves the orders for other instruments alone.
  pub handle_market_data-pending_of :
      (md : MarketData W) (e : MatchingEngine W) (id : Text)
      → pending_of id (handle_market_data md e) ≡ (
          if text_eq md.instrument_id id
          then unmatched (snapshot_of md) (pending_of id e)
          else pending_of id e)
  unfolding handle_market_data
  handle_market_data-pending_of md e id =
      let s = snapshot_of md in
      let e' = take_snapshot md e in
      let P : MatchingEngine W → Type 0 = λ x. pending_of id x ≡ (
        if text_eq md.instrument_id id then unmatched s (pending_of id e) else pending_of id e) in
      by_option_of P (lookup md.instrument_id e'.pending_orders)
        (λ h. rw (pending-take_snapshot md e) (
          list_at-none s md.instrument_id id e.pending_orders
            (rw (pending-take_snapshot md e) at h)))
        (λ orders h.
          let (q, r) = match_pending_lem s orders e' in
          rw (q, r, pending-take_snapshot md e)
            (list_at-put s md.instrument_id id orders e.pending_orders
              (rw (pending-take_snapshot md e) at h)))
