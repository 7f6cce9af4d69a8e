-- ===== src/Simulation/Queries.antt =====
-- src/app/simulation_app.cpp: the queries of clients.
use fix4_0_demo.Prelude.{
  ℕ, not, List, [], ◌∷◌, ◌++◌, none, some, if◌then◌else◌, Text, codes, text_eq, is_empty, length, ℤ,
  pos, negsuc, ltb, print_ℤ, Double, DoubleText,
}
use fix4_0_demo.Fix.Tags
use fix4_0_demo.Fix.Message.{
  FixMessage, Result, ok, err, ◌>>=◌, find_field, has, set, set_int, get_int,
}
use fix4_0_demo.Engine.Order.{Order, OrderSide, OrderStatus, SessionId}
use fix4_0_demo.Manager.Accounts.{get_account}
use fix4_0_demo.Manager.Positions.{Position}
use fix4_0_demo.Manager.Positions.Restart.{get_positions_by_account}
use fix4_0_demo.Manager.Instruments.{search_by_prefix}
use fix4_0_demo.Simulation.{SimulationApp, OrderStore, send_message}
use fix4_0_demo.Simulation.Reports.{set_if}
use fix4_0_demo.Simulation.Pushes.{balance_fields}
use fix4_0_demo.Simulation.Orders.{business_reject, field_or_empty}

-- An answer, with the id of the request if it has one.
abbrev pub response : Text → FixMessage → FixMessage
response msg_type msg = elim (find_field Tags.request_id msg) [
  | none ↦ set Tags.msg_type msg_type []
  | some id ↦ set Tags.request_id id (set Tags.msg_type msg_type [])
]

-- How many results a search may have: ten, or what the message asks for, fifty at most. The number
-- is an `int` that becomes a `size_t`, so a negative one is a large one.
abbrev pub max_results : FixMessage → Result ℕ
max_results msg = if has Tags.max_results msg then capped (get_int Tags.max_results msg) else ok 10
  where
    cap : ℤ → ℕ
    cap (pos n) = if ltb 50 n then 50 else n
    cap (negsuc n) = 50

    capped : Result ℤ → Result ℕ
    capped (ok n) = ok (cap n)
    capped (err e) = err e

-- The texts with a comma between them.
unfoldable pub join_texts : List Text → Text
join_texts [] = []
join_texts (text ∷ []) = text
join_texts (text ∷ next ∷ texts) = text ++ b',' ∷ join_texts (next ∷ texts)

abbrev pub side_string : OrderSide → Text
side_string OrderSide.buy = codes "BUY"
side_string OrderSide.sell = codes "SELL"

abbrev pub to_client_order_state : OrderStatus → ℤ
to_client_order_state OrderStatus.pending_new = pos 0
to_client_order_state OrderStatus.new = pos 1
to_client_order_state OrderStatus.partially_filled = pos 2
to_client_order_state OrderStatus.filled = pos 3
to_client_order_state OrderStatus.canceled = pos 4
to_client_order_state OrderStatus.rejected = pos 5
to_client_order_state OrderStatus.pending_cancel = pos 0

module _ {W : Type 0} where
  unfoldable pub orders_of_symbol : Text → List (Order W) → List (Order W)
  orders_of_symbol symbol [] = []
  orders_of_symbol symbol (o ∷ orders) =
      let rest = orders_of_symbol symbol orders in
      if text_eq o.symbol symbol then o ∷ rest else rest

module _ {W : Type 0} ⦃t : DoubleText W⦄ where
  -- "IF2601:L2@3000.00,S0@0.00;"
  unfoldable pub position_text : List (Position W) → Text
  position_text [] = []
  position_text (p ∷ positions) =
      p.instrument_id
      ++ codes ":L"
      ++ print_ℤ p.long_position
      ++ codes "@"
      ++ t.fixed 2 p.long_avg_price
      ++ codes ",S"
      ++ print_ℤ p.short_position
      ++ codes "@"
      ++ t.fixed 2 p.short_avg_price
      ++ codes ";"
      ++ position_text positions

  -- A line for each order, its fields with a bar between them.
  unfoldable pub order_text : List (Order W) → Text
  order_text [] = []
  order_text (o ∷ orders) =
      o.cl_ord_id
      ++ b'|' ∷ o.order_id
      ++ b'|' ∷ o.symbol
      ++ b'|' ∷ side_string o.side
      ++ b'|' ∷ t.fixed 6 o.price
      ++ b'|' ∷ print_ℤ o.order_qty
      ++ b'|' ∷ print_ℤ o.cum_qty
      ++ b'|' ∷ t.fixed 6 o.avg_px
      ++ b'|' ∷ print_ℤ (to_client_order_state o.status)
      ++ codes "|-|-"
      ++ 10 ∷ order_text orders

module _ {W T : Type 0} ⦃d : Double W⦄ ⦃t : DoubleText W⦄ where
  unfoldable pub handle_balance_query :
      FixMessage → SessionId → Text → SimulationApp W T → SimulationApp W T
  unfolding find_field set
  handle_balance_query msg session_id user_id app = elim (get_account app.accounts user_id) [
    | none ↦ send_message session_id (business_reject (codes "Account not found")) app
    | some a ↦
        send_message session_id
          (balance_fields a (set Tags.account user_id (response (codes "U2") msg))) app
  ]

  unfoldable pub handle_position_query :
      FixMessage → SessionId → Text → SimulationApp W T → SimulationApp W T
  handle_position_query msg session_id user_id app =
      let positions = get_positions_by_account app.positions user_id in
      let counted =
        set_int Tags.no_positions (pos (length positions))
          (set Tags.account user_id (response (codes "U4") msg)) in
      send_message session_id
        (set_if (not (is_empty positions)) Tags.text (position_text positions) counted) app

  -- A number of results that cannot be read throws.
  unfoldable pub handle_instrument_search :
      FixMessage → SessionId → SimulationApp W T → Result (SimulationApp W T)
  handle_instrument_search msg session_id app = do
    limit ← max_results msg
    let pattern = field_or_empty Tags.search_pattern msg
    let results = search_by_prefix pattern limit app.instruments
    let counted =
        set_int Tags.result_count (pos (length results))
          (set Tags.search_pattern pattern (response (codes "U8") msg))
    let listed = set_if (not (is_empty results)) Tags.instrument_list (join_texts results) counted
    ok (send_message session_id listed app)

  -- Without a store there is no history.
  unfoldable pub handle_order_history_query :
      ⦃s : OrderStore W T⦄ → FixMessage → SessionId → Text → SimulationApp W T → SimulationApp W T
  handle_order_history_query ⦃s⦄ msg session_id user_id app = elim app.store [
    | none ↦ send_message session_id (set Tags.text [] (response (codes "U10") msg)) app
    | some store ↦
        let all = s.load_orders_by_account user_id store in
        let symbol = field_or_empty Tags.symbol msg in
        let orders = if is_empty symbol then all else orders_of_symbol symbol all in
        send_message session_id
          (set Tags.text (order_text orders)
            (set Tags.account user_id (response (codes "U10") msg)))
          app
  ]
