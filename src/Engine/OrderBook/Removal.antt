-- ===== src/Engine/OrderBook/Removal.antt =====
-- src/app/engine/order_book.cpp: cancelling and looking up orders, and the queries.
use fix4_0_demo.Prelude.{
  ℕ, ◌-◌, ◌||◌, List, [], ◌∷◌, Option, none, some, if◌then◌else◌, map, take, ◌-ℤ◌, Text, text_eq,
  is_empty, Double,
}
use fix4_0_demo.Engine.Order.{Order, OrderSide, OrderStatus, is_buy}
use fix4_0_demo.Engine.OrderBook.{
  PriceLevel, Levels, OrderLocation, OrderBook, find_index, erase_index,
}
use fix4_0_demo.Engine.OrderBook.Operations.{before, with_status}

module _ {W : Type 0} ⦃d : Double W⦄ where
  -- The first order with the id, in a level.
  unfoldable pub find_in : Text → List (Order W) → Option (Order W)
  find_in id [] = none
  find_in id (o ∷ os) = if text_eq o.cl_ord_id id then some o else find_in id os

  unfoldable pub erase_in : Text → List (Order W) → List (Order W)
  erase_in id [] = []
  erase_in id (o ∷ os) = if text_eq o.cl_ord_id id then os else o ∷ erase_in id os

  -- `bids_.find(price)`: neither price stands before the other.
  unfoldable pub find_level : OrderSide → W → Levels W → Option (PriceLevel W)
  find_level side price [] = none
  find_level side price ((key, level) ∷ levels) =
      if before side price key || before side key price
      then find_level side price levels
      else some level

  -- The order taken out of its level, and the level out of the map if it is empty then.
  unfoldable pub erase_from_level : OrderSide → W → Text → Order W → Levels W → Levels W
  erase_from_level side price id o [] = []
  erase_from_level side price id o ((key, level) ∷ levels) =
      let orders = erase_in id level.orders in
      let level' : PriceLevel W = record level {
        orders = orders;
        total_qty = level.total_qty -ℤ o.leaves_qty;
      } in
      if before side price key || before side key price
      then (key, level) ∷ erase_from_level side price id o levels
      else if is_empty orders
      then levels
      else (key, level') ∷ levels

  abbrev pub side_levels : OrderBook W → OrderSide → Levels W
  side_levels b side = if is_buy side then b.bids else b.asks

  -- `findOrder`
  unfoldable pub find_order : OrderBook W → Text → Option (Order W)
  find_order b id = elim (find_index id b.order_index) [
    | none ↦ none
    | some at ↦ elim (find_level at.side at.price (side_levels b at.side)) [
      | none ↦ none
      | some level ↦ find_in id level.orders
    ]
  ]

  abbrev pub without_order : OrderBook W → Text → OrderLocation W → Order W → OrderBook W
  without_order b id at o =
      if is_buy at.side
      then record b {
        bids = erase_from_level at.side at.price id o b.bids;
        bid_order_count = b.bid_order_count - 1;
        order_index = erase_index id b.order_index;
      }
      else record b {
        asks = erase_from_level at.side at.price id o b.asks;
        ask_order_count = b.ask_order_count - 1;
        order_index = erase_index id b.order_index;
      }

  -- `cancelOrder`, with `removeOrder`
  unfoldable pub cancel_order : OrderBook W → Text → OrderBook W × Option (Order W)
  cancel_order b id = elim (find_index id b.order_index) [
    | none ↦ (b, none)
    | some at ↦ elim (find_level at.side at.price (side_levels b at.side)) [
      | none ↦ (b, none)
      | some level ↦ elim (find_in id level.orders) [
        | none ↦ (b, none)
        | some o ↦ (without_order b id at o, some (with_status OrderStatus.canceled o))
      ]
    ]
  ]

  abbrev best : Levels W → Option W
  best [] = none
  best ((key, level) ∷ levels) = some key

  abbrev pub get_best_bid : OrderBook W → Option W
  get_best_bid b = best b.bids

  abbrev pub get_best_ask : OrderBook W → Option W
  get_best_ask b = best b.asks

  -- `getBidLevels` and `getAskLevels`
  abbrev pub get_levels : OrderBook W → OrderSide → ℕ → List (PriceLevel W)
  get_levels b side levels = take levels (map (λ e. e.1) (side_levels b side))
