-- ===== src/Engine/OrderBook/Operations.antt =====
-- src/app/engine/order_book.cpp: adding orders.
use fix4_0_demo.Prelude.{
  ◌+◌, Bool, not, ◌&&◌, ◌||◌, List, [], ◌∷◌, ◌++◌, if◌then◌else◌, ℤ, pos, ◌+ℤ◌, ltb_ℤ, leb_ℤ, Text,
  codes, text_eq, is_empty, Double, nought,
}
use fix4_0_demo.Engine.Order.{
  Order, OrderSide, OrderStatus, is_buy, is_limit, is_market, is_fok, is_ioc, is_terminal,
}
use fix4_0_demo.Engine.OrderBook.{
  Trade, PriceLevel, Levels, OrderBook, Matching, eight_digits, set_index, is_zero, is_pos,
  stops_at, match_levels,
}

-- What `addOrder` leaves behind: the book, the order as the caller sees it, and the trades.
pub record Added (W : Type 0) : Type 0 where
  pub book : OrderBook W
  pub order : Order W
  pub trades : List (Trade W)

module _ {W : Type 0} ⦃d : Double W⦄ where
  -- `generateOrderID`
  abbrev pub generate_order_id : OrderBook W → Text
  generate_order_id b = b.symbol ++ codes "-" ++ eight_digits b.next_order_id

  -- Whether the first price stands before the second: bids fall, asks rise.
  abbrev pub before : OrderSide → W → W → Bool
  before side x y = if is_buy side then d.lt y x else d.lt x y

  abbrev new_level : Order W → PriceLevel W
  new_level o = record { price = o.price; orders = o ∷ []; total_qty = pos 0 +ℤ o.leaves_qty }

  -- `level.orders` is never empty in a book, but the code allows for it.
  abbrev pub push_order : Order W → PriceLevel W → PriceLevel W
  push_order o level = record {
    price = if is_empty level.orders then o.price else level.price;
    orders = level.orders ++ (o ∷ []);
    total_qty = level.total_qty +ℤ o.leaves_qty;
  }

  -- `bids_[order.price]` or `asks_[order.price]`, and the order at the end of that level.
  unfoldable pub insert_level : OrderSide → Order W → Levels W → Levels W
  insert_level side o [] = (o.price, new_level o) ∷ []
  insert_level side o ((key, level) ∷ levels) =
      if before side o.price key
      then (o.price, new_level o) ∷ (key, level) ∷ levels
      else if before side key o.price
      then (key, level) ∷ insert_level side o levels
      else (key, push_order o level) ∷ levels

  -- `calculateMatchableQty`, over the levels of the other side.
  unfoldable pub matchable : Order W → Levels W → ℤ → ℤ
  matchable o [] sum = sum
  matchable o ((key, level) ∷ levels) sum =
      let rest = matchable o levels (sum +ℤ level.total_qty) in
      if stops_at o key
      then sum
      else if leb_ℤ o.order_qty (sum +ℤ level.total_qty)
      then o.order_qty
      else rest

  abbrev pub other_side : OrderBook W → OrderSide → Levels W
  other_side b side = if is_buy side then b.asks else b.bids

  abbrev pub calculate_matchable_qty : OrderBook W → Order W → ℤ
  calculate_matchable_qty b o = matchable o (other_side b o.side) (pos 0)

  abbrev pub matching_of : OrderBook W → Order W → Matching W
  matching_of b o = record {
    taker = o;
    trades = [];
    order_index = b.order_index;
    order_count = if is_buy o.side then b.ask_order_count else b.bid_order_count;
    next_trade_id = b.next_trade_id;
  }

  abbrev pub with_match : OrderBook W → OrderSide → Levels W → Matching W → OrderBook W
  with_match b side levels m =
      if is_buy side
      then record b {
        asks = levels;
        order_index = m.order_index;
        ask_order_count = m.order_count;
        next_trade_id = m.next_trade_id;
      }
      else record b {
        bids = levels;
        order_index = m.order_index;
        bid_order_count = m.order_count;
        next_trade_id = m.next_trade_id;
      }

  -- `matchBuyOrder` and `matchSellOrder`
  unfoldable pub match_taker : OrderBook W → Order W → Added W
  match_taker b o =
      let (levels, m) = match_levels b.symbol (other_side b o.side) (matching_of b o) in
      record { book = with_match b o.side levels m; order = m.taker; trades = m.trades }

  -- `addToBids` and `addToAsks`
  unfoldable pub add_to_side : OrderBook W → Order W → OrderBook W
  add_to_side b o =
      let index = set_index o.cl_ord_id (record { side = o.side; price = o.price }) b.order_index in
      if is_buy o.side
      then record b {
        bids = insert_level o.side o b.bids;
        order_index = index;
        bid_order_count = b.bid_order_count + 1;
      }
      else record b {
        asks = insert_level o.side o b.asks;
        order_index = index;
        ask_order_count = b.ask_order_count + 1;
      }

  -- The checks on the input, in the order of the code: whether one of them fails.
  abbrev pub is_refused : OrderBook W → Order W → Bool
  is_refused b o =
      leb_ℤ o.order_qty (pos 0)
      || leb_ℤ o.leaves_qty (pos 0)
      || (is_limit o.ord_type && d.le o.price nought)
      || not (text_eq o.symbol b.symbol)
      || is_empty o.cl_ord_id
      || (is_market o.ord_type && is_empty (other_side b o.side))

  abbrev pub with_status : OrderStatus → Order W → Order W
  with_status status o = record o { status = status }

  abbrev pub refused : OrderBook W → Order W → Added W
  refused b o = record { book = b; order = with_status OrderStatus.rejected o; trades = [] }

  -- What becomes of the remaining quantity.
  unfoldable pub settle_rest : Added W → Added W
  settle_rest a =
      let dropped : Added W = record a {
        order =
            with_status
              (if is_pos a.order.cum_qty then OrderStatus.canceled else OrderStatus.rejected)
              a.order;
      } in
      let rested : Added W = record a {
        book = add_to_side a.book a.order;
        order = if is_zero a.order.cum_qty then with_status OrderStatus.new a.order else a.order;
      } in
      if is_pos a.order.leaves_qty && not (is_terminal a.order)
      then (if is_fok a.order.time_in_force
            || is_ioc a.order.time_in_force
            || is_market a.order.ord_type
          then dropped
          else rested)
      else a

  -- `addOrder`
  unfoldable pub add_order : OrderBook W → Order W → Added W
  add_order b o =
      let o' : Order W = record o { order_id = generate_order_id b } in
      let b' : OrderBook W = record b { next_order_id = b.next_order_id + 1 } in
      let done = settle_rest (match_taker b' o') in
      if is_refused b o
      then refused b o
      else if is_fok o.time_in_force && ltb_ℤ (calculate_matchable_qty b' o') o.order_qty
      then refused b' o'
      else done
