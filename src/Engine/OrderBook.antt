-- ===== src/Engine/OrderBook.antt =====
-- include/app/engine/order_book.hpp and src/app/engine/order_book.cpp: one symbol's book. Each
-- `std::map` of levels is a list in the map's order, best price first. The buy and the sell loops
-- are one text over the side of the taker. Counters and quantities are far below their machine
-- limits, so they do not wrap; the log is left out.
pub mod Operations
pub mod Removal
pub mod Taking
pub mod Cancelling
pub mod Terms
pub mod Conservation
pub mod Levels
pub mod Fok
pub mod Adding
pub mod Outcomes
pub mod Promises
pub mod Crossing
pub mod Uncrossed
use fix4_0_demo.Prelude.{
  ℕ, zero, suc, ◌+◌, ◌-◌, Bool, true, false, not, ◌&&◌, ◌||◌, List, [], ◌∷◌, ◌++◌, Option, none,
  some, if◌then◌else◌, ℤ, pos, ◌+ℤ◌, ◌-ℤ◌, ◌*ℤ◌, ltb_ℤ, leb_ℤ, eqb_ℤ, min_ℤ, Text, codes, text_eq,
  is_empty, print_ℕ, length, replicate, take, Double, nought, is_some,
}
use fix4_0_demo.Engine.Order.{
  Order, OrderSide, OrderType, OrderStatus, TimeInForce, is_buy, is_limit, is_market, is_fok,
  is_ioc, is_terminal,
}

pub record Trade (W : Type 0) : Type 0 where
  pub trade_id : Text
  pub symbol : Text
  pub price : W
  pub qty : ℤ
  pub buy_order_id : Text
  pub buy_cl_ord_id : Text
  pub buy_order_qty : ℤ
  pub buy_price : W
  pub buy_ord_type : OrderType
  pub buy_cum_qty : ℤ
  pub buy_leaves_qty : ℤ
  pub buy_avg_px : W
  pub buy_status : OrderStatus
  pub sell_order_id : Text
  pub sell_cl_ord_id : Text
  pub sell_order_qty : ℤ
  pub sell_price : W
  pub sell_ord_type : OrderType
  pub sell_cum_qty : ℤ
  pub sell_leaves_qty : ℤ
  pub sell_avg_px : W
  pub sell_status : OrderStatus

pub record PriceLevel (W : Type 0) : Type 0 where
  pub price : W
  pub orders : List (Order W)
  pub total_qty : ℤ

-- A map from prices to levels.
abbrev pub Levels : Type 0 → Type 0
Levels W = List (W × PriceLevel W)

pub record OrderLocation (W : Type 0) : Type 0 where
  pub side : OrderSide
  pub price : W

-- `orderIndex_`
abbrev pub Index : Type 0 → Type 0
Index W = List (Text × OrderLocation W)

pub record OrderBook (W : Type 0) : Type 0 where
  pub symbol : Text
  pub bids : Levels W
  pub asks : Levels W
  pub order_index : Index W
  pub bid_order_count : ℕ
  pub ask_order_count : ℕ
  pub next_order_id : ℕ
  pub next_trade_id : ℕ

-- What the matching loops carry: the taker, the trades so far, and the book's parts that change.
pub record Matching (W : Type 0) : Type 0 where
  pub taker : Order W
  pub trades : List (Trade W)
  pub order_index : Index W
  pub order_count : ℕ
  pub next_trade_id : ℕ

-- `std::setfill('0') << std::setw(8) << n`
abbrev pub eight_digits : ℕ → Text
eight_digits n = replicate (8 - length (print_ℕ n)) b'0' ++ print_ℕ n

module _ {W : Type 0} where
  unfoldable pub init : Text → OrderBook W
  init symbol = record {
    symbol = symbol;
    bids = [];
    asks = [];
    order_index = [];
    bid_order_count = 0;
    ask_order_count = 0;
    next_order_id = 1;
    next_trade_id = 1;
  }

  unfoldable pub find_index : Text → Index W → Option (OrderLocation W)
  find_index id [] = none
  find_index id ((k, l) ∷ rest) = if text_eq k id then some l else find_index id rest

  unfoldable pub erase_index : Text → Index W → Index W
  erase_index id [] = []
  erase_index id ((k, l) ∷ rest) =
      let kept = erase_index id rest in if text_eq k id then kept else (k, l) ∷ kept

  unfoldable pub set_index : Text → OrderLocation W → Index W → Index W
  set_index id l index = (id, l) ∷ erase_index id index

  abbrev pub trade_of : Text → Text → W → ℤ → Order W → Order W → Trade W
  trade_of trade_id symbol price qty buyer seller = record {
    trade_id = trade_id;
    symbol = symbol;
    price = price;
    qty = qty;
    buy_order_id = buyer.order_id;
    buy_cl_ord_id = buyer.cl_ord_id;
    buy_order_qty = buyer.order_qty;
    buy_price = buyer.price;
    buy_ord_type = buyer.ord_type;
    buy_cum_qty = buyer.cum_qty;
    buy_leaves_qty = buyer.leaves_qty;
    buy_avg_px = buyer.avg_px;
    buy_status = buyer.status;
    sell_order_id = seller.order_id;
    sell_cl_ord_id = seller.cl_ord_id;
    sell_order_qty = seller.order_qty;
    sell_price = seller.price;
    sell_ord_type = seller.ord_type;
    sell_cum_qty = seller.cum_qty;
    sell_leaves_qty = seller.leaves_qty;
    sell_avg_px = seller.avg_px;
    sell_status = seller.status;
  }

-- `x == 0`, `x > 0` on quantities
abbrev pub is_zero : ℤ → Bool
is_zero q = eqb_ℤ q (pos 0)

abbrev pub is_pos : ℤ → Bool
is_pos q = ltb_ℤ (pos 0) q

module _ {W : Type 0} ⦃d : Double W⦄ where
  -- Fill an order with a quantity at a price.
  unfoldable pub fill : ℤ → W → Order W → Order W
  fill qty price o =
      let cum = o.cum_qty +ℤ qty in
      let leaves = o.leaves_qty -ℤ qty in
      record o {
        cum_qty = cum;
        leaves_qty = leaves;
        avg_px =
            d.div (d.add (d.mul o.avg_px (d.of_int (cum -ℤ qty))) (d.mul price (d.of_int qty)))
              (d.of_int cum);
        status = if is_zero leaves then OrderStatus.filled else OrderStatus.partially_filled;
      }

  -- The trade between the taker and a resting order, whichever of them buys.
  abbrev pub make_trade : Text → ℕ → W → ℤ → Order W → Order W → Trade W
  make_trade symbol n price qty taker maker =
      if is_buy taker.side
      then trade_of (symbol ++ codes "-T" ++ eight_digits n) symbol price qty taker maker
      else trade_of (symbol ++ codes "-T" ++ eight_digits n) symbol price qty maker taker

  -- One round of the inner loop: the resting order, filled, and what the loop carries on.
  unfoldable pub match_order : Text → Order W → Matching W → Order W × Matching W
  match_order symbol maker m =
      let qty = min_ℤ m.taker.leaves_qty maker.leaves_qty in
      let taker' = fill qty maker.price m.taker in
      let maker' = fill qty maker.price maker in
      let gone = is_zero maker'.leaves_qty in
      (
        maker',
        record {
          taker = taker';
          trades =
              m.trades ++ (make_trade symbol m.next_trade_id maker.price qty taker' maker' ∷ []);
          order_index = if gone then erase_index maker'.cl_ord_id m.order_index else m.order_index;
          order_count = if gone then m.order_count - 1 else m.order_count;
          next_trade_id = m.next_trade_id + 1;
        },
      )

  -- The loop over the orders of one level: what is left of them, and of their total.
  unfoldable pub match_orders :
      Text → List (Order W) → ℤ → Matching W → List (Order W) × ℤ × Matching W
  match_orders symbol [] total m = ([], total, m)
  match_orders symbol (maker ∷ makers) total m =
      let qty = min_ℤ m.taker.leaves_qty maker.leaves_qty in
      let (maker', m') = match_order symbol maker m in
      let (kept, total', m'') = match_orders symbol makers (total -ℤ qty) m' in
      let dropped : List (Order W) × ℤ × Matching W = (kept, total', m'') in
      let stayed : List (Order W) × ℤ × Matching W = (maker' ∷ kept, total', m'') in
      if is_pos m.taker.leaves_qty
      then (if is_zero maker'.leaves_qty then dropped else stayed)
      else (maker ∷ makers, total, m)

  -- A limit taker does not trade at a worse price than its own; a market taker takes any.
  abbrev pub stops_at : Order W → W → Bool
  stops_at taker price =
      is_limit taker.ord_type
      && (if is_buy taker.side then d.lt taker.price price else d.lt price taker.price)

  -- The loop over the levels of the other side, best first.
  unfoldable pub match_levels : Text → Levels W → Matching W → Levels W × Matching W
  match_levels symbol [] m = ([], m)
  match_levels symbol ((key, level) ∷ levels) m =
      let (orders, total, m') = match_orders symbol level.orders level.total_qty m in
      let (rest, m'') = match_levels symbol levels m' in
      let emptied : Levels W × Matching W = (rest, m'') in
      let level' : PriceLevel W = record level { orders = orders; total_qty = total } in
      let left : Levels W × Matching W = ((key, level') ∷ rest, m'') in
      if is_pos m.taker.leaves_qty && not (stops_at m.taker level.price)
      then (if is_empty orders then emptied else left)
      else ((key, level) ∷ levels, m)
