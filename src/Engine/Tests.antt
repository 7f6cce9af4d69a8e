-- ===== src/Engine/Tests.antt =====
-- A book with asks of 5 and 7 at 100 and of 4 at 102, and orders against it, in whole ticks.
use fix4_0_demo.Prelude.{
  IsOrdered, ticks-IsOrdered, ℕ, ◌≡◌, refl, ◌⊎◌, [], ◌∷◌, ℤ, pos, ◌+ℤ◌, Text, codes, text_eq, map,
  min_ℤ, ◌-ℤ◌, ◌*ℤ◌, Double, ticks_double, arith,
}
use fix4_0_demo.Engine.Order.{Order, OrderSide, OrderType, OrderStatus, TimeInForce}
use fix4_0_demo.Engine.OrderBook.{
  find_index, OrderBook, init, fill, erase_index, match_order, match_orders, match_levels,
}
use fix4_0_demo.Engine.OrderBook.Removal.{
  cancel_order, find_level, find_in, erase_in, erase_from_level,
}
use fix4_0_demo.Engine.OrderBook.Uncrossed.{IsOrderly, add_order-IsOrderly}
use fix4_0_demo.Engine.OrderBook.Cancelling.{Cancels, sum_book, cancel_order-Without}
use fix4_0_demo.Engine.OrderBook.Operations.{
  add_order, other_side, match_taker, settle_rest, matchable,
}
use fix4_0_demo.Engine.OrderBook.Conservation.{sum_trades}
use fix4_0_demo.Engine.OrderBook.Levels.{sum_levels, HeadStops}
use fix4_0_demo.Engine.OrderBook.Adding.{IsValid, own_side, Handled}
use fix4_0_demo.Engine.OrderBook.Outcomes.{add_order-Handled, add_order-IsValid}
use fix4_0_demo.Engine.OrderBook.Promises.{
  SidesKept, add_order-fok, add_order-never_rests, add_order-takes_all,
}

instance ticks : Double ℤ
ticks = ticks_double

ordered : IsOrdered ℤ
unfolding ticks
ordered = ticks-IsOrdered

abbrev order_of : Text → OrderSide → TimeInForce → ℕ → ℕ → Order ℤ
order_of id side tif qty price = record {
  cl_ord_id = id;
  order_id = [];
  session_id = record { sender_comp_id = codes "CLIENT1"; target_comp_id = codes "SERVER" };
  symbol = codes "IF2401";
  side = side;
  ord_type = OrderType.limit;
  time_in_force = tif;
  order_qty = pos qty;
  price = pos price;
  status = OrderStatus.pending_new;
  cum_qty = pos 0;
  leaves_qty = pos qty;
  avg_px = pos 0;
}

abbrev empty_book : OrderBook ℤ
empty_book = init (codes "IF2401")

abbrev asks_book : OrderBook ℤ
asks_book = record empty_book {
  asks =
      (
        pos 100,
        record {
          price = pos 100;
          orders =
              order_of (codes "S1") OrderSide.sell TimeInForce.day 5 100
              ∷ order_of (codes "S2") OrderSide.sell TimeInForce.day 7 100
              ∷ [];
          total_qty = pos 12;
        },
      )
      ∷ (
        pos 102,
        record {
          price = pos 102;
          orders = order_of (codes "S3") OrderSide.sell TimeInForce.day 4 102 ∷ [];
          total_qty = pos 4;
        },
      )
      ∷ [];
  order_index =
      (codes "S1", record { side = OrderSide.sell; price = pos 100 })
      ∷ (codes "S2", record { side = OrderSide.sell; price = pos 100 })
      ∷ (codes "S3", record { side = OrderSide.sell; price = pos 102 })
      ∷ [];
  ask_order_count = 3;
}

asks_book-IsValid : IsValid asks_book
unfolding init ◌+ℤ◌
asks_book-IsValid = record {
  bids = tt;
  asks = (
    record {
      key_price = refl;
      occupied = refl;
      open_orders = (omega arith, (omega arith, tt));
      total = refl;
    },
    (
      record { key_price = refl; occupied = refl; open_orders = (omega arith, tt); total = refl },
      tt,
    ),
  );
}

abbrev buy_fok : Order ℤ
buy_fok = order_of (codes "B1") OrderSide.buy TimeInForce.fok 13 102

abbrev buy_day : Order ℤ
buy_day = order_of (codes "B2") OrderSide.buy TimeInForce.day 20 100

add_order-Handled_example : Handled buy_day (add_order asks_book buy_day)
add_order-Handled_example = add_order-Handled asks_book buy_day asks_book-IsValid

add_order-IsValid_example : IsValid (add_order asks_book buy_day).book
add_order-IsValid_example = add_order-IsValid asks_book buy_day asks_book-IsValid

add_order-fok_example :
    let a = add_order asks_book buy_fok in
    ((a.order.leaves_qty ≡ pos 0) × (sum_trades a.trades ≡ pos 13))
    ⊎ ((a.order.status ≡ OrderStatus.rejected) × (a.trades ≡ []) × SidesKept asks_book a.book)
add_order-fok_example = add_order-fok asks_book buy_fok asks_book-IsValid (omega arith) refl

add_order-never_rests_example :
    let a = add_order asks_book buy_fok in
    (own_side a.book OrderSide.buy ≡ [])
    × (sum_levels (other_side a.book OrderSide.buy) +ℤ sum_trades a.trades ≡ pos 16)
unfolding init ◌+ℤ◌
add_order-never_rests_example = add_order-never_rests asks_book buy_fok asks_book-IsValid refl

add_order-takes_all_example :
    let a = add_order asks_book buy_day in
    (a.order.leaves_qty ≡ pos 0) ⊎ HeadStops buy_day (other_side a.book OrderSide.buy)
unfolding init ticks text_eq
add_order-takes_all_example = add_order-takes_all asks_book buy_day asks_book-IsValid refl refl

asks_book-IsOrderly : IsOrderly asks_book
unfolding init ticks
asks_book-IsOrderly = record { bids = tt; asks = ((refl, tt), (tt, tt)); uncrossed = tt }

add_order-IsOrderly_example : IsOrderly (add_order asks_book buy_day).book
add_order-IsOrderly_example =
    add_order-IsOrderly ordered asks_book buy_day asks_book-IsValid asks_book-IsOrderly

cancel_order-Without_example : Cancels asks_book (codes "S2") (cancel_order asks_book (codes "S2"))
cancel_order-Without_example = cancel_order-Without asks_book (codes "S2") asks_book-IsValid

-- The second order of the level at 100 goes, and the first keeps its 5.
cancelled_book : sum_book (cancel_order asks_book (codes "S2")).0 ≡ pos 9
unfolding cancel_order init find_index find_level find_in erase_from_level erase_in ticks text_eq
    ◌+ℤ◌ ◌-ℤ◌
cancelled_book = refl

buy_fok_trades : map (λ t. t.qty) (add_order asks_book buy_fok).trades ≡ pos 5 ∷ pos 7 ∷ pos 1 ∷ []
unfolding add_order match_taker match_levels match_orders match_order fill init ticks text_eq
    settle_rest matchable ◌+ℤ◌ ◌-ℤ◌ ◌*ℤ◌ erase_index min_ℤ
buy_fok_trades = refl
