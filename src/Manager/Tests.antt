-- ===== src/Manager/Tests.antt =====
-- An account of 1000 cents, a position and an order for the instrument "IF", in whole cents.
use fix4_0_demo.Prelude.{
  ◌≡◌, refl, true, List, [], Text, starts_with, ◌∷◌, none, some, codes, Double, ticks_double, ℤ,
  pos, ◌+ℤ◌, ◌-ℤ◌, ◌*ℤ◌, text_eq, max_ℤ, arith, lookup, put,
}
use fix4_0_demo.Engine.Order.{Order, OrderSide, OrderType, OrderStatus, TimeInForce}
use fix4_0_demo.Manager.Accounts.{
  Account, AccountManager, freeze_margin, confirm_margin, recalculate_available,
}
use fix4_0_demo.Manager.Accounts.Balance
use fix4_0_demo.Manager.Positions.{
  Position, PositionManager, make_key, close_side, close_long, close_position, get_position,
}
use fix4_0_demo.Manager.Positions.Volumes
use fix4_0_demo.Manager.Positions.Restart.{init, restore_positions}
use fix4_0_demo.Manager.Positions.Restart.Filed.{get_position-perform_all}
use fix4_0_demo.Manager.Positions.Keys.{HasNoUnderscore}
use fix4_0_demo.Manager.Instruments.{
  Instruments, add_instruments, ids_where, insert_text, sort_texts, text_leb, search_by_prefix,
}
use fix4_0_demo.Manager.Risk.{
  Instrument, MarketDataSnapshot, OffsetFlag, check_order, calculate_required_margin,
  calculate_margin, closable, check_price, check_margin, check_position, is_price_valid,
}
use fix4_0_demo.Manager.Risk.Checks.{check_order-freezes, check_order-closes}

instance cents : Double ℤ
cents = ticks_double

abbrev rich : Account ℤ
rich = record {
  account_id = codes "A";
  balance = pos 1000;
  available = pos 700;
  frozen_margin = pos 300;
  used_margin = pos 0;
  position_profit = pos 0;
  close_profit = pos 0;
}

abbrev one_account : AccountManager ℤ
one_account = record { accounts = (codes "A", rich) ∷ []; store = none }

abbrev calls : List Balance.Call
calls =
    Balance.Call.freeze (codes "A") (pos 300)
    ∷ Balance.Call.confirm (codes "A") (pos 300) (pos 280) (omega arith)
    ∷ Balance.Call.close_profit (codes "A") (ℤ.negsuc 9)
    ∷ []

rich-IsBalanced : Balance.IsBalanced rich
unfolding recalculate_available ◌+ℤ◌ ◌-ℤ◌
rich-IsBalanced = refl

perform_all-AreBalanced_example : Balance.AreBalanced (Balance.perform_all calls one_account)
perform_all-AreBalanced_example =
    Balance.perform_all-AreBalanced calls one_account (rich-IsBalanced, tt)

confirm_margin-excess_example :
    (b : Account ℤ) × (lookup
        (codes "A")
        (confirm_margin ⦃d = ticks_double⦄ one_account (codes "A") (pos 300) (pos 310)).0.accounts
      ≡ some b)
    × (b.available
        ≡ (recalculate_available ⦃d = ticks_double⦄ b).available
          +ℤ max_ℤ (pos 0) (pos 310 -ℤ pos 300))
unfolding lookup text_eq
confirm_margin-excess_example =
    Balance.confirm_margin-excess one_account (codes "A") (pos 300) (pos 310) rich refl
      rich-IsBalanced

abbrev held : Position ℤ
held = record {
  account_id = codes "A";
  instrument_id = codes "IF";
  long_position = pos 5;
  long_avg_price = pos 10;
  long_profit = pos 0;
  long_margin = pos 50;
  short_position = pos 0;
  short_avg_price = pos 0;
  short_profit = pos 0;
  short_margin = pos 0;
}

abbrev one_position : PositionManager ℤ
one_position = record { positions = (make_key (codes "A") (codes "IF"), held) ∷ []; store = none }

abbrev volume_calls : List (Volumes.Call ℤ)
volume_calls =
    Volumes.Call.close_volume (codes "A") (codes "IF") OrderSide.sell (pos 9) (pos 12) (pos 1)
    ∷ Volumes.Call.open_volume (codes "A") (codes "IF") OrderSide.buy (pos 2) (omega arith) (pos 12)
        (pos 24)
    ∷ []

abbrev index_future : Instrument ℤ
index_future = record {
  instrument_id = codes "IF";
  exchange_id = codes "CFFEX";
  product_id = codes "IF";
  price_tick = pos 1;
  volume_multiple = pos 1;
  margin_rate = pos 2;
  upper_limit_price = pos 20;
  lower_limit_price = pos 5;
  pre_settlement_price = pos 10;
}

abbrev quote : MarketDataSnapshot ℤ
quote = record {
  instrument_id = codes "IF";
  last_price = pos 10;
  bid_price = pos 10;
  bid_volume = pos 3;
  ask_price = pos 11;
  ask_volume = pos 3;
  upper_limit_price = pos 20;
  lower_limit_price = pos 5;
}

abbrev order_of : OrderSide → Order ℤ
order_of side = record {
  cl_ord_id = codes "C1";
  order_id = [];
  session_id = record { sender_comp_id = codes "A"; target_comp_id = codes "SERVER" };
  symbol = codes "IF";
  side = side;
  ord_type = OrderType.limit;
  time_in_force = TimeInForce.day;
  order_qty = pos 4;
  price = pos 12;
  status = OrderStatus.pending_new;
  cum_qty = pos 0;
  leaves_qty = pos 4;
  avg_px = pos 0;
}

buy_passes :
    (check_order
      (order_of OrderSide.buy)
      rich
      held
      index_future
      quote
      OffsetFlag.open_position).passed
    ≡ true
unfolding cents check_order check_price check_margin is_price_valid calculate_margin ◌*ℤ◌
buy_passes = refl

sell_passes :
    (check_order
      (order_of OrderSide.sell)
      rich
      held
      index_future
      quote
      OffsetFlag.close_position).passed
    ≡ true
unfolding cents check_order check_price check_position is_price_valid
sell_passes = refl

check_order-freezes_example :
    let margin = calculate_required_margin (order_of OrderSide.buy) index_future in
    let r = freeze_margin one_account (codes "A") margin in
    (r.1 ≡ true)
    × (lookup (codes "A") r.0.accounts
        ≡ some (record rich {
          available = cents.sub rich.available margin;
          frozen_margin = cents.add rich.frozen_margin margin;
        }))
unfolding lookup text_eq
check_order-freezes_example =
    check_order-freezes (order_of OrderSide.buy) rich held index_future quote one_account
      (codes "A") refl buy_passes

check_order-closes_example :
    closable OrderSide.sell (close_side OrderSide.sell (pos 4) held) ≡ pos 5 -ℤ pos 4
check_order-closes_example =
    check_order-closes (order_of OrderSide.sell) rich held index_future quote sell_passes
      (omega arith)

-- Three instruments, two of them futures of the product IF.
abbrev listed : Instruments ℤ
listed =
    add_instruments
      (record index_future { instrument_id = codes "IF3" }
        ∷ record index_future { instrument_id = codes "IC1" }
        ∷ record index_future { instrument_id = codes "IF1" }
        ∷ [])
      []

abbrev found : List Text
found = codes "IF1" ∷ codes "IF3" ∷ []

search_found : search_by_prefix (codes "IF") 10 listed ≡ found
unfolding put text_eq search_by_prefix ids_where sort_texts insert_text text_leb starts_with
search_found = refl

-- A manager that loads a position and one without an account, and then closes a part of the first.
abbrev restarted : PositionManager ℤ
restarted =
    Volumes.perform_all
      (Volumes.Call.close_volume (codes "A") (codes "IF") OrderSide.sell (pos 2) (pos 12) (pos 1)
        ∷ [])
      (init (some (held ∷ record held { account_id = [] } ∷ [])))

still_held :
    get_position restarted (codes "A") (codes "IF") ≡ some (close_side OrderSide.sell (pos 2) held)
unfolding init restore_positions lookup put text_eq close_position
still_held = refl

letters : HasNoUnderscore (codes "IF")
letters = (omega arith, (omega arith, tt))

get_position-perform_all_example :
    let p = close_side OrderSide.sell (pos 2) held in
    (p.account_id ≡ codes "A") × (p.instrument_id ≡ codes "IF")
unfolding close_long ◌-ℤ◌
get_position-perform_all_example =
    get_position-perform_all (some (held ∷ record held { account_id = [] } ∷ []))
      (Volumes.Call.close_volume (codes "A") (codes "IF") OrderSide.sell (pos 2) (pos 12) (pos 1)
        ∷ [])
      (codes "A") (codes "IF") (close_side OrderSide.sell (pos 2) held) letters letters still_held
