-- ===== src/Simulation/Tests.antt =====
-- A user who sold 3 contracts of "IF" and trades with an engine that has a quote, in whole cents.
mod Running
use fix4_0_demo.Prelude.{
  ℕ, ◌≡◌, refl, List, [], ◌∷◌, none, some, Text, codes, text_eq, ℤ, pos, ◌+ℤ◌, ◌*ℤ◌, print_ℤ, stoll,
  Double, DoubleText, ticks_double, lookup, put, All, arith,
}
use mathlib.Core.List
use fix4_0_demo.Fix.Tags
use fix4_0_demo.Fix.Message.{FixMessage, find_field, get_string}
use fix4_0_demo.Engine.Order.{Order, OrderSide, OrderType, OrderStatus, TimeInForce, SessionId}
use fix4_0_demo.Engine.Events.{
  CancelRequest, ExecutionReport, empty_report, MarketData, new_order_event, cancel_request_event,
}
use fix4_0_demo.Engine.OrderBook.Removal.{find_in}
use fix4_0_demo.Engine.Matching.{Effect, MatchingEngine, new_engine, start, submit, pending_of}
use fix4_0_demo.Engine.Matching.Market.{
  handle_market_data, can_match_buy_order, can_match_sell_order,
}
use fix4_0_demo.Engine.Matching.Requests.{
  Turn, run, run_turn, handle_new_order, handle_cancel_request, canceled_report, acknowledgement,
}
use fix4_0_demo.Engine.Matching.Fills.{IsFair, IsSound}
use fix4_0_demo.Engine.Matching.Fills.Running.{run-IsSound}
use fix4_0_demo.Engine.Matching.Reporting.{fill_of, handle_market_data-reports}
use mathlib.Core.List
use fix4_0_demo.Engine.Matching.Waiting.{handle_market_data-pending_of}
use fix4_0_demo.Engine.Matching.Cancelling.{waiting_order, handle_cancel_request-waiting}
use fix4_0_demo.Manager.Accounts
use fix4_0_demo.Manager.Positions.Restart
use fix4_0_demo.Manager.Accounts.{
  create_account, new_account, unfreeze_margin, Account, get_account, freeze_margin,
}
use fix4_0_demo.Manager.Positions.{new_position, Position, make_key}
use fix4_0_demo.Manager.Risk.{
  check_order, check_price, check_margin, check_position, check_counter_party, is_price_valid,
  Instrument, RejectReason, calculate_margin,
}
use fix4_0_demo.Simulation.{SimulationApp, OrderStore, Users, new_margin_info}
use fix4_0_demo.Simulation.Fills.{book_fill, handle_reject, handle_cancel}
use fix4_0_demo.Simulation.Parsing.{parse_new_order_single}
use fix4_0_demo.Simulation.Orders.{
  handle_order, get_or_create_account, check_and_accept, accept_order, submit_order,
  handle_new_order_single, freeze_for_order, parse_cancel_request, route_cancel,
  handle_order_cancel_request,
}
use fix4_0_demo.Simulation.Dispatch
use fix4_0_demo.Simulation.Dispatch.{new_app, on_logon, from_app, route_message}
use fix4_0_demo.Simulation.Authority.Submitting.{AsksFor, from_app-AsksFor}
use fix4_0_demo.Simulation.Strays.{handle_new_order_single-stray}
use fix4_0_demo.Simulation.Volumes.{Step, run_steps, run_steps-HaveVolumes}
use fix4_0_demo.Manager.Positions.Volumes.{HaveVolumes}
use fix4_0_demo.Simulation.System.{CanRun, Reached, Reached-AreFair}
use fix4_0_demo.Simulation.Netting.{net, held_in, net-book_fill}
use fix4_0_demo.Simulation.Margins.{freeze_for_order-returned}

instance pub cents : Double ℤ
cents = ticks_double

instance pub cent_texts : DoubleText ℤ
cent_texts = record { stod = stoll; fixed = λ digits n. print_ℤ n }

-- A store that keeps the orders that it was given.
instance pub order_list : OrderStore ℤ (List (Order ℤ))
order_list = record {
  save_order_for_account = λ o account_id orders. o ∷ orders;
  update_order = λ o orders. o ∷ orders;
  save_trade = λ trade orders. orders;
  load_orders_by_account = λ account_id orders. orders;
}

abbrev pub client : SessionId
client = record { sender_comp_id = codes "SERVER"; target_comp_id = codes "USER1" }

abbrev pub users : Users
users = record {
  extract_account_id = λ session_id. session_id.target_comp_id;
  find_session_by_user_id = λ user_id. none;
}

abbrev pub reason_text : RejectReason → Text
reason_text reason = codes "rejected"

abbrev order_of : Text → OrderSide → ℕ → ℕ → Order ℤ
order_of id side qty price = record {
  cl_ord_id = id;
  order_id = [];
  session_id = client;
  symbol = codes "IF";
  side = side;
  ord_type = OrderType.limit;
  time_in_force = TimeInForce.day;
  order_qty = pos qty;
  price = pos price;
  status = OrderStatus.pending_new;
  cum_qty = pos 0;
  leaves_qty = pos qty;
  avg_px = pos 0;
}

abbrev pub quote_of : ℕ → ℕ → MarketData ℤ
quote_of bid ask = record {
  instrument_id = codes "IF";
  last_price = pos bid;
  upper_limit_price = pos 20;
  lower_limit_price = pos 5;
  bid_price = pos bid;
  bid_volume = pos 3;
  ask_price = pos ask;
  ask_volume = pos 3;
}

abbrev cancel_of : Text → CancelRequest
cancel_of id = record {
  cl_ord_id = codes "X1";
  orig_cl_ord_id = id;
  symbol = codes "IF";
  session_id = client;
}

-- An order that waits until the ask falls, one that does not, and a cancel.
abbrev turns : List (Turn ℤ)
turns =
    Turn.market (quote_of 10 12)
    ∷ Turn.event (new_order_event (order_of (codes "C1") OrderSide.buy 2 11) (codes "USER1"))
    ∷ Turn.event (new_order_event (order_of (codes "C2") OrderSide.buy 2 9) (codes "USER1"))
    ∷ Turn.market (quote_of 9 10)
    ∷ Turn.event (cancel_request_event (cancel_of (codes "C2")) (codes "USER1"))
    ∷ []

abbrev IsOurs : Text → SessionId → Type 0
IsOurs id session_id = session_id ≡ client

run-IsSound_example : IsSound IsOurs (run turns (start new_engine))
unfolding start
run-IsSound_example =
    run-IsSound IsOurs turns (start new_engine) (tt, ((refl, refl), ((refl, refl), (tt, (tt, tt)))))
      (record { untouched = tt; mapped = tt; fair = tt })

abbrev waiting_engine : MatchingEngine ℤ
waiting_engine = record (new_engine {W = ℤ}) {
  pending_orders =
      (
        codes "IF",
        order_of (codes "C1") OrderSide.buy 2 11 ∷ order_of (codes "C2") OrderSide.buy 2 9 ∷ [],
      )
      ∷ [];
}

handle_market_data-pending_of_example :
    pending_of (codes "IF") (handle_market_data (quote_of 9 10) waiting_engine)
    ≡ order_of (codes "C2") OrderSide.buy 2 9 ∷ []
unfolding lookup text_eq can_match_buy_order can_match_sell_order cents
handle_market_data-pending_of_example =
    handle_market_data-pending_of (quote_of 9 10) waiting_engine (codes "IF")

abbrev canceled_engine : MatchingEngine ℤ
canceled_engine =
    handle_cancel_request (cancel_request_event (cancel_of (codes "C3")) (codes "USER1")) (
      handle_new_order (new_order_event (order_of (codes "C3") OrderSide.buy 4 8) (codes "USER1"))
        waiting_engine)

handle_cancel_request-waiting_example :
    let o = order_of (codes "C3") OrderSide.buy 4 8 in
    (pending_of (codes "IF") canceled_engine ≡ pending_of (codes "IF") waiting_engine)
    × (canceled_engine.effects
        ≡ Effect.reported client
            (canceled_report (cancel_of (codes "C3")) (waiting_order o waiting_engine) 2)
          ∷ Effect.reported client (acknowledgement (waiting_order o waiting_engine) 1)
          ∷ [])
unfolding lookup text_eq can_match_buy_order find_in cents
handle_cancel_request-waiting_example =
    handle_cancel_request-waiting (order_of (codes "C3") OrderSide.buy 4 8) (cancel_of (codes "C3"))
      (codes "USER1") waiting_engine refl refl refl refl refl refl refl

abbrev pub index_future : Instrument ℤ
index_future = record {
  instrument_id = codes "IF";
  exchange_id = codes "CFFEX";
  product_id = codes "IF";
  price_tick = pos 1;
  volume_multiple = pos 1;
  margin_rate = pos 2;
  upper_limit_price = pos 20;
  lower_limit_price = pos 5;
  pre_settlement_price = pos 10;
}

abbrev sold : Position ℤ
sold = record {
  account_id = codes "USER1";
  instrument_id = codes "IF";
  long_position = pos 0;
  long_avg_price = pos 0;
  long_profit = pos 0;
  long_margin = pos 0;
  short_position = pos 3;
  short_avg_price = pos 10;
  short_profit = pos 0;
  short_margin = pos 60;
}

abbrev rich : Account ℤ
rich = record {
  account_id = codes "USER1";
  balance = pos 1000;
  available = pos 940;
  frozen_margin = pos 0;
  used_margin = pos 60;
  position_profit = pos 0;
  close_profit = pos 0;
}

abbrev pub app : SimulationApp ℤ (List (Order ℤ))
app = record {
  engine = waiting_engine;
  accounts = record { accounts = (codes "USER1", rich) ∷ []; store = none };
  positions = record {
    positions = (make_key (codes "USER1") (codes "IF"), sold) ∷ [];
    store = none;
  };
  instruments = (codes "IF", index_future) ∷ [];
  store = some [];
  order_account_map = (codes "C2", codes "USER1") ∷ [];
  order_margin_info_map = [];
  outbox = [];
}

abbrev cancel_message : FixMessage
cancel_message =
    (Tags.msg_type, codes "F")
    ∷ (Tags.cl_ord_id, codes "X1")
    ∷ (Tags.orig_cl_ord_id, codes "C2")
    ∷ (Tags.symbol, codes "IF")
    ∷ []

abbrev asked : SimulationApp ℤ (List (Order ℤ))
asked = record app {
  engine = submit (cancel_request_event (cancel_of (codes "C2")) (codes "USER1")) waiting_engine;
}

from_app-AsksFor_example :
    AsksFor app.order_account_map client (codes "USER1") waiting_engine asked.engine
unfolding from_app route_message handle_order_cancel_request parse_cancel_request route_cancel
    get_string find_field lookup text_eq submit
from_app-AsksFor_example =
    from_app-AsksFor users reason_text (codes "now") cancel_message client app asked refl

-- 5 contracts are bought: 3 close the short side, and 2 open a long one.
abbrev bought : ExecutionReport ℤ
bought = record (empty_report {W = ℤ}) {
  cl_ord_id = codes "C2";
  symbol = codes "IF";
  side = OrderSide.buy;
  ord_status = OrderStatus.filled;
  last_shares = pos 5;
  last_px = pos 9;
}

net-book_fill_example :
    net (
      held_in
        (codes "USER1")
        bought
        index_future
        (book_fill (codes "USER1") bought index_future app))
    ≡ net sold +ℤ pos 5
unfolding lookup text_eq
net-book_fill_example = net-book_fill (codes "USER1") bought index_future app (omega arith)

abbrev pub order : Order ℤ
order = order_of (codes "C4") OrderSide.sell 2 12

abbrev frozen_app : SimulationApp ℤ (List (Order ℤ))
frozen_app = record app {
  accounts = (freeze_margin app.accounts (codes "USER1") (pos 48)).0;
  order_margin_info_map = (codes "C4", new_margin_info (pos 48) (pos 2)) ∷ [];
}

freeze_for_order-returned_example :
    let r : ExecutionReport ℤ = record bought { cl_ord_id = codes "C4" } in
    (get_account (handle_reject (codes "USER1") r frozen_app).accounts (codes "USER1") ≡ some rich)
    × (get_account (handle_cancel (codes "USER1") r frozen_app).accounts (codes "USER1")
        ≡ some rich)
unfolding freeze_for_order freeze_margin lookup put text_eq calculate_margin ◌*ℤ◌ cents
freeze_for_order-returned_example =
    freeze_for_order-returned order (codes "USER1") index_future app frozen_app
      (record bought { cl_ord_id = codes "C4" }) refl refl (omega arith)

-- The user's order waits with a frozen margin of 48, and a message with its id has no symbol.
abbrev waiting_app : SimulationApp ℤ (List (Order ℤ))
waiting_app = record frozen_app { order_account_map = (codes "C4", codes "USER1") ∷ [] }

abbrev no_order : FixMessage
no_order = (Tags.msg_type, codes "D") ∷ (Tags.cl_ord_id, codes "C4") ∷ []

handle_new_order_single-stray_example :
    let after =
      handle_new_order_single users reason_text
        (codes "now")
        no_order
        client
        (codes "USER2")
        waiting_app in
    (after.accounts ≡ (unfreeze_margin waiting_app.accounts (codes "USER1") (pos 48)).0)
    × (lookup (codes "C4") after.order_account_map ≡ none)
    × (lookup (codes "C4") after.order_margin_info_map ≡ none)
unfolding parse_new_order_single find_field lookup text_eq cents
handle_new_order_single-stray_example =
    handle_new_order_single-stray users reason_text (codes "now") no_order
      (codes "Missing required field: Symbol(55)") client (codes "USER2") (codes "USER1")
      (new_margin_info (pos 48) (pos 2)) waiting_app refl refl refl refl

abbrev known_engine : MatchingEngine ℤ
known_engine = record waiting_engine { order_session_map = (codes "C1", client) ∷ [] }

handle_market_data-reports_example :
    (n : ℕ) × List.Memᴰ
      (fill_of client (order_of (codes "C1") OrderSide.buy 2 11) (pos 10) n)
      (handle_market_data (quote_of 9 10) known_engine).effects
unfolding lookup text_eq can_match_buy_order cents
handle_market_data-reports_example =
    handle_market_data-reports (quote_of 9 10)
      (order_of (codes "C1") OrderSide.buy 2 11 ∷ order_of (codes "C2") OrderSide.buy 2 9 ∷ [])
      (order_of (codes "C1") OrderSide.buy 2 11) (pos 10) client known_engine refl
      ((refl, tt), (tt, tt)) (List.Memᴰ.head refl) refl refl refl
