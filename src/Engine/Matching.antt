-- ===== src/Engine/Matching.antt =====
-- include/app/engine/matching_engine.hpp and src/app/engine/matching_engine.cpp. What the engine does
-- to the queues, the callbacks and the instrument manager is recorded as effects, the latest first;
-- what its two queues hand out is the argument of `run_turn`. The worker thread and the log are left
-- out, and so is the catching of exceptions, which nothing here throws.
pub mod Market
pub mod Requests
pub mod Fills
pub mod Waiting
pub mod Reporting
pub mod Cancelling
use fix4_0_demo.Prelude.{
  ℕ, ◌+◌, ◌-◌, Bool, true, false, not, ◌&&◌, List, [], ◌∷◌, ◌++◌, Option, none, some, if◌then◌else◌,
  ℤ, pos, ◌+ℤ◌, ◌-ℤ◌, ltb_ℤ, Text, codes, print_ℕ, length, replicate, Double, nought, Map, lookup,
  put, remove,
}
use fix4_0_demo.Engine.Order.{
  Order, OrderSide, OrderType, OrderStatus, ExecTransType, SessionId, is_buy, is_market,
}
use fix4_0_demo.Engine.Events.{ExecutionReport, empty_report, OrderEvent, MarketData}
use fix4_0_demo.Engine.OrderBook.{OrderBook, init, is_zero, is_pos}
use fix4_0_demo.Manager.Risk.{MarketDataSnapshot, RejectReason, has_bid, has_ask}

pub data Effect (W : Type 0) : Type 0 where
  -- a call of `instrumentManager_->updateLimitPrices`
  limits : Text → (upper lower : W) → Effect W
  -- a call of `marketDataUpdateCallback_`
  updated : Text → W → Effect W
  -- a call of `execReportCallback_`
  reported : SessionId → ExecutionReport W → Effect W
  enqueued : OrderEvent W → Effect W
  enqueued_data : MarketData W → Effect W

-- The callbacks and the instrument manager are there or not.
pub record MatchingEngine (W : Type 0) : Type 0 where
  pub running : Bool
  pub order_books : Map (OrderBook W)
  pub order_session_map : Map SessionId
  pub order_user_map : Map Text
  pub exec_report_callback : Bool
  pub market_data_update_callback : Bool
  pub instrument_manager : Bool
  pub next_exec_id : ℕ
  pub next_order_id : ℕ
  pub market_snapshots : Map (MarketDataSnapshot W)
  pub pending_orders : Map (List (Order W))
  pub effects : List (Effect W)

-- `std::setfill('0') << std::setw(10) << n`
abbrev pub ten_digits : ℕ → Text
ten_digits n = replicate (10 - length (print_ℕ n)) b'0' ++ print_ℕ n

abbrev pub exec_id_of : ℕ → Text
exec_id_of n = codes "EXEC-" ++ ten_digits n

abbrev pub order_id_of : ℕ → Text
order_id_of n = codes "ORD-" ++ ten_digits n

-- `static_cast<int>(reason)`
abbrev pub reason_code : RejectReason → ℤ
reason_code RejectReason.none = pos 0
reason_code RejectReason.instrument_not_found = pos 1
reason_code RejectReason.insufficient_funds = pos 2
reason_code RejectReason.price_out_of_limit = pos 3
reason_code RejectReason.insufficient_position = pos 4
reason_code RejectReason.no_counter_party = pos 5
reason_code RejectReason.order_not_found = pos 6

module _ {W : Type 0} where
  abbrev pub emit : Effect W → MatchingEngine W → MatchingEngine W
  emit effect e = record e { effects = effect ∷ e.effects }

  unfoldable pub start : MatchingEngine W → MatchingEngine W
  start e = record e { running = true }

  unfoldable pub submit : OrderEvent W → MatchingEngine W → MatchingEngine W
  submit event e = emit (Effect.enqueued event) e

  abbrev pub submit_market_data : MarketData W → MatchingEngine W → MatchingEngine W
  submit_market_data md e = emit (Effect.enqueued_data md) e

  unfoldable pub send_execution_report :
      SessionId → ExecutionReport W → MatchingEngine W → MatchingEngine W
  send_execution_report session_id report e =
      if e.exec_report_callback then emit (Effect.reported session_id report) e else e

  -- The number of an execution is taken.
  abbrev pub next_exec : MatchingEngine W → MatchingEngine W
  next_exec e = record e { next_exec_id = e.next_exec_id + 1 }

  -- Both maps forget an order.
  abbrev pub forget : Text → MatchingEngine W → MatchingEngine W
  forget id e = record e {
    order_session_map = remove id e.order_session_map;
    order_user_map = remove id e.order_user_map;
  }

  abbrev pub get_market_snapshot : Text → MatchingEngine W → Option (MarketDataSnapshot W)
  get_market_snapshot id e = lookup id e.market_snapshots

  abbrev pub get_pending_orders : Text → MatchingEngine W → Option (List (Order W))
  get_pending_orders id e = lookup id e.pending_orders

  -- The orders that wait for an instrument, none where there is no list.
  abbrev pub pending_of : Text → MatchingEngine W → List (Order W)
  pending_of id e = elim (lookup id e.pending_orders) [ none ↦ [] | some orders ↦ orders ]

  abbrev pub count_pending : Map (List (Order W)) → ℕ
  count_pending [] = 0
  count_pending ((id, orders) ∷ rest) = length orders + count_pending rest

  abbrev pub get_total_pending_order_count : MatchingEngine W → ℕ
  get_total_pending_order_count e = count_pending e.pending_orders

  abbrev pub get_order_book : Text → MatchingEngine W → Option (OrderBook W)
  get_order_book symbol e = lookup symbol e.order_books

  abbrev pub get_or_create_order_book : Text → MatchingEngine W → OrderBook W × MatchingEngine W
  get_or_create_order_book symbol e = elim (lookup symbol e.order_books) [
    | none ↦ (init symbol, record e { order_books = put symbol (init symbol) e.order_books })
    | some book ↦ (book, e)
  ]

  abbrev pub add_to_pending_orders : Order W → MatchingEngine W → MatchingEngine W
  add_to_pending_orders o e = record e {
    pending_orders = put o.symbol (pending_of o.symbol e ++ (o ∷ [])) e.pending_orders;
  }

module _ {W : Type 0} ⦃d : Double W⦄ where
  -- A new engine, with its callbacks and its instrument manager set.
  abbrev pub new_engine : MatchingEngine W
  new_engine = record {
    running = false;
    order_books = [];
    order_session_map = [];
    order_user_map = [];
    exec_report_callback = true;
    market_data_update_callback = true;
    instrument_manager = true;
    next_exec_id = 1;
    next_order_id = 1;
    market_snapshots = [];
    pending_orders = [];
    effects = [];
  }

  -- The default constructor, with the instrument's name.
  abbrev pub empty_snapshot : Text → MarketDataSnapshot W
  empty_snapshot id = record {
    instrument_id = id;
    last_price = nought;
    bid_price = nought;
    bid_volume = pos 0;
    ask_price = nought;
    ask_volume = pos 0;
    upper_limit_price = nought;
    lower_limit_price = nought;
  }
