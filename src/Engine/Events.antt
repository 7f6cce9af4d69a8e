-- ===== src/Engine/Events.antt =====
-- include/app/engine/order_event.hpp, the requests and reports of include/app/model/order.hpp, and of
-- include/market/market_data.hpp what the matching engine reads. Time stamps are left out.
use fix4_0_demo.Prelude.{Option, none, some, [], Text, ℤ, pos, Double, nought}
use fix4_0_demo.Engine.Order.{Order, OrderSide, OrderType, OrderStatus, ExecTransType, SessionId}

pub record CancelRequest : Type 0 where
  pub cl_ord_id : Text
  pub orig_cl_ord_id : Text
  pub symbol : Text
  pub session_id : SessionId

pub record ExecutionReport (W : Type 0) : Type 0 where
  pub order_id : Text
  pub cl_ord_id : Text
  pub exec_id : Text
  pub orig_cl_ord_id : Text
  pub symbol : Text
  pub side : OrderSide
  pub ord_type : OrderType
  pub order_qty : ℤ
  pub price : W
  pub exec_trans_type : ExecTransType
  pub ord_status : OrderStatus
  pub last_shares : ℤ
  pub last_px : W
  pub leaves_qty : ℤ
  pub cum_qty : ℤ
  pub avg_px : W
  pub ord_rej_reason : ℤ
  pub text : Text

-- The default constructor.
abbrev pub empty_report : {W : Type 0} ⦃d : Double W⦄ → ExecutionReport W
empty_report ⦃d⦄ = record {
  order_id = [];
  cl_ord_id = [];
  exec_id = [];
  orig_cl_ord_id = [];
  symbol = [];
  side = OrderSide.buy;
  ord_type = OrderType.limit;
  order_qty = pos 0;
  price = nought;
  exec_trans_type = ExecTransType.new;
  ord_status = OrderStatus.new;
  last_shares = pos 0;
  last_px = nought;
  leaves_qty = pos 0;
  cum_qty = pos 0;
  avg_px = nought;
  ord_rej_reason = pos 0;
  text = [];
}

pub data OrderEventType : Type 0 where
  new_order cancel_request session_logon session_logout : OrderEventType

-- `std::variant`
pub data EventData (W : Type 0) : Type 0 where
  nothing : EventData W
  order : Order W → EventData W
  request : CancelRequest → EventData W

pub record OrderEvent (W : Type 0) : Type 0 where
  pub type : OrderEventType
  pub session_id : SessionId
  pub user_id : Text
  pub payload : EventData W

module _ {W : Type 0} where
  abbrev pub empty_event : OrderEvent W
  empty_event = record {
    type = OrderEventType.session_logon;
    session_id = record { sender_comp_id = []; target_comp_id = [] };
    user_id = [];
    payload = EventData.nothing;
  }

  -- A log on or log out.
  abbrev pub session_event : OrderEventType → SessionId → OrderEvent W
  session_event type session_id = record {
    type = type;
    session_id = session_id;
    user_id = [];
    payload = EventData.nothing;
  }

  abbrev pub new_order_event : Order W → Text → OrderEvent W
  new_order_event o uid = record {
    type = OrderEventType.new_order;
    session_id = o.session_id;
    user_id = uid;
    payload = EventData.order o;
  }

  abbrev pub cancel_request_event : CancelRequest → Text → OrderEvent W
  cancel_request_event r uid = record {
    type = OrderEventType.cancel_request;
    session_id = r.session_id;
    user_id = uid;
    payload = EventData.request r;
  }

  abbrev pub get_order : OrderEvent W → Option (Order W)
  get_order event = elim event.payload [ EventData.order o ↦ some o | _ ↦ none ]

  abbrev pub get_cancel_request : OrderEvent W → Option CancelRequest
  get_cancel_request event = elim event.payload [ EventData.request r ↦ some r | _ ↦ none ]

pub record MarketData (W : Type 0) : Type 0 where
  pub instrument_id : Text
  pub last_price : W
  pub upper_limit_price : W
  pub lower_limit_price : W
  pub bid_price : W
  pub bid_volume : ℤ
  pub ask_price : W
  pub ask_volume : ℤ
