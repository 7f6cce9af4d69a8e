-- ===== src/Engine/Order.antt =====
-- include/app/model/order.hpp. Wall-clock stamps are left out: no decision reads them.
use fix4_0_demo.Prelude.{Bool, true, false, ℤ, ◌-ℤ◌, Text}

pub data OrderSide : Type 0 where
  buy sell : OrderSide

pub data OrderType : Type 0 where
  market limit : OrderType

pub data TimeInForce : Type 0 where
  day gtc ioc fok : TimeInForce

pub data OrderStatus : Type 0 where
  new partially_filled filled canceled rejected pending_new pending_cancel : OrderStatus

pub data ExecTransType : Type 0 where
  new cancel correct status : ExecTransType

pub record SessionId : Type 0 where
  pub sender_comp_id : Text
  pub target_comp_id : Text

pub record Order (W : Type 0) : Type 0 where
  pub cl_ord_id : Text
  pub order_id : Text
  pub session_id : SessionId
  pub symbol : Text
  pub side : OrderSide
  pub ord_type : OrderType
  pub time_in_force : TimeInForce
  pub order_qty : ℤ
  pub price : W
  pub status : OrderStatus
  pub cum_qty : ℤ
  pub leaves_qty : ℤ
  pub avg_px : W

abbrev is_terminal_status : OrderStatus → Bool
is_terminal_status OrderStatus.filled = true
is_terminal_status OrderStatus.canceled = true
is_terminal_status OrderStatus.rejected = true
is_terminal_status _ = false

abbrev is_cancelable_status : OrderStatus → Bool
is_cancelable_status OrderStatus.new = true
is_cancelable_status OrderStatus.partially_filled = true
is_cancelable_status _ = false

module _ {W : Type 0} where
  unfoldable pub update_leaves_qty : Order W → Order W
  update_leaves_qty o = record o { leaves_qty = o.order_qty -ℤ o.cum_qty }

  abbrev pub is_terminal : Order W → Bool
  is_terminal o = is_terminal_status o.status

  abbrev pub is_cancelable : Order W → Bool
  is_cancelable o = is_cancelable_status o.status

abbrev pub is_buy : OrderSide → Bool
is_buy OrderSide.buy = true
is_buy OrderSide.sell = false

abbrev pub is_limit : OrderType → Bool
is_limit OrderType.limit = true
is_limit OrderType.market = false

abbrev pub is_market : OrderType → Bool
is_market OrderType.market = true
is_market OrderType.limit = false

abbrev pub is_fok : TimeInForce → Bool
is_fok TimeInForce.fok = true
is_fok _ = false

abbrev pub is_ioc : TimeInForce → Bool
is_ioc TimeInForce.ioc = true
is_ioc _ = false
