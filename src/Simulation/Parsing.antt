-- ===== src/Simulation/Parsing.antt =====
-- src/app/simulation_app.cpp: orders read from messages. The part of an error's
-- text that is the host's own, after "format: ", is left out.
use fix4_0_demo.Prelude.{
  [], ◌++◌, Option, none, some, if◌then◌else◌, Text, codes, text_eq, ℤ, pos, leb_ℤ, stoll, Double,
  nought, DoubleText,
}
use fix4_0_demo.Fix.Tags
use fix4_0_demo.Fix.Message.{FixMessage, find_field}
use fix4_0_demo.Engine.Order.{Order, OrderSide, OrderType, OrderStatus, TimeInForce, SessionId}

-- The order, or the text of the error.
pub data ParseResult (A : Type 0) : Type 0 where
  parsed : A → ParseResult A
  failed : Text → ParseResult A

infixl 5 ◌>>=◌
abbrev pub ◌>>=◌ : {A B : Type 0} → ParseResult A → (A → ParseResult B) → ParseResult B
parsed a >>= f = f a
failed text >>= f = failed text

-- A field that must be there.
abbrev pub required : ℤ → Text → FixMessage → ParseResult Text
required tag name msg = elim (find_field tag msg) [
  | none ↦ failed (codes "Missing required field: " ++ name)
  | some value ↦ parsed value
]

abbrev pub read_side : Text → ParseResult OrderSide
read_side value =
    if text_eq value (codes "1")
    then parsed OrderSide.buy
    else if text_eq value (codes "2")
    then parsed OrderSide.sell
    else failed (codes "Invalid Side(54) value: " ++ value ++ codes " (expected 1 or 2)")

abbrev pub read_quantity : Text → ParseResult ℤ
read_quantity value = elim (stoll value) [
  | none ↦ failed (codes "Invalid OrderQty(38) format: ")
  | some n ↦
      if leb_ℤ n (pos 0) then failed (codes "Invalid OrderQty(38): must be positive") else parsed n
]

-- A limit order, unless it says that it is a market order.
abbrev pub read_type : Text → OrderType
read_type value = if text_eq value (codes "1") then OrderType.market else OrderType.limit

-- The day, unless the message says otherwise.
abbrev pub read_time_in_force : Option Text → TimeInForce
read_time_in_force none = TimeInForce.day
read_time_in_force (some value) =
    if text_eq value (codes "1")
    then TimeInForce.gtc
    else if text_eq value (codes "3")
    then TimeInForce.ioc
    else if text_eq value (codes "4")
    then TimeInForce.fok
    else TimeInForce.day

module _ {W : Type 0} ⦃d : Double W⦄ ⦃t : DoubleText W⦄ where
  abbrev pub read_price : OrderType → Option Text → ParseResult W
  read_price type (some value) = elim (t.stod value) [
    | none ↦ failed (codes "Invalid Price(44) format: ")
    | some price ↦ parsed price
  ]
  read_price OrderType.limit none =
      failed (codes "Missing required field: Price(44) for limit order")
  read_price OrderType.market none = parsed nought

  unfoldable pub parse_new_order_single : FixMessage → SessionId → ParseResult (Order W)
  unfolding find_field
  parse_new_order_single msg session_id = do
    cl_ord_id ← required Tags.cl_ord_id (codes "ClOrdID(11)") msg
    symbol ← required Tags.symbol (codes "Symbol(55)") msg
    side_text ← required Tags.side (codes "Side(54)") msg
    side ← read_side side_text
    qty_text ← required Tags.order_qty (codes "OrderQty(38)") msg
    qty ← read_quantity qty_text
    type_text ← required Tags.ord_type (codes "OrdType(40)") msg
    price ← read_price (read_type type_text) (find_field Tags.price msg)
    parsed (record {
      cl_ord_id = cl_ord_id;
      order_id = [];
      session_id = session_id;
      symbol = symbol;
      side = side;
      ord_type = read_type type_text;
      time_in_force = read_time_in_force (find_field Tags.time_in_force msg);
      order_qty = qty;
      price = price;
      status = OrderStatus.pending_new;
      cum_qty = pos 0;
      leaves_qty = qty;
      avg_px = nought;
    })
