-- ===== src/Simulation/Orders.antt =====
-- src/app/simulation_app.cpp: new orders and cancel requests of clients. The text of the reason that
-- a risk check gives, which Manager/Risk leaves out, is an argument.
use fix4_0_demo.Prelude.{
  not, ◌&&◌, [], ◌++◌, Option, none, some, if◌then◌else◌, Text, codes, text_eq, ℤ, pos, ltb_ℤ,
  Double, DoubleText, lookup, put,
}
use fix4_0_demo.Fix.Tags
use fix4_0_demo.Fix.Message.{FixMessage, Result, ok, ◌>>=◌, find_field, set, get_string}
use fix4_0_demo.Engine.Order.{Order, OrderSide, OrderStatus, ExecTransType, SessionId, is_buy}
use fix4_0_demo.Engine.Events.{
  CancelRequest, ExecutionReport, empty_report, new_order_event, cancel_request_event,
}
use fix4_0_demo.Engine.Matching.{submit, reason_code, empty_snapshot, get_market_snapshot}
use fix4_0_demo.Manager.Accounts.{
  Account, AccountManager, get_account, create_account, freeze_margin,
}
use fix4_0_demo.Manager.Positions.{Position}
use fix4_0_demo.Manager.Risk.{
  Instrument, MarketDataSnapshot, OffsetFlag, RejectReason, check_order, calculate_required_margin,
  is_open,
}
use fix4_0_demo.Manager.Instruments.{get_instrument}
use fix4_0_demo.Simulation.{SimulationApp, OrderStore, Users, send_message, new_margin_info}
use fix4_0_demo.Simulation.Parsing.{ParseResult, parse_new_order_single}
use fix4_0_demo.Simulation.Fills.{position_or_new}
use fix4_0_demo.Simulation.Fills.Callbacks.{on_execution_report}

-- A request without its ids throws.
unfoldable pub parse_cancel_request : FixMessage → SessionId → Result CancelRequest
unfolding get_string find_field
parse_cancel_request msg session_id = do
  cl_ord_id ← get_string Tags.cl_ord_id msg
  orig_cl_ord_id ← get_string Tags.orig_cl_ord_id msg
  let symbol : Text = elim (find_field Tags.symbol msg) [ none ↦ [] | some value ↦ value ]
  ok (record {
    cl_ord_id = cl_ord_id;
    orig_cl_ord_id = orig_cl_ord_id;
    symbol = symbol;
    session_id = session_id;
  })

-- A field that may be absent.
abbrev pub field_or_empty : ℤ → FixMessage → Text
field_or_empty tag msg = elim (find_field tag msg) [ none ↦ [] | some value ↦ value ]

-- A buyer closes the short side if there is one, and a seller the long side.
abbrev pub offset_of : {W : Type 0} → OrderSide → Position W → OffsetFlag
offset_of side p =
    if is_buy side && ltb_ℤ (pos 0) p.short_position
    then OffsetFlag.close_position
    else if not (is_buy side) && ltb_ℤ (pos 0) p.long_position
    then OffsetFlag.close_position
    else OffsetFlag.open_position

-- BusinessMessageReject
abbrev pub business_reject : Text → FixMessage
business_reject reason = set Tags.text reason (set Tags.msg_type (codes "j") [])

module _ {W : Type 0} ⦃d : Double W⦄ where
  -- The rejection of a message that is no order.
  abbrev pub parse_reject : FixMessage → Text → ExecutionReport W
  unfolding find_field
  parse_reject msg error = record (empty_report {W = W}) {
    cl_ord_id = field_or_empty Tags.cl_ord_id msg;
    symbol = field_or_empty Tags.symbol msg;
    ord_status = OrderStatus.rejected;
    exec_trans_type = ExecTransType.new;
    ord_rej_reason = pos 99;
    text = error;
  }

  abbrev pub order_reject : Order W → RejectReason → Text → ExecutionReport W
  order_reject o reason text = record (empty_report {W = W}) {
    cl_ord_id = o.cl_ord_id;
    symbol = o.symbol;
    side = o.side;
    ord_type = o.ord_type;
    order_qty = o.order_qty;
    price = o.price;
    ord_status = OrderStatus.rejected;
    exec_trans_type = ExecTransType.new;
    ord_rej_reason = reason_code reason;
    text = text;
  }

  -- One million.
  unfoldable pub get_or_create_account : Text → AccountManager W → AccountManager W × Account W
  get_or_create_account id accounts = elim (get_account accounts id) [
    | some a ↦ (accounts, a)
    | none ↦ create_account accounts id (d.of_int (pos 1000000))
  ]

module _ {W T : Type 0} ⦃d : Double W⦄ where
  -- The snapshot that the order is checked against.
  abbrev pub snapshot_or_limits : Text → Instrument W → SimulationApp W T → MarketDataSnapshot W
  snapshot_or_limits symbol i app = elim (get_market_snapshot symbol app.engine) [
    | some s ↦ s
    | none ↦ record (empty_snapshot {W = W} symbol) {
      upper_limit_price = i.upper_limit_price;
      lower_limit_price = i.lower_limit_price;
    }
  ]

  -- The order is the user's, and goes to the engine.
  unfoldable pub submit_order : Order W → Text → SimulationApp W T → SimulationApp W T
  unfolding submit
  submit_order o user_id app = record app {
    order_account_map = put o.cl_ord_id user_id app.order_account_map;
    engine = submit (new_order_event o user_id) app.engine;
  }

  -- The margin of an order that opens is frozen, if there is enough.
  unfoldable pub freeze_for_order :
      Order W → Text → Instrument W → SimulationApp W T → Option (SimulationApp W T)
  freeze_for_order o user_id i app =
      let margin = calculate_required_margin o i in
      let (accounts, frozen) = freeze_margin app.accounts user_id margin in
      let app' : SimulationApp W T = record app {
        accounts = accounts;
        order_margin_info_map =
            put o.cl_ord_id (new_margin_info margin o.order_qty) app.order_margin_info_map;
      } in
      if frozen then some app' else none

module _ {W T : Type 0} ⦃d : Double W⦄ ⦃t : DoubleText W⦄ ⦃s : OrderStore W T⦄ (users : Users)
    (reason_text : RejectReason → Text) (now : Text) where
  -- An order that passed the risk checks.
  unfoldable pub accept_order :
      Order W → SessionId → Text → Instrument W → OffsetFlag → SimulationApp W T → SimulationApp W T
  accept_order o session_id user_id i offset app =
      if is_open offset
      then elim (freeze_for_order o user_id i app) [
        | none ↦
            on_execution_report users now session_id
              (order_reject o RejectReason.insufficient_funds (codes "Failed to freeze margin")) app
        | some app' ↦ submit_order o user_id app'
      ]
      else submit_order o user_id app

  -- An order for an instrument that is known, of an account that is there.
  unfoldable pub check_and_accept :
      Order W → SessionId → Text → Instrument W → Account W → SimulationApp W T → SimulationApp W T
  check_and_accept o session_id user_id i a app =
      let p = position_or_new user_id o.symbol app in
      let offset = offset_of o.side p in
      let result = check_order o a p i (snapshot_or_limits o.symbol i app) offset in
      if not result.passed
      then on_execution_report users now session_id
          (order_reject o result.reject_reason (reason_text result.reject_reason)) app
      else accept_order o session_id user_id i offset app

  -- An order that was read: it is stored, and its user has an account.
  unfoldable pub handle_order : Order W → SessionId → Text → SimulationApp W T → SimulationApp W T
  handle_order o session_id user_id app =
      let stored : Option T = elim app.store [
        | none ↦ none
        | some x ↦ some (s.save_order_for_account o user_id x)
      ] in
      let app' : SimulationApp W T = record app {
        store = stored;
        accounts = (get_or_create_account user_id app.accounts).0;
      } in
      elim (get_instrument o.symbol app'.instruments) [
        | none ↦
            on_execution_report users now session_id
              (order_reject o RejectReason.instrument_not_found
                (codes "Instrument not found: " ++ o.symbol))
              app'
        | some i ↦ elim (get_account app'.accounts user_id) [
          | none ↦ app'
          | some a ↦ check_and_accept o session_id user_id i a app'
        ]
      ]

  unfoldable pub handle_new_order_single :
      FixMessage → SessionId → Text → SimulationApp W T → SimulationApp W T
  unfolding find_field
  handle_new_order_single msg session_id user_id app =
      elim (parse_new_order_single msg session_id) [
        | ParseResult.failed error ↦
            on_execution_report users now session_id (parse_reject msg error) app
        | ParseResult.parsed o ↦ handle_order o session_id user_id app
      ]

module _ {W T : Type 0} where
  -- A request is passed on only by the user whose order it is.
  unfoldable pub route_cancel :
      CancelRequest → SessionId → Text → SimulationApp W T → SimulationApp W T
  unfolding submit
  route_cancel r session_id user_id app = elim (lookup r.orig_cl_ord_id app.order_account_map) [
    | none ↦
        send_message session_id (business_reject (codes "Order not found: " ++ r.orig_cl_ord_id))
          app
    | some owner ↦
        if not (text_eq owner user_id)
        then send_message session_id (business_reject (codes "Not authorized to cancel this order"))
            app
        else record app { engine = submit (cancel_request_event r user_id) app.engine }
  ]

  unfoldable pub handle_order_cancel_request :
      FixMessage → SessionId → Text → SimulationApp W T → Result (SimulationApp W T)
  handle_order_cancel_request msg session_id user_id app = do
    r ← parse_cancel_request msg session_id
    ok (route_cancel r session_id user_id app)
