-- ===== src/Simulation/Dispatch.antt =====
-- src/app/simulation_app.cpp: the callbacks of the protocol layer, and the engine's turns with what
-- its callbacks do to the application.
use fix4_0_demo.Prelude.{
  List, [], ◌∷◌, Option, none, some, if◌then◌else◌, Text, codes, text_eq, is_empty, pos, Double,
  DoubleText,
}
use fix4_0_demo.Fix.Tags
use fix4_0_demo.Fix.Message.{FixMessage, Result, ok, ◌>>=◌, get_string}
use fix4_0_demo.Engine.Order.{SessionId}
use fix4_0_demo.Engine.Events.{OrderEventType, session_event}
use fix4_0_demo.Engine.Matching
use fix4_0_demo.Engine.Matching.Requests
use fix4_0_demo.Engine.Matching.{Effect, new_engine, submit}
use fix4_0_demo.Engine.Matching.Requests.{Turn, run_turn}
use fix4_0_demo.Manager.Accounts.{Account, has_account, create_account}
use fix4_0_demo.Manager.Accounts
use fix4_0_demo.Manager.Positions.{Position}
use fix4_0_demo.Manager.Positions.Restart
use fix4_0_demo.Manager.Risk.{RejectReason}
use fix4_0_demo.Manager.Instruments.{update_limit_prices}
use fix4_0_demo.Simulation.{SimulationApp, OrderStore, Users, send_message}
use fix4_0_demo.Simulation.Fills.Callbacks.{on_execution_report, on_market_data_update}
use fix4_0_demo.Simulation.Orders.{
  business_reject, handle_new_order_single, handle_order_cancel_request,
}
use fix4_0_demo.Simulation.Queries.{
  handle_balance_query, handle_position_query, handle_instrument_search, handle_order_history_query,
}

module _ {W T : Type 0} ⦃d : Double W⦄ where
  -- The constructors: without a store, and with one that loads these accounts and positions.
  unfoldable pub new_app : Option (T × List (Account W) × List (Position W)) → SimulationApp W T
  new_app loaded = record {
    engine = new_engine;
    accounts = Accounts.init (elim loaded [ none ↦ none | some l ↦ some l.1 ]);
    positions = Restart.init (elim loaded [ none ↦ none | some l ↦ some l.2 ]);
    instruments = [];
    store = elim loaded [ none ↦ none | some l ↦ some l.0 ];
    order_account_map = [];
    order_margin_info_map = [];
    outbox = [];
  }

  unfoldable pub start : SimulationApp W T → SimulationApp W T
  start app = record app { engine = Matching.start app.engine }

  unfoldable pub stop : SimulationApp W T → SimulationApp W T
  stop app = record app { engine = Requests.stop app.engine }

  -- A user that logs on has an account; a session without a user is let pass.
  unfoldable pub on_logon : Users → SessionId → SimulationApp W T → SimulationApp W T
  unfolding submit
  on_logon users session_id app =
      let user_id = users.extract_account_id session_id in
      let accounts =
        if has_account app.accounts user_id
        then app.accounts
        else (create_account app.accounts user_id (d.of_int (pos 1000000))).0 in
      if is_empty user_id then app else record app {
        accounts = accounts;
        engine = submit (session_event OrderEventType.session_logon session_id) app.engine;
      }

  unfoldable pub on_logout : SessionId → SimulationApp W T → SimulationApp W T
  unfolding submit
  on_logout session_id app = record app {
    engine = submit (session_event OrderEventType.session_logout session_id) app.engine;
  }

module _ {W T : Type 0} ⦃d : Double W⦄ ⦃t : DoubleText W⦄ ⦃s : OrderStore W T⦄ (users : Users)
    (reason_text : RejectReason → Text) (now : Text) where
  -- A message by its type. What a handler throws is passed on.
  unfoldable pub route_message :
      Text → FixMessage → SessionId → Text → SimulationApp W T → Result (SimulationApp W T)
  route_message type msg session_id user_id app =
      if text_eq type (codes "D")
      then ok (handle_new_order_single users reason_text now msg session_id user_id app)
      else if text_eq type (codes "F")
      then handle_order_cancel_request msg session_id user_id app
      else if text_eq type (codes "U1")
      then ok (handle_balance_query msg session_id user_id app)
      else if text_eq type (codes "U3")
      then ok (handle_position_query msg session_id user_id app)
      else if text_eq type (codes "U7")
      then handle_instrument_search msg session_id app
      else if text_eq type (codes "U9")
      then ok (handle_order_history_query msg session_id user_id app)
      else ok (send_message session_id (business_reject (codes "Unsupported message type")) app)

  -- The user is that of the session, whatever the message says.
  unfoldable pub from_app : FixMessage → SessionId → SimulationApp W T → Result (SimulationApp W T)
  from_app msg session_id app = do
    type ← get_string Tags.msg_type msg
    route_message type msg session_id (users.extract_account_id session_id) app

  -- What an effect of the engine does to the application.
  unfoldable pub react : Effect W → SimulationApp W T → SimulationApp W T
  react (Effect.limits id upper lower) app = record app {
    instruments = (update_limit_prices id upper lower app.instruments).1;
  }
  react (Effect.updated id price) app = on_market_data_update users id price app
  react (Effect.reported session_id r) app = on_execution_report users now session_id r app
  react (Effect.enqueued ev) app = app
  react (Effect.enqueued_data md) app = app

  -- The effects are the latest first.
  unfoldable pub react_all : List (Effect W) → SimulationApp W T → SimulationApp W T
  react_all [] app = app
  react_all (effect ∷ effects) app = react effect (react_all effects app)

  -- A turn of the engine. Its callbacks change nothing that the engine reads, so they may follow it.
  unfoldable pub engine_turn : Turn W → SimulationApp W T → SimulationApp W T
  engine_turn turn app =
      let engine = run_turn turn (record app.engine { effects = [] }) in
      react_all engine.effects
        (record app { engine = record engine { effects = app.engine.effects } })
