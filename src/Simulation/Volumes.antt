-- ===== src/Simulation/Volumes.antt =====
-- src/app/simulation_app.cpp: the volumes of the positions under all that the application does.
use fix4_0_demo.Prelude.{
  not, Bool-cases, inl, inr, by_test, by_option, List, [], ◌∷◌, Text, codes, text_eq, Double,
  DoubleText, lookup,
}
use fix4_0_demo.Fix.Message
use fix4_0_demo.Fix.Message.{FixMessage, Result, ok, err, get_string}
use fix4_0_demo.Fix.Tags
use fix4_0_demo.Engine.Order.{Order, SessionId}
use fix4_0_demo.Engine.Matching.Requests.{Turn}
use fix4_0_demo.Manager.Accounts.{get_account, freeze_margin}
use fix4_0_demo.Manager.Positions.Volumes.{HaveVolumes, perform-HaveVolumes}
use fix4_0_demo.Manager.Risk.{
  Instrument, OffsetFlag, RejectReason, calculate_required_margin, is_open,
}
use fix4_0_demo.Manager.Instruments.{get_instrument}
use fix4_0_demo.Simulation.{SimulationApp, OrderStore, Users}
use fix4_0_demo.Simulation.Parsing.{ParseResult, parse_new_order_single}
use fix4_0_demo.Simulation.Orders.{
  parse_reject, parse_cancel_request, submit_order, freeze_for_order, get_or_create_account,
  accept_order, check_and_accept, handle_order, handle_new_order_single, route_cancel,
  handle_order_cancel_request,
}
use fix4_0_demo.Simulation.Queries.{
  handle_balance_query, handle_position_query, handle_instrument_search, handle_order_history_query,
  max_results,
}
use fix4_0_demo.Simulation.Fills.Callbacks.{on_execution_report}
use fix4_0_demo.Simulation.Dispatch.{on_logon, on_logout, route_message, from_app, engine_turn}
use fix4_0_demo.Simulation.Booking.{on_execution_report-Holds, react_all-Holds}

-- What reaches the application: calls of the sessions, and turns of the engine. The sessions and the
-- time are those of the moment.
pub data Step (W : Type 0) : Type 0 where
  log_on : Users → SessionId → Step W
  log_out : SessionId → Step W
  message : Users → Text → FixMessage → SessionId → Step W
  turn : Users → Text → Turn W → Step W

-- A handler throws before it has changed anything.
abbrev or_same : {A : Type 0} → A → Result A → A
or_same app (ok app') = app'
or_same app (err error) = app

module _ {W T : Type 0} ⦃d : Double W⦄ ⦃t : DoubleText W⦄ ⦃s : OrderStore W T⦄ (users : Users)
    (reason_text : RejectReason → Text) (now : Text) where
  abbrev Positive : SimulationApp W T → Type 0
  Positive app = HaveVolumes app.positions

  report-Positive :
      (session_id : SessionId) (r : _) (app : SimulationApp W T)
      → Positive app
      → Positive (on_execution_report users now session_id r app)
  report-Positive session_id r app h =
      on_execution_report-Holds (λ e m. HaveVolumes m) (λ c e m k. perform-HaveVolumes c m k) users
        now session_id r app h

  accept_order-Positive :
      (o : Order W) (session_id : SessionId) (user_id : Text) (i : Instrument W)
      (offset : OffsetFlag) (app : SimulationApp W T)
      → Positive app
      → Positive (accept_order users reason_text now o session_id user_id i offset app)
  unfolding accept_order submit_order freeze_for_order
  accept_order-Positive o session_id user_id i offset app h =
      by_test Positive (is_open offset)
        (elim (Bool-cases (freeze_margin app.accounts user_id (calculate_required_margin o i)).1) [
          | inl f ↦ rw f h
          | inr f ↦ rw f (report-Positive session_id _ app h)
        ])
        h

  handle_new_order_single-Positive :
      (msg : FixMessage) (session_id : SessionId) (user_id : Text) (app : SimulationApp W T)
      → Positive app
      → Positive (handle_new_order_single users reason_text now msg session_id user_id app)
  unfolding handle_new_order_single handle_order check_and_accept
  handle_new_order_single-Positive msg session_id user_id app h =
      elim (parse_new_order_single {W = W} msg session_id)
        as (λ r. Positive (elim r [
          | ParseResult.failed error ↦
              on_execution_report users now session_id (parse_reject msg error) app
          | ParseResult.parsed o ↦ handle_order users reason_text now o session_id user_id app
        ])) [
          | ParseResult.failed error ↦ report-Positive session_id _ app h
          | ParseResult.parsed o ↦
              by_option Positive (get_instrument o.symbol app.instruments)
                (report-Positive session_id _ _ h)
                (λ i.
                  by_option Positive
                    (get_account (get_or_create_account user_id app.accounts).0 user_id) h
                    (λ a.
                      by_test Positive _ (report-Positive session_id _ _ h)
                        (accept_order-Positive o session_id user_id i _ _ h)))
        ]

  bind-Positive :
      {A : Type 0} (app : SimulationApp W T) (m : Result A) (f : A → Result (SimulationApp W T))
      → Positive app
      → ((a : A) → Positive (or_same app (f a)))
      → Positive (or_same app (Message.◌>>=◌ m f))
  bind-Positive app (ok a) f h k = k a
  bind-Positive app (err error) f h k = h

  route_message-Positive :
      (type : Text) (msg : FixMessage) (session_id : SessionId) (user_id : Text)
      (app : SimulationApp W T)
      → Positive app
      → Positive (or_same app (route_message users reason_text now type msg session_id user_id app))
  unfolding route_message handle_order_cancel_request handle_balance_query handle_position_query
      handle_instrument_search handle_order_history_query route_cancel
  route_message-Positive type msg session_id user_id app h =
      let P : Result (SimulationApp W T) → Type 0 = λ r. Positive (or_same app r) in
      by_test P (text_eq type (codes "D"))
        (handle_new_order_single-Positive msg session_id user_id app h)
        (by_test P (text_eq type (codes "F"))
          (bind-Positive app (parse_cancel_request msg session_id) _ h (λ r.
            by_option Positive (lookup r.orig_cl_ord_id app.order_account_map) h
              (λ owner. by_test Positive (not (text_eq owner user_id)) h h)))
          (by_test P (text_eq type (codes "U1"))
            (by_option Positive (get_account app.accounts user_id) h (λ a. h))
            (by_test P (text_eq type (codes "U3")) h (
              by_test P (text_eq type (codes "U7"))
                (bind-Positive app (max_results msg) _ h (λ limit. h))
                (by_test P (text_eq type (codes "U9")) (by_option Positive app.store h (λ store. h))
                  h)))))

  message-Positive :
      (msg : FixMessage) (session_id : SessionId) (app : SimulationApp W T)
      → Positive app
      → Positive (or_same app (from_app users reason_text now msg session_id app))
  unfolding from_app
  message-Positive msg session_id app h =
      bind-Positive app (get_string Tags.msg_type msg) _ h (λ type.
        route_message-Positive type msg session_id (users.extract_account_id session_id) app h)

  turn-Positive :
      (x : Turn W) (app : SimulationApp W T)
      → Positive app
      → Positive (engine_turn users reason_text now x app)
  unfolding engine_turn
  turn-Positive x app h =
      react_all-Holds (λ e m. HaveVolumes m) (λ c e m k. perform-HaveVolumes c m k) users
        reason_text now _ _ h

module _ {W T : Type 0} ⦃d : Double W⦄ ⦃t : DoubleText W⦄ ⦃s : OrderStore W T⦄
    (reason_text : RejectReason → Text) where
  abbrev step : Step W → SimulationApp W T → SimulationApp W T
  step (Step.log_on users session_id) app = on_logon users session_id app
  step (Step.log_out session_id) app = on_logout session_id app
  step (Step.message users now msg session_id) app =
      or_same app (from_app users reason_text now msg session_id app)
  step (Step.turn users now x) app = engine_turn users reason_text now x app

  abbrev pub run_steps : List (Step W) → SimulationApp W T → SimulationApp W T
  run_steps [] app = app
  run_steps (x ∷ xs) app = run_steps xs (step x app)

  step-HaveVolumes :
      (x : Step W) (app : SimulationApp W T)
      → HaveVolumes app.positions
      → HaveVolumes (step x app).positions
  unfolding on_logon on_logout
  step-HaveVolumes (Step.log_on users session_id) app h =
      by_test (λ (x : SimulationApp W T). HaveVolumes x.positions) _ h h
  step-HaveVolumes (Step.log_out session_id) app h = h
  step-HaveVolumes (Step.message users now msg session_id) app h =
      message-Positive users reason_text now msg session_id app h
  step-HaveVolumes (Step.turn users now x) app h = turn-Positive users reason_text now x app h

  -- If no account is long or short by less than nothing, none ever is, whatever messages of clients,
  -- log ons, log outs and turns of the engine the application handles, in whatever order, as long as
  -- the sums of volumes stay below 2 ^ 63, where the program's `int64_t` is exact as the integers
  -- of this model are.
  pub run_steps-HaveVolumes :
      (steps : List (Step W)) (app : SimulationApp W T)
      → HaveVolumes app.positions
      → HaveVolumes (run_steps steps app).positions
  run_steps-HaveVolumes [] app h = h
  run_steps-HaveVolumes (x ∷ xs) app h =
      run_steps-HaveVolumes xs (step x app) (step-HaveVolumes x app h)
