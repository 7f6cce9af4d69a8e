-- ===== src/Simulation/Authority/Submitting.antt =====
-- src/app/simulation_app.cpp: what a client's message can ask the engine for.
use fix4_0_demo.Prelude.{
  not, ◌≡◌, refl, sym, ◌∙◌, ap, subst, ◌⊎◌, inl, inr, Bool-cases, by_test, by_test_of, by_option,
  by_option_of, some, Text, codes, text_eq, text_eq_iff, Double, DoubleText, lookup, Map, arith,
}
use fix4_0_demo.Fix.Tags
use fix4_0_demo.Fix.Message
use fix4_0_demo.Fix.Message.{FixMessage, Error, Result, ok, err, find_field, get_string}
use fix4_0_demo.Engine.Order.{Order, SessionId}
use fix4_0_demo.Engine.Events.{
  CancelRequest, OrderEvent, EventData, new_order_event, cancel_request_event,
}
use fix4_0_demo.Engine.Matching.{MatchingEngine, submit}
use fix4_0_demo.Manager.Accounts.{get_account, freeze_margin}
use fix4_0_demo.Manager.Risk.{
  Instrument, OffsetFlag, RejectReason, calculate_required_margin, is_open,
}
use fix4_0_demo.Manager.Instruments.{get_instrument}
use fix4_0_demo.Simulation.{SimulationApp, OrderStore, Users}
use fix4_0_demo.Simulation.Parsing.{ParseResult, parse_new_order_single}
use fix4_0_demo.Simulation.Fills.Callbacks.{on_execution_report}
use fix4_0_demo.Simulation.Orders.{
  parse_reject, parse_cancel_request, submit_order, freeze_for_order, get_or_create_account,
  accept_order, check_and_accept, handle_order, handle_new_order_single, route_cancel,
  handle_order_cancel_request,
}
use fix4_0_demo.Simulation.Queries.{
  handle_balance_query, handle_position_query, handle_instrument_search, handle_order_history_query,
  max_results,
}
use fix4_0_demo.Simulation.Dispatch.{route_message, from_app}
use fix4_0_demo.Simulation.Authority.Reading.{IsReady, IsOf, parse_new_order_single-IsOf}
use fix4_0_demo.Simulation.Authority.{on_execution_report-Runs}

parse_cancel_request-session_id :
    (msg : FixMessage) (session_id : SessionId) (r : CancelRequest)
    → parse_cancel_request msg session_id ≡ ok r
    → r.session_id ≡ session_id
unfolding parse_cancel_request
parse_cancel_request-session_id msg session_id r h = ground arith

-- What a user may ask for: orders of his own, and that an order of his own be canceled.
abbrev pub IsAllowed : {W : Type 0} → Map Text → SessionId → Text → OrderEvent W → Type 0
IsAllowed owners session_id user_id ev = elim ev.payload [
  | EventData.order o ↦ (ev.user_id ≡ user_id) × (ev.session_id ≡ session_id) × IsReady session_id o
  | EventData.request r ↦
      (ev.user_id ≡ user_id)
      × (ev.session_id ≡ session_id)
      × (lookup r.orig_cl_ord_id owners ≡ some user_id)
  | EventData.nothing ↦ ⊥
]

-- The engine is asked for nothing, or for one thing that the user may ask for.
abbrev pub AsksFor : {W : Type 0} → Map Text → SessionId → Text → (e e' : MatchingEngine W) → Type 0
AsksFor {W} owners session_id user_id e e' =
    (e' ≡ e) ⊎ ((ev : OrderEvent W) × IsAllowed owners session_id user_id ev × (e' ≡ submit ev e))

module _ {W T : Type 0} ⦃d : Double W⦄ ⦃t : DoubleText W⦄ ⦃s : OrderStore W T⦄ (users : Users)
    (reason_text : RejectReason → Text) (now : Text) (owners : Map Text) (session_id : SessionId)
    (user_id : Text) (e : MatchingEngine W) where
  abbrev Asks : SimulationApp W T → Type 0
  Asks app = AsksFor owners session_id user_id e app.engine

  submit_order-Asks :
      (o : Order W) (app : SimulationApp W T)
      → IsReady session_id o
      → app.engine ≡ e
      → Asks (submit_order o user_id app)
  unfolding submit_order
  submit_order-Asks o app i h =
      inr (new_order_event o user_id, (refl, i.0, i), ap (submit (new_order_event o user_id)) h)

  accept_order-Asks :
      (o : Order W) (i : Instrument W) (offset : OffsetFlag) (app : SimulationApp W T)
      → IsReady session_id o
      → app.engine ≡ e
      → Asks (accept_order users reason_text now o session_id user_id i offset app)
  unfolding accept_order freeze_for_order
  accept_order-Asks o i offset app id h =
      by_test Asks (is_open offset)
        (elim (Bool-cases (freeze_margin app.accounts user_id (calculate_required_margin o i)).1) [
          | inl f ↦ rw f (submit_order-Asks o _ id h)
          | inr f ↦ rw f (inl (on_execution_report-Runs e users now session_id _ app h))
        ])
        (submit_order-Asks o app id h)

  handle_order-Asks :
      (o : Order W) (app : SimulationApp W T)
      → IsReady session_id o
      → app.engine ≡ e
      → Asks (handle_order users reason_text now o session_id user_id app)
  unfolding handle_order check_and_accept
  handle_order-Asks o app id h =
      by_option Asks (get_instrument o.symbol app.instruments)
        (inl (on_execution_report-Runs e users now session_id _ _ h))
        (λ i.
          by_option Asks (get_account (get_or_create_account user_id app.accounts).0 user_id)
            (inl h)
            (λ a.
              by_test Asks _ (inl (on_execution_report-Runs e users now session_id _ _ h))
                (accept_order-Asks o i _ _ id h)))

  handle_new_order_single-Asks :
      (msg : FixMessage) (app : SimulationApp W T)
      → app.engine ≡ e
      → Asks (handle_new_order_single users reason_text now msg session_id user_id app)
  unfolding handle_new_order_single
  handle_new_order_single-Asks msg app h =
      elim (parse_new_order_single {W = W} msg session_id)
          as (λ r.
            IsOf session_id r
            → Asks (elim r [
              | ParseResult.failed error ↦
                  on_execution_report users now session_id (parse_reject msg error) app
              | ParseResult.parsed o ↦ handle_order users reason_text now o session_id user_id app
            ])) [
              | ParseResult.failed error ↦
                  λ i. inl (on_execution_report-Runs e users now session_id _ app h)
              | ParseResult.parsed o ↦ λ i. handle_order-Asks o app i h
            ]
        (parse_new_order_single-IsOf W msg session_id)

  route_cancel-Asks :
      (r : CancelRequest) (app : SimulationApp W T)
      → r.session_id ≡ session_id
      → app.engine ≡ e
      → app.order_account_map ≡ owners
      → Asks (route_cancel r session_id user_id app)
  unfolding route_cancel
  route_cancel-Asks r app i h o =
      by_option_of Asks (lookup r.orig_cl_ord_id app.order_account_map) (λ _. inl h)
        (λ owner found.
          by_test_of Asks (not (text_eq owner user_id)) (λ _. inl h)
            (λ same.
              let mine : owner ≡ user_id = ground (arith, text_eq_iff owner user_id) in
              inr (
                cancel_request_event r user_id,
                (refl, i, ap (lookup r.orig_cl_ord_id) (sym o) ∙ found ∙ ap (λ u. some u) mine),
                ap (submit (cancel_request_event r user_id)) h,
              )))

  abbrev OkAsks : Result (SimulationApp W T) → Type 0
  OkAsks (ok app) = Asks app
  OkAsks (err error) = Unit

  bind-OkAsks :
      {A : Type 0} (m : Result A) (f : A → Result (SimulationApp W T))
      → ((a : A) → m ≡ ok a → OkAsks (f a))
      → OkAsks (Message.◌>>=◌ m f)
  bind-OkAsks (ok a) f h = h a refl
  bind-OkAsks (err error) f h = tt

  route_message-Asks :
      (type : Text) (msg : FixMessage) (app : SimulationApp W T)
      → app.engine ≡ e
      → app.order_account_map ≡ owners
      → OkAsks (route_message users reason_text now type msg session_id user_id app)
  unfolding route_message handle_order_cancel_request handle_balance_query handle_position_query
      handle_instrument_search handle_order_history_query
  route_message-Asks type msg app h o =
      by_test OkAsks (text_eq type (codes "D")) (handle_new_order_single-Asks msg app h) (
        by_test OkAsks (text_eq type (codes "F"))
          (bind-OkAsks (parse_cancel_request msg session_id) _ (λ r p.
            route_cancel-Asks r app (parse_cancel_request-session_id msg session_id r p) h o))
          (by_test OkAsks (text_eq type (codes "U1"))
            (by_option Asks (get_account app.accounts user_id) (inl h) (λ a. inl h))
            (by_test OkAsks (text_eq type (codes "U3")) (inl h) (
              by_test OkAsks (text_eq type (codes "U7"))
                (bind-OkAsks (max_results msg) _ (λ limit _. inl h))
                (by_test OkAsks (text_eq type (codes "U9"))
                  (by_option Asks app.store (inl h) (λ store. inl h)) (inl h))))))

-- A message of a session asks the engine for nothing, or for one thing in the name of the session's
-- user: an order of this session, for a positive quantity, on which nothing has been filled, or
-- that an order be canceled that is booked as this user's.
-- Whatever user or account the message names does not matter.
pub from_app-AsksFor :
    {W T : Type 0} ⦃d : Double W⦄ ⦃t : DoubleText W⦄ ⦃s : OrderStore W T⦄ (users : Users)
    (reason_text : RejectReason → Text) (now : Text) (msg : FixMessage) (session_id : SessionId)
    (app app' : SimulationApp W T)
    → from_app users reason_text now msg session_id app ≡ ok app'
    → AsksFor app.order_account_map session_id
        (users.extract_account_id session_id)
        app.engine
        app'.engine
unfolding from_app
from_app-AsksFor {T = T} users reason_text now msg session_id app app' h =
    let owners = app.order_account_map in
    let user_id = users.extract_account_id session_id in
    subst
      (λ (r : Result (SimulationApp _ T)).
        OkAsks users reason_text now owners session_id user_id app.engine r)
      h
      (bind-OkAsks users reason_text now owners session_id user_id app.engine
        (get_string Tags.msg_type msg) _
        (λ type _.
          route_message-Asks users reason_text now owners session_id user_id app.engine type msg app
            refl refl))
