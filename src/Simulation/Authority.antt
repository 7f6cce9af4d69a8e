-- ===== src/Simulation/Authority.antt =====
-- src/app/simulation_app.cpp: in whose name the engine is asked for something.
pub mod Reading
pub mod Submitting
use fix4_0_demo.Prelude.{
  Bool, true, false, not, ◌&&◌, ◌≡◌, refl, sym, ◌∙◌, ap, ◌⊎◌, inl, inr, Bool-cases, Option-cases,
  by_test, by_test_of, by_option, by_option_of, List, [], ◌∷◌, Option, none, some, if◌then◌else◌,
  Text, codes, text_eq, text_eq_iff, ℤ, pos, ltb_ℤ, ◌-ℤ◌, Double, DoubleText, lookup, put, arith,
}
use fix4_0_demo.Fix.Message.{FixMessage, Error, Result, ok, err, get_string}
use fix4_0_demo.Engine.Order.{Order, OrderStatus, SessionId}
use fix4_0_demo.Engine.Events.{
  CancelRequest, ExecutionReport, OrderEvent, EventData, new_order_event, cancel_request_event,
}
use fix4_0_demo.Engine.Matching.{Effect, MatchingEngine, submit}
use fix4_0_demo.Manager.Accounts.{Account, get_account}
use fix4_0_demo.Manager.Positions.{get_position}
use fix4_0_demo.Manager.Risk.{Instrument, OffsetFlag, RejectReason, check_order, is_open}
use fix4_0_demo.Manager.Instruments.{get_instrument}
use fix4_0_demo.Simulation.{SimulationApp, OrderStore, OrderMarginInfo, Users, forget_order}
use fix4_0_demo.Simulation.Pushes.{push_account_update, push_position_update}
use fix4_0_demo.Simulation.Fills.{
  take_frozen, book_open, book_close, book_if, book_fill, close_qty, position_or_new,
  refresh_profit, unfreeze_for, handle_reject, handle_cancel, persist_report,
}
use fix4_0_demo.Simulation.Fills.Callbacks.{
  handle_fill, is_final, book_report, account_of, on_execution_report,
}
use fix4_0_demo.Simulation.Booking.{on_execution_report-Holds}

pub on_execution_report-Runs :
    {W T : Type 0} ⦃d : Double W⦄ ⦃t : DoubleText W⦄ ⦃s : OrderStore W T⦄ (e : MatchingEngine W)
    (users : Users) (now : Text) (session_id : SessionId) (r : ExecutionReport W)
    (app : SimulationApp W T)
    → app.engine ≡ e
    → (on_execution_report users now session_id r app).engine ≡ e
on_execution_report-Runs e users now session_id r app h =
    on_execution_report-Holds (λ x m. x ≡ e) (λ c x m k. k) users now session_id r app h
