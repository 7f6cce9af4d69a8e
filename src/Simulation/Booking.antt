-- ===== src/Simulation/Booking.antt =====
-- src/app/simulation_app.cpp: booking a report leaves the engine alone, and changes the positions only
-- through the operations of the position manager that Manager/Positions/Volumes lists.
use fix4_0_demo.Prelude.{
  ◌&&◌, by_test, by_test_of, by_option, List, [], ◌∷◌, if◌then◌else◌, Text, text_eq, ℤ, pos, ltb_ℤ,
  ltb_ℤ→lt, int_laws, ◌≤ℤ◌, ◌-ℤ◌, Double, DoubleText, lookup,
}
use fix4_0_demo.Engine.Order.{OrderStatus, SessionId}
use fix4_0_demo.Engine.Events.{ExecutionReport}
use fix4_0_demo.Engine.Matching.{Effect, MatchingEngine}
use fix4_0_demo.Manager.Accounts.{get_account}
use fix4_0_demo.Manager.Positions.{Position, PositionManager, has_volume, get_position}
use fix4_0_demo.Manager.Positions.Restart.{get_all_positions}
use fix4_0_demo.Manager.Positions.Volumes.{Call, perform}
use fix4_0_demo.Manager.Risk.{calculate_margin, Instrument, RejectReason}
use fix4_0_demo.Manager.Instruments.{get_instrument}
use fix4_0_demo.Simulation.{SimulationApp, OrderStore, OrderMarginInfo, Users}
use fix4_0_demo.Simulation.Dispatch.{react, react_all}
use fix4_0_demo.Simulation.Pushes.{push_account_update, push_position_update}
use fix4_0_demo.Simulation.Fills.{
  take_frozen, book_open, book_close, book_if, book_fill, close_qty, position_or_new,
  refresh_profit, unfreeze_for, handle_reject, handle_cancel, persist_report,
}
use fix4_0_demo.Simulation.Fills.Callbacks.{
  handle_fill, is_final, book_report, account_of, on_execution_report, mark_positions,
  update_accounts, on_market_data_update,
}

module _ {W T : Type 0} ⦃d : Double W⦄ (Q : MatchingEngine W → PositionManager W → Type 0)
    (closed : (c : Call W) (e : MatchingEngine W) (m : PositionManager W)
      → Q e m
      → Q e (perform c m)) where
  -- What is asked of the engine and the positions.
  abbrev Holds : SimulationApp W T → Type 0
  Holds app = Q app.engine app.positions

  book_if-Holds :
      (book : ℤ → SimulationApp W T → SimulationApp W T)
      → ((qty : ℤ) (app : SimulationApp W T) → pos 0 ≤ℤ qty → Holds app → Holds (book qty app))
      → (qty : ℤ) (app : SimulationApp W T) → Holds app
      → Holds (book_if book qty app)
  book_if-Holds book keeps qty app h =
      by_test_of Holds (ltb_ℤ (pos 0) qty)
        (λ more. keeps qty app (omega (int_laws, ltb_ℤ→lt (pos 0) qty more)) h) (λ none_left. h)

  book_open-Holds :
      (account_id : Text) (r : ExecutionReport W) (i : Instrument W) (qty : ℤ)
      (app : SimulationApp W T)
      → pos 0 ≤ℤ qty
      → Holds app
      → Holds (book_open account_id r i qty app)
  unfolding book_open take_frozen
  book_open-Holds account_id r i qty app q h =
      let margin = calculate_margin i r.last_px qty in
      let opened : Call W = Call.open_volume account_id r.symbol r.side qty q r.last_px margin in
      by_option (λ (y : W × SimulationApp W T). Q y.1.engine (perform opened y.1.positions))
        (lookup r.cl_ord_id app.order_margin_info_map) (closed opened app.engine app.positions h)
        (λ info. closed opened app.engine app.positions h)

  book_close-Holds :
      (account_id : Text) (r : ExecutionReport W) (i : Instrument W) (qty : ℤ)
      (app : SimulationApp W T)
      → Holds app
      → Holds (book_close account_id r i qty app)
  unfolding book_close
  book_close-Holds account_id r i qty app h =
      closed (Call.close_volume account_id r.symbol r.side qty r.last_px i.volume_multiple)
        app.engine app.positions h

  book_fill-Holds :
      (account_id : Text) (r : ExecutionReport W) (i : Instrument W) (app : SimulationApp W T)
      → Holds app
      → Holds (book_fill account_id r i app)
  unfolding book_fill
  book_fill-Holds account_id r i app h =
      let qty = close_qty r.side r.last_shares (position_or_new account_id r.symbol app) in
      book_if-Holds (book_open account_id r i) (book_open-Holds account_id r i)
        (r.last_shares -ℤ qty) (book_if (book_close account_id r i) qty app)
        (book_if-Holds (book_close account_id r i) (λ n x _. book_close-Holds account_id r i n x)
          qty app h)

  unfreeze_for-Holds :
      (amount : OrderMarginInfo W → W) (account_id id : Text) (app : SimulationApp W T)
      → Holds app
      → Holds (unfreeze_for amount account_id id app)
  unfolding unfreeze_for
  unfreeze_for-Holds amount account_id id app h =
      by_option Holds (lookup id app.order_margin_info_map) h
        (λ info. by_test Holds (d.lt _ (amount info)) h h)

  module _ ⦃t : DoubleText W⦄ (users : Users) where
    push-Holds :
        (account_id symbol : Text) (reason : ℤ) (app : SimulationApp W T)
        → Holds app
        → Holds (
            push_position_update users account_id symbol reason
              (push_account_update users account_id reason app))
    unfolding push_position_update push_account_update
    push-Holds account_id symbol reason app h =
        let pushed = push_account_update users account_id reason app in
        let k : Holds pushed =
          by_option Holds (users.find_session_by_user_id account_id) h
            (λ sid. by_option Holds (get_account app.accounts account_id) h (λ a. h)) in
        by_option Holds (users.find_session_by_user_id account_id) k
          (λ sid. by_option Holds (get_position pushed.positions account_id symbol) k (λ p. k))

    handle_fill-Holds :
        (account_id : Text) (r : ExecutionReport W) (app : SimulationApp W T)
        → Holds app
        → Holds (handle_fill users account_id r app)
    unfolding handle_fill refresh_profit
    handle_fill-Holds account_id r app h =
        by_option Holds (get_instrument r.symbol app.instruments) h (λ i.
          push-Holds account_id r.symbol (pos 2)
            (refresh_profit account_id r.symbol r.last_px i (book_fill account_id r i app))
            (closed (Call.mark_position account_id r.symbol r.last_px i.volume_multiple) _ _
              (book_fill-Holds account_id r i app h)))

    book_report-Holds :
        (account_id : Text) (r : ExecutionReport W) (app : SimulationApp W T)
        → Holds app
        → Holds (book_report users account_id r app)
    unfolding book_report handle_reject handle_cancel
    book_report-Holds account_id r app h =
        elim r.ord_status
          as (λ status. Holds (elim status [
            | OrderStatus.filled ↦
                if ltb_ℤ (pos 0) r.last_shares then handle_fill users account_id r app else app
            | OrderStatus.partially_filled ↦
                if ltb_ℤ (pos 0) r.last_shares then handle_fill users account_id r app else app
            | OrderStatus.rejected ↦ handle_reject account_id r app
            | OrderStatus.canceled ↦ handle_cancel account_id r app
            | _ ↦ app
          ])) [
            | OrderStatus.filled ↦
                by_test Holds (ltb_ℤ (pos 0) r.last_shares) (handle_fill-Holds account_id r app h) h
            | OrderStatus.partially_filled ↦
                by_test Holds (ltb_ℤ (pos 0) r.last_shares) (handle_fill-Holds account_id r app h) h
            | OrderStatus.rejected ↦ unfreeze_for-Holds _ account_id r.cl_ord_id app h
            | OrderStatus.canceled ↦ unfreeze_for-Holds _ account_id r.cl_ord_id app h
            | _ ↦ h
          ]

    pub on_execution_report-Holds :
        ⦃s : OrderStore W T⦄ (now : Text) (session_id : SessionId) (r : ExecutionReport W)
        (app : SimulationApp W T)
        → Holds app
        → Holds (on_execution_report users now session_id r app)
    unfolding on_execution_report
    on_execution_report-Holds now session_id r app h =
        let stored : SimulationApp W T = record app { store = persist_report r app.store } in
        let k = book_report-Holds (account_of users session_id r stored) r stored h in
        by_test Holds (is_final r.ord_status) k k

    mark_positions-Holds :
        (id : Text) (price : W) (multiple : ℤ) (ps : List (Position W)) (accounts : List Text)
        (app : SimulationApp W T)
        → Holds app
        → Holds (mark_positions users id price multiple ps accounts app).1
    unfolding mark_positions
    mark_positions-Holds id price multiple [] accounts app h = h
    mark_positions-Holds id price multiple (p ∷ ps) accounts app h =
        mark_positions-Holds id price multiple ps _ _ (
          by_test Holds (text_eq p.instrument_id id && has_volume p)
            (closed (Call.mark_position p.account_id id price multiple) app.engine app.positions h)
            h)

    update_accounts-Holds :
        (id : Text) (accounts : List Text) (app : SimulationApp W T)
        → Holds app
        → Holds (update_accounts users id accounts app)
    unfolding update_accounts
    update_accounts-Holds id [] app h = h
    update_accounts-Holds id (a ∷ accounts) app h =
        update_accounts-Holds id accounts _ (push-Holds a id (pos 1) _ h)

    on_market_data_update-Holds :
        (id : Text) (price : W) (app : SimulationApp W T)
        → Holds app
        → Holds (on_market_data_update users id price app)
    unfolding on_market_data_update
    on_market_data_update-Holds id price app h =
        by_option Holds (get_instrument id app.instruments) h (λ i. update_accounts-Holds id _ _ (
          mark_positions-Holds id price i.volume_multiple (get_all_positions app.positions) [] app
            h))

    pub react_all-Holds :
        ⦃s : OrderStore W T⦄ (reason_text : RejectReason → Text) (now : Text)
        (effects : List (Effect W)) (app : SimulationApp W T)
        → Holds app
        → Holds (react_all users reason_text now effects app)
    unfolding react_all react
    react_all-Holds reason_text now [] app h = h
    react_all-Holds reason_text now (Effect.limits id upper lower ∷ es) app h =
        react_all-Holds reason_text now es app h
    react_all-Holds reason_text now (Effect.updated id price ∷ es) app h =
        on_market_data_update-Holds id price _ (react_all-Holds reason_text now es app h)
    react_all-Holds reason_text now (Effect.reported session_id r ∷ es) app h =
        on_execution_report-Holds now session_id r _ (react_all-Holds reason_text now es app h)
    react_all-Holds reason_text now (Effect.enqueued ev ∷ es) app h =
        react_all-Holds reason_text now es app h
    react_all-Holds reason_text now (Effect.enqueued_data md ∷ es) app h =
        react_all-Holds reason_text now es app h
