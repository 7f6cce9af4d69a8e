-- ===== src/Simulation/Fills/Callbacks.antt =====
-- src/app/simulation_app.cpp: what the application does when the engine reports, and with prices.
use fix4_0_demo.Prelude.{
  Bool, true, false, ◌&&◌, List, [], ◌∷◌, none, some, if◌then◌else◌, Text, text_eq, ℤ, pos, ltb_ℤ,
  Double, DoubleText, lookup,
}
use fix4_0_demo.Engine.Order.{OrderStatus, SessionId}
use fix4_0_demo.Engine.Events.{ExecutionReport}
use fix4_0_demo.Manager.Accounts.{update_position_profit}
use fix4_0_demo.Manager.Positions.{Position, has_volume, update_profit, get_total_profit}
use fix4_0_demo.Manager.Positions.Restart.{get_all_positions}
use fix4_0_demo.Manager.Instruments.{get_instrument, text_leb}
use fix4_0_demo.Simulation.{SimulationApp, OrderStore, Users, send_message, forget_order}
use fix4_0_demo.Simulation.Reports.{build_execution_report}
use fix4_0_demo.Simulation.Pushes.{push_account_update, push_position_update}
use fix4_0_demo.Simulation.Fills.{
  book_fill, handle_cancel, handle_reject, persist_report, refresh_profit,
}

abbrev pub is_final : OrderStatus → Bool
is_final OrderStatus.filled = true
is_final OrderStatus.rejected = true
is_final OrderStatus.canceled = true
is_final _ = false

-- The set of accounts: in the order of their ids, each once.
unfoldable pub insert_account : Text → List Text → List Text
insert_account a [] = a ∷ []
insert_account a (b ∷ accounts) =
    let rest = insert_account a accounts in
    if text_eq a b then b ∷ accounts else if text_leb a b then a ∷ b ∷ accounts else b ∷ rest

module _ {W T : Type 0} ⦃d : Double W⦄ ⦃t : DoubleText W⦄ (users : Users) where
  unfoldable pub handle_fill : Text → ExecutionReport W → SimulationApp W T → SimulationApp W T
  handle_fill account_id r app = elim (get_instrument r.symbol app.instruments) [
    | none ↦ app
    | some i ↦ push_position_update users account_id r.symbol (pos 2) (
        push_account_update users account_id (pos 2)
          (refresh_profit account_id r.symbol r.last_px i (book_fill account_id r i app)))
  ]

  -- The account that an order is booked on.
  abbrev pub account_of : SessionId → ExecutionReport W → SimulationApp W T → Text
  account_of session_id r app = elim (lookup r.cl_ord_id app.order_account_map) [
    | none ↦ users.extract_account_id session_id
    | some account_id ↦ account_id
  ]

  -- Accounts and positions after a report.
  unfoldable pub book_report : Text → ExecutionReport W → SimulationApp W T → SimulationApp W T
  book_report account_id r app = elim r.ord_status [
    | OrderStatus.filled ↦ if ltb_ℤ (pos 0) r.last_shares then handle_fill account_id r app else app
    | OrderStatus.partially_filled ↦
        if ltb_ℤ (pos 0) r.last_shares then handle_fill account_id r app else app
    | OrderStatus.rejected ↦ handle_reject account_id r app
    | OrderStatus.canceled ↦ handle_cancel account_id r app
    | _ ↦ app
  ]

  unfoldable pub on_execution_report :
      ⦃s : OrderStore W T⦄
      → Text
      → SessionId
      → ExecutionReport W
      → SimulationApp W T
      → SimulationApp W T
  on_execution_report now session_id r app =
      let stored : SimulationApp W T = record app { store = persist_report r app.store } in
      let booked = book_report (account_of session_id r stored) r stored in
      let settled = if is_final r.ord_status then forget_order r.cl_ord_id booked else booked in
      send_message session_id (build_execution_report now r) settled

  -- The loop over the positions: the accounts that the price affects.
  unfoldable pub mark_positions :
      Text
      → W
      → ℤ
      → List (Position W)
      → List Text
      → SimulationApp W T
      → List Text × SimulationApp W T
  mark_positions instrument_id price multiple [] accounts app = (accounts, app)
  mark_positions instrument_id price multiple (p ∷ positions) accounts app =
      let affected = text_eq p.instrument_id instrument_id && has_volume p in
      let marked : SimulationApp W T = record app {
        positions = (update_profit app.positions p.account_id instrument_id price multiple).0;
      } in
      mark_positions instrument_id price multiple positions
        (if affected then insert_account p.account_id accounts else accounts)
        (if affected then marked else app)

  unfoldable pub update_accounts : Text → List Text → SimulationApp W T → SimulationApp W T
  update_accounts instrument_id [] app = app
  update_accounts instrument_id (id ∷ accounts) app =
      let profit = get_total_profit app.positions id in
      let updated : SimulationApp W T = record app {
        accounts = (update_position_profit app.accounts id profit).0;
      } in
      update_accounts instrument_id accounts (
        push_position_update users id instrument_id (pos 1)
          (push_account_update users id (pos 1) updated))

  unfoldable pub on_market_data_update : Text → W → SimulationApp W T → SimulationApp W T
  on_market_data_update instrument_id last_price app =
      elim (get_instrument instrument_id app.instruments) [
        | none ↦ app
        | some i ↦
            let (accounts, marked) =
              mark_positions instrument_id last_price i.volume_multiple
                (get_all_positions app.positions) [] app in
            update_accounts instrument_id accounts marked
      ]
