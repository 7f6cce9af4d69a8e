-- ===== src/Simulation/Fills.antt =====
-- src/app/simulation_app.cpp: how fills are booked on accounts and positions, and how the margins of
-- orders are released.
pub mod Callbacks
use fix4_0_demo.Prelude.{
  Bool, true, false, not, ◌&&◌, List, [], ◌∷◌, Option, none, some, if◌then◌else◌, Text, text_eq,
  is_empty, ℤ, pos, ◌-ℤ◌, ltb_ℤ, min_ℤ, Double, nought, DoubleText, lookup, put,
}
use fix4_0_demo.Engine.Order.{
  Order, OrderSide, OrderType, OrderStatus, TimeInForce, SessionId, is_buy,
}
use fix4_0_demo.Engine.Events.{ExecutionReport}
use fix4_0_demo.Manager.Accounts.{
  release_margin, add_close_profit, confirm_margin, unfreeze_margin, update_position_profit,
}
use fix4_0_demo.Manager.Positions.{
  Position, get_position, has_volume, new_position, open_position, close_position, update_profit,
  get_total_profit,
}
use fix4_0_demo.Manager.Positions.Restart.{get_all_positions}
use fix4_0_demo.Manager.Risk.{Instrument, calculate_margin}
use fix4_0_demo.Manager.Instruments.{get_instrument, text_leb}
use fix4_0_demo.Simulation.{
  SimulationApp, OrderStore, StoredTrade, Users, OrderMarginInfo, send_message, forget_order,
  calculate_release_amount, get_remaining_frozen,
}
use fix4_0_demo.Simulation.Reports.{build_execution_report}
use fix4_0_demo.Simulation.Pushes.{push_account_update, push_position_update}

module _ {W : Type 0} where
  -- How much of a fill closes the other side of a position.
  unfoldable pub close_qty : OrderSide → ℤ → Position W → ℤ
  close_qty side shares p =
      if is_buy side && ltb_ℤ (pos 0) p.short_position
      then min_ℤ shares p.short_position
      else if not (is_buy side) && ltb_ℤ (pos 0) p.long_position
      then min_ℤ shares p.long_position
      else pos 0

  abbrev pub trade_of_report : ExecutionReport W → StoredTrade W
  trade_of_report r = record {
    trade_id = r.exec_id;
    cl_ord_id = r.cl_ord_id;
    symbol = r.symbol;
    side = r.side;
    price = r.last_px;
    quantity = r.last_shares;
  }

module _ {W : Type 0} ⦃d : Double W⦄ where
  -- The default constructor, with what a report says.
  abbrev pub order_update : ExecutionReport W → Order W
  order_update r = record {
    cl_ord_id = r.cl_ord_id;
    order_id = r.order_id;
    session_id = record { sender_comp_id = []; target_comp_id = [] };
    symbol = [];
    side = OrderSide.buy;
    ord_type = OrderType.limit;
    time_in_force = TimeInForce.day;
    order_qty = pos 0;
    price = nought;
    status = r.ord_status;
    cum_qty = r.cum_qty;
    leaves_qty = r.leaves_qty;
    avg_px = r.avg_px;
  }

module _ {W T : Type 0} ⦃d : Double W⦄ where
  -- The order's state, and a trade if there was one, go to the store.
  unfoldable pub persist_report : ⦃s : OrderStore W T⦄ → ExecutionReport W → Option T → Option T
  persist_report r none = none
  persist_report ⦃s⦄ r (some store) =
      let updated = s.update_order (order_update r) store in
      let traded =
        if ltb_ℤ (pos 0) r.last_shares && not (is_empty r.exec_id)
        then s.save_trade (trade_of_report r) updated
        else updated in
      some (if is_empty r.cl_ord_id then store else traded)

  abbrev pub position_or_new : Text → Text → SimulationApp W T → Position W
  position_or_new account_id symbol app = elim (get_position app.positions account_id symbol) [
    | none ↦ new_position account_id symbol
    | some p ↦ p
  ]

  -- The part that closes: its margin is released, and its profit is booked.
  unfoldable pub book_close :
      Text → ExecutionReport W → Instrument W → ℤ → SimulationApp W T → SimulationApp W T
  book_close account_id r i qty app =
      let (positions, profit) =
        close_position app.positions account_id r.symbol r.side qty r.last_px i.volume_multiple in
      let released =
        d.mul (d.mul (d.mul r.last_px (d.of_int qty)) (d.of_int i.volume_multiple)) i.margin_rate in
      record app {
        positions = positions;
        accounts =
            (add_close_profit (release_margin app.accounts account_id released).0 account_id
              profit).0;
      }

  -- What was frozen for the order, in proportion to the quantity, and the note that it is released.
  unfoldable pub take_frozen : Text → ℤ → SimulationApp W T → W × SimulationApp W T
  take_frozen id qty app = elim (lookup id app.order_margin_info_map) [
    | none ↦ (nought, app)
    | some info ↦
        let (amount, info') = calculate_release_amount qty info in
        (amount, record app { order_margin_info_map = put id info' app.order_margin_info_map })
  ]

  -- The part that opens: what was frozen for it becomes used margin.
  unfoldable pub book_open :
      Text → ExecutionReport W → Instrument W → ℤ → SimulationApp W T → SimulationApp W T
  book_open account_id r i qty app =
      let margin = calculate_margin i r.last_px qty in
      let (frozen, app') = take_frozen r.cl_ord_id qty app in
      record app' {
        accounts = (confirm_margin app'.accounts account_id frozen margin).0;
        positions = open_position app'.positions account_id r.symbol r.side qty r.last_px margin;
      }

  abbrev pub book_if :
      (ℤ → SimulationApp W T → SimulationApp W T) → ℤ → SimulationApp W T → SimulationApp W T
  book_if book qty app = if ltb_ℤ (pos 0) qty then book qty app else app

  -- Both parts of a fill.
  unfoldable pub book_fill :
      Text → ExecutionReport W → Instrument W → SimulationApp W T → SimulationApp W T
  book_fill account_id r i app =
      let closed = close_qty r.side r.last_shares (position_or_new account_id r.symbol app) in
      book_if (book_open account_id r i) (r.last_shares -ℤ closed)
        (book_if (book_close account_id r i) closed app)

  -- The profits of the account, with this price for its position.
  unfoldable pub refresh_profit :
      Text → Text → W → Instrument W → SimulationApp W T → SimulationApp W T
  refresh_profit account_id symbol price i app =
      let positions = (update_profit app.positions account_id symbol price i.volume_multiple).0 in
      record app {
        positions = positions;
        accounts =
            (update_position_profit app.accounts account_id
              (get_total_profit positions account_id)).0;
      }

  -- Margin that is no longer needed, if there is any.
  unfoldable pub unfreeze_for :
      (OrderMarginInfo W → W) → Text → Text → SimulationApp W T → SimulationApp W T
  unfreeze_for amount account_id id app = elim (lookup id app.order_margin_info_map) [
    | none ↦ app
    | some info ↦
        if d.lt nought (amount info)
        then record app { accounts = (unfreeze_margin app.accounts account_id (amount info)).0 }
        else app
  ]

  -- All that was frozen for the order.
  unfoldable pub handle_reject : Text → ExecutionReport W → SimulationApp W T → SimulationApp W T
  unfolding unfreeze_for
  handle_reject account_id r =
      unfreeze_for (λ info. info.original_frozen_margin) account_id r.cl_ord_id

  -- What is still frozen for the order.
  unfoldable pub handle_cancel : Text → ExecutionReport W → SimulationApp W T → SimulationApp W T
  unfolding unfreeze_for
  handle_cancel account_id r = unfreeze_for get_remaining_frozen account_id r.cl_ord_id
