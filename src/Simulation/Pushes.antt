-- ===== src/Simulation/Pushes.antt =====
-- src/app/simulation_app.cpp: the updates of accounts and positions that a user's session is sent.
use fix4_0_demo.Prelude.{[], none, some, Text, codes, ℤ, pos, Double, DoubleText}
use fix4_0_demo.Fix.Tags
use fix4_0_demo.Fix.Message.{FixMessage, set, set_int}
use fix4_0_demo.Manager.Accounts.{Account, get_account, get_dynamic_equity, get_risk_ratio}
use fix4_0_demo.Manager.Positions.{Position, get_position, total_profit}
use fix4_0_demo.Simulation.{SimulationApp, Users, send_message}

module _ {W : Type 0} ⦃d : Double W⦄ ⦃t : DoubleText W⦄ where
  -- The eight amounts of an account, with two digits after the point.
  unfoldable pub balance_fields : Account W → FixMessage → FixMessage
  balance_fields a msg = set Tags.risk_ratio (t.fixed 2 (get_risk_ratio a)) (
      set Tags.dynamic_equity (t.fixed 2 (get_dynamic_equity a)) (
        set Tags.close_profit (t.fixed 2 a.close_profit) (
          set Tags.position_profit (t.fixed 2 a.position_profit) (
            set Tags.used_margin (t.fixed 2 a.used_margin) (
              set Tags.frozen_margin (t.fixed 2 a.frozen_margin) (
                set Tags.available (t.fixed 2 a.available)
                  (set Tags.balance (t.fixed 2 a.balance) msg)))))))

  abbrev pub account_update : Text → ℤ → Account W → FixMessage
  account_update user_id reason a = balance_fields a (
      set_int Tags.update_reason reason (
        set_int Tags.update_type (pos 1)
          (set Tags.account user_id (set Tags.msg_type (codes "U5") []))))

  abbrev pub position_update : Text → Text → ℤ → Position W → FixMessage
  position_update user_id instrument_id reason p =
      let head = set Tags.instrument_id instrument_id (
        set_int Tags.update_reason reason (
          set_int Tags.update_type (pos 2)
            (set Tags.account user_id (set Tags.msg_type (codes "U6") [])))) in
      set Tags.position_profit (t.fixed 2 (total_profit p)) (
        set Tags.short_avg_price (t.fixed 2 p.short_avg_price) (
          set_int Tags.short_position p.short_position (
            set Tags.long_avg_price (t.fixed 2 p.long_avg_price)
              (set_int Tags.long_position p.long_position head))))

  module _ {T : Type 0} (users : Users) where
    unfoldable pub push_account_update : Text → ℤ → SimulationApp W T → SimulationApp W T
    push_account_update user_id reason app = elim (users.find_session_by_user_id user_id) [
      | none ↦ app
      | some session_id ↦ elim (get_account app.accounts user_id) [
        | none ↦ app
        | some a ↦ send_message session_id (account_update user_id reason a) app
      ]
    ]

    unfoldable pub push_position_update : Text → Text → ℤ → SimulationApp W T → SimulationApp W T
    push_position_update user_id instrument_id reason app =
        elim (users.find_session_by_user_id user_id) [
          | none ↦ app
          | some session_id ↦ elim (get_position app.positions user_id instrument_id) [
            | none ↦ app
            | some p ↦ send_message session_id (position_update user_id instrument_id reason p) app
          ]
        ]
