-- ===== src/Simulation/Strays.antt =====
-- src/app/simulation_app.cpp: what a message that is no order does to the live order that has its id.
use fix4_0_demo.Prelude.{
  true, ◌≡◌, refl, sym, ap, subst, ◌∙◌, Option, none, some, Text, text_eq_refl, Double, DoubleText,
  nought, Map, lookup, remove, lookup-remove,
}
use fix4_0_demo.Fix.Tags
use fix4_0_demo.Fix.Message.{FixMessage}
use fix4_0_demo.Engine.Order.{SessionId}
use fix4_0_demo.Manager.Accounts.{unfreeze_margin}
use fix4_0_demo.Manager.Risk.{RejectReason}
use fix4_0_demo.Simulation.{SimulationApp, OrderStore, OrderMarginInfo, Users}
use fix4_0_demo.Simulation.Parsing.{ParseResult, parse_new_order_single}
use fix4_0_demo.Simulation.Fills.{unfreeze_for, handle_reject, persist_report}
use fix4_0_demo.Simulation.Fills.Callbacks.{account_of, book_report, on_execution_report}
use fix4_0_demo.Simulation.Orders.{parse_reject, field_or_empty, handle_new_order_single}

lookup-remove_self : {V : Type 0} (id : Text) (m : Map V) → lookup id (remove id m) ≡ none
lookup-remove_self id m = lookup-remove id id m ∙ rw (text_eq_refl id) refl

unfreeze_for-found :
    {W T : Type 0} ⦃d : Double W⦄ (amount : OrderMarginInfo W → W) (owner id : Text)
    (info : OrderMarginInfo W) (app : SimulationApp W T)
    → lookup id app.order_margin_info_map ≡ some info
    → d.lt nought (amount info) ≡ true
    → unfreeze_for amount owner id app
      ≡ record app { accounts = (unfreeze_margin app.accounts owner (amount info)).0 }
unfolding unfreeze_for
unfreeze_for-found amount owner id info app i m = rw (i, unfreeze_for) (rw m refl)

module _ {W T : Type 0} ⦃d : Double W⦄ ⦃t : DoubleText W⦄ ⦃s : OrderStore W T⦄ (users : Users)
    (reason_text : RejectReason → Text) (now : Text) where
  -- A message of anyone that is no order, but names the id of a live order whose margin is frozen:
  -- the whole margin is unfrozen on the account of the owner of that order, and both maps forget the
  -- order.
  pub handle_new_order_single-stray :
      (msg : FixMessage) (error : Text) (session_id : SessionId) (user_id owner : Text)
      (info : OrderMarginInfo W) (app : SimulationApp W T)
      → parse_new_order_single {W = W} msg session_id ≡ ParseResult.failed error
      → lookup (field_or_empty Tags.cl_ord_id msg) app.order_account_map ≡ some owner
      → lookup (field_or_empty Tags.cl_ord_id msg) app.order_margin_info_map ≡ some info
      → d.lt nought info.original_frozen_margin ≡ true
      → let id = field_or_empty Tags.cl_ord_id msg in
        let after = handle_new_order_single users reason_text now msg session_id user_id app in
        (after.accounts ≡ (unfreeze_margin app.accounts owner info.original_frozen_margin).0)
        × (lookup id after.order_account_map ≡ none)
        × (lookup id after.order_margin_info_map ≡ none)
  unfolding handle_new_order_single on_execution_report book_report handle_reject
  handle_new_order_single-stray msg error session_id user_id owner info app p o i m =
      let id = field_or_empty Tags.cl_ord_id msg in
      let stored : SimulationApp W T = record app {
        store = persist_report (parse_reject msg error) app.store;
      } in
      let Q : SimulationApp W T → Type 0 = λ x.
        (x.accounts ≡ (unfreeze_margin app.accounts owner info.original_frozen_margin).0)
        × (lookup id (remove id x.order_account_map) ≡ none)
        × (lookup id (remove id x.order_margin_info_map) ≡ none) in
      let whose : account_of users session_id (parse_reject msg error) stored ≡ owner =
        ap (λ (x : Option Text). elim x [ none ↦ users.extract_account_id session_id | some a ↦ a ])
          o in
      let freed =
        ap (λ a. handle_reject a (parse_reject msg error) stored) whose
        ∙ unfreeze_for-found (λ y. y.original_frozen_margin) owner id info stored i m in
      rw (p, handle_new_order_single)
        (subst Q (sym freed) (
          refl,
          lookup-remove_self id app.order_account_map,
          lookup-remove_self id app.order_margin_info_map,
        ))
