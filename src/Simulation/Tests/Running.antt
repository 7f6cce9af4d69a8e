-- ===== src/Simulation/Tests/Running.antt =====
-- The application from its start: a user logs on and sells.
use fix4_0_demo.Prelude.{
  refl, List, [], ◌∷◌, none, codes, text_eq, ℤ, ◌*ℤ◌, stoll, lookup, put, All, arith,
}
use mathlib.Core.List
use fix4_0_demo.Fix.Tags
use fix4_0_demo.Fix.Message.{FixMessage, find_field, get_string}
use fix4_0_demo.Engine.Order.{Order}
use fix4_0_demo.Engine.Events.{new_order_event}
use fix4_0_demo.Engine.Matching.{start, submit}
use fix4_0_demo.Engine.Matching.Requests.{Turn, run_turn}
use fix4_0_demo.Engine.Matching.Fills.{IsFair}
use fix4_0_demo.Manager.Accounts
use fix4_0_demo.Manager.Positions.Restart
use fix4_0_demo.Manager.Accounts.{
  create_account, new_account, unfreeze_margin, Account, get_account, freeze_margin,
}
use fix4_0_demo.Manager.Positions.{new_position}
use fix4_0_demo.Manager.Risk.{
  check_order, check_price, check_margin, check_position, check_counter_party, is_price_valid,
  calculate_margin,
}
use fix4_0_demo.Simulation.{SimulationApp}
use fix4_0_demo.Simulation.Parsing.{parse_new_order_single}
use fix4_0_demo.Simulation.Orders.{
  handle_order, get_or_create_account, check_and_accept, accept_order, submit_order,
  handle_new_order_single, freeze_for_order,
}
use fix4_0_demo.Simulation.Dispatch
use fix4_0_demo.Simulation.Dispatch.{new_app, on_logon, from_app, route_message}
use fix4_0_demo.Simulation.Volumes.{Step, run_steps, run_steps-HaveVolumes}
use fix4_0_demo.Manager.Positions.Volumes.{HaveVolumes}
use fix4_0_demo.Simulation.System.{CanRun, Reached, Reached-AreFair}
use fix4_0_demo.Simulation.Tests.{
  app, cent_texts, cents, client, index_future, order, order_list, quote_of, reason_text, users,
}

abbrev sell_message : FixMessage
sell_message =
    (Tags.msg_type, codes "D")
    ∷ (Tags.cl_ord_id, codes "C4")
    ∷ (Tags.symbol, codes "IF")
    ∷ (Tags.side, codes "2")
    ∷ (Tags.order_qty, codes "2")
    ∷ (Tags.ord_type, codes "2")
    ∷ (Tags.price, codes "12")
    ∷ []

-- The user logs on, sells two, is filled by the next quote, and logs out.
abbrev steps : List (Step ℤ)
steps =
    Step.log_on users client
    ∷ Step.message users (codes "now") sell_message client
    ∷ Step.turn users (codes "now") (Turn.event (new_order_event order (codes "USER1")))
    ∷ Step.turn users (codes "now") (Turn.market (quote_of 12 13))
    ∷ Step.log_out client
    ∷ []

run_steps-HaveVolumes_example :
    HaveVolumes (run_steps reason_text steps (record app { engine = start app.engine })).positions
run_steps-HaveVolumes_example =
    run_steps-HaveVolumes reason_text steps (record app { engine = start app.engine })
      (record { long = omega arith; short = omega arith }, tt)

-- The application is started with an instrument, and the user logs on.
abbrev ready : SimulationApp ℤ (List (Order ℤ))
ready =
    on_logon users client
      (record (Dispatch.start (new_app none)) { instruments = (codes "IF", index_future) ∷ [] })

ready-Reached : Reached reason_text ready
unfolding put Dispatch.start new_app
ready-Reached =
    Reached.logged_on users client (Reached.listed (index_future ∷ []) (Reached.started none))

abbrev selling : SimulationApp ℤ (List (Order ℤ))
selling =
    handle_new_order_single users reason_text (codes "now") sell_message client (codes "USER1")
      ready

selling-Reached : Reached reason_text selling
unfolding from_app get_string route_message text_eq
selling-Reached = Reached.received users (codes "now") sell_message client ready-Reached refl

selling-CanRun : CanRun (Turn.event (new_order_event order (codes "USER1"))) selling.engine.effects
unfolding handle_new_order_single parse_new_order_single find_field text_eq stoll cents cent_texts
    order_list handle_order lookup put on_logon get_or_create_account Dispatch.start new_app
    Accounts.init create_account new_account check_and_accept check_order check_price check_margin
    check_position check_counter_party is_price_valid calculate_margin new_position accept_order
    freeze_for_order freeze_margin submit_order submit ◌*ℤ◌ Restart.init
selling-CanRun = List.Memᴰ.head refl

Reached-AreFair_example :
    All
      (IsFair (λ id session_id. Unit))
      (run_turn
        (Turn.event (new_order_event order (codes "USER1")))
        (record selling.engine { effects = [] })).effects
Reached-AreFair_example =
    Reached-AreFair reason_text selling (Turn.event (new_order_event order (codes "USER1")))
      selling-Reached selling-CanRun
