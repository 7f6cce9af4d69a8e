-- ===== src/Simulation.antt =====
-- include/app/simulation_app.hpp: the application that takes the clients' messages, checks orders
-- against the managers, hands them to the matching engine and books what it reports. Messages to
-- clients are put in an outbox, the latest first: whether a session takes one is only logged. The
-- sessions are seen through `Users`. The mutexes and the log are left out.
pub mod Reports
pub mod Parsing
pub mod Pushes
pub mod Fills
pub mod Orders
pub mod Queries
pub mod Dispatch
pub mod Booking
pub mod Authority
pub mod Volumes
pub mod System
pub mod Netting
pub mod Margins
pub mod Strays
mod Tests
use fix4_0_demo.Prelude.{
  ℕ, Bool, List, [], ◌∷◌, Option, none, some, if◌then◌else◌, Text, text_eq, is_empty, ℤ, pos, ◌+ℤ◌,
  leb_ℤ, Double, nought, Map, lookup, remove,
}
use fix4_0_demo.Fix.Message.{FixMessage}
use fix4_0_demo.Fix.Session.{Session}
use fix4_0_demo.Fix.SessionManager.{Sessions, SessionHeap, find_session, for_each_session}
use fix4_0_demo.Engine.Order.{Order, OrderStatus, OrderSide, SessionId}
use fix4_0_demo.Engine.Matching.{MatchingEngine}
use fix4_0_demo.Manager.Accounts.{AccountManager}
use fix4_0_demo.Manager.Positions.{PositionManager}
use fix4_0_demo.Manager.Instruments.{Instruments}

pub record OrderMarginInfo (W : Type 0) : Type 0 where
  pub original_frozen_margin : W
  pub original_order_qty : ℤ
  pub released_margin : W

-- include/storage/store.hpp
pub record StoredTrade (W : Type 0) : Type 0 where
  pub trade_id : Text
  pub cl_ord_id : Text
  pub symbol : Text
  pub side : OrderSide
  pub price : W
  pub quantity : ℤ

-- What the application asks of the store for orders and trades; that it failed is only logged.
pub record OrderStore (W T : Type 0) : Type 0 where
  pub save_order_for_account : Order W → Text → T → T
  pub update_order : Order W → T → T
  pub save_trade : StoredTrade W → T → T
  pub load_orders_by_account : Text → T → List (Order W)

pub record SimulationApp (W T : Type 0) : Type 0 where
  pub engine : MatchingEngine W
  pub accounts : AccountManager W
  pub positions : PositionManager W
  pub instruments : Instruments W
  pub store : Option T
  pub order_account_map : Map Text
  pub order_margin_info_map : Map (OrderMarginInfo W)
  pub outbox : List (SessionId × FixMessage)

-- The session manager as the application uses it: the user of a session, empty if there is none, and
-- the session of a user.
pub record Users : Type 0 where
  pub extract_account_id : SessionId → Text
  pub find_session_by_user_id : Text → Option SessionId

module _ {S : Type 0} where
  abbrev pub client_of : SessionHeap S → Option ℕ → Text
  client_of heap none = []
  client_of heap (some p) = (heap p).client_comp_id

  abbrev pub keep_first : SessionHeap S → Text → SessionId → ℕ → Option SessionId → Option SessionId
  keep_first heap user_id id p (some found) = some found
  keep_first heap user_id id p none =
      if text_eq (heap p).client_comp_id user_id then some id else none

  unfoldable pub users_of : Sessions → SessionHeap S → Users
  unfolding find_session for_each_session
  users_of sessions heap = record {
    extract_account_id = λ id. client_of heap (find_session id sessions);
    find_session_by_user_id = λ user_id. for_each_session (keep_first heap user_id) sessions none;
  }

module _ {W T : Type 0} where
  -- `sessionManager_.sendMessage`
  abbrev pub send_message : SessionId → FixMessage → SimulationApp W T → SimulationApp W T
  send_message session_id msg app = record app { outbox = (session_id, msg) ∷ app.outbox }

  -- Both maps forget an order.
  abbrev pub forget_order : Text → SimulationApp W T → SimulationApp W T
  forget_order id app = record app {
    order_account_map = remove id app.order_account_map;
    order_margin_info_map = remove id app.order_margin_info_map;
  }

module _ {W : Type 0} ⦃d : Double W⦄ where
  abbrev pub new_margin_info : W → ℤ → OrderMarginInfo W
  new_margin_info frozen qty = record {
    original_frozen_margin = frozen;
    original_order_qty = qty;
    released_margin = nought;
  }

  unfoldable pub calculate_release_amount : ℤ → OrderMarginInfo W → W × OrderMarginInfo W
  calculate_release_amount fill_qty info =
      let amount =
        d.div (d.mul info.original_frozen_margin (d.of_int fill_qty))
          (d.of_int info.original_order_qty) in
      if leb_ℤ info.original_order_qty (pos 0)
      then (nought, info)
      else (amount, record info { released_margin = d.add info.released_margin amount })

  abbrev pub get_remaining_frozen : OrderMarginInfo W → W
  get_remaining_frozen info = d.sub info.original_frozen_margin info.released_margin
