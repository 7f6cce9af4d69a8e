-- ===== src/Fix/Session.antt =====
-- include/fix/session.hpp and src/fix/session.cpp: what a session keeps. Calls of the connection,
-- the application and the callbacks are recorded, in their order; what an application does in
-- reply is later calls. Times are milliseconds of the steady clock, read once for each call.
-- Sequence numbers stay far below the limit of `int`.
pub mod Run
pub mod Sending
pub mod Resend
pub mod Logon
pub mod States
pub mod Inbound
pub mod Api
pub mod Machine
pub mod Refinement
pub mod Promises
pub mod Liveness
mod Tests
use fix4_0_demo.Prelude.{
  ℕ, ◌+◌, Bool, true, false, List, [], ◌∷◌, ◌++◌, Option, none, some, if◌then◌else◌, ℤ, pos, Text,
  codes, text_eq,
}
use fix4_0_demo.Fix.Message.{FixMessage, Error, Result}
use fix4_0_demo.Engine.Order.{SessionId}

-- include/storage/store.hpp
pub record StoredMessage : Type 0 where
  pub seq_num : ℤ
  pub sender_comp_id : Text
  pub target_comp_id : Text
  pub msg_type : Text
  pub raw_message : Text

pub record SessionState : Type 0 where
  pub sender_comp_id : Text
  pub target_comp_id : Text
  pub send_seq_num : ℤ
  pub recv_seq_num : ℤ

-- What a session uses of `IStore`. That saving failed is only logged.
pub record Store (S : Type 0) : Type 0 where
  pub save_message : StoredMessage → S → S
  pub load_messages : Text → Text → ℤ → ℤ → S → List StoredMessage
  pub delete_messages_for_session : Text → Text → S → S
  pub save_session_state : SessionState → S → S
  pub load_session_state : Text → Text → S → Option SessionState

-- The settings of the section "fix_session", and the products with them as the host rounds them.
pub record Settings : Type 0 where
  pub logout_confirm_timeout_sec : ℤ
  pub min_heartbeat_interval : ℤ
  pub max_heartbeat_interval : ℤ
  -- `static_cast<long>(hb_interval * test_request_timeout_multiplier)`
  pub test_request_timeout : ℤ → ℤ
  -- `static_cast<long>(hb_interval * 1.2)`
  pub test_request_after : ℤ → ℤ

-- The time of a call: of the steady clock, and as the codec writes it.
pub record Clock : Type 0 where
  pub now : ℕ
  pub utc : Text

-- The states, with what their objects keep.
pub data State : Type 0 where
  disconnected logon_sent : State
  -- the TestReqID waited for, and when a logout was initiated
  established : (awaiting_test_req_id : Text) → (logout_initiation_time : Option ℕ) → State
  logout_sent : (reason : Text) → (initiation_time : ℕ) → State

pub data Event : Type 0 where
  sent : Text → Event
  connection_shutdown : Event
  shutdown_callback : Event
  established_callback : Event
  on_logon : SessionId → Event
  on_logout : SessionId → Event
  from_app : FixMessage → SessionId → Event
  from_admin : FixMessage → SessionId → Event

-- `std::map<int, FixMessage>`, by rising numbers.
abbrev pub Pending : Type 0
Pending = List (ℤ × FixMessage)

pub record Session (S : Type 0) : Type 0 where
  pub sender_comp_id : Text
  pub target_comp_id : Text
  pub client_comp_id : Text
  pub state : State
  pub running : Bool
  pub shutting_down : Bool
  pub established_notified : Bool
  pub processing_resend : Bool
  pub heart_bt_int : ℤ
  pub min_heart_bt_int : ℤ
  pub max_heart_bt_int : ℤ
  pub send_seq_num : ℤ
  pub recv_seq_num : ℤ
  pub last_recv : ℕ
  pub last_send : ℕ
  pub pending_inbound : Pending
  pub last_resend_request_end : ℤ
  -- whether there is a connection, an application, a callback of either kind
  pub connected : Bool
  pub has_application : Bool
  pub has_shutdown_callback : Bool
  pub has_established_callback : Bool
  pub store : Option S
  -- what the session did, the latest first
  pub events : List Event

module _ {S : Type 0} where
  abbrev pub emit : Event → Session S → Session S
  emit e s = record s { events = e ∷ s.events }

  abbrev pub emit_if : Bool → Event → Session S → Session S
  emit_if condition e s = if condition then emit e s else s

  abbrev pub get_session_id : Session S → SessionId
  get_session_id s = record { sender_comp_id = s.sender_comp_id; target_comp_id = s.target_comp_id }

  -- `stop` and `changeState`
  abbrev pub stop : Session S → Session S
  stop s = record s { running = false }

  abbrev pub change_state : State → Session S → Session S
  change_state state s = record s { state = state }

  -- `perform_shutdown` up to the change of state, and the rest of it. The reason is only logged.
  abbrev pub halt : Session S → Session S
  halt s = change_state disconnected (
      stop (
        emit_if s.has_application (on_logout (get_session_id s))
          (record s { shutting_down = true })))

  abbrev pub close : Session S → Session S
  close s =
      let closed = emit_if s.connected connection_shutdown s in
      emit_if closed.has_shutdown_callback shutdown_callback closed

  unfoldable pub perform_shutdown : Session S → Session S
  perform_shutdown s = if s.shutting_down then s else close (halt s)

  unfoldable pub notify_established : Session S → Session S
  notify_established s =
      if s.established_notified
      then s
      else emit_if s.has_established_callback established_callback
          (record s { established_notified = true })

  abbrev pub update_last_recv_time : ℕ → Session S → Session S
  update_last_recv_time now s = record s { last_recv = now }

module _ {S : Type 0} ⦃store : Store S⦄ where
  unfoldable pub save_session_state : Session S → Session S
  save_session_state s = elim s.store [
    | none ↦ s
    | some db ↦ record s {
      store = some (
          store.save_session_state
            (record {
              sender_comp_id = s.sender_comp_id;
              target_comp_id = s.target_comp_id;
              send_seq_num = s.send_seq_num;
              recv_seq_num = s.recv_seq_num;
            })
            db);
    }
  ]

  -- Its result is not used.
  unfoldable pub restore_session_state : Session S → Session S
  restore_session_state s = elim s.store [
    | none ↦ s
    | some db ↦ elim (store.load_session_state s.sender_comp_id s.target_comp_id db) [
      | none ↦ s
      | some saved ↦ record s {
        send_seq_num = saved.send_seq_num;
        recv_seq_num = saved.recv_seq_num;
      }
    ]
  ]
