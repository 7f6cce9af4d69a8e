-- ===== src/Fix/Session/Api.antt =====
-- src/fix/session.cpp: how a session begins, its timer, and what its owner asks of it.
use fix4_0_demo.Prelude.{
  ℕ, Bool, true, false, not, ◌&&◌, [], ◌++◌, Option, none, some, if◌then◌else◌, ℤ, pos, leb_ℤ, Text,
  codes, text_eq, is_empty, print_ℕ,
}
use fix4_0_demo.Fix.Session.{
  Session, Store, Settings, Clock, State, disconnected, logon_sent, established, logout_sent,
  change_state, perform_shutdown, restore_session_state,
}
use fix4_0_demo.Fix.Session.Run.{Run, ◌>>◌, skip, modify, when, with_session}
use fix4_0_demo.Fix.Session.Sending.{send_logout, send_heartbeat, send_test_request}
use fix4_0_demo.Fix.Session.Logon.{session_start}
use fix4_0_demo.Fix.Session.States.{seconds_between}

abbrev pub logout_timed_out : Settings → Clock → ℕ → Bool
logout_timed_out settings clock initiation_time =
    leb_ℤ settings.logout_confirm_timeout_sec (seconds_between initiation_time clock.now)

abbrev pub logout_overdue : Settings → Clock → Option ℕ → Bool
logout_overdue settings clock logout_time = elim logout_time [
  | none ↦ false
  | some t ↦ logout_timed_out settings clock t
]

-- A test request was not answered in time.
abbrev pub peer_silent : {S : Type 0} → Settings → Clock → Text → Session S → Bool
peer_silent settings clock awaiting s =
    not (is_empty awaiting)
    && leb_ℤ (settings.test_request_timeout s.heart_bt_int) (seconds_between s.last_recv clock.now)

module _ {S : Type 0} ⦃store : Store S⦄ (settings : Settings) (clock : Clock) where
  -- The constructor's body; the connection and the callbacks are set behind it.
  abbrev pub constructed : Text → Text → ℤ → Option S → Bool → Bool → Bool → Bool → Session S
  constructed sender target hb db connected has_application has_shutdown_callback
        has_established_callback =
      record {
        sender_comp_id = sender;
        target_comp_id = target;
        client_comp_id = [];
        state = disconnected;
        running = false;
        shutting_down = false;
        established_notified = false;
        processing_resend = false;
        heart_bt_int = hb;
        min_heart_bt_int = settings.min_heartbeat_interval;
        max_heart_bt_int = settings.max_heartbeat_interval;
        send_seq_num = pos 1;
        recv_seq_num = pos 1;
        last_recv = clock.now;
        last_send = clock.now;
        pending_inbound = [];
        last_resend_request_end = pos 0;
        connected = connected;
        has_application = has_application;
        has_shutdown_callback = has_shutdown_callback;
        has_established_callback = has_established_callback;
        store = db;
        events = [];
      }

  -- `onTimerCheck` of the established state: the two timeouts, and what keeps the session alive.
  unfoldable pub test_peer : Text → Option ℕ → Run S (Unit {0})
  test_peer awaiting logout_time = with_session (λ s.
      let id = codes "TestReq_" ++ print_ℕ clock.now in
      when
        (leb_ℤ (settings.test_request_after s.heart_bt_int) (seconds_between s.last_recv clock.now)
          && is_empty awaiting)
        (do modify (change_state (established id logout_time)); send_test_request clock id))

  unfoldable pub keep_alive : Text → Option ℕ → Run S (Unit {0})
  keep_alive awaiting logout_time = with_session (λ s.
      when (leb_ℤ s.heart_bt_int (seconds_between s.last_send clock.now)) (send_heartbeat clock [])
      >> test_peer awaiting logout_time)

  unfoldable pub established_timer : Text → Option ℕ → Run S (Unit {0})
  established_timer awaiting logout_time = with_session (λ s.
      if logout_overdue settings clock logout_time
      then modify perform_shutdown
      else if peer_silent settings clock awaiting s
      then modify perform_shutdown
      else keep_alive awaiting logout_time)

  -- `currentState_->onTimerCheck`
  unfoldable pub state_timer : State → Run S (Unit {0})
  state_timer disconnected = skip
  state_timer logon_sent = skip
  state_timer (established awaiting logout_time) = established_timer awaiting logout_time
  state_timer (logout_sent _ initiation_time) =
      when (logout_timed_out settings clock initiation_time) (modify perform_shutdown)

  unfoldable pub on_timer_check : Run S (Unit {0})
  on_timer_check = with_session (λ s. when s.running (state_timer s.state))

module _ {S : Type 0} ⦃store : Store S⦄ (clock : Clock) where
  -- `currentState_->onSessionStart`
  unfoldable pub state_start : State → Run S (Unit {0})
  state_start disconnected = session_start clock
  state_start logon_sent = skip
  state_start (established _ _) = skip
  state_start (logout_sent _ _) = skip

  unfoldable pub start : Run S (Unit {0})
  start =
      modify (λ s. record s { running = true; last_recv = clock.now; last_send = clock.now })
      >> with_session (λ s. state_start s.state)

  -- `currentState_->onLogoutRequest`; the established state writes to the object that it leaves.
  unfoldable pub state_logout : Text → State → Run S (Unit {0})
  state_logout reason disconnected = skip
  state_logout reason logon_sent = modify perform_shutdown
  state_logout reason (established awaiting _) = do
    modify (change_state (established awaiting (some clock.now)))
    send_logout clock reason
    modify (change_state (logout_sent reason clock.now))
  state_logout reason (logout_sent _ _) = skip

  unfoldable pub initiate_logout : Text → Run S (Unit {0})
  initiate_logout reason = with_session (λ s. when s.running (state_logout reason s.state))

module _ {S : Type 0} ⦃store : Store S⦄ where
  -- The constructor, given its body's session: of a session that waits for its client, nothing is restored.
  unfoldable pub init : Session S → Session S
  init s = if text_eq s.target_comp_id (codes "PENDING") then s else restore_session_state s

-- `on_io_error` and `on_shutdown`
abbrev pub on_io_error : {S : Type 0} → Session S → Session S
on_io_error = perform_shutdown
