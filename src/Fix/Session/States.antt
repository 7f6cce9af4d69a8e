-- ===== src/Fix/Session/States.antt =====
-- src/fix/session.cpp: the handlers of the four states. A handler that changes what its state object
-- keeps puts the state back.
use fix4_0_demo.Prelude.{
  ℕ, ◌-◌, ◌/◌, not, ◌&&◌, [], Option, none, some, if◌then◌else◌, ℤ, pos, ◌+ℤ◌, leb_ℤ, Text, codes,
  text_eq,
}
use fix4_0_demo.Fix.Tags
use fix4_0_demo.Fix.Message.{field_is}
use fix4_0_demo.Fix.Message.{FixMessage, get_string, get_int}
use fix4_0_demo.Fix.Session.{
  Session, Store, Clock, disconnected, logon_sent, established, logout_sent, from_app, from_admin,
  emit_if, get_session_id, change_state, perform_shutdown,
}
use fix4_0_demo.Fix.Session.Run.{Run, ◌>>=◌, ◌>>◌, modify, lift, when, with_session}
use fix4_0_demo.Fix.Session.Sending.{send_logout, send_heartbeat}
use fix4_0_demo.Fix.Session.Resend.{handle_resend_request}
use fix4_0_demo.Fix.Session.Logon.{disconnected_message, logon_sent_message}

-- Whole seconds between two times in milliseconds.
abbrev pub seconds_between : ℕ → ℕ → ℤ
seconds_between earlier later = pos ((later - earlier) / 1000)

module _ {S : Type 0} where
  abbrev pub handle_heartbeat : Text → Option ℕ → FixMessage → Session S → Session S
  handle_heartbeat awaiting logout_time msg s =
      if field_is Tags.test_req_id awaiting msg
      then change_state (established [] logout_time) s
      else s

  abbrev pub handle_logon : Run S (Unit {0})
  handle_logon = modify perform_shutdown

  unfoldable pub handle_sequence_reset : FixMessage → Run S (Unit {0})
  handle_sequence_reset msg = do
    new_seq_no ← lift (get_int Tags.new_seq_no msg)
    _ ← lift (get_int Tags.msg_seq_num msg)
    modify (λ s.
        if leb_ℤ new_seq_no (pos 0)
        then perform_shutdown s
        else if field_is Tags.gap_fill_flag (codes "Y") msg && leb_ℤ new_seq_no s.recv_seq_num
        then s
        else record s { recv_seq_num = new_seq_no })

  abbrev pub increment_recv_seq_num : Session S → Session S
  increment_recv_seq_num s = record s { recv_seq_num = s.recv_seq_num +ℤ pos 1 }

  unfoldable pub logout_sent_message : FixMessage → Run S (Unit {0})
  logout_sent_message msg = do
    msg_type ← lift (get_string Tags.msg_type msg)
    when (text_eq msg_type (codes "5")) (modify (λ s. perform_shutdown (increment_recv_seq_num s)))

module _ {S : Type 0} ⦃store : Store S⦄ (clock : Clock) where
  abbrev pub handle_test_request : FixMessage → Run S (Unit {0})
  handle_test_request msg = do
    test_req_id ← lift (get_string Tags.test_req_id msg)
    send_heartbeat clock test_req_id

  unfoldable pub handle_logout : Option ℕ → Run S (Unit {0})
  handle_logout (some _) = modify perform_shutdown
  handle_logout none = do
    send_logout clock (codes "Confirming peer's logout request")
    modify (change_state (logout_sent (codes "Peer initiated logout") clock.now))

  -- `messageHandlers_`, or none for a message of the application.
  unfoldable pub message_handler : Text → Text → Option ℕ → FixMessage → Option (Run S (Unit {0}))
  message_handler msg_type awaiting logout_time msg =
      if text_eq msg_type (codes "0")
      then some (modify (handle_heartbeat awaiting logout_time msg))
      else if text_eq msg_type (codes "1")
      then some (handle_test_request msg)
      else if text_eq msg_type (codes "2")
      then some (handle_resend_request clock msg)
      else if text_eq msg_type (codes "4")
      then some (handle_sequence_reset msg)
      else if text_eq msg_type (codes "5")
      then some (handle_logout logout_time)
      else if text_eq msg_type (codes "A")
      then some handle_logon
      else none

  -- The message of a type, in the established state: its number is used, and it goes to its handler
  -- or to the application.
  unfoldable pub dispatch_message : Text → Option ℕ → FixMessage → Text → Run S (Unit {0})
  dispatch_message awaiting logout_time msg msg_type = do
    when (not (text_eq msg_type (codes "4"))) (modify increment_recv_seq_num)
    elim (message_handler msg_type awaiting logout_time msg) [
      | some handler ↦ (do
        handler
        modify (λ s. emit_if s.has_application (from_admin msg (get_session_id s)) s))
      | none ↦ modify (λ s. emit_if s.has_application (from_app msg (get_session_id s)) s)
    ]

  unfoldable pub established_message : Text → Option ℕ → FixMessage → Run S (Unit {0})
  established_message awaiting logout_time msg = do
    msg_type ← lift (get_string Tags.msg_type msg)
    dispatch_message awaiting logout_time msg msg_type

  -- `currentState_->onMessageReceived`
  unfoldable pub state_message : FixMessage → Run S (Unit {0})
  state_message msg = with_session (λ s. elim s.state [
    | disconnected ↦ disconnected_message clock msg
    | logon_sent ↦ logon_sent_message msg
    | established awaiting logout_time ↦ established_message awaiting logout_time msg
    | logout_sent _ _ ↦ logout_sent_message msg
  ])
