-- ===== src/Fix/Session/Sending.antt =====
-- src/fix/session.cpp: what a session sends.
use fix4_0_demo.Prelude.{true, none, some, if◌then◌else◌, ℤ, pos, ◌+ℤ◌, Text}
use fix4_0_demo.Fix.Tags
use fix4_0_demo.Fix.Message.{FixMessage, set_int, get_string}
use fix4_0_demo.Fix.Codec.{encode}
use fix4_0_demo.Fix.Builders.{
  create_heartbeat_message, create_test_request_message, create_logout_message,
  create_resend_request_message, create_sequence_reset_message,
}
use fix4_0_demo.Fix.Session.{Session, Store, Clock, emit, save_session_state, sent, get_session_id}
use fix4_0_demo.Fix.Session.Run.{Run, ◌>>=◌, ◌>>◌, modify, lift, skip, with_session}
use fix4_0_demo.Engine.Order.{SessionId}

module _ {S : Type 0} ⦃store : Store S⦄ where
  -- Under `if (store_)`.
  unfoldable pub store_message : FixMessage → ℤ → Text → S → Run S (Unit {0})
  store_message msg seq_num raw_msg db = do
    msg_type ← lift (get_string Tags.msg_type msg)
    modify (λ s. save_session_state (record s {
      store = some (
          store.save_message
            (record {
              seq_num = seq_num;
              sender_comp_id = s.sender_comp_id;
              target_comp_id = s.target_comp_id;
              msg_type = msg_type;
              raw_message = raw_msg;
            })
            db);
    }))

  unfoldable pub persist_message : FixMessage → ℤ → Text → Run S (Unit {0})
  persist_message msg seq_num raw_msg =
      with_session
        (λ s. elim s.store [ none ↦ skip | some db ↦ store_message msg seq_num raw_msg db ])

module _ {S : Type 0} ⦃store : Store S⦄ (clock : Clock) where
  unfoldable pub internal_send : Text → Session S → Session S
  internal_send raw_msg s =
      if s.connected then record (emit (sent raw_msg) s) { last_send = clock.now } else s

  -- The message goes out with the next number, and with the fields that encoding sets.
  unfoldable pub send : FixMessage → Run S (Unit {0})
  send msg s =
      let (raw_msg, msg') = encode clock.utc (set_int Tags.msg_seq_num s.send_seq_num msg) in
      let next = record s { send_seq_num = s.send_seq_num +ℤ pos 1 } in
      (persist_message msg' s.send_seq_num raw_msg >> modify (internal_send raw_msg)) next

  abbrev pub send_logout : Text → Run S (Unit {0})
  send_logout reason =
      with_session
        (λ s. send (create_logout_message s.sender_comp_id s.target_comp_id (pos 0) reason))

  abbrev pub send_heartbeat : Text → Run S (Unit {0})
  send_heartbeat test_req_id =
      with_session
        (λ s. send (create_heartbeat_message s.sender_comp_id s.target_comp_id (pos 0) test_req_id))

  abbrev pub send_test_request : Text → Run S (Unit {0})
  send_test_request id =
      with_session
        (λ s. send (create_test_request_message s.sender_comp_id s.target_comp_id (pos 0) id))

  abbrev pub send_resend_request : ℤ → ℤ → Run S (Unit {0})
  send_resend_request begin_seq_no end_seq_no = with_session (λ s. send (
      create_resend_request_message s.sender_comp_id s.target_comp_id (pos 0) begin_seq_no
        end_seq_no))

  -- Part of a resend: it takes no number.
  unfoldable pub send_sequence_reset_gap_fill : ℤ → ℤ → Session S → Session S
  send_sequence_reset_gap_fill seq_num new_seq_no s =
      internal_send
        (encode clock.utc (
          create_sequence_reset_message s.sender_comp_id s.target_comp_id seq_num new_seq_no
            true)).0
        s

  -- `toApp` may change the message; what it throws is caught.
  unfoldable pub send_app_message :
      (FixMessage → SessionId → FixMessage) → FixMessage → Run S (Unit {0})
  send_app_message to_app msg =
      with_session (λ s. send (if s.has_application then to_app msg (get_session_id s) else msg))
