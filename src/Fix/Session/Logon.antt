-- ===== src/Fix/Session/Logon.antt =====
-- src/fix/session.cpp: the states before a session is established.
use fix4_0_demo.Prelude.{
  Bool, true, false, not, ◌&&◌, [], ◌++◌, none, some, if◌then◌else◌, ℤ, pos, ◌+ℤ◌, leb_ℤ, Text,
  codes, text_eq, is_empty, print_ℤ,
}
use fix4_0_demo.Fix.Tags
use fix4_0_demo.Fix.Message.{field_is}
use fix4_0_demo.Fix.Message.{FixMessage, ok, err, get_string, get_int}
use fix4_0_demo.Fix.Builders.{create_logon_message, create_logout_message}
use fix4_0_demo.Fix.Session.{
  Session, Store, Clock, logon_sent, established, on_logon, emit_if, get_session_id, change_state,
  perform_shutdown, notify_established, restore_session_state,
}
use fix4_0_demo.Fix.Session.Run.{Run, ◌>>=◌, ◌>>◌, modify, lift, when, with_session}
use fix4_0_demo.Fix.Session.Sending.{send}

module _ {S : Type 0} where
  -- The callback comes before the application hears of it.
  unfoldable pub enter_established : Session S → Session S
  enter_established s =
      let told = notify_established (change_state (established [] none) s) in
      emit_if told.has_application (on_logon (get_session_id told)) told

  abbrev pub range_reason : ℤ → Session S → Text
  range_reason hb s =
      codes "HeartBtInt="
      ++ print_ℤ hb
      ++ codes " is out of acceptable range ["
      ++ print_ℤ s.min_heart_bt_int
      ++ codes ", "
      ++ print_ℤ s.max_heart_bt_int
      ++ codes "]."

  unfoldable pub logon_sent_message : FixMessage → Run S (Unit {0})
  logon_sent_message msg = do
    msg_type ← lift (get_string Tags.msg_type msg)
    (if text_eq msg_type (codes "A")
        then (do
          seq_num ← lift (get_int Tags.msg_seq_num msg)
          modify (λ s. record s { recv_seq_num = seq_num +ℤ pos 1 })
          modify enter_established)
        else modify perform_shutdown)

module _ {S : Type 0} ⦃store : Store S⦄ where
  -- The identity of the client, and the numbers that go with it.
  abbrev pub bind_client : Bool → Text → Session S → Session S
  bind_client reset_seq client s =
      let bound = record s { client_comp_id = client; target_comp_id = client } in
      elim s.store [
        | none ↦ bound
        | some db ↦
            if reset_seq
            then record bound {
              store = some (store.delete_messages_for_session s.sender_comp_id client db);
              send_seq_num = pos 1;
              recv_seq_num = pos 1;
            }
            else restore_session_state bound
      ]

module _ {S : Type 0} ⦃store : Store S⦄ (clock : Clock) where
  -- Of the server: the message goes out with the number that `send` gives it.
  abbrev pub reject_logon : Text → Run S (Unit {0})
  reject_logon reason = do
    with_session
        (λ s. send clock (create_logout_message s.sender_comp_id s.target_comp_id (pos 1) reason))
    modify perform_shutdown

  -- The interval is accepted, or the client is sent away.
  unfoldable pub answer_logon : Bool → ℤ → Run S (Unit {0})
  answer_logon reset_seq hb = with_session (λ s.
      if leb_ℤ s.min_heart_bt_int hb && leb_ℤ hb s.max_heart_bt_int
      then (do
        modify (λ t. record t { heart_bt_int = hb })
        send clock (create_logon_message s.sender_comp_id s.target_comp_id (pos 1) hb reset_seq)
        modify enter_established)
      else reject_logon (range_reason hb s))

  unfoldable pub accept_client : FixMessage → Text → Run S (Unit {0})
  accept_client msg client = do
    modify (bind_client (field_is Tags.reset_seq_num_flag (codes "Y") msg) client)
    seq_num ← lift (get_int Tags.msg_seq_num msg)
    modify (λ s. record s { recv_seq_num = seq_num +ℤ pos 1 })
    hb ← lift (get_int Tags.heart_bt_int msg)
    answer_logon (field_is Tags.reset_seq_num_flag (codes "Y") msg) hb

  -- A Logon that the server receives.
  unfoldable pub check_logon : FixMessage → Run S (Unit {0})
  check_logon msg = with_session (λ s. elim (get_string Tags.sender_comp_id msg) [
    | err _ ↦ reject_logon (codes "Missing SenderCompID")
    | ok client ↦
        if not (field_is Tags.target_comp_id s.sender_comp_id msg)
        then modify perform_shutdown
        else if is_empty client
        then reject_logon (codes "Empty SenderCompID")
        else accept_client msg client
  ])

  unfoldable pub disconnected_message : FixMessage → Run S (Unit {0})
  disconnected_message msg = do
    msg_type ← lift (get_string Tags.msg_type msg)
    (if text_eq msg_type (codes "A")
        then with_session (λ s. when (text_eq s.sender_comp_id (codes "SERVER")) (check_logon msg))
        else modify perform_shutdown)

  unfoldable pub session_start : Run S (Unit {0})
  session_start = with_session (λ s. when (text_eq s.target_comp_id (codes "SERVER")) (do
    send clock (
        create_logon_message s.sender_comp_id s.target_comp_id (pos 1) s.heart_bt_int
          (elim s.store [ none ↦ true | some _ ↦ false ]))
    modify (change_state logon_sent)))
