-- ===== src/Fix/Session/Resend.antt =====
-- src/fix/session.cpp, `handleResendRequest`: the loop over the stored messages as the list of what it
-- writes, and the writing.
pub mod Replay
use fix4_0_demo.Prelude.{
  Bool, true, false, not, ◌&&◌, List, [], ◌∷◌, none, some, if◌then◌else◌, ℤ, pos, negsuc, ◌+ℤ◌,
  ◌-ℤ◌, ltb_ℤ, eqb_ℤ, codes, is_empty,
}
use fix4_0_demo.Fix.Tags
use fix4_0_demo.Fix.Message.{FixMessage, set, get_string, get_int}
use fix4_0_demo.Fix.Codec.{encode, decode}
use fix4_0_demo.Fix.Builders.{is_admin_message}
use fix4_0_demo.Fix.Session.{Store, StoredMessage, Clock, sent, emit_if}
use fix4_0_demo.Fix.Session.Run.{Run, ◌>>=◌, ◌>>◌, skip, modify, lift, with_session}
use fix4_0_demo.Fix.Session.Sending.{send_sequence_reset_gap_fill}

-- What one step of a resend writes.
pub data Reply : Type 0 where
  gap_fill : (seq_num new_seq_no : ℤ) → Reply
  resend : StoredMessage → Reply

abbrev pub gap_fill_if : Bool → ℤ → ℤ → List Reply → List Reply
gap_fill_if condition seq_num new_seq_no replies =
    if condition then gap_fill seq_num new_seq_no ∷ replies else replies

-- The loop over the stored messages, with `gap_fill_start` (-1 for none) and `last_seq`, and the two
-- checks behind it: what is written, in order.
unfoldable pub resend_replies :
    (end_seq_no gap_fill_start last_seq : ℤ) → List StoredMessage → List Reply
resend_replies end_seq_no start last_seq [] =
    gap_fill_if (not (eqb_ℤ start (negsuc 0))) start (end_seq_no +ℤ pos 1)
      (gap_fill_if (ltb_ℤ last_seq end_seq_no) (last_seq +ℤ pos 1) (end_seq_no +ℤ pos 1) [])
resend_replies end_seq_no start last_seq (stored_msg ∷ messages) =
    let seq_num = stored_msg.seq_num in
    let from_gap =
      if ltb_ℤ (last_seq +ℤ pos 1) seq_num && eqb_ℤ start (negsuc 0)
      then last_seq +ℤ pos 1
      else start in
    let from_admin = if eqb_ℤ from_gap (negsuc 0) then seq_num else from_gap in
    let skipped = resend_replies end_seq_no from_admin seq_num messages in
    let resent = resend_replies end_seq_no (negsuc 0) seq_num messages in
    if is_admin_message stored_msg.msg_type
    then skipped
    else gap_fill_if (not (eqb_ℤ from_gap (negsuc 0))) from_gap seq_num (resend stored_msg ∷ resent)

module _ {S : Type 0} ⦃store : Store S⦄ (clock : Clock) where
  -- Written as it was, marked as a possible duplicate, with the time it was first sent.
  unfoldable pub resend_message : StoredMessage → Run S (Unit {0})
  resend_message stored_msg = do
    msg ← lift (decode stored_msg.raw_message)
    sending_time ← lift (get_string Tags.sending_time (set Tags.poss_dup_flag (codes "Y") msg))
    modify (λ s.
        emit_if s.connected
          (sent
            (encode clock.utc
              (set Tags.orig_sending_time sending_time (set Tags.poss_dup_flag (codes "Y") msg))).0)
          s)

  unfoldable pub write_replies : List Reply → Run S (Unit {0})
  write_replies [] = skip
  write_replies (gap_fill seq_num new_seq_no ∷ replies) = do
    modify (send_sequence_reset_gap_fill clock seq_num new_seq_no)
    write_replies replies
  write_replies (resend stored_msg ∷ replies) = do resend_message stored_msg; write_replies replies

  unfoldable pub resend_range : S → ℤ → ℤ → Run S (Unit {0})
  resend_range db begin_seq_no end_seq_no = with_session (λ s.
      let messages =
        store.load_messages s.sender_comp_id s.target_comp_id begin_seq_no end_seq_no db in
      if is_empty messages
      then modify (send_sequence_reset_gap_fill clock begin_seq_no (end_seq_no +ℤ pos 1))
      else (do
        modify (λ t. record t { processing_resend = true })
        write_replies (resend_replies end_seq_no (negsuc 0) (begin_seq_no -ℤ pos 1) messages)
        modify (λ t. record t { processing_resend = false })))

  unfoldable pub handle_resend_request : FixMessage → Run S (Unit {0})
  handle_resend_request msg = do
    begin_seq_no ← lift (get_int Tags.begin_seq_no msg)
    end_seq_no ← lift (get_int Tags.end_seq_no msg)
    with_session (λ s. elim s.store [
      | none ↦ modify (send_sequence_reset_gap_fill clock begin_seq_no s.send_seq_num)
      | some db ↦
          resend_range db begin_seq_no
            (if eqb_ℤ end_seq_no (pos 0) then s.send_seq_num -ℤ pos 1 else end_seq_no)
    ])
