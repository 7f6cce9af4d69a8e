-- ===== src/Fix/Session/Inbound.antt =====
-- src/fix/session.cpp: what a session does with a message that arrives, with the timer, and with what
-- its owner asks.
use fix4_0_demo.Prelude.{
  ℕ, zero, suc, Bool, true, false, not, ◌&&◌, ◌||◌, [], ◌∷◌, Option, none, some, if◌then◌else◌, ℤ,
  pos, ◌+ℤ◌, ◌-ℤ◌, max_ℤ, ltb_ℤ, leb_ℤ, eqb_ℤ, length, leb, codes, text_eq, is_empty,
}
use fix4_0_demo.Fix.Tags
use fix4_0_demo.Fix.Message.{FixMessage, get_string, get_int}
use fix4_0_demo.Fix.Session.{
  Session, Store, Clock, State, disconnected, logon_sent, established, logout_sent, Pending,
  perform_shutdown, update_last_recv_time,
}
use fix4_0_demo.Fix.Session.Run.{Run, ◌>>=◌, ◌>>◌, skip, modify, lift, when, with_session}
use fix4_0_demo.Fix.Session.Sending.{send_resend_request}
use fix4_0_demo.Fix.Session.States.{state_message}
use fix4_0_demo.Fix.Message.{field_is}

-- `find`, `erase`, `try_emplace` and the erasure below `lower_bound` of the map.
unfoldable pub find_pending : ℤ → Pending → Option FixMessage
find_pending n [] = none
find_pending n ((k, msg) ∷ pending) = if eqb_ℤ k n then some msg else find_pending n pending

unfoldable pub erase_pending : ℤ → Pending → Pending
erase_pending n [] = []
erase_pending n ((k, msg) ∷ pending) =
    if eqb_ℤ k n then pending else (k, msg) ∷ erase_pending n pending

unfoldable pub try_emplace : ℤ → FixMessage → Pending → Pending
try_emplace n msg [] = (n, msg) ∷ []
try_emplace n msg ((k, other) ∷ pending) =
    if ltb_ℤ n k
    then (n, msg) ∷ (k, other) ∷ pending
    else if eqb_ℤ k n
    then (k, other) ∷ pending
    else (k, other) ∷ try_emplace n msg pending

unfoldable pub erase_below : ℤ → Pending → Pending
erase_below n [] = []
erase_below n ((k, msg) ∷ pending) = if ltb_ℤ k n then erase_below n pending else (k, msg) ∷ pending

-- kMaxPendingInbound
abbrev pub max_pending_inbound : ℕ
max_pending_inbound = 10000

abbrev pub is_handshake : State → Bool
is_handshake disconnected = true
is_handshake logon_sent = true
is_handshake (established _ _) = false
is_handshake (logout_sent _ _) = false

module _ {S : Type 0} where
  unfoldable pub keep_message : ℤ → FixMessage → Session S → Session S
  keep_message seq_num msg s =
      if leb max_pending_inbound (length s.pending_inbound)
      then perform_shutdown s
      else record s { pending_inbound = try_emplace seq_num msg s.pending_inbound }

  -- The resend that was asked for is over once the numbers have passed it.
  abbrev pub forget_resend_request : Session S → Session S
  forget_resend_request s =
      if is_empty s.pending_inbound
        && (ltb_ℤ (pos 0) s.last_resend_request_end
            && ltb_ℤ s.last_resend_request_end s.recv_seq_num)
      then record s { last_resend_request_end = pos 0 }
      else s

module _ {S : Type 0} ⦃store : Store S⦄ (clock : Clock) where
  -- One round of the loop, once a message is found: it is taken out and handled.
  unfoldable pub deliver_next : FixMessage → Run S (Unit {0})
  deliver_next next = do
    modify (λ s. record s { pending_inbound = erase_pending s.recv_seq_num s.pending_inbound })
    state_message clock next

  -- The loop, on fuel: it ends when a message is missing or the session stops.
  unfoldable pub drain_loop : ℕ → Run S (Unit {0})
  drain_loop zero = skip
  drain_loop (suc fuel) = with_session (λ s. elim (find_pending s.recv_seq_num s.pending_inbound) [
    | none ↦ skip
    | some next ↦ (do
      deliver_next next
      with_session (λ t.
          if t.running then drain_loop fuel else modify (λ u. record u { pending_inbound = [] })))
  ])

  -- Each round takes a message out, so as many rounds as messages are enough.
  unfoldable pub drain_pending_inbound_locked : Run S (Unit {0})
  drain_pending_inbound_locked = with_session (λ s. when s.running (do
    modify (λ t. record t { pending_inbound = erase_below t.recv_seq_num t.pending_inbound })
    with_session (λ t. drain_loop (length t.pending_inbound))
    modify forget_resend_request))

  -- Ask again for what is missing, but for what was asked for already.
  unfoldable pub request_missing : ℤ → Run S (Unit {0})
  request_missing end_seq_no = with_session (λ s.
      let begin_seq_no = max_ℤ s.recv_seq_num (s.last_resend_request_end +ℤ pos 1) in
      when (leb_ℤ begin_seq_no end_seq_no) (do
        send_resend_request clock begin_seq_no end_seq_no
        modify (λ t. record t {
          last_resend_request_end = max_ℤ t.last_resend_request_end end_seq_no;
        })))

  -- A message with a number beyond the one that is due.
  unfoldable pub buffer_message : ℤ → FixMessage → Run S (Unit {0})
  buffer_message seq_num msg = do
    request_missing (seq_num -ℤ pos 1)
    modify (keep_message seq_num msg)

  -- A message that is not part of the handshake and not a SequenceReset, by its number.
  unfoldable pub sequenced_message : ℤ → FixMessage → Run S (Unit {0})
  sequenced_message seq_num msg = with_session (λ s.
      if ltb_ℤ s.recv_seq_num seq_num
      then buffer_message seq_num msg
      else if ltb_ℤ seq_num s.recv_seq_num
      then when (not (field_is Tags.poss_dup_flag (codes "Y") msg)) (modify perform_shutdown)
      else state_message clock msg >> drain_pending_inbound_locked)

  unfoldable pub receive_message : FixMessage → Run S (Unit {0})
  receive_message msg = do
    seq_num ← lift (get_int Tags.msg_seq_num msg)
    msg_type ← lift (get_string Tags.msg_type msg)
    with_session (λ s.
        if text_eq msg_type (codes "A") && is_handshake s.state || text_eq msg_type (codes "4")
        then state_message clock msg >> drain_pending_inbound_locked
        else sequenced_message seq_num msg)

  unfoldable pub on_message_received : FixMessage → Run S (Unit {0})
  on_message_received msg =
      with_session
        (λ s. when s.running (modify (update_last_recv_time clock.now) >> receive_message msg))
