-- ===== src/Fix/Session/Tests.antt =====
-- Tests of src/fix/session.cpp: the server's side of a session that a client logs on to.
use fix4_0_demo.Prelude.{
  Text, ◌≡◌, refl, sym, ◌∙◌, true, false, ◌&&◌, List, [], ◌∷◌, ◌++◌, Option, none, some, ℤ, pos,
  ◌*ℤ◌, leb_ℤ, if◌then◌else◌, codes, text_eq, print_ℤ, ◌+ℤ◌, ◌-ℤ◌, max_ℤ, negsuc, arith, stoi, ◌≢◌,
}
use mathlib.Core.Bool.{false≢true}
use fix4_0_demo.Fix.Tags
use fix4_0_demo.Fix.Message.{FixMessage, set, set_int, get_string, find_field, ok, get_int}
use fix4_0_demo.Engine.Order.{SessionId}
use fix4_0_demo.Fix.Builders.{
  addressed, of_type, create_logon_message, create_resend_request_message,
}
use fix4_0_demo.Fix.Session.Run.{◌>>=◌}
use fix4_0_demo.Fix.Session.Sending.{store_message, persist_message, internal_send, send}
use fix4_0_demo.Fix.Session.Logon.{
  enter_established, answer_logon, accept_client, check_logon, disconnected_message, session_start,
}
use fix4_0_demo.Fix.Session.States.{
  message_handler, dispatch_message, established_message, state_message,
}
use fix4_0_demo.Fix.Codec.{encode, decode}
use fix4_0_demo.Fix.Session.Liveness.{IsKept, on_timer_check-IsKept}
use fix4_0_demo.Fix.Session.Refinement.Ends.{IsEnded, drain_loop-IsEnded}
use fix4_0_demo.Fix.Session.Refinement.Admission.{IsAdmissible, disconnected_message-IsAdmissible}
use fix4_0_demo.Fix.Session.Resend.{resend_replies}
use fix4_0_demo.Fix.Session.Resend.Replay.{replay, business, AreWithin, replay-resend_replies}
use fix4_0_demo.Fix.SessionManager.{Sessions, find_session}
use fix4_0_demo.Fix.SessionManager.Registry.{
  Operation, registers, unregisters, perform_all, latest, find_session-perform_all,
}
use fix4_0_demo.Fix.Session.{
  Session, Store, StoredMessage, SessionState, Clock, Settings, from_app, on_logon,
  notify_established, save_session_state, restore_session_state, established, get_session_id,
}
use fix4_0_demo.Fix.Session.Inbound.{
  on_message_received, find_pending, erase_pending, try_emplace, erase_below, keep_message,
  deliver_next, drain_loop, drain_pending_inbound_locked, request_missing, buffer_message,
  sequenced_message, receive_message,
}
use fix4_0_demo.Fix.Session.Api.{constructed, init, start, state_start, on_timer_check}
use fix4_0_demo.Fix.Session.Machine.{Moves, stage, stage_of, Delivers, live}
use fix4_0_demo.Fix.Session.Refinement.{
  callbacks, view, phase_of, IsSound, is_reset, phase_of_state,
}
use fix4_0_demo.Fix.Session.Refinement.Drain.{calling}
use fix4_0_demo.Fix.Session.Promises.{
  Reachable, created, called, starts, receives, Call-Moves, Reachable-IsSound, calls-stage,
  calls-Delivers,
}

-- A store in memory.
abbrev Memory : Type 0
Memory = List StoredMessage × List SessionState

abbrev in_range : ℤ → ℤ → List StoredMessage → List StoredMessage
in_range begin_seq_no end_seq_no [] = []
in_range begin_seq_no end_seq_no (m ∷ messages) =
    let rest = in_range begin_seq_no end_seq_no messages in
    if leb_ℤ begin_seq_no m.seq_num && leb_ℤ m.seq_num end_seq_no then m ∷ rest else rest

abbrev last : List SessionState → Option SessionState
last [] = none
last (state ∷ _) = some state

instance memory : Store Memory
memory = record {
  save_message = λ m db. (db.0 ++ (m ∷ []), db.1);
  load_messages = λ _ _ begin_seq_no end_seq_no db. in_range begin_seq_no end_seq_no db.0;
  delete_messages_for_session = λ _ _ db. ([], db.1);
  save_session_state = λ state db. (db.0, state ∷ db.1);
  load_session_state = λ _ _ db. last db.1;
}

abbrev settings : Settings
settings = record {
  logout_confirm_timeout_sec = pos 10;
  min_heartbeat_interval = pos 5;
  max_heartbeat_interval = pos 120;
  test_request_timeout = λ hb. hb *ℤ pos 2;
  test_request_after = λ hb. hb;
}

abbrev clock : Clock
clock = record { now = 60000; utc = codes "20240101-00:00:00.000" }

abbrev logon : FixMessage
logon = create_logon_message (codes "CLIENT") (codes "SERVER") (pos 1) (pos 30) false

-- An order with a number.
abbrev order : ℤ → FixMessage
order n = addressed (codes "CLIENT") (codes "SERVER") n (of_type (codes "D"))

abbrev server : Session Memory
server =
    constructed settings clock (codes "SERVER") (codes "PENDING") (pos 30) (some ([], [])) true true
      true true

abbrev accepted : Session Memory
accepted = init server

abbrev started : Session Memory
started = (start clock accepted).1

abbrev logged_on : Session Memory
logged_on = (on_message_received clock logon started).1

-- The third message comes before the second.
abbrev gap : Session Memory
gap = (on_message_received clock (order (pos 3)) logged_on).1

accepted-running : accepted.shutting_down ≡ false
unfolding init text_eq
accepted-running = refl

accepted-Reachable : Reachable settings false false accepted
accepted-Reachable =
    created clock (codes "SERVER") (codes "PENDING") (pos 30) (some ([], [])) true true true

logon_not_reset : is_reset logon ≡ false
unfolding create_logon_message set set_int text_eq get_string find_field
logon_not_reset = refl

orders_not_reset : (n : ℤ) → is_reset (order n) ≡ false
unfolding set set_int text_eq get_string find_field
orders_not_reset n = refl

gap-Reachable : Reachable settings false false gap
gap-Reachable =
    called
      (called
        (called accepted-Reachable
          (starts clock (λ e. absurd (false≢true (sym accepted-running ∙ e)))))
        (receives clock logon (λ e. absurd (false≢true (sym logon_not_reset ∙ e)))))
      (receives clock (order (pos 3))
        (λ e. absurd (false≢true (sym (orders_not_reset (pos 3)) ∙ e))))

Call-Moves_example : IsSound started × Moves (calling false) (view accepted) (view started)
Call-Moves_example =
    Call-Moves settings false accepted started
      (starts clock (λ e. absurd (false≢true (sym accepted-running ∙ e))))
      (Reachable-IsSound settings accepted accepted-Reachable)

abbrev filled : Session Memory
filled = (on_message_received clock (order (pos 2)) gap).1

abbrev client : SessionId
client = record { sender_comp_id = codes "SERVER"; target_comp_id = codes "CLIENT" }

-- The second message fills the gap, and both are delivered in their order.
fills_gap :
    callbacks filled.events
    ≡ from_app (order (pos 3)) client ∷ from_app (order (pos 2)) client ∷ on_logon client ∷ []
unfolding notify_established save_session_state restore_session_state ◌>>=◌ store_message
    persist_message internal_send send enter_established answer_logon accept_client check_logon
    disconnected_message session_start message_handler dispatch_message established_message
    state_message find_pending erase_pending try_emplace erase_below keep_message deliver_next
    drain_loop drain_pending_inbound_locked request_missing buffer_message sequenced_message
    receive_message on_message_received state_start start init create_logon_message
    create_resend_request_message encode decode print_ℤ ◌+ℤ◌ ◌-ℤ◌ max_ℤ memory
fills_gap = refl

-- An established session that has not sent anything for a minute.
abbrev silent : Session Memory
silent = record server { running = true; state = established [] none; last_send = 0 }

on_timer_check-IsKept_example :
    IsKept settings clock (pos 30) (on_timer_check settings clock silent)
on_timer_check-IsKept_example =
    on_timer_check-IsKept settings clock [] none silent refl refl (omega arith) refl

-- One message is in the buffer.
abbrev buffering : Session Memory
buffering = record server { running = true; pending_inbound = (pos 1, order (pos 1)) ∷ [] }

order_one_numbered : get_int Tags.msg_seq_num (order (pos 1)) ≡ ok (pos 1)
unfolding set set_int get_string get_int find_field print_ℤ stoi
order_one_numbered = refl

drain_loop-IsEnded_example : IsEnded (drain_loop clock 1 buffering)
drain_loop-IsEnded_example =
    drain_loop-IsEnded clock 1 buffering
      (((order_one_numbered, orders_not_reset (pos 1)), tt), λ _. refl) refl (omega arith)

logon_establishes : phase_of_state (disconnected_message clock logon server).1.state ≡ live
unfolding notify_established save_session_state restore_session_state ◌>>=◌ store_message
    persist_message internal_send send enter_established answer_logon accept_client check_logon
    disconnected_message create_logon_message encode decode print_ℤ ◌+ℤ◌ ◌-ℤ◌ memory
logon_establishes = refl

disconnected_message-IsAdmissible_example : IsAdmissible server logon
disconnected_message-IsAdmissible_example =
    disconnected_message-IsAdmissible clock logon server refl logon_establishes

abbrev stored : ℤ → Text → StoredMessage
stored n msg_type = record {
  seq_num = n;
  sender_comp_id = codes "SERVER";
  target_comp_id = codes "CLIENT";
  msg_type = msg_type;
  raw_message = [];
}

-- Number 2 is lost, and number 4 is a heartbeat.
abbrev history : List StoredMessage
history = stored (pos 3) (codes "8") ∷ stored (pos 4) (codes "0") ∷ stored (pos 5) (codes "8") ∷ []

history_is_within : AreWithin (pos 2 -ℤ pos 1) (pos 6) history
unfolding ◌-ℤ◌
history_is_within = (omega arith, (omega arith, (omega arith, omega arith)))

replay-resend_replies_example :
    replay (pos 2) (resend_replies (pos 6) (negsuc 0) (pos 2 -ℤ pos 1) history)
    ≡ some (business history, pos 6 +ℤ pos 1)
replay-resend_replies_example =
    replay-resend_replies (pos 2) (pos 6) history (omega arith) history_is_within

filled-Reachable : Reachable settings false false filled
filled-Reachable =
    called gap-Reachable (
      receives clock (order (pos 2))
        (λ e. absurd (false≢true (sym (orders_not_reset (pos 2)) ∙ e))))

calls-stage_example : stage (callbacks filled.events) ≡ some (stage_of (phase_of filled))
calls-stage_example = calls-stage settings false filled filled-Reachable

calls-Delivers_example : Delivers filled.recv_seq_num (callbacks filled.events)
calls-Delivers_example = calls-Delivers settings filled filled-Reachable

-- A session that is registered again, and replaced.
abbrev registrations : List (Operation Memory)
registrations =
    registers 1 (λ _. silent) ∷ unregisters (get_session_id silent) ∷ registers 0 (λ _. silent) ∷ []

find_session-perform_all_example :
    find_session (get_session_id silent) (perform_all registrations)
    ≡ latest (get_session_id silent) registrations
find_session-perform_all_example = find_session-perform_all (get_session_id silent) registrations

abbrev registered : Sessions
registered = (client, 0) ∷ []

client_is_first : find_session client registered ≢ some 1
unfolding find_session text_eq
client_is_first = λ e. ground arith
