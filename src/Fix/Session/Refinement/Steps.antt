-- ===== src/Fix/Session/Refinement/Steps.antt =====
-- src/fix/session.cpp: everything that a session is asked to do, as steps of the machine.
use fix4_0_demo.Prelude.{
  ℕ, ◌≡◌, ◌≢◌, refl, sym, ◌∙◌, ap, Bool, true, false, not, ◌&&◌, ◌||◌, by_test, by_test_of,
  ||_right, [], ◌++◌, Option, some, ℤ, pos, ◌+ℤ◌, ◌-ℤ◌, max_ℤ, ltb_ℤ, ltb_ℤ→le, leb_ℤ, eq_of_parts,
  int_laws, length, leb, arith, Text, codes, text_eq, print_ℕ, is_empty,
}
use mathlib.Core.Bool.{false≢true}
use fix4_0_demo.Fix.Tags
use fix4_0_demo.Fix.Message.{FixMessage, Result, ok, err, get_int}
use fix4_0_demo.Fix.Builders.{is_admin_message}
use fix4_0_demo.Fix.Session.{
  Session, Store, Clock, Settings, State, disconnected, logon_sent, established, logout_sent,
}
use fix4_0_demo.Fix.Session.Run.{◌>>◌, when}
use fix4_0_demo.Fix.Session.Sending.{
  send_resend_request, send_heartbeat, send_test_request, send_logout,
}
use fix4_0_demo.Fix.Message.{field_is}
use fix4_0_demo.Fix.Session.States.{state_message, seconds_between}
use fix4_0_demo.Fix.Session.Inbound.{
  try_emplace, is_handshake, max_pending_inbound, drain_pending_inbound_locked, request_missing,
  keep_message, buffer_message, sequenced_message, receive_message, on_message_received,
}
use fix4_0_demo.Fix.Session.Api.{
  test_peer, keep_alive, logout_timed_out, logout_overdue, peer_silent, established_timer,
  on_timer_check, state_timer, state_start, state_logout, start, initiate_logout,
}
use fix4_0_demo.Fix.Session.Machine.{here, live}
use fix4_0_demo.Fix.Session.Refinement.{
  IsEntry, is_reset, is_reset-other, phase_of_state, Step, Step-refl, Step->>=,
}
use fix4_0_demo.Fix.Session.Refinement.Quiet.{
  Quiet, QuietRun, Quiet->>=, Quiet-refl, Quiet-Step, Quiet-down, Quiet-state, send-Quiet,
}
use fix4_0_demo.Fix.Session.Refinement.Changes.{shutdown-Step, relabel-Step, leave-Step}
use fix4_0_demo.Fix.Session.Refinement.Handlers.{StepRun}
use fix4_0_demo.Fix.Session.Refinement.Handshake.{IsDue, state_message-Step, session_start-Step}
use fix4_0_demo.Fix.Session.Refinement.Drain.{
  calling, try_emplace-IsEntry, pending-Step, drain-Step,
}

not_business :
    (t : Text) (handshake : Bool)
    → (text_eq t (codes "A") && handshake || text_eq t (codes "4")) ≡ true
    → is_admin_message t ≢ false
not_business t handshake h = ground arith

ok_injective : (a b : Text) → ◌≡◌ {A = Result Text} (ok a) (ok b) → a ≡ b
ok_injective a b e = ap (λ r. elim r [ ok v ↦ v | err _ ↦ a ]) e

module _ {S : Type 0} where
  keep_message-Step :
      (r : Bool) (n : ℤ) (msg : FixMessage) (s : Session S)
      → IsEntry (n, msg)
      → Step (calling r) s (keep_message n msg s)
  unfolding keep_message
  keep_message-Step r n msg s e =
      by_test (Step (calling r) s) (leb max_pending_inbound (length s.pending_inbound))
        (shutdown-Step (calling r) s)
        (pending-Step r s (try_emplace n msg s.pending_inbound)
          (try_emplace-IsEntry n msg s.pending_inbound e))

  requested-Quiet :
      (n : ℤ) (s : Session S)
      → Quiet s (record s { last_resend_request_end = max_ℤ s.last_resend_request_end n })
  requested-Quiet n s = (refl, refl)

module _ {S : Type 0} ⦃store : Store S⦄ (clock : Clock) where
  handle-Step :
      (r : Bool) (msg : FixMessage) (s : Session S)
      → (is_reset msg ≡ true → r ≡ true)
      → IsDue msg s.recv_seq_num
      → s.running ≡ true
      → StepRun (calling r) s (state_message clock msg >> drain_pending_inbound_locked clock)
  handle-Step r msg s a due run h =
      Step->>= (state_message clock msg) _ s
        (state_message-Step clock (calling r) msg s a due (h.1 run))
        (λ _ _. drain-Step clock r (state_message clock msg s).1) h

  request_missing-Quiet : (n : ℤ) (s : Session S) → QuietRun s (request_missing clock n)
  unfolding request_missing
  request_missing-Quiet n s =
      let begin_seq_no = max_ℤ s.recv_seq_num (s.last_resend_request_end +ℤ pos 1) in
      let asked = (send_resend_request clock begin_seq_no n s).1 in
      by_test (QuietRun s) (leb_ℤ begin_seq_no n)
        (Quiet->>= _ _ s (send-Quiet clock _ s) (λ _. requested-Quiet n asked)) (Quiet-refl s)

  buffer-Step :
      (r : Bool) (n : ℤ) (msg : FixMessage) (s : Session S)
      → IsEntry (n, msg)
      → StepRun (calling r) s (buffer_message clock n msg)
  unfolding buffer_message
  buffer-Step r n msg s e =
      Step->>= _ _ s (Quiet-Step (calling r) s _ (request_missing-Quiet (n -ℤ pos 1) s))
        (λ _ _. keep_message-Step r n msg (request_missing clock (n -ℤ pos 1) s).1 e)

  sequenced-Step :
      (r : Bool) (n : ℤ) (msg : FixMessage) (s : Session S)
      → get_int Tags.msg_seq_num msg ≡ ok n
      → is_reset msg ≡ false
      → s.running ≡ true
      → StepRun (calling r) s (sequenced_message clock n msg)
  unfolding sequenced_message
  sequenced-Step r n msg s g e run =
      by_test_of (StepRun (calling r) s) (ltb_ℤ s.recv_seq_num n)
        (λ _. buffer-Step r n msg s (g, e))
        (λ l.
          by_test_of (StepRun (calling r) s) (ltb_ℤ n s.recv_seq_num)
            (λ _.
              by_test (StepRun (calling r) s) (not (field_is Tags.poss_dup_flag (codes "Y") msg))
                (shutdown-Step (calling r) s) (Step-refl (calling r) s))
            (λ m.
              handle-Step r msg s (λ x. absurd (false≢true (sym e ∙ x)))
                (λ _ _ _.
                  g
                  ∙ ap ok (
                      eq_of_parts n s.recv_seq_num (
                        omega
                          (int_laws, ltb_ℤ→le s.recv_seq_num n l, ltb_ℤ→le n s.recv_seq_num m))))
                run))

  receive-Step :
      (r : Bool) (msg : FixMessage) (s : Session S)
      → (is_reset msg ≡ true → r ≡ true)
      → s.running ≡ true
      → StepRun (calling r) s (receive_message clock msg)
  unfolding receive_message
  receive-Step r msg s a run = Step->>= _ _ s (Step-refl (calling r) s) (λ n g.
      Step->>= _ _ s (Step-refl (calling r) s) (λ t e.
        by_test_of (StepRun (calling r) s)
          (text_eq t (codes "A") && is_handshake s.state || text_eq t (codes "4"))
          (λ b.
            handle-Step r msg s a
              (λ u f v. absurd (
                not_business t (is_handshake s.state) b
                  (ap is_admin_message (ok_injective t u (sym e ∙ f)) ∙ v)))
              run)
          (λ b. sequenced-Step r n msg s g (is_reset-other msg t e (||_right _ _ b)) run)))

  pub on_message_received-Step :
      (r : Bool) (msg : FixMessage) (s : Session S)
      → (is_reset msg ≡ true → r ≡ true)
      → StepRun (calling r) s (on_message_received clock msg)
  unfolding on_message_received
  on_message_received-Step r msg s a =
      let t = record s { last_recv = clock.now } in
      by_test_of (StepRun (calling r) s) s.running
        (λ run.
          Step->>= _ _ s (Quiet-Step (calling r) s t (refl, refl))
            (λ _ _. receive-Step r msg t a run))
        (λ _. Step-refl (calling r) s)

  state_start-Step :
      (r : Bool) (state : State) (s : Session S)
      → StepRun (calling r) (record s { state = state }) (state_start clock state)
  unfolding state_start
  state_start-Step r disconnected s =
      session_start-Step clock (calling r) (record s { state = disconnected }) refl
  state_start-Step r logon_sent s = Step-refl (calling r) (record s { state = logon_sent })
  state_start-Step r (established a t) s =
      Step-refl (calling r) (record s { state = established a t })
  state_start-Step r (logout_sent x t) s =
      Step-refl (calling r) (record s { state = logout_sent x t })

  pub start-Step :
      (r : Bool) (s : Session S) → s.shutting_down ≡ false → StepRun (calling r) s (start clock)
  unfolding start
  start-Step r s down =
      let t = record s { running = true; last_recv = clock.now; last_send = clock.now } in
      Step->>= _ _ s (λ h. ((h.0, λ _. down), here)) (λ _ _. state_start-Step r s.state t)

  state_logout-Step :
      (r : Bool) (reason : Text) (state : State) (s : Session S)
      → s.shutting_down ≡ false
      → StepRun (calling r) (record s { state = state }) (state_logout clock reason state)
  unfolding state_logout
  state_logout-Step r reason disconnected s down =
      Step-refl (calling r) (record s { state = disconnected })
  state_logout-Step r reason logon_sent s down =
      shutdown-Step (calling r) (record s { state = logon_sent })
  state_logout-Step r reason (logout_sent x t) s down =
      Step-refl (calling r) (record s { state = logout_sent x t })
  state_logout-Step r reason (established a x) s down =
      let t = record s { state = established a (some clock.now) } in
      let u = (send_logout clock reason t).1 in
      let q = send-Quiet clock _ t in
      Step->>= _ _ (record s { state = established a x })
        (relabel-Step (calling r) (established a (some clock.now))
          (record s { state = established a x }) refl)
        (λ _ _. Step->>= _ _ t (Quiet-Step (calling r) t u q) (λ _ _.
          leave-Step (calling r) reason clock.now u (Quiet-down t u q down)
            (Quiet-state t u live q refl)))

  pub initiate_logout-Step :
      (r : Bool) (reason : Text) (s : Session S)
      → StepRun (calling r) s (initiate_logout clock reason)
  unfolding initiate_logout
  initiate_logout-Step r reason s =
      by_test_of (StepRun (calling r) s) s.running
        (λ run h. state_logout-Step r reason s.state s (h.1 run) h) (λ _. Step-refl (calling r) s)

module _ {S : Type 0} ⦃store : Store S⦄ (settings : Settings) (clock : Clock) where
  test_peer-Step :
      (r : Bool) (awaiting : Text) (logout_time : Option ℕ) (s : Session S)
      → phase_of_state s.state ≡ live
      → StepRun (calling r) s (test_peer settings clock awaiting logout_time)
  unfolding test_peer
  test_peer-Step r awaiting logout_time s e =
      let id = codes "TestReq_" ++ print_ℕ clock.now in
      let t = record s { state = established id logout_time } in
      by_test (StepRun (calling r) s)
        (leb_ℤ (settings.test_request_after s.heart_bt_int) (seconds_between s.last_recv clock.now)
          && is_empty awaiting)
        (Step->>= _ _ s (relabel-Step (calling r) (established id logout_time) s (sym e))
          (λ _ _. Quiet-Step (calling r) t (send_test_request clock id t).1 (send-Quiet clock _ t)))
        (Step-refl (calling r) s)

  keep_alive-Step :
      (r : Bool) (awaiting : Text) (logout_time : Option ℕ) (s : Session S)
      → phase_of_state s.state ≡ live
      → StepRun (calling r) s (keep_alive settings clock awaiting logout_time)
  unfolding keep_alive
  keep_alive-Step r awaiting logout_time s e =
      let beat =
        when (leb_ℤ s.heart_bt_int (seconds_between s.last_send clock.now))
          (send_heartbeat clock []) in
      let q : Quiet s (beat s).1 =
        by_test (QuietRun s) (leb_ℤ s.heart_bt_int (seconds_between s.last_send clock.now))
          (send-Quiet clock _ s) (Quiet-refl s) in
      Step->>= beat _ s (Quiet-Step (calling r) s (beat s).1 q) (λ _ _.
        test_peer-Step r awaiting logout_time (beat s).1 (Quiet-state s (beat s).1 live q e))

  established_timer-Step :
      (r : Bool) (awaiting : Text) (logout_time : Option ℕ) (s : Session S)
      → phase_of_state s.state ≡ live
      → StepRun (calling r) s (established_timer settings clock awaiting logout_time)
  unfolding established_timer
  established_timer-Step r awaiting logout_time s e =
      by_test (StepRun (calling r) s) (logout_overdue settings clock logout_time)
        (shutdown-Step (calling r) s)
        (by_test (StepRun (calling r) s) (peer_silent settings clock awaiting s)
          (shutdown-Step (calling r) s) (keep_alive-Step r awaiting logout_time s e))

  state_timer-Step :
      (r : Bool) (state : State) (s : Session S)
      → StepRun (calling r) (record s { state = state }) (state_timer settings clock state)
  unfolding state_timer
  state_timer-Step r disconnected s = Step-refl (calling r) (record s { state = disconnected })
  state_timer-Step r logon_sent s = Step-refl (calling r) (record s { state = logon_sent })
  state_timer-Step r (established a t) s =
      established_timer-Step r a t (record s { state = established a t }) refl
  state_timer-Step r (logout_sent x t) s =
      let u = record s { state = logout_sent x t } in
      by_test (StepRun (calling r) u) (logout_timed_out settings clock t)
        (shutdown-Step (calling r) u) (Step-refl (calling r) u)

  pub on_timer_check-Step :
      (r : Bool) (s : Session S) → StepRun (calling r) s (on_timer_check settings clock)
  unfolding on_timer_check
  on_timer_check-Step r s =
      by_test (StepRun (calling r) s) s.running (state_timer-Step r s.state s)
        (Step-refl (calling r) s)
