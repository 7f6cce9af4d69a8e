-- ===== src/Fix/Session/Refinement/Changes.antt =====
-- src/fix/session.cpp: the steps that change what the machine sees.
use fix4_0_demo.Prelude.{
  ℕ, ◌≡◌, ◌≢◌, refl, sym, subst, Bool, true, false, by_test, [], ◌∷◌, none, if◌then◌else◌, ℤ, pos,
  ◌+ℤ◌, ◌≤ℤ◌, int_laws, Text,
}
use mathlib.Core.Bool.{false≢true}
use fix4_0_demo.Fix.Tags
use fix4_0_demo.Fix.Message.{FixMessage, ok, get_int}
use fix4_0_demo.Engine.Order.{SessionId}
use fix4_0_demo.Fix.Session.{
  Session, State, disconnected, logon_sent, established, logout_sent, halt, close, on_logon,
  from_app, from_admin, connection_shutdown, emit_if, change_state, perform_shutdown,
  notify_established, get_session_id,
}
use fix4_0_demo.Fix.Session.States.{increment_recv_seq_num}
use fix4_0_demo.Fix.Session.Logon.{enter_established}
use fix4_0_demo.Fix.Session.Refinement.{
  view, callbacks, phase_of, phase_of_state, Step, Step-trans, Step-refl,
}
use fix4_0_demo.Fix.Session.Refinement.Quiet.{
  Quiet, resembling, Quiet-trans, Quiet-elim, Quiet-Step,
}
use fix4_0_demo.Fix.Session.Machine.{
  Permits, waiting, live, over, Moves, here, next, align, log_on, advance, reset, deliver,
  administer, log_out, shut_down,
}

phase_of_state-ne : (state : State) → phase_of_state state ≢ over
phase_of_state-ne disconnected = λ e. cc
phase_of_state-ne logon_sent = λ e. cc
phase_of_state-ne (established _ _) = λ e. cc
phase_of_state-ne (logout_sent _ _) = λ e. cc

module _ {S : Type 0} where
  pub running_elim :
      (P : Session S → Type 0) (s : Session S)
      → s.shutting_down ≡ false
      → P (record s { shutting_down = false })
      → P s
  running_elim P s e p = subst (λ b. P (record s { shutting_down = b })) (sym e) p

  close-Quiet : (s : Session S) → Quiet s (close s)
  close-Quiet s =
      let closed = emit_if s.connected connection_shutdown s in
      Quiet-trans s closed (close s) (by_test (Quiet s) s.connected (refl, refl) (refl, refl))
        (by_test (Quiet closed) closed.has_shutdown_callback (refl, refl) (refl, refl))

  halt-Step_lem :
      (r : Permits) (app : Bool) (s : Session S)
      → Step r
          (record s { has_application = app; shutting_down = false })
          (halt (record s { has_application = app; shutting_down = false }))
  halt-Step_lem r true s h = (
    (h.0, λ e. absurd (false≢true e)),
    next here (shut_down (get_session_id s) (phase_of_state-ne s.state)),
  )
  halt-Step_lem r false s h = (
    (h.0, λ e. absurd (false≢true e)),
    next here (shut_down (get_session_id s) (phase_of_state-ne s.state)),
  )

  shutdown-Step_lem :
      (r : Permits) (down : Bool) (s : Session S)
      → Step r
          (record s { shutting_down = down })
          (perform_shutdown (record s { shutting_down = down }))
  unfolding perform_shutdown
  shutdown-Step_lem r true s = Step-refl r (record s { shutting_down = true })
  shutdown-Step_lem r false s =
      let t = record s { shutting_down = false } in
      Step-trans t (halt t) (close (halt t)) (halt-Step_lem r s.has_application s)
        (Quiet-Step r (halt t) (close (halt t)) (close-Quiet (halt t)))

  pub shutdown-Step : (r : Permits) (s : Session S) → Step r s (perform_shutdown s)
  shutdown-Step r s = shutdown-Step_lem r s.shutting_down s

  pub relabel-Step :
      (r : Permits) (state : State) (s : Session S)
      → phase_of_state state ≡ phase_of_state s.state
      → Step r s (change_state state s)
  relabel-Step r state s e h = (
    h,
    subst (λ p. Moves r (view s) (record (view s) { phase = if s.shutting_down then over else p }))
        (sym e) here,
  )

  administer_lem :
      (r : Permits) (app : Bool) (s : Session S) (msg : FixMessage)
      → phase_of s ≢ waiting
      → Step r
          (record s { has_application = app })
          (emit_if app (from_admin msg (get_session_id s)) (record s { has_application = app }))
  administer_lem r true s msg n h = (h, next here (administer msg (get_session_id s) n))
  administer_lem r false s msg n h = (h, next here (administer msg (get_session_id s) n))

  pub administer-Step :
      (r : Permits) (s : Session S) (msg : FixMessage)
      → phase_of s ≢ waiting
      → Step r s (emit_if s.has_application (from_admin msg (get_session_id s)) s)
  administer-Step r s msg n = administer_lem r s.has_application s msg n

  deliver_lem :
      (r : Permits) (app : Bool) (s : Session S) (msg : FixMessage)
      → phase_of s ≡ live
      → get_int Tags.msg_seq_num msg ≡ ok s.recv_seq_num
      → Step r
          (record s { has_application = app })
          (emit_if app
            (from_app msg (get_session_id s))
            (increment_recv_seq_num (record s { has_application = app })))
  deliver_lem r true s msg e due h = (h, next here (deliver msg (get_session_id s) e due))
  deliver_lem r false s msg e due h = (h, next here (deliver msg (get_session_id s) e due))

  pub deliver-Step :
      (r : Permits) (s : Session S) (msg : FixMessage)
      → phase_of s ≡ live
      → get_int Tags.msg_seq_num msg ≡ ok s.recv_seq_num
      → Step r s
          (emit_if s.has_application (from_app msg (get_session_id s)) (increment_recv_seq_num s))
  deliver-Step r s msg e due = deliver_lem r s.has_application s msg e due

  pub advance-Step :
      (r : Permits) (n : ℤ) (s : Session S)
      → s.recv_seq_num ≤ℤ n
      → Step r s (record s { recv_seq_num = n })
  advance-Step r n s l h = (h, next here (advance n l))

  pub increment-Step : (r : Permits) (s : Session S) → Step r s (increment_recv_seq_num s)
  increment-Step r s = advance-Step r (s.recv_seq_num +ℤ pos 1) s (omega int_laws)

  pub align-Step :
      (r : Permits) (n : ℤ) (s : Session S)
      → phase_of s ≡ waiting
      → Step r s (record s { recv_seq_num = n })
  align-Step r n s e h = (h, next here (align n e))

  pub reset-Step :
      (r : Permits) (n : ℤ) (s : Session S)
      → r.resets ≡ true
      → phase_of s ≢ waiting
      → Step r s (record s { recv_seq_num = n })
  reset-Step r n s e w h = (h, next here (reset n e w))

  pub leave-Step :
      (r : Permits) (reason : Text) (time : ℕ) (s : Session S)
      → s.shutting_down ≡ false
      → phase_of_state s.state ≡ live
      → Step r s (change_state (logout_sent reason time) s)
  leave-Step r reason time s down e =
      running_elim (λ t. Step r t (change_state (logout_sent reason time) t)) s down
        (λ h. (h, next here (log_out e)))

  enter_lem :
      (r : Permits) (app : Bool) (id : SessionId) (s u : Session S)
      → phase_of_state s.state ≡ waiting
      → callbacks u.events ≡ callbacks s.events
      → Step r
          (record s { has_application = app; shutting_down = false })
          (emit_if app (on_logon id) (
            resembling
              (record s {
                has_application = app;
                shutting_down = false;
                state = established [] none;
              })
              u))
  enter_lem r true id s u e c h = (
    h,
    subst
        (λ x.
          Moves r (view (record s { has_application = true; shutting_down = false }))
            (record (view s) { phase = live; has_application = true; calls = on_logon id ∷ x }))
        (sym c) (next here (log_on id e)),
  )
  enter_lem r false id s u e c h = (
    h,
    subst
        (λ x.
          Moves r (view (record s { has_application = false; shutting_down = false }))
            (record (view s) { phase = live; has_application = false; calls = x }))
        (sym c) (next here (log_on id e)),
  )

  notify_established-Quiet : (s : Session S) → Quiet s (notify_established s)
  unfolding notify_established
  notify_established-Quiet s =
      by_test (Quiet s) s.established_notified (refl, refl)
        (by_test (Quiet s) s.has_established_callback (refl, refl) (refl, refl))

  pub enter-Step :
      (r : Permits) (s : Session S)
      → s.shutting_down ≡ false
      → phase_of_state s.state ≡ waiting
      → Step r s (enter_established s)
  unfolding enter_established
  enter-Step r s down e =
      running_elim (λ t. Step r t (enter_established t)) s down
        (let t = record s { shutting_down = false } in
          let told = notify_established (change_state (established [] none) t) in
          Quiet-elim (λ u. Step r t (emit_if u.has_application (on_logon (get_session_id u)) u))
            (change_state (established [] none) t) told
            (notify_established-Quiet (change_state (established [] none) t))
            (enter_lem r s.has_application (get_session_id told) s told e))
