-- ===== src/Fix/Session/Promises.antt =====
-- What holds of a session, src/fix/session.cpp, whatever it is asked to do, but to start again after
-- it was shut down.
use fix4_0_demo.Prelude.{
  ◌≡◌, refl, sym, subst, Bool, true, false, by_test, by_option, [], Option, some, ℤ, Text, codes,
  text_eq, arith,
}
use fix4_0_demo.Fix.Message.{FixMessage}
use fix4_0_demo.Engine.Order.{SessionId}
use fix4_0_demo.Fix.Session.{Session, Store, Clock, Settings, restore_session_state}
use fix4_0_demo.Fix.Session.Sending.{send_app_message}
use fix4_0_demo.Fix.Session.Inbound.{on_message_received}
use fix4_0_demo.Fix.Session.Api.{
  constructed, init, start, on_timer_check, initiate_logout, on_io_error,
}
use fix4_0_demo.Fix.Session.Machine.{
  View, Move, Moves, Moves-keep, stage, stage_of, waiting, IsOrderly, IsInOrder, Delivers,
}
use fix4_0_demo.Fix.Session.Machine.Calls.{Move-IsOrderly, Move-IsInOrder}
use fix4_0_demo.Fix.Session.Refinement.{callbacks, view, phase_of, IsSound, is_reset}
use fix4_0_demo.Fix.Session.Refinement.Quiet.{Quiet-Step, send-Quiet}
use fix4_0_demo.Fix.Session.Refinement.Changes.{shutdown-Step}
use fix4_0_demo.Fix.Session.Refinement.Drain.{calling}
use fix4_0_demo.Fix.Session.Refinement.Steps.{
  on_message_received-Step, start-Step, initiate_logout-Step, on_timer_check-Step,
}

refused : (b : Bool) → (b ≡ true → false ≡ true) → b ≡ false
refused b h = ground arith

module _ {S : Type 0} ⦃store : Store S⦄ (settings : Settings) where
  -- One call of a session; `restarts` says whether a session that was shut down may be started
  -- again, which `Session::start` does not refuse, and `resets` whether the peer may reset the
  -- numbers.
  pub data Call (restarts resets : Bool) (s : Session S) : Session S → Type 0 where
    starts :
        (clock : Clock)
        → (s.shutting_down ≡ true → restarts ≡ true)
        → Call restarts resets s (start clock s).1
    receives :
        (clock : Clock) (msg : FixMessage)
        → (is_reset msg ≡ true → resets ≡ true)
        → Call restarts resets s (on_message_received clock msg s).1
    checks_timer : (clock : Clock) → Call restarts resets s (on_timer_check settings clock s).1
    logs_out :
        (clock : Clock) (reason : Text) → Call restarts resets s (initiate_logout clock reason s).1
    fails : Call restarts resets s (on_io_error s)
    sends :
        (clock : Clock) (to_app : FixMessage → SessionId → FixMessage) (msg : FixMessage)
        → Call restarts resets s (send_app_message clock to_app msg s).1

  -- The sessions that a history of calls leads to, when an application is set.
  pub data Reachable (restarts resets : Bool) : Session S → Type 0 where
    created :
        (clock : Clock) (sender target : Text) (hb : ℤ) (db : Option S)
        (connected has_shutdown has_established : Bool)
        → Reachable restarts resets (
            init (
              constructed settings clock sender target hb db connected true has_shutdown
                has_established))
    called :
        {s t : Session S}
        → Reachable restarts resets s
        → Call restarts resets s t
        → Reachable restarts resets t

  -- Every call of a session, but a start after it was shut down, is a sequence of moves of the
  -- machine, if its buffer holds messages under their own numbers, none of them a reset, and if it
  -- is not shut down while it runs; and that stays so.
  pub Call-Moves :
      (resets : Bool) (s t : Session S)
      → Call false resets s t
      → IsSound s
      → IsSound t × Moves (calling resets) (view s) (view t)
  unfolding send_app_message
  Call-Moves r s t (starts clock down) = start-Step clock r s (refused s.shutting_down down)
  Call-Moves r s t (receives clock msg a) = on_message_received-Step clock r msg s a
  Call-Moves r s t (checks_timer clock) = on_timer_check-Step settings clock r s
  Call-Moves r s t (logs_out clock reason) = initiate_logout-Step clock r reason s
  Call-Moves r s t fails = shutdown-Step (calling r) s
  Call-Moves r s t (sends clock to_app msg) = Quiet-Step (calling r) s t (send-Quiet clock _ s)

  -- A new session is the constructed one, with the numbers that were restored.
  init-keeps :
      (P : Session S → Type 0) (s : Session S)
      → ((n m : ℤ) → P (record s { send_seq_num = n; recv_seq_num = m }))
      → P (init s)
  unfolding init restore_session_state
  init-keeps P s h =
      by_test P (text_eq s.target_comp_id (codes "PENDING")) (h s.send_seq_num s.recv_seq_num) (
        by_option P s.store (h s.send_seq_num s.recv_seq_num) (λ db.
          by_option P (store.load_session_state s.sender_comp_id s.target_comp_id db)
            (h s.send_seq_num s.recv_seq_num) (λ saved. h saved.send_seq_num saved.recv_seq_num)))

  pub Reachable-IsSound : {r : Bool} (s : Session S) → Reachable false r s → IsSound s
  Reachable-IsSound s (created clock sender target hb db a b c) =
      init-keeps IsSound _ (λ _ _. (tt, λ _. refl))
  Reachable-IsSound {r} t (called {s} p c) = (Call-Moves r s t c (Reachable-IsSound s p)).0

  Reachable-keeps :
      (r : Bool) (P : View → Type 0)
      → ((v : View) → v.phase ≡ waiting → v.calls ≡ [] → v.has_application ≡ true → P v)
      → ((v w : View) → Move (calling r) v w → P v → P w)
      → (s : Session S) → Reachable false r s
      → P (view s)
  Reachable-keeps r P new move s (created clock sender target hb db a b c) =
      init-keeps (λ x. P (view x)) _ (λ _ m. new _ refl refl refl)
  Reachable-keeps r P new move t (called {s} p c) =
      Moves-keep P move (Call-Moves r s t c (Reachable-IsSound s p)).1
        (Reachable-keeps r P new move s p)

  -- Whatever a session with an application is asked to do, but to start again after it was shut
  -- down, the application is told of one logon at most, of messages only behind it, and of one logout
  -- at most, behind which no message for the application and no logon comes: the calls so far are
  -- those of the phase that the session is in.
  pub calls-stage :
      (resets : Bool) (s : Session S)
      → Reachable false resets s
      → stage (callbacks s.events) ≡ some (stage_of (phase_of s))
  unfolding stage
  calls-stage r s p =
      (Reachable-keeps r IsOrderly (λ v w e a. (a, rw (w, e) refl)) (Move-IsOrderly (calling r)) s
        p).1

  -- As long as the peer does not reset the numbers, and a session that was shut down is not started
  -- again, the messages that reach the application have numbers that rise, all of them below the
  -- number that the session expects next: none is delivered twice, and none after a later one.
  pub calls-Delivers :
      (s : Session S) → Reachable false false s → Delivers s.recv_seq_num (callbacks s.events)
  calls-Delivers s p =
      (Reachable-keeps false IsInOrder (λ v w e _. (subst (Delivers v.expected) (sym e) tt, λ _. e))
        (Move-IsInOrder true) s p).0
