-- ===== src/Fix/Session/Refinement/Handshake.antt =====
-- src/fix/session.cpp: the states before the logon, and a message in any state, as steps of the machine.
use fix4_0_demo.Prelude.{
  ℕ, ◌≡◌, refl, sym, Bool, true, false, not, ◌&&◌, by_test, by_option, Option, none, some, ℤ, pos,
  ◌+ℤ◌, leb_ℤ, Text, codes, text_eq, is_empty,
}
use fix4_0_demo.Fix.Tags
use fix4_0_demo.Fix.Message.{FixMessage, ok, get_int, get_string}
use fix4_0_demo.Fix.Builders.{is_admin_message, create_logon_message}
use fix4_0_demo.Fix.Session.{
  Session, Store, Clock, State, disconnected, logon_sent, established, logout_sent,
  perform_shutdown, restore_session_state,
}
use fix4_0_demo.Fix.Session.Run.{by_result}
use fix4_0_demo.Fix.Session.Sending.{send}
use fix4_0_demo.Fix.Message.{field_is}
use fix4_0_demo.Fix.Session.States.{
  increment_recv_seq_num, logout_sent_message, established_message, state_message,
}
use fix4_0_demo.Fix.Session.Logon.{
  bind_client, range_reason, reject_logon, answer_logon, accept_client, check_logon,
  disconnected_message, logon_sent_message, session_start,
}
use fix4_0_demo.Fix.Session.Refinement.{
  phase_of_state, is_reset, Step, Step-trans, Step-refl, Step->>=,
}
use fix4_0_demo.Fix.Session.Refinement.Quiet.{
  Quiet, Quiet-down, Quiet-state, Quiet-Step, send-Quiet,
}
use fix4_0_demo.Fix.Session.Refinement.Changes.{
  shutdown-Step, relabel-Step, increment-Step, align-Step, enter-Step,
}
use fix4_0_demo.Fix.Session.Refinement.Handlers.{StepRun, dispatch-Step}
use fix4_0_demo.Fix.Session.Machine.{Permits, live, waiting}

-- A message for the application has the number that is expected.
abbrev pub IsDue : FixMessage → ℤ → Type 0
IsDue msg n =
    (t : Text)
    → get_string Tags.msg_type msg ≡ ok t
    → is_admin_message t ≡ false
    → get_int Tags.msg_seq_num msg ≡ ok n

module _ {S : Type 0} where
  -- Before the logon.
  abbrev IsFresh : Session S → Type 0
  IsFresh s = (s.shutting_down ≡ false) × (phase_of_state s.state ≡ waiting)

  Quiet-IsFresh : (s t : Session S) → Quiet s t → IsFresh s → IsFresh t
  Quiet-IsFresh s t q (down, e) = (Quiet-down s t q down, Quiet-state s t waiting q e)

  -- Quiet but for the number that is expected.
  abbrev Aligned : Session S → Session S → Type 0
  Aligned s t = Quiet (record s { recv_seq_num = t.recv_seq_num }) t

  Aligned-IsFresh : (s t : Session S) → Aligned s t → IsFresh s → IsFresh t
  Aligned-IsFresh s t q f = Quiet-IsFresh (record s { recv_seq_num = t.recv_seq_num }) t q f

  Aligned-Step : (r : Permits) (s t : Session S) → IsFresh s → Aligned s t → Step r s t
  Aligned-Step r s t (down, e) q =
      Step-trans s (record s { recv_seq_num = t.recv_seq_num }) t
        (align-Step r t.recv_seq_num s (rw (down, e) refl))
        (Quiet-Step r (record s { recv_seq_num = t.recv_seq_num }) t q)

  logout_sent-Step :
      (r : Permits) (msg : FixMessage) (s : Session S) → StepRun r s (logout_sent_message msg)
  unfolding logout_sent_message
  logout_sent-Step r msg s = Step->>= _ _ s (Step-refl r s) (λ t _.
      by_test (StepRun r s) (text_eq t (codes "5"))
        (Step-trans s (increment_recv_seq_num s) (perform_shutdown (increment_recv_seq_num s))
          (increment-Step r s) (shutdown-Step r (increment_recv_seq_num s)))
        (Step-refl r s))

  logon_sent-Step :
      (r : Permits) (msg : FixMessage) (s : Session S)
      → IsFresh s
      → StepRun r s (logon_sent_message msg)
  unfolding logon_sent_message
  logon_sent-Step r msg s f = Step->>= _ _ s (Step-refl r s) (λ t _.
      by_test (StepRun r s) (text_eq t (codes "A"))
        (Step->>= _ _ s (Step-refl r s) (λ n _.
          Step->>= _ _ s (Aligned-Step r s (record s { recv_seq_num = n +ℤ pos 1 }) f (refl, refl))
            (λ _ _. enter-Step r (record s { recv_seq_num = n +ℤ pos 1 }) f.0 f.1)))
        (shutdown-Step r s))

module _ {S : Type 0} ⦃store : Store S⦄ where
  bind_client-Aligned :
      (reset_seq : Bool) (client : Text) (s : Session S)
      → Aligned s (bind_client reset_seq client s)
  unfolding restore_session_state
  bind_client-Aligned reset_seq client s =
      by_option (Aligned s) s.store (refl, refl)
        (λ db.
          by_test (Aligned s) reset_seq (refl, refl)
            (by_option (Aligned s) s.store (refl, refl)
              (λ db.
                by_option (Aligned s) (store.load_session_state s.sender_comp_id client db)
                  (refl, refl) (λ _. (refl, refl)))))

module _ {S : Type 0} ⦃store : Store S⦄ (clock : Clock) where
  reject-Step :
      (r : Permits) (reason : Text) (s : Session S) → StepRun r s (reject_logon clock reason)
  reject-Step r reason s =
      Step->>= _ _ s (Quiet-Step r s _ (send-Quiet clock _ s)) (λ _ _. shutdown-Step r _)

  answer_logon-Step :
      (r : Permits) (reset_seq : Bool) (hb : ℤ) (s : Session S)
      → IsFresh s
      → StepRun r s (answer_logon clock reset_seq hb)
  unfolding answer_logon
  answer_logon-Step r reset_seq hb s f =
      let kept = record s { heart_bt_int = hb } in
      let logon = create_logon_message s.sender_comp_id s.target_comp_id (pos 1) hb reset_seq in
      let q = send-Quiet clock logon kept in
      by_test (StepRun r s) (leb_ℤ s.min_heart_bt_int hb && leb_ℤ hb s.max_heart_bt_int)
        (Step->>= _ _ s (Quiet-Step r s kept (refl, refl)) (λ _ _.
          Step->>= _ _ kept (Quiet-Step r kept (send clock logon kept).1 q) (λ _ _.
            let g = Quiet-IsFresh kept (send clock logon kept).1 q f in
            enter-Step r (send clock logon kept).1 g.0 g.1)))
        (reject-Step r (range_reason hb s) s)

  accept_client-Step :
      (r : Permits) (msg : FixMessage) (client : Text) (s : Session S)
      → IsFresh s
      → StepRun r s (accept_client clock msg client)
  unfolding accept_client
  accept_client-Step r msg client s f =
      let reset_seq = field_is Tags.reset_seq_num_flag (codes "Y") msg in
      let bound = bind_client reset_seq client s in
      let q = bind_client-Aligned reset_seq client s in
      let g = Aligned-IsFresh s bound q f in
      Step->>= _ _ s (Aligned-Step r s bound f q) (λ _ _.
        Step->>= _ _ bound (Step-refl r bound) (λ n _.
          Step->>= _ _ bound
            (Aligned-Step r bound (record bound { recv_seq_num = n +ℤ pos 1 }) g (refl, refl))
            (λ _ _.
              Step->>= _ _ (record bound { recv_seq_num = n +ℤ pos 1 })
                (Step-refl r (record bound { recv_seq_num = n +ℤ pos 1 }))
                (λ hb _.
                  answer_logon-Step r reset_seq hb (record bound { recv_seq_num = n +ℤ pos 1 })
                    g))))

  check_logon-Step :
      (r : Permits) (msg : FixMessage) (s : Session S)
      → IsFresh s
      → StepRun r s (check_logon clock msg)
  unfolding check_logon
  check_logon-Step r msg s f =
      by_result (StepRun r s) (get_string Tags.sender_comp_id msg)
        (λ client _.
          by_test (StepRun r s) (not (field_is Tags.target_comp_id s.sender_comp_id msg))
            (shutdown-Step r s)
            (by_test (StepRun r s) (is_empty client) (reject-Step r (codes "Empty SenderCompID") s)
              (accept_client-Step r msg client s f)))
        (λ _. reject-Step r (codes "Missing SenderCompID") s)

  disconnected-Step :
      (r : Permits) (msg : FixMessage) (s : Session S)
      → IsFresh s
      → StepRun r s (disconnected_message clock msg)
  unfolding disconnected_message
  disconnected-Step r msg s f = Step->>= _ _ s (Step-refl r s) (λ t _.
      by_test (StepRun r s) (text_eq t (codes "A"))
        (by_test (StepRun r s) (text_eq s.sender_comp_id (codes "SERVER"))
          (check_logon-Step r msg s f) (Step-refl r s))
        (shutdown-Step r s))

  established-Step :
      (r : Permits) (awaiting : Text) (logout_time : Option ℕ) (msg : FixMessage) (s : Session S)
      → (is_reset msg ≡ true → r.resets ≡ true)
      → IsDue msg s.recv_seq_num
      → s.shutting_down ≡ false
      → phase_of_state s.state ≡ live
      → StepRun r s (established_message clock awaiting logout_time msg)
  unfolding established_message
  established-Step r awaiting logout_time msg s a due down e =
      Step->>= _ _ s (Step-refl r s)
        (λ t g. dispatch-Step clock r awaiting logout_time msg t s g a (due t g) down e)

  state_message_lem :
      (r : Permits) (msg : FixMessage) (state : State) (s : Session S)
      → (is_reset msg ≡ true → r.resets ≡ true)
      → IsDue msg s.recv_seq_num
      → s.shutting_down ≡ false
      → StepRun r (record s { state = state }) (state_message clock msg)
  unfolding state_message
  state_message_lem r msg disconnected s a due down =
      disconnected-Step r msg (record s { state = disconnected }) (down, refl)
  state_message_lem r msg logon_sent s a due down =
      logon_sent-Step r msg (record s { state = logon_sent }) (down, refl)
  state_message_lem r msg (established awaiting logout_time) s a due down =
      established-Step r awaiting logout_time msg
        (record s { state = established awaiting logout_time }) a due down refl
  state_message_lem r msg (logout_sent reason time) s a due down =
      logout_sent-Step r msg (record s { state = logout_sent reason time })

  pub state_message-Step :
      (r : Permits) (msg : FixMessage) (s : Session S)
      → (is_reset msg ≡ true → r.resets ≡ true)
      → IsDue msg s.recv_seq_num
      → s.shutting_down ≡ false
      → StepRun r s (state_message clock msg)
  state_message-Step r msg s = state_message_lem r msg s.state s

  pub session_start-Step :
      (r : Permits) (s : Session S)
      → phase_of_state s.state ≡ waiting
      → StepRun r s (session_start clock)
  unfolding session_start
  session_start-Step r s e =
      let reset_seq : Bool = elim s.store [ none ↦ true | some _ ↦ false ] in
      let logon =
        create_logon_message s.sender_comp_id s.target_comp_id (pos 1) s.heart_bt_int reset_seq in
      let t = (send clock logon s).1 in
      let q = send-Quiet clock logon s in
      by_test (StepRun r s) (text_eq s.target_comp_id (codes "SERVER"))
        (Step->>= _ _ s (Quiet-Step r s t q)
          (λ _ _. relabel-Step r logon_sent t (sym (Quiet-state s t waiting q e))))
        (Step-refl r s)
