-- ===== src/Fix/Session/Refinement/Handlers.antt =====
-- src/fix/session.cpp: the handlers of the established state as steps of the machine.
use fix4_0_demo.Prelude.{
  ℕ, ◌≡◌, ◌≢◌, refl, ◌∙◌, sym, subst, Bool, true, false, not, ◌&&◌, Bool-cases, inl, inr, by_test,
  [], Option, none, some, if◌then◌else◌, ℤ, pos, leb_ℤ, leb_ℤ→lt, int_laws, Text, codes, text_eq,
  text_eq_iff,
}
use fix4_0_demo.Fix.Tags
use fix4_0_demo.Fix.Message.{FixMessage, ok, get_int, get_string}
use fix4_0_demo.Fix.Builders.{is_admin_message}
use fix4_0_demo.Fix.Session.{
  Session, Store, Clock, established, from_admin, emit_if, get_session_id,
}
use fix4_0_demo.Fix.Session.Run.{Run, ◌>>=◌, ◌>>◌, modify, skip}
use fix4_0_demo.Fix.Session.Sending.{send_logout}
use fix4_0_demo.Fix.Message.{field_is}
use fix4_0_demo.Fix.Session.States.{
  increment_recv_seq_num, handle_heartbeat, handle_sequence_reset, handle_logout, message_handler,
  dispatch_message,
}
use fix4_0_demo.Fix.Session.Refinement.{
  phase_of, phase_of_state, is_reset, is_reset_lem, Step, Step-refl, Step->>=,
}
use fix4_0_demo.Fix.Session.Refinement.Quiet.{
  Quiet-down, Quiet-state, Quiet-Step, send-Quiet, handle_resend_request-Quiet,
  handle_test_request-Quiet,
}
use fix4_0_demo.Fix.Session.Refinement.Changes.{
  shutdown-Step, relabel-Step, administer-Step, deliver-Step, advance-Step, increment-Step,
  reset-Step, leave-Step,
}
use fix4_0_demo.Fix.Session.Machine.{Permits, live, waiting, Moves-keep, Move-started}

by_code : (P : Text → Type 0) (t code : Text) → P code → (text_eq t code ≡ false → P t) → P t
by_code P t code p q = elim (Bool-cases (text_eq t code)) [
  | inl e ↦ subst P (sym ((text_eq_iff t code).0 e)) p
  | inr e ↦ q e
]

module _ {S : Type 0} where
  abbrev pub StepRun : {A : Type 0} → Permits → Session S → Run S A → Type 0
  StepRun r s m = Step r s (m s).1

  heartbeat-Step :
      (r : Permits) (awaiting : Text) (logout_time : Option ℕ) (msg : FixMessage) (s : Session S)
      → phase_of_state s.state ≡ live
      → Step r s (handle_heartbeat awaiting logout_time msg s)
  heartbeat-Step r awaiting logout_time msg s e =
      by_test (Step r s) (field_is Tags.test_req_id awaiting msg)
        (relabel-Step r (established [] logout_time) s (sym e)) (Step-refl r s)

  reset_lem :
      (r : Permits) (gap : Bool) (n : ℤ) (s : Session S)
      → (not gap ≡ true → r.resets ≡ true)
      → phase_of s ≢ waiting
      → Step r s (if gap && leb_ℤ n s.recv_seq_num then s else record s { recv_seq_num = n })
  reset_lem r true n s a w = elim (Bool-cases (leb_ℤ n s.recv_seq_num)) [
    | inl e ↦ rw e (Step-refl r s)
    | inr e ↦ rw e (advance-Step r n s (omega (int_laws, leb_ℤ→lt n s.recv_seq_num e)))
  ]
  reset_lem r false n s a w = reset-Step r n s (a refl) w

  sequence_reset-Step :
      (r : Permits) (msg : FixMessage) (s : Session S)
      → (not (field_is Tags.gap_fill_flag (codes "Y") msg) ≡ true → r.resets ≡ true)
      → phase_of s ≢ waiting
      → StepRun r s (handle_sequence_reset msg)
  unfolding handle_sequence_reset
  sequence_reset-Step r msg s a w = Step->>= _ _ s (Step-refl r s) (λ n _.
      Step->>= _ _ s (Step-refl r s) (λ _ _.
        by_test (Step r s) (leb_ℤ n (pos 0)) (shutdown-Step r s)
          (reset_lem r (field_is Tags.gap_fill_flag (codes "Y") msg) n s a w)))

  administered-Step :
      (r : Permits) (m : Run S (Unit {0})) (msg : FixMessage) (s : Session S)
      → phase_of s ≢ waiting
      → StepRun r s m
      → StepRun r s
          (m >> modify (λ t. emit_if t.has_application (from_admin msg (get_session_id t)) t))
  administered-Step r m msg s w p h =
      Step->>= m _ s p
        (λ _ _.
          administer-Step r (m s).1 msg
            (Moves-keep (λ v. v.phase ≢ waiting) (Move-started r) (p h).1 w))
        h

  phase_of-live :
      (s : Session S) → s.shutting_down ≡ false → phase_of_state s.state ≡ live → phase_of s ≡ live
  phase_of-live s down e = rw (down, e) refl

module _ {S : Type 0} ⦃store : Store S⦄ (clock : Clock) where
  handle_logout-Step :
      (r : Permits) (logout_time : Option ℕ) (s : Session S)
      → s.shutting_down ≡ false
      → phase_of_state s.state ≡ live
      → StepRun r s (handle_logout clock logout_time)
  unfolding handle_logout
  handle_logout-Step r (some _) s down e = shutdown-Step r s
  handle_logout-Step r none s down e =
      let t = (send_logout clock (codes "Confirming peer's logout request") s).1 in
      let q = send-Quiet clock _ s in
      Step->>= (send_logout clock (codes "Confirming peer's logout request")) _ s
        (Quiet-Step r s t q)
        (λ _ _.
          leave-Step r (codes "Peer initiated logout") clock.now t (Quiet-down s t q down)
            (Quiet-state s t live q e))

  -- A message of the application takes its number and is delivered.
  business-Step :
      (r : Permits) (awaiting : Text) (logout_time : Option ℕ) (msg : FixMessage) (t : Text)
      (s : Session S)
      → (text_eq t (codes "0") ≡ false)
        × (text_eq t (codes "1") ≡ false)
        × (text_eq t (codes "2") ≡ false)
        × (text_eq t (codes "4") ≡ false)
        × (text_eq t (codes "5") ≡ false)
        × (text_eq t (codes "A") ≡ false)
      → phase_of s ≡ live
      → get_int Tags.msg_seq_num msg ≡ ok s.recv_seq_num
      → StepRun r s (dispatch_message clock awaiting logout_time msg t)
  unfolding dispatch_message message_handler ◌>>=◌
  business-Step r awaiting logout_time msg t s (e0, e1, e2, e4, e5, eA) e due =
      rw (e0, e1, e2, e4, e5, eA) (deliver-Step r s msg e due)

  pub dispatch-Step :
      (r : Permits) (awaiting : Text) (logout_time : Option ℕ) (msg : FixMessage) (msg_type : Text)
      (s : Session S)
      → get_string Tags.msg_type msg ≡ ok msg_type
      → (is_reset msg ≡ true → r.resets ≡ true)
      → (is_admin_message msg_type ≡ false → get_int Tags.msg_seq_num msg ≡ ok s.recv_seq_num)
      → s.shutting_down ≡ false
      → phase_of_state s.state ≡ live
      → StepRun r s (dispatch_message clock awaiting logout_time msg msg_type)
  unfolding dispatch_message message_handler text_eq
  dispatch-Step r awaiting logout_time msg t s g a due down e =
      let live_s = phase_of-live s down e in
      let started : phase_of s ≢ waiting = λ x. cc in
      let P : Text → Type 0 = λ x.
        get_string Tags.msg_type msg ≡ ok x
        → StepRun r s (dispatch_message clock awaiting logout_time msg x) in
      let counted : (m : Run S (Unit {0}))
          → StepRun r (increment_recv_seq_num s) m
          → StepRun r s (
              modify increment_recv_seq_num
              >> (m
                  >> modify
                      (λ t. emit_if t.has_application (from_admin msg (get_session_id t)) t))) =
        λ m p.
          Step->>= _ _ s (increment-Step r s)
            (λ _ _. administered-Step r m msg (increment_recv_seq_num s) started p) in
      let next = increment_recv_seq_num s in
      by_code P t (codes "0") (λ _. counted _ (heartbeat-Step r awaiting logout_time msg next e))
        (λ e0.
          by_code P t (codes "1")
            (λ _. counted _ (Quiet-Step r next _ (handle_test_request-Quiet clock msg next)))
            (λ e1.
              by_code P t (codes "2")
                (λ _. counted _ (Quiet-Step r next _ (handle_resend_request-Quiet clock msg next)))
                (λ e2.
                  by_code P t (codes "4")
                    (λ g4. Step->>= skip _ s (Step-refl r s) (λ _ _.
                      administered-Step r _ msg s started
                        (sequence_reset-Step r msg s (λ h. a (is_reset_lem msg g4 ∙ h)) started)))
                    (λ e4.
                      by_code P t (codes "5")
                        (λ _. counted _ (handle_logout-Step r logout_time next down e))
                        (λ e5.
                          by_code P t (codes "A") (λ _. counted _ (shutdown-Step r next))
                            (λ eA _.
                              business-Step r awaiting logout_time msg t s (e0, e1, e2, e4, e5, eA)
                                live_s (due (rw (e0, e1, e2, e4, e5, eA) refl))))))))
        g
