-- ===== src/Fix/Session/Refinement/Admission.antt =====
-- src/fix/session.cpp: whom a server lets in.
use fix4_0_demo.Prelude.{
  ◌≡◌, ◌≢◌, refl, sym, ◌∙◌, ap, Bool, true, false, not, ◌&&◌, &&_left, &&_right, by_test,
  by_test_of, by_option, subst, ℤ, ◌+ℤ◌, ◌≤ℤ◌, leb_ℤ, leb_ℤ→le, pos, Text, codes, text_eq,
  text_eq_iff, is_empty,
}
use mathlib.Core.Bool.{true≢false}
use fix4_0_demo.Fix.Tags
use fix4_0_demo.Fix.Message.{FixMessage, Result, ok, err, field_is, get_string, get_int}
use fix4_0_demo.Fix.Session.{
  Session, Store, Clock, perform_shutdown, halt, emit_if, restore_session_state,
  connection_shutdown,
}
use fix4_0_demo.Fix.Builders.{create_logout_message}
use fix4_0_demo.Fix.Session.Sending.{send}
use fix4_0_demo.Fix.Session.Run.{Run, ◌>>=◌, by_result}
use fix4_0_demo.Fix.Session.Logon.{
  answer_logon, accept_client, check_logon, disconnected_message, reject_logon, bind_client,
  range_reason,
}
use fix4_0_demo.Fix.Session.Refinement.{phase_of_state, after}
use fix4_0_demo.Fix.Session.Refinement.Quiet.{send-Quiet, Quiet-state}
use fix4_0_demo.Fix.Session.Machine.{live, waiting, Phase}

-- A Logon for this server, from a client with a name, with a heartbeat interval in its range.
abbrev pub IsAdmissible : {S : Type 0} → Session S → FixMessage → Type 0
IsAdmissible s msg =
    (get_string Tags.msg_type msg ≡ ok (codes "A"))
    × (s.sender_comp_id ≡ codes "SERVER")
    × (get_string Tags.target_comp_id msg ≡ ok s.sender_comp_id)
    × ((client : Text) × (get_string Tags.sender_comp_id msg ≡ ok client)
        × (is_empty client ≡ false))
    × ((hb : ℤ) × (get_int Tags.heart_bt_int msg ≡ ok hb)
        × (s.min_heart_bt_int ≤ℤ hb)
        × (hb ≤ℤ s.max_heart_bt_int))

true_if_refuted : (b : Bool) → not b ≡ false → b ≡ true
true_if_refuted true h = refl
true_if_refuted false h = absurd (true≢false h)

field_is_true :
    (tag : ℤ) (value : Text) (msg : FixMessage)
    → not (field_is tag value msg) ≡ false
    → get_string tag msg ≡ ok value
field_is_true tag value msg =
    elim (get_string tag msg)
      as (λ r. not (elim r [ ok v ↦ text_eq v value | err _ ↦ false ]) ≡ false → r ≡ ok value) [
        | ok v ↦ λ h. ap ok ((text_eq_iff v value).0 (true_if_refuted (text_eq v value) h))
        | err _ ↦ λ h. absurd (true≢false h)
      ]

waiting-ne-live : waiting ≢ live
waiting-ne-live e = cc

waiting_lem : (Q : Type 0) (p : Phase) → p ≡ waiting → p ≡ live → Q
waiting_lem Q p e h = absurd (waiting-ne-live (sym e ∙ h))

module _ {S : Type 0} where
  -- If a step establishes the session, then `Q`.
  abbrev Admits : {A : Type 0} → Type 0 → Result A × Session S → Type 0
  Admits Q r = phase_of_state r.1.state ≡ live → Q

  Admits->>= :
      {A B : Type 0} (Q : Type 0) (m : Run S A) (f : A → Run S B) (s : Session S)
      → Admits Q (m s)
      → ((a : A) → (m s).0 ≡ ok a → Admits Q (f a (m s).1))
      → Admits Q ((m >>= f) s)
  unfolding ◌>>=◌
  Admits->>= Q m f s p q =
      (elim (m s).0 as (λ x. (m s).0 ≡ x → Admits Q (after f (m s).1 x)) [
        | ok a ↦ λ e. q a e
        | err _ ↦ λ _. p
      ])
        refl

  perform_shutdown-waiting :
      (s : Session S)
      → phase_of_state s.state ≡ waiting
      → phase_of_state (perform_shutdown s).state ≡ waiting
  unfolding perform_shutdown
  perform_shutdown-waiting s e =
      by_test (λ (t : Session S). phase_of_state t.state ≡ waiting) s.shutting_down e
        (by_test (λ (t : Session S). phase_of_state t.state ≡ waiting)
          (emit_if (halt s).connected connection_shutdown (halt s)).has_shutdown_callback
          (by_test (λ (t : Session S). phase_of_state t.state ≡ waiting) (halt s).connected refl
            refl)
          (by_test (λ (t : Session S). phase_of_state t.state ≡ waiting) (halt s).connected refl
            refl))

module _ {S : Type 0} ⦃store : Store S⦄ where
  abbrev Kept : Session S → Session S → Type 0
  Kept s t =
      (phase_of_state t.state ≡ phase_of_state s.state)
      × (t.min_heart_bt_int ≡ s.min_heart_bt_int)
      × (t.max_heart_bt_int ≡ s.max_heart_bt_int)

  bind_client-Kept :
      (reset_seq : Bool) (client : Text) (s : Session S) → Kept s (bind_client reset_seq client s)
  unfolding restore_session_state
  bind_client-Kept reset_seq client s =
      by_option (Kept s) s.store (refl, refl, refl)
        (λ _.
          by_test (Kept s) reset_seq (refl, refl, refl)
            (by_option (Kept s) s.store (refl, refl, refl)
              (λ db.
                by_option (Kept s) (store.load_session_state s.sender_comp_id client db)
                  (refl, refl, refl) (λ _. (refl, refl, refl)))))

module _ {S : Type 0} ⦃store : Store S⦄ (clock : Clock) where
  reject-Admits :
      (Q : Type 0) (reason : Text) (s : Session S)
      → phase_of_state s.state ≡ waiting
      → Admits Q (reject_logon clock reason s)
  reject-Admits Q reason s e =
      let logout = create_logout_message s.sender_comp_id s.target_comp_id (pos 1) reason in
      let t = (send clock logout s).1 in
      let waits = Quiet-state s t waiting (send-Quiet clock logout s) e in
      Admits->>= Q _ _ s (waiting_lem Q _ waits)
        (λ _ _. waiting_lem Q _ (perform_shutdown-waiting t waits))

  answer_logon-Admits :
      (Q : Type 0) (reset_seq : Bool) (hb : ℤ) (s : Session S)
      → phase_of_state s.state ≡ waiting
      → (s.min_heart_bt_int ≤ℤ hb → hb ≤ℤ s.max_heart_bt_int → Q)
      → Admits Q (answer_logon clock reset_seq hb s)
  unfolding answer_logon
  answer_logon-Admits Q reset_seq hb s e q =
      let low = leb_ℤ s.min_heart_bt_int hb in
      let high = leb_ℤ hb s.max_heart_bt_int in
      by_test_of (λ (m : Run S (Unit {0})). Admits Q (m s)) (low && high)
        (λ b _.
          q (leb_ℤ→le s.min_heart_bt_int hb (&&_left low high b))
            (leb_ℤ→le hb s.max_heart_bt_int (&&_right low high b)))
        (λ _. reject-Admits Q (range_reason hb s) s e)

  accept_client-Admits :
      (Q : Type 0) (msg : FixMessage) (client : Text) (s : Session S)
      → phase_of_state s.state ≡ waiting
      → ((hb : ℤ)
          → get_int Tags.heart_bt_int msg ≡ ok hb
          → s.min_heart_bt_int ≤ℤ hb
          → hb ≤ℤ s.max_heart_bt_int
          → Q)
      → Admits Q (accept_client clock msg client s)
  unfolding accept_client
  accept_client-Admits Q msg client s e q =
      let reset_seq = field_is Tags.reset_seq_num_flag (codes "Y") msg in
      let bound = bind_client reset_seq client s in
      let kept = bind_client-Kept reset_seq client s in
      let waits = kept.0 ∙ e in
      Admits->>= Q _ _ s (waiting_lem Q _ waits) (λ _ _.
        Admits->>= Q _ _ bound (waiting_lem Q _ waits) (λ n _.
          Admits->>= Q _ _ bound (waiting_lem Q _ waits) (λ _ _.
            Admits->>= Q _ _ (record bound { recv_seq_num = n +ℤ pos 1 }) (waiting_lem Q _ waits)
              (λ hb g.
                answer_logon-Admits Q reset_seq hb (record bound { recv_seq_num = n +ℤ pos 1 })
                  waits
                  (λ l h.
                    q hb g (subst (λ x. x ≤ℤ hb) kept.1 l) (subst (λ x. hb ≤ℤ x) kept.2 h))))))

  check_logon-Admits :
      (msg : FixMessage) (s : Session S)
      → get_string Tags.msg_type msg ≡ ok (codes "A")
      → s.sender_comp_id ≡ codes "SERVER"
      → phase_of_state s.state ≡ waiting
      → Admits (IsAdmissible s msg) (check_logon clock msg s)
  unfolding check_logon
  check_logon-Admits msg s a server e =
      let Q = IsAdmissible s msg in
      let P : Run S (Unit {0}) → Type 0 = λ m. Admits Q (m s) in
      by_result P (get_string Tags.sender_comp_id msg)
        (λ client g.
          by_test_of P (not (field_is Tags.target_comp_id s.sender_comp_id msg))
            (λ _. waiting_lem Q _ (perform_shutdown-waiting s e))
            (λ target.
              by_test_of P (is_empty client) (λ _. reject-Admits Q (codes "Empty SenderCompID") s e)
                (λ named. accept_client-Admits Q msg client s e (λ hb h l u. (
                  a,
                  server,
                  field_is_true Tags.target_comp_id s.sender_comp_id msg target,
                  (client, g, named),
                  (hb, h, l, u),
                )))))
        (λ _. reject-Admits Q (codes "Missing SenderCompID") s e)

  -- In the disconnected state, whatever message comes, the session is established only if it is of
  -- the server and the message is a Logon for it, from a client with a name, with a heartbeat
  -- interval between the least and the greatest that the session accepts.
  pub disconnected_message-IsAdmissible :
      (msg : FixMessage) (s : Session S)
      → phase_of_state s.state ≡ waiting
      → phase_of_state (disconnected_message clock msg s).1.state ≡ live
      → IsAdmissible s msg
  unfolding disconnected_message
  disconnected_message-IsAdmissible msg s e =
      let Q = IsAdmissible s msg in
      let P : Run S (Unit {0}) → Type 0 = λ m. Admits Q (m s) in
      Admits->>= Q _ _ s (waiting_lem Q _ e) (λ t g.
        by_test_of P (text_eq t (codes "A"))
          (λ logon.
            by_test_of P (text_eq s.sender_comp_id (codes "SERVER"))
              (λ server.
                check_logon-Admits msg s (g ∙ ap ok ((text_eq_iff t (codes "A")).0 logon))
                  ((text_eq_iff s.sender_comp_id (codes "SERVER")).0 server) e)
              (λ _. waiting_lem Q _ e))
          (λ _. waiting_lem Q _ (perform_shutdown-waiting s e)))
