-- ===== src/Fix/Session/Refinement/Quiet.antt =====
-- src/fix/session.cpp: the steps that only send, which the machine does not see.
use fix4_0_demo.Prelude.{
  ◌≡◌, refl, sym, subst, ap, ◌∙◌, Bool, true, false, by_test, by_option, List, [], ◌∷◌, some, ℤ,
  pos, negsuc, ◌+ℤ◌, ◌-ℤ◌, Text, is_empty,
}
use fix4_0_demo.Fix.Message.{FixMessage}
use fix4_0_demo.Fix.Session.{
  Session, Store, StoredMessage, Clock, sent, emit_if, save_session_state,
}
use fix4_0_demo.Fix.Session.Run.{Run, ◌>>=◌}
use fix4_0_demo.Fix.Session.Sending.{
  internal_send, persist_message, store_message, send, send_sequence_reset_gap_fill,
}
use fix4_0_demo.Fix.Session.Resend.{
  Reply, gap_fill, resend, resend_message, write_replies, resend_replies, resend_range,
  handle_resend_request,
}
use fix4_0_demo.Fix.Session.States.{handle_test_request}
use fix4_0_demo.Fix.Session.Refinement.{callbacks, view, phase_of_state, related->>=, Step}
use fix4_0_demo.Fix.Session.Machine.{Permits, Moves, Phase, here}

module _ {S : Type 0} where
  abbrev pub resembling : Session S → Session S → Session S
  resembling s t = record t {
    state = s.state;
    running = s.running;
    shutting_down = s.shutting_down;
    recv_seq_num = s.recv_seq_num;
    pending_inbound = s.pending_inbound;
    has_application = s.has_application;
    connected = s.connected;
  }

  abbrev pub Quiet : Session S → Session S → Type 0
  Quiet s t = (t ≡ resembling s t) × (callbacks t.events ≡ callbacks s.events)

  pub Quiet-elim :
      (P : Session S → Type 0) (s t : Session S)
      → Quiet s t
      → (callbacks t.events ≡ callbacks s.events → P (resembling s t))
      → P t
  Quiet-elim P s t (e, c) h = subst P (sym e) (h c)

  pub Quiet-refl : (s : Session S) → Quiet s s
  Quiet-refl s = (refl, refl)

  pub Quiet-trans : (s t u : Session S) → Quiet s t → Quiet t u → Quiet s u
  Quiet-trans s t u p q = (q.0 ∙ ap (λ x. resembling x u) p.0, q.1 ∙ p.1)

  pub Quiet-down : (s t : Session S) → Quiet s t → s.shutting_down ≡ false → t.shutting_down ≡ false
  Quiet-down s t q e = ap (λ x. x.shutting_down) q.0 ∙ e

  pub Quiet-connected : (s t : Session S) → Quiet s t → s.connected ≡ true → t.connected ≡ true
  Quiet-connected s t q e = ap (λ x. x.connected) q.0 ∙ e

  pub Quiet-state :
      (s t : Session S) (p : Phase)
      → Quiet s t
      → phase_of_state s.state ≡ p
      → phase_of_state t.state ≡ p
  Quiet-state s t p q e = ap (λ x. phase_of_state x.state) q.0 ∙ e

  pub Quiet->>= :
      {A B : Type 0} (m : Run S A) (f : A → Run S B) (s : Session S)
      → Quiet s (m s).1
      → ((a : A) → Quiet (m s).1 (f a (m s).1).1)
      → Quiet s ((m >>= f) s).1
  Quiet->>= m f s p q =
      related->>= Quiet m f s (λ p t q. Quiet-trans s (m s).1 t p q) p (λ a _. q a)

  pub Quiet-Step : (r : Permits) (s t : Session S) → Quiet s t → Step r s t
  Quiet-Step r s t q =
      Quiet-elim (Step r s) s t q
        (λ c h. (h, subst (λ x. Moves r (view s) (record (view s) { calls = x })) (sym c) here))

module _ {S : Type 0} ⦃store : Store S⦄ where
  abbrev pub QuietRun : {A : Type 0} → Session S → Run S A → Type 0
  QuietRun s m = Quiet s (m s).1

  Quiet-stored : (db : S) (s : Session S) → Quiet s (record s { store = some db })
  Quiet-stored db s = (refl, refl)

  save_session_state-Quiet : (s t : Session S) → Quiet s t → Quiet s (save_session_state t)
  unfolding save_session_state
  save_session_state-Quiet s t q =
      by_option (Quiet s) t.store q (λ db. Quiet-trans s t _ q (Quiet-stored _ t))

  store_message-Quiet :
      (msg : FixMessage) (n : ℤ) (raw_msg : Text) (db : S) (s : Session S)
      → QuietRun s (store_message msg n raw_msg db)
  unfolding store_message
  store_message-Quiet msg n raw_msg db s =
      Quiet->>= _ _ s (Quiet-refl s) (λ t. save_session_state-Quiet s _ (Quiet-stored _ s))

  pub persist_message-Quiet :
      (msg : FixMessage) (n : ℤ) (raw_msg : Text) (s : Session S)
      → QuietRun s (persist_message msg n raw_msg)
  unfolding persist_message
  persist_message-Quiet msg n raw_msg s =
      by_option (QuietRun s) s.store (Quiet-refl s) (λ db. store_message-Quiet msg n raw_msg db s)

module _ {S : Type 0} ⦃store : Store S⦄ (clock : Clock) where
  pub internal_send-Quiet :
      (raw_msg : Text) (s : Session S) → Quiet s (internal_send clock raw_msg s)
  unfolding internal_send
  internal_send-Quiet raw_msg s = by_test (Quiet s) s.connected (refl, refl) (Quiet-refl s)

  pub send-Quiet : (msg : FixMessage) (s : Session S) → QuietRun s (send clock msg)
  unfolding send
  send-Quiet msg s =
      Quiet-trans s (record s { send_seq_num = s.send_seq_num +ℤ pos 1 }) _ (refl, refl)
        (Quiet->>= _ _ _ (persist_message-Quiet _ _ _ _) (λ _. internal_send-Quiet _ _))

  pub send_sequence_reset_gap_fill-Quiet :
      (n m : ℤ) (s : Session S) → Quiet s (send_sequence_reset_gap_fill clock n m s)
  unfolding send_sequence_reset_gap_fill
  send_sequence_reset_gap_fill-Quiet n m s = internal_send-Quiet _ s

  emit_sent-Quiet :
      (raw_msg : Text) (s : Session S) → Quiet s (emit_if s.connected (sent raw_msg) s)
  emit_sent-Quiet raw_msg s = by_test (Quiet s) s.connected (refl, refl) (Quiet-refl s)

  resend_message-Quiet : (m : StoredMessage) (s : Session S) → QuietRun s (resend_message clock m)
  unfolding resend_message
  resend_message-Quiet m s =
      Quiet->>= _ _ s (Quiet-refl s)
        (λ _. Quiet->>= _ _ s (Quiet-refl s) (λ _. emit_sent-Quiet _ s))

  write_replies-Quiet :
      (replies : List Reply) (s : Session S) → QuietRun s (write_replies clock replies)
  unfolding write_replies
  write_replies-Quiet [] s = Quiet-refl s
  write_replies-Quiet (gap_fill n m ∷ replies) s =
      Quiet->>= _ _ s (send_sequence_reset_gap_fill-Quiet n m s)
        (λ _. write_replies-Quiet replies _)
  write_replies-Quiet (resend m ∷ replies) s =
      Quiet->>= _ _ s (resend_message-Quiet m s) (λ _. write_replies-Quiet replies _)

  resending-Quiet : (b : Bool) (s : Session S) → Quiet s (record s { processing_resend = b })
  resending-Quiet b s = (refl, refl)

  resend_range-Quiet : (db : S) (n m : ℤ) (s : Session S) → QuietRun s (resend_range clock db n m)
  unfolding resend_range
  resend_range-Quiet db n m s =
      let messages = store.load_messages s.sender_comp_id s.target_comp_id n m db in
      let replies = resend_replies m (negsuc 0) (n -ℤ pos 1) messages in
      by_test (QuietRun s) (is_empty messages) (send_sequence_reset_gap_fill-Quiet n _ s) (
        Quiet->>= _ _ s (resending-Quiet true s) (λ _.
          Quiet->>= _ _ _ (write_replies-Quiet _ _)
            (λ _. resending-Quiet false (write_replies clock replies _).1)))

  pub handle_resend_request-Quiet :
      (msg : FixMessage) (s : Session S) → QuietRun s (handle_resend_request clock msg)
  unfolding handle_resend_request
  handle_resend_request-Quiet msg s = Quiet->>= _ _ s (Quiet-refl s) (λ n.
      Quiet->>= _ _ s (Quiet-refl s) (λ m.
        by_option (QuietRun s) s.store (send_sequence_reset_gap_fill-Quiet n _ s)
          (λ db. resend_range-Quiet db n _ s)))

  pub handle_test_request-Quiet :
      (msg : FixMessage) (s : Session S) → QuietRun s (handle_test_request clock msg)
  handle_test_request-Quiet msg s = Quiet->>= _ _ s (Quiet-refl s) (λ _. send-Quiet _ s)
