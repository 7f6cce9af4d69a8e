-- ===== src/Fix/Session/Liveness.antt =====
-- src/fix/session.cpp: the timer keeps a session alive.
use fix4_0_demo.Prelude.{
  ℕ, ◌≡◌, ◌⊎◌, inl, inr, refl, sym, ◌∙◌, ap, subst, true, false, by_test, by_test_of, by_option,
  Option, [], ℤ, pos, ◌+ℤ◌, ◌<ℤ◌, leb_ℤ, leb_ℤ→lt, eqb_ℤ, Text, codes, is_empty, ◌++◌, print_ℕ,
  arith, ◌&&◌,
}
use mathlib.Core.Bool.{true≢false}
use fix4_0_demo.Fix.Tags
use fix4_0_demo.Fix.Message.{FixMessage, Result, ok, set, set_int, find_field, get_string}
use fix4_0_demo.Fix.Message.Laws.{find_field-set}
use fix4_0_demo.Fix.Codec.{encode}
use fix4_0_demo.Fix.Builders.{create_heartbeat_message, create_test_request_message}
use fix4_0_demo.Fix.Session.{
  Session, Store, Clock, Settings, established, perform_shutdown, halt, emit_if,
  connection_shutdown,
}
use fix4_0_demo.Fix.Session.Run.{Run, ◌>>=◌, modify, when}
use fix4_0_demo.Fix.Session.Sending.{
  send, internal_send, persist_message, store_message, send_heartbeat,
}
use fix4_0_demo.Fix.Session.States.{seconds_between}
use fix4_0_demo.Fix.Session.Api.{
  test_peer, keep_alive, established_timer, on_timer_check, state_timer, logout_overdue,
  peer_silent,
}
use fix4_0_demo.Fix.Session.Refinement.Quiet.{send-Quiet, persist_message-Quiet, Quiet-connected}
use fix4_0_demo.Fix.Session.Refinement.{after}

get_string-set_other :
    (tag t : ℤ) (value : Text) (msg : FixMessage)
    → eqb_ℤ tag t ≡ false
    → get_string t (set tag value msg) ≡ get_string t msg
unfolding get_string
get_string-set_other tag t value msg e = rw (find_field-set tag t value msg, e) refl

-- What encoding and numbering set is not the type.
encode-msg_type :
    (utc : Text) (n : ℤ) (msg : FixMessage)
    → get_string Tags.msg_type (encode utc (set_int Tags.msg_seq_num n msg)).1
      ≡ get_string Tags.msg_type msg
unfolding encode set_int
encode-msg_type utc n msg =
    get_string-set_other Tags.body_length Tags.msg_type _ _ refl
    ∙ get_string-set_other Tags.sending_time Tags.msg_type utc _ refl
    ∙ get_string-set_other Tags.msg_seq_num Tags.msg_type _ msg refl

create_heartbeat_message-msg_type :
    (sender target : Text) (n : ℤ) (id : Text)
    → get_string Tags.msg_type (create_heartbeat_message sender target n id) ≡ ok (codes "0")
unfolding create_heartbeat_message set set_int get_string find_field
create_heartbeat_message-msg_type sender target n id =
    by_test (λ m. get_string Tags.msg_type m ≡ ok (codes "0")) (is_empty id) refl refl

create_test_request_message-msg_type :
    (sender target : Text) (n : ℤ) (id : Text)
    → get_string Tags.msg_type (create_test_request_message sender target n id) ≡ ok (codes "1")
unfolding create_test_request_message set set_int get_string find_field
create_test_request_message-msg_type sender target n id = refl

module _ {S : Type 0} where
  halt-down : (s : Session S) → (halt s).shutting_down ≡ true
  halt-down s = by_test (λ (t : Session S). t.shutting_down ≡ true) s.has_application refl refl

  perform_shutdown-down : (s : Session S) → (perform_shutdown s).shutting_down ≡ true
  unfolding perform_shutdown
  perform_shutdown-down s =
      let P : Session S → Type 0 = λ t. t.shutting_down ≡ true in
      let closed = emit_if (halt s).connected connection_shutdown (halt s) in
      by_test_of P s.shutting_down (λ e. e)
        (λ _.
          by_test P closed.has_shutdown_callback
            (by_test P (halt s).connected (halt-down s) (halt-down s))
            (by_test P (halt s).connected (halt-down s) (halt-down s)))

  >>=-ok :
      {A B : Type 0} (m : Run S A) (f : A → Run S B) (s : Session S) (a : A)
      → (m s).0 ≡ ok a
      → (m >>= f) s ≡ f a (m s).1
  unfolding ◌>>=◌
  >>=-ok m f s a e = ap (after f (m s).1) e

module _ {S : Type 0} ⦃store : Store S⦄ where
  store_message-ok :
      (msg : FixMessage) (n : ℤ) (raw_msg t : Text) (db : S) (s : Session S)
      → get_string Tags.msg_type msg ≡ ok t
      → (store_message msg n raw_msg db s).0 ≡ ok tt
  unfolding store_message
  store_message-ok msg n raw_msg t db s g = ap (λ x. x.0) (>>=-ok _ _ s t g)

  persist_message-ok :
      (msg : FixMessage) (n : ℤ) (raw_msg t : Text) (s : Session S)
      → get_string Tags.msg_type msg ≡ ok t
      → (persist_message msg n raw_msg s).0 ≡ ok tt
  unfolding persist_message
  persist_message-ok msg n raw_msg t s g =
      by_option (λ (m : Run S (Unit {0})). (m s).0 ≡ ok tt) s.store refl
        (λ db. store_message-ok msg n raw_msg t db s g)

module _ {S : Type 0} ⦃store : Store S⦄ (clock : Clock) where
  -- The step came to its end, and what was last sent was sent now.
  abbrev IsSentNow : Result (Unit {0}) × Session S → Type 0
  IsSentNow r = (r.0 ≡ ok tt) × (r.1.last_send ≡ clock.now)

  internal_send-now :
      (raw_msg : Text) (s : Session S)
      → s.connected ≡ true
      → (internal_send clock raw_msg s).last_send ≡ clock.now
  unfolding internal_send
  internal_send-now raw_msg s e =
      by_test_of (λ (t : Session S). t.last_send ≡ clock.now) s.connected (λ _. refl)
        (λ f. absurd (true≢false (sym e ∙ f)))

  send-IsSentNow :
      (msg : FixMessage) (t : Text) (s : Session S)
      → get_string Tags.msg_type msg ≡ ok t
      → s.connected ≡ true
      → IsSentNow (send clock msg s)
  unfolding send
  send-IsSentNow msg t s g e =
      let out = encode clock.utc (set_int Tags.msg_seq_num s.send_seq_num msg) in
      let next = record s { send_seq_num = s.send_seq_num +ℤ pos 1 } in
      let persist : Run S (Unit {0}) = persist_message out.1 s.send_seq_num out.0 in
      let q =
        Quiet-connected next (persist next).1
          (persist_message-Quiet out.1 s.send_seq_num out.0 next) e in
      subst IsSentNow
        (sym (
          >>=-ok persist (λ _. modify (internal_send clock out.0)) next tt
            (persist_message-ok out.1 s.send_seq_num out.0 t next
              (encode-msg_type clock.utc s.send_seq_num msg ∙ g))))
        (refl, internal_send-now out.0 (persist next).1 q)

  send-connected :
      (msg : FixMessage) (s : Session S)
      → s.connected ≡ true
      → (send clock msg s).1.connected ≡ true
  send-connected msg s e = Quiet-connected s (send clock msg s).1 (send-Quiet clock msg s) e

  -- Something was sent less than an interval ago.
  abbrev IsRecent : ℤ → Session S → Type 0
  IsRecent hb s = seconds_between s.last_send clock.now <ℤ hb

  now-IsRecent : (hb : ℤ) (s : Session S) → pos 0 <ℤ hb → s.last_send ≡ clock.now → IsRecent hb s
  now-IsRecent hb s l e = subst (λ n. seconds_between n clock.now <ℤ hb) (sym e) (omega arith)

module _ {S : Type 0} ⦃store : Store S⦄ (settings : Settings) (clock : Clock) where
  abbrev IsBeating : ℤ → Result (Unit {0}) × Session S → Type 0
  IsBeating hb r = (r.0 ≡ ok tt) × IsRecent clock hb r.1

  test_peer-IsBeating :
      (hb : ℤ) (awaiting : Text) (logout_time : Option ℕ) (s : Session S)
      → pos 0 <ℤ hb
      → s.connected ≡ true
      → IsRecent clock hb s
      → IsBeating hb (test_peer settings clock awaiting logout_time s)
  unfolding test_peer ◌>>=◌
  test_peer-IsBeating hb awaiting logout_time s l c recent =
      let id = codes "TestReq_" ++ print_ℕ clock.now in
      let t = record s { state = established id logout_time } in
      let request = create_test_request_message s.sender_comp_id s.target_comp_id (pos 0) id in
      let sent =
        send-IsSentNow clock request (codes "1") t
          (create_test_request_message-msg_type s.sender_comp_id s.target_comp_id (pos 0) id) c in
      by_test (λ (m : Run S (Unit {0})). IsBeating hb (m s))
        (leb_ℤ (settings.test_request_after s.heart_bt_int) (seconds_between s.last_recv clock.now)
          && is_empty awaiting)
        (sent.0, now-IsRecent clock hb (send clock request t).1 l sent.1) (refl, recent)

  keep_alive-IsBeating :
      (awaiting : Text) (logout_time : Option ℕ) (s : Session S)
      → pos 0 <ℤ s.heart_bt_int
      → s.connected ≡ true
      → IsBeating s.heart_bt_int (keep_alive settings clock awaiting logout_time s)
  unfolding keep_alive
  keep_alive-IsBeating awaiting logout_time s l c =
      let hb = s.heart_bt_int in
      let due = leb_ℤ hb (seconds_between s.last_send clock.now) in
      let beat : Run S (Unit {0}) = when due (send_heartbeat clock []) in
      let heartbeat = create_heartbeat_message s.sender_comp_id s.target_comp_id (pos 0) [] in
      let sent =
        send-IsSentNow clock heartbeat (codes "0") s
          (create_heartbeat_message-msg_type s.sender_comp_id s.target_comp_id (pos 0) []) c in
      let beats : IsBeating hb (beat s) × ((beat s).1.connected ≡ true) =
        by_test_of (λ (m : Run S (Unit {0})). IsBeating hb (m s) × ((m s).1.connected ≡ true)) due
          (λ _. (
            (sent.0, now-IsRecent clock hb (send clock heartbeat s).1 l sent.1),
            send-connected clock heartbeat s c,
          ))
          (λ e. ((refl, leb_ℤ→lt hb (seconds_between s.last_send clock.now) e), c)) in
      subst (IsBeating hb)
        (sym (>>=-ok beat (λ _. test_peer settings clock awaiting logout_time) s tt beats.0.0))
        (test_peer-IsBeating hb awaiting logout_time (beat s).1 l beats.1 beats.0.1)

  abbrev pub IsKept : ℤ → Result (Unit {0}) × Session S → Type 0
  IsKept hb r = (r.1.shutting_down ≡ true) ⊎ IsBeating hb r

  established_timer-IsKept :
      (awaiting : Text) (logout_time : Option ℕ) (s : Session S)
      → pos 0 <ℤ s.heart_bt_int
      → s.connected ≡ true
      → IsKept s.heart_bt_int (established_timer settings clock awaiting logout_time s)
  unfolding established_timer
  established_timer-IsKept awaiting logout_time s l c =
      let P : Run S (Unit {0}) → Type 0 = λ m. IsKept s.heart_bt_int (m s) in
      by_test P (logout_overdue settings clock logout_time) (inl (perform_shutdown-down s)) (
        by_test P (peer_silent settings clock awaiting s) (inl (perform_shutdown-down s))
          (inr (keep_alive-IsBeating awaiting logout_time s l c)))

  -- After a timer check of an established, connected session with a positive heartbeat interval,
  -- either the session is shut down, or the check came to its end and something was sent less than
  -- an interval ago.
  pub on_timer_check-IsKept :
      (awaiting : Text) (logout_time : Option ℕ) (s : Session S)
      → s.running ≡ true
      → s.state ≡ established awaiting logout_time
      → pos 0 <ℤ s.heart_bt_int
      → s.connected ≡ true
      → IsKept s.heart_bt_int (on_timer_check settings clock s)
  unfolding on_timer_check state_timer
  on_timer_check-IsKept awaiting logout_time s run e l c =
      let P : Run S (Unit {0}) → Type 0 = λ m. IsKept s.heart_bt_int (m s) in
      by_test_of P s.running
        (λ _.
          subst (λ state. P (state_timer settings clock state)) (sym e)
            (established_timer-IsKept awaiting logout_time s l c))
        (λ f. absurd (true≢false (sym run ∙ f)))
