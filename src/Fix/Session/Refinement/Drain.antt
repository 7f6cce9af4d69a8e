-- ===== src/Fix/Session/Refinement/Drain.antt =====
-- src/fix/session.cpp: the buffer of messages that came early, as steps of the machine.
use fix4_0_demo.Prelude.{
  ℕ, zero, suc, ◌≡◌, refl, sym, ◌∙◌, ap, subst, Bool, true, by_test, by_test_of, by_option_of, [],
  ◌∷◌, some, ℤ, pos, eqb_ℤ, eqb_ℤ_iff, ltb_ℤ, All, length,
}
use mathlib.Core.Bool.{false≢true}
use mathlib.Core.Option.{none-ne-some, some-injective}
use fix4_0_demo.Fix.Message.{FixMessage}
use fix4_0_demo.Fix.Session.{Session, Store, Clock, Pending}
use fix4_0_demo.Fix.Session.Inbound.{
  find_pending, erase_pending, try_emplace, erase_below, deliver_next, drain_loop,
  drain_pending_inbound_locked, forget_resend_request,
}
use fix4_0_demo.Fix.Session.Machine.{Permits, here, next, rebuffer}
use fix4_0_demo.Fix.Session.Refinement.{IsEntry, Step, Step-refl, Step->>=}
use fix4_0_demo.Fix.Session.Refinement.Quiet.{Quiet-Step}
use fix4_0_demo.Fix.Session.Refinement.Handlers.{StepRun}
use fix4_0_demo.Fix.Session.Refinement.Handshake.{state_message-Step}

pub find_pending-IsEntry :
    (n : ℤ) (pending : Pending) (msg : FixMessage)
    → All IsEntry pending
    → find_pending n pending ≡ some msg
    → IsEntry (n, msg)
unfolding find_pending
find_pending-IsEntry n [] msg h = λ e. absurd (none-ne-some msg e)
find_pending-IsEntry n ((k, m) ∷ pending) msg (h, hs) =
    by_test_of (λ o. o ≡ some msg → IsEntry (n, msg)) (eqb_ℤ k n)
      (λ c e.
        subst IsEntry
          (ap (λ x. (x, m)) ((eqb_ℤ_iff k n).0 c) ∙ ap (λ x. (n, x)) (some-injective m msg e)) h)
      (λ _ e. find_pending-IsEntry n pending msg hs e)

pub erase_pending-IsEntry :
    (n : ℤ) (pending : Pending) → All IsEntry pending → All IsEntry (erase_pending n pending)
unfolding erase_pending
erase_pending-IsEntry n [] h = tt
erase_pending-IsEntry n ((k, m) ∷ pending) (h, hs) =
    by_test (All IsEntry) (eqb_ℤ k n) hs (h, erase_pending-IsEntry n pending hs)

pub try_emplace-IsEntry :
    (n : ℤ) (msg : FixMessage) (pending : Pending)
    → IsEntry (n, msg)
    → All IsEntry pending
    → All IsEntry (try_emplace n msg pending)
unfolding try_emplace
try_emplace-IsEntry n msg [] e h = (e, tt)
try_emplace-IsEntry n msg ((k, m) ∷ pending) e (h, hs) =
    by_test (All IsEntry) (ltb_ℤ n k) (e, (h, hs))
      (by_test (All IsEntry) (eqb_ℤ k n) (h, hs) (h, try_emplace-IsEntry n msg pending e hs))

erase_below-IsEntry :
    (n : ℤ) (pending : Pending) → All IsEntry pending → All IsEntry (erase_below n pending)
unfolding erase_below
erase_below-IsEntry n [] h = tt
erase_below-IsEntry n ((k, m) ∷ pending) (h, hs) =
    by_test (All IsEntry) (ltb_ℤ k n) (erase_below-IsEntry n pending hs) (h, hs)

-- What a whole call of a session is let do.
abbrev pub calling : Bool → Permits
calling resets = record { resets = resets; buffers = true }

module _ {S : Type 0} where
  -- The machine does not see the buffer, as long as its entries are kept.
  pub pending-Step :
      (r : Bool) (s : Session S) (pending : Pending)
      → (All IsEntry s.pending_inbound → All IsEntry pending)
      → Step (calling r) s (record s { pending_inbound = pending })
  pending-Step r s pending f h = ((f h.0, h.1), next here (rebuffer pending refl))

  forget-Step : (r : Bool) (s : Session S) → Step (calling r) s (forget_resend_request s)
  forget-Step r s =
      by_test (Step (calling r) s) _
        (Quiet-Step (calling r) s (record s { last_resend_request_end = pos 0 }) (refl, refl))
        (Step-refl (calling r) s)

module _ {S : Type 0} ⦃store : Store S⦄ (clock : Clock) where
  pub deliver_next-Step :
      (r : Bool) (next : FixMessage) (s : Session S)
      → IsEntry (s.recv_seq_num, next)
      → s.running ≡ true
      → StepRun (calling r) s (deliver_next clock next)
  unfolding deliver_next
  deliver_next-Step r msg s e run =
      let t = record s { pending_inbound = erase_pending s.recv_seq_num s.pending_inbound } in
      Step->>= _ _ s
        (pending-Step r s (erase_pending s.recv_seq_num s.pending_inbound)
          (erase_pending-IsEntry s.recv_seq_num s.pending_inbound))
        (λ _ _ h.
          state_message-Step clock (calling r) msg t (λ x. absurd (false≢true (sym e.1 ∙ x)))
            (λ _ _ _. e.0) (h.1 run) h)

  drain_loop-Step :
      (r : Bool) (fuel : ℕ) (s : Session S)
      → s.running ≡ true
      → StepRun (calling r) s (drain_loop clock fuel)
  unfolding drain_loop
  drain_loop-Step r zero s run = Step-refl (calling r) s
  drain_loop-Step r (suc fuel) s run =
      by_option_of (StepRun (calling r) s) (find_pending s.recv_seq_num s.pending_inbound)
        (λ _. Step-refl (calling r) s)
        (λ msg e h.
          let t = (deliver_next clock msg s).1 in
          Step->>= _ _ s
            (deliver_next-Step r msg s
              (find_pending-IsEntry s.recv_seq_num s.pending_inbound msg h.0 e) run)
            (λ _ _.
              by_test_of (StepRun (calling r) t) t.running (λ u. drain_loop-Step r fuel t u)
                (λ _. pending-Step r t [] (λ _. tt)))
            h)

  pub drain-Step :
      (r : Bool) (s : Session S) → StepRun (calling r) s (drain_pending_inbound_locked clock)
  unfolding drain_pending_inbound_locked
  drain-Step r s =
      let t = record s { pending_inbound = erase_below s.recv_seq_num s.pending_inbound } in
      by_test_of (StepRun (calling r) s) s.running
        (λ run.
          Step->>= _ _ s
            (pending-Step r s (erase_below s.recv_seq_num s.pending_inbound)
              (erase_below-IsEntry s.recv_seq_num s.pending_inbound))
            (λ _ _.
              Step->>= _ _ t (drain_loop-Step r (length t.pending_inbound) t run)
                (λ _ _. forget-Step r (drain_loop clock (length t.pending_inbound) t).1)))
        (λ _. Step-refl (calling r) s)
