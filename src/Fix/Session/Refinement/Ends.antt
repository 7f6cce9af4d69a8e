-- ===== src/Fix/Session/Refinement/Ends.antt =====
-- src/fix/session.cpp, `drain_pending_inbound_locked`: the loop over the buffer ends.
use fix4_0_demo.Prelude.{
  ℕ, zero, suc, ◌≤◌, ◌≡◌, ◌⊎◌, inl, inr, refl, sym, ap, subst, true, false, by_test_of,
  by_option_of, [], ◌∷◌, none, some, ℤ, eqb_ℤ, if◌then◌else◌, length, arith,
}
use mathlib.Core.Option.{none-ne-some}
use fix4_0_demo.Fix.Message.{FixMessage, Result, ok, err}
use fix4_0_demo.Fix.Session.{Session, Store, Clock, Pending}
use fix4_0_demo.Fix.Session.Run.{Run, ◌>>=◌}
use fix4_0_demo.Fix.Session.Inbound.{find_pending, erase_pending, deliver_next, drain_loop}
use fix4_0_demo.Fix.Session.Machine.{Permits, Moves-keep}
use fix4_0_demo.Fix.Session.Machine.Calls.{Move-buffered}
use fix4_0_demo.Fix.Session.Refinement.{IsSound, after}
use fix4_0_demo.Fix.Session.Refinement.Handshake.{state_message-Step}
use fix4_0_demo.Fix.Session.Refinement.Drain.{
  deliver_next-Step, find_pending-IsEntry, erase_pending-IsEntry,
}

length-erase_pending :
    (n : ℤ) (pending : Pending) (msg : FixMessage)
    → find_pending n pending ≡ some msg
    → suc (length (erase_pending n pending)) ≡ length pending
unfolding find_pending erase_pending
length-erase_pending n [] msg = λ e. absurd (none-ne-some msg e)
length-erase_pending n ((k, m) ∷ pending) msg =
    elim (eqb_ℤ k n)
      as (λ b.
        (if b then some m else find_pending n pending) ≡ some msg
        → suc (length (if b then pending else (k, m) ∷ erase_pending n pending))
          ≡ suc (length pending)) [
            | true ↦ λ _. refl
            | false ↦ λ e. ap suc (length-erase_pending n pending msg e)
          ]

find_pending-empty :
    (n : ℤ) (pending : Pending) → length pending ≤ 0 → find_pending n pending ≡ none
unfolding find_pending
find_pending-empty n [] l = refl
find_pending-empty n (_ ∷ pending) l = absurd (omega arith)

module _ {S : Type 0} where
  -- The step threw, the session stopped, or the message that is due is not there.
  abbrev pub IsEnded : {A : Type 0} → Result A × Session S → Type 0
  IsEnded (err _, s) = Unit
  IsEnded (ok _, s) = (s.running ≡ false) ⊎ (find_pending s.recv_seq_num s.pending_inbound ≡ none)

  IsEnded->>= :
      {A B : Type 0} (m : Run S A) (f : A → Run S B) (s : Session S)
      → ((a : A) → IsEnded (f a (m s).1))
      → IsEnded ((m >>= f) s)
  unfolding ◌>>=◌
  IsEnded->>= m f s q = elim (m s).0 as (λ x. IsEnded (after f (m s).1 x)) [
    | ok a ↦ q a
    | err _ ↦ tt
  ]

module _ {S : Type 0} ⦃store : Store S⦄ (clock : Clock) where
  -- Handling a message leaves the buffer as it is.
  deliver_next-pending :
      (msg : FixMessage) (s : Session S)
      → find_pending s.recv_seq_num s.pending_inbound ≡ some msg
      → IsSound s
      → s.running ≡ true
      → (deliver_next clock msg s).1.pending_inbound
        ≡ erase_pending s.recv_seq_num s.pending_inbound
  unfolding deliver_next ◌>>=◌
  deliver_next-pending msg s e h run =
      let left = erase_pending s.recv_seq_num s.pending_inbound in
      let t = record s { pending_inbound = left } in
      let entry = find_pending-IsEntry s.recv_seq_num s.pending_inbound msg h.0 e in
      let sound : IsSound t = (erase_pending-IsEntry s.recv_seq_num s.pending_inbound h.0, h.1) in
      let permits : Permits = record { resets = true; buffers = false } in
      Moves-keep (λ v. v.buffered ≡ left) (Move-buffered true left)
        (state_message-Step clock permits msg t (λ _. refl) (λ _ _ _. entry.0) (h.1 run) sound).1
        refl

  -- In a running session that is not shut down, and whose buffer holds messages under their own
  -- numbers, none of them a reset of the numbers, as many rounds as the buffer holds messages are
  -- enough: the loop ends because handling a message threw, or because the session stopped, or
  -- because the message that is due next is not in the buffer.
  pub drain_loop-IsEnded :
      (fuel : ℕ) (s : Session S)
      → IsSound s
      → s.running ≡ true
      → length s.pending_inbound ≤ fuel
      → IsEnded (drain_loop clock fuel s)
  unfolding drain_loop
  drain_loop-IsEnded zero s h run l = inr (find_pending-empty s.recv_seq_num s.pending_inbound l)
  drain_loop-IsEnded (suc fuel) s h run l =
      by_option_of (λ (m : Run S (Unit {0})). IsEnded (m s))
        (find_pending s.recv_seq_num s.pending_inbound) inr
        (λ msg e.
          let t = (deliver_next clock msg s).1 in
          let sound =
            (deliver_next-Step clock true msg s
              (find_pending-IsEntry s.recv_seq_num s.pending_inbound msg h.0 e) run h).0 in
          let shorter = length-erase_pending s.recv_seq_num s.pending_inbound msg e in
          IsEnded->>= (deliver_next clock msg) _ s (λ _.
            by_test_of (λ (m : Run S (Unit {0})). IsEnded (m t)) t.running
              (λ u. drain_loop-IsEnded fuel t sound u (
                subst (λ p. length p ≤ fuel) (sym (deliver_next-pending msg s e h run))
                  (omega arith)))
              inl))
