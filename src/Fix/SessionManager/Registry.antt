-- ===== src/Fix/SessionManager/Registry.antt =====
-- src/fix/session_manager.cpp: which session an identity leads to.
use fix4_0_demo.Prelude.{
  ℕ, ◌≡◌, ◌↔◌, refl, ◌∙◌, ap, subst, Bool, true, false, &&_left, &&_right, Bool-cases, inl, inr,
  by_test, by_test_of, by_option_of, ◌==◌, ==_iff, ◌≢◌, not, List, [], ◌∷◌, Option, none, some,
  if◌then◌else◌, is_some, Text, text_eq, text_eq_iff, text_eq_refl, arith,
}
use mathlib.Core.Bool.{true≢false}
use fix4_0_demo.Fix.Message.{FixMessage}
use fix4_0_demo.Fix.Session.{Session, Store, Clock, get_session_id}
use fix4_0_demo.Fix.SessionManager.{
  Sessions, SessionHeap, id_eq, emplace, find_session, erase, has_session, unregister_session,
  register_session, send_message, write,
}
use fix4_0_demo.Engine.Order.{SessionId}

id_eq_iff : (a b : SessionId) → (id_eq a b ≡ true) ↔ (a ≡ b)
id_eq_iff a b =
    let s = text_eq a.sender_comp_id b.sender_comp_id in
    let t = text_eq a.target_comp_id b.target_comp_id in
    let with : Text → Text → SessionId = λ x y. record { sender_comp_id = x; target_comp_id = y } in
    (
      λ e.
          ap (λ x. with x a.target_comp_id)
            ((text_eq_iff a.sender_comp_id b.sender_comp_id).0 (&&_left s t e))
          ∙ ap (λ x. with b.sender_comp_id x)
              ((text_eq_iff a.target_comp_id b.target_comp_id).0 (&&_right s t e)),
      λ e.
          subst (λ x. id_eq a x ≡ true) e
            (rw (text_eq_refl a.sender_comp_id, text_eq_refl a.target_comp_id) refl),
    )

find_session-emplace :
    (k id : SessionId) (p : ℕ) (sessions : Sessions)
    → find_session id (emplace k p sessions)
      ≡ (if id_eq k id then some p else find_session id sessions)
unfolding find_session emplace
find_session-emplace k id p [] = refl
find_session-emplace k id p ((j, q) ∷ sessions) =
    ground
      (arith, id_eq_iff j k, id_eq_iff j id, id_eq_iff k id, find_session-emplace k id p sessions)

-- No identity has two entries.
abbrev pub IsUnique : Sessions → Type 0
IsUnique [] = Unit
IsUnique ((k, p) ∷ sessions) = (find_session k sessions ≡ none) × IsUnique sessions

find_session-erase :
    (k id : SessionId) (sessions : Sessions)
    → IsUnique sessions
    → find_session id (erase k sessions) ≡ (if id_eq k id then none else find_session id sessions)
unfolding find_session erase
find_session-erase k id [] u = by_test (λ (o : Option ℕ). none ≡ o) (id_eq k id) refl refl
find_session-erase k id ((j, q) ∷ sessions) (n, u) =
    ground
      (arith, n, id_eq_iff j k, id_eq_iff j id, id_eq_iff k id, find_session-erase k id sessions u)

IsUnique-emplace :
    (k : SessionId) (p : ℕ) (sessions : Sessions)
    → IsUnique sessions
    → IsUnique (emplace k p sessions)
unfolding emplace find_session
IsUnique-emplace k p [] u = (refl, tt)
IsUnique-emplace k p ((j, q) ∷ sessions) (n, u) = elim (Bool-cases (id_eq j k)) [
  | inl e ↦ rw e (n, u)
  | inr e ↦ rw e (
    ground (arith, n, e, id_eq_iff j k, id_eq_iff k j, find_session-emplace k j p sessions),
    IsUnique-emplace k p sessions u,
  )
]

IsUnique-erase :
    (k : SessionId) (sessions : Sessions) → IsUnique sessions → IsUnique (erase k sessions)
unfolding erase
IsUnique-erase k [] u = tt
IsUnique-erase k ((j, q) ∷ sessions) (n, u) = elim (Bool-cases (id_eq j k)) [
  | inl e ↦ rw e u
  | inr e ↦ rw e (ground (arith, n, find_session-erase k j sessions u), IsUnique-erase k sessions u)
]

none_if_missing : (o : Option ℕ) → is_some o ≡ false → o ≡ none
none_if_missing none e = refl
none_if_missing (some p) e = absurd (true≢false e)

find_session-missing :
    (k id : SessionId) (sessions : Sessions)
    → find_session k sessions ≡ none
    → find_session id sessions ≡ (if id_eq k id then none else find_session id sessions)
find_session-missing k id sessions n =
    by_test_of (λ (o : Option ℕ). find_session id sessions ≡ o) (id_eq k id)
      (λ e. subst (λ x. find_session x sessions ≡ none) ((id_eq_iff k id).0 e) n) (λ _. refl)

find_session-unregister_session :
    (k id : SessionId) (sessions : Sessions)
    → IsUnique sessions
    → find_session id (unregister_session k sessions).1
      ≡ (if id_eq k id then none else find_session id sessions)
find_session-unregister_session k id sessions u =
    by_test_of
      (λ (r : Bool × Sessions).
        find_session id r.1 ≡ (if id_eq k id then none else find_session id sessions))
      (has_session k sessions) (λ _. find_session-erase k id sessions u)
      (λ e. find_session-missing k id sessions (none_if_missing (find_session k sessions) e))

pub data Operation (S : Type 0) : Type 0 where
  registers : (p : ℕ) (heap : SessionHeap S) → Operation S
  unregisters : SessionId → Operation S

module _ {S : Type 0} where
  -- A history of operations, the latest first.
  abbrev pub perform_all : List (Operation S) → Sessions
  perform_all [] = []
  perform_all (registers p heap ∷ operations) =
      register_session (some p) heap (perform_all operations)
  perform_all (unregisters id ∷ operations) = (unregister_session id (perform_all operations)).1

  -- The session that the latest operation on an identity left there.
  abbrev pub latest : SessionId → List (Operation S) → Option ℕ
  latest id [] = none
  latest id (registers p heap ∷ operations) =
      if id_eq (get_session_id (heap p)) id then some p else latest id operations
  latest id (unregisters k ∷ operations) = if id_eq k id then none else latest id operations

  perform_all-IsUnique : (operations : List (Operation S)) → IsUnique (perform_all operations)
  perform_all-IsUnique [] = tt
  perform_all-IsUnique (registers p heap ∷ operations) =
      IsUnique-emplace (get_session_id (heap p)) p (perform_all operations)
        (perform_all-IsUnique operations)
  perform_all-IsUnique (unregisters k ∷ operations) =
      by_test (λ (r : Bool × Sessions). IsUnique r.1) (has_session k (perform_all operations))
        (IsUnique-erase k (perform_all operations) (perform_all-IsUnique operations))
        (perform_all-IsUnique operations)

  -- After any history of registering and unregistering sessions, an identity leads to the session
  -- that was last registered with it, and to none if it was unregistered since.
  pub find_session-perform_all :
      (id : SessionId) (operations : List (Operation S))
      → find_session id (perform_all operations) ≡ latest id operations
  unfolding find_session
  find_session-perform_all id [] = refl
  find_session-perform_all id (registers p heap ∷ operations) =
      find_session-emplace (get_session_id (heap p)) id p (perform_all operations)
      ∙ ap (λ x. if id_eq (get_session_id (heap p)) id then some p else x)
          (find_session-perform_all id operations)
  find_session-perform_all id (unregisters k ∷ operations) =
      find_session-unregister_session k id (perform_all operations)
        (perform_all-IsUnique operations)
      ∙ ap (λ x. if id_eq k id then none else x) (find_session-perform_all id operations)

  write-other : (p q : ℕ) (s : Session S) (heap : SessionHeap S) → p ≢ q → write p s heap q ≡ heap q
  write-other p q s heap n =
      by_test_of (λ (t : Session S). t ≡ heap q) (p == q) (λ e. absurd (n ((==_iff p q).0 e)))
        (λ _. refl)

module _ {S : Type 0} ⦃store : Store S⦄ (clock : Clock) where
  -- Sending a message to an identity touches no session but the one that the identity leads to.
  pub send_message-other :
      (to_app : FixMessage → SessionId → FixMessage) (id : SessionId) (msg : FixMessage)
      (sessions : Sessions) (heap : SessionHeap S) (q : ℕ)
      → find_session id sessions ≢ some q
      → (send_message clock to_app id msg sessions heap).1 q ≡ heap q
  unfolding send_message
  send_message-other to_app id msg sessions heap q n =
      let P : Bool × SessionHeap S → Type 0 = λ r. r.1 q ≡ heap q in
      by_option_of P (find_session id sessions) (λ _. refl)
        (λ p e.
          by_test P (not (heap p).running) refl (write-other p q _ heap (λ f. n (e ∙ ap some f))))
