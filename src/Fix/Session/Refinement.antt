-- ===== src/Fix/Session/Refinement.antt =====
-- src/fix/session.cpp as the machine of Fix/Session/Machine: what a session shows of itself, and the
-- steps that compose.
pub mod Quiet
pub mod Changes
pub mod Handlers
pub mod Handshake
pub mod Admission
pub mod Drain
pub mod Ends
pub mod Steps
use fix4_0_demo.Prelude.{
  ◌≡◌, refl, subst, sym, Bool, true, false, not, ◌&&◌, List, [], ◌∷◌, Option, none, some,
  if◌then◌else◌, ℤ, All, Text, codes, text_eq,
}
use fix4_0_demo.Fix.Tags
use fix4_0_demo.Fix.Message.{FixMessage, Result, ok, err, get_int, get_string}
use fix4_0_demo.Fix.Session.{
  Session, State, disconnected, logon_sent, established, logout_sent, Event, sent,
  connection_shutdown, shutdown_callback, established_callback, on_logon, on_logout, from_app,
  from_admin, Pending,
}
use fix4_0_demo.Fix.Session.Run.{Run, ◌>>=◌}
use fix4_0_demo.Fix.Message.{field_is}
use fix4_0_demo.Fix.Session.Machine.{
  View, Permits, Phase, waiting, live, leaving, over, Moves, here, Moves-append,
}

-- The calls of the application.
abbrev pub callbacks : List Event → List Event
callbacks [] = []
callbacks (sent _ ∷ events) = callbacks events
callbacks (connection_shutdown ∷ events) = callbacks events
callbacks (shutdown_callback ∷ events) = callbacks events
callbacks (established_callback ∷ events) = callbacks events
callbacks (on_logon id ∷ events) = on_logon id ∷ callbacks events
callbacks (on_logout id ∷ events) = on_logout id ∷ callbacks events
callbacks (from_app msg id ∷ events) = from_app msg id ∷ callbacks events
callbacks (from_admin msg id ∷ events) = from_admin msg id ∷ callbacks events

abbrev pub phase_of_state : State → Phase
phase_of_state disconnected = waiting
phase_of_state logon_sent = waiting
phase_of_state (established _ _) = live
phase_of_state (logout_sent _ _) = leaving

-- A SequenceReset that is not a GapFill.
abbrev pub is_reset : FixMessage → Bool
is_reset msg =
    field_is Tags.msg_type (codes "4") msg && not (field_is Tags.gap_fill_flag (codes "Y") msg)

pub is_reset_lem :
    (msg : FixMessage)
    → get_string Tags.msg_type msg ≡ ok (codes "4")
    → is_reset msg ≡ not (field_is Tags.gap_fill_flag (codes "Y") msg)
unfolding text_eq
is_reset_lem msg e =
    let gap = field_is Tags.gap_fill_flag (codes "Y") msg in
    subst (λ r. (elim r [ ok v ↦ text_eq v (codes "4") | err _ ↦ false ] && not gap) ≡ not gap)
      (sym e) refl

pub is_reset-other :
    (msg : FixMessage) (t : Text)
    → get_string Tags.msg_type msg ≡ ok t
    → text_eq t (codes "4") ≡ false
    → is_reset msg ≡ false
is_reset-other msg t e n =
    let gap = field_is Tags.gap_fill_flag (codes "Y") msg in
    subst (λ r. (elim r [ ok v ↦ text_eq v (codes "4") | err _ ↦ false ] && not gap) ≡ false)
      (sym e) (rw n refl)

-- What the buffer holds.
abbrev pub IsEntry : ℤ × FixMessage → Type 0
IsEntry (n, msg) = (get_int Tags.msg_seq_num msg ≡ ok n) × (is_reset msg ≡ false)

module _ {S : Type 0} where
  abbrev pub phase_of : Session S → Phase
  phase_of s = if s.shutting_down then over else phase_of_state s.state

  abbrev pub view : Session S → View
  view s = record {
    phase = phase_of s;
    expected = s.recv_seq_num;
    has_application = s.has_application;
    buffered = s.pending_inbound;
    calls = callbacks s.events;
  }

  abbrev pub IsSound : Session S → Type 0
  IsSound s = All IsEntry s.pending_inbound × (s.running ≡ true → s.shutting_down ≡ false)

  abbrev pub Step : Permits → Session S → Session S → Type 0
  Step permits s t = IsSound s → IsSound t × Moves permits (view s) (view t)

  pub Step-refl : (r : Permits) (s : Session S) → Step r s s
  Step-refl r s h = (h, here)

  pub Step-trans : {r : Permits} (s t u : Session S) → Step r s t → Step r t u → Step r s u
  Step-trans s t u p q h = ((q (p h).0).0, Moves-append (p h).1 (q (p h).0).1)

  -- What `>>=` does with a result.
  abbrev pub after : {A B : Type 0} → (A → Run S B) → Session S → Result A → Result B × Session S
  after f s (ok a) = f a s
  after f s (err e) = (err e, s)

  pub related->>= :
      {A B : Type 0} (R : Session S → Session S → Type 0) (m : Run S A) (f : A → Run S B)
      (s : Session S)
      → (R s (m s).1 → (t : Session S) → R (m s).1 t → R s t)
      → R s (m s).1
      → ((a : A) → (m s).0 ≡ ok a → R (m s).1 (f a (m s).1).1)
      → R s ((m >>= f) s).1
  unfolding ◌>>=◌
  related->>= R m f s trans p q =
      (elim (m s).0 as (λ x. (m s).0 ≡ x → R s (after f (m s).1 x).1) [
        | ok a ↦ λ e. trans p (f a (m s).1).1 (q a e)
        | err _ ↦ λ _. p
      ])
        refl

  pub Step->>= :
      {A B : Type 0} {r : Permits} (m : Run S A) (f : A → Run S B) (s : Session S)
      → Step r s (m s).1
      → ((a : A) → (m s).0 ≡ ok a → Step r (m s).1 (f a (m s).1).1)
      → Step r s ((m >>= f) s).1
  Step->>= {r = r} m f s = related->>= (Step r) m f s (λ p t q. Step-trans s (m s).1 t p q)
