-- ===== src/Fix/Session/Machine/Calls.antt =====
-- The calls of the application in the machine for src/fix/session.cpp.
use fix4_0_demo.Prelude.{
  ◌≡◌, ◌≢◌, refl, sym, subst, Bool, true, false, List, [], ◌∷◌, some, if◌then◌else◌, ℤ, pos, ◌+ℤ◌,
  ◌≤ℤ◌, int_laws,
}
use mathlib.Core.Bool.{false≢true}
use fix4_0_demo.Fix.Message.{FixMessage}
use fix4_0_demo.Engine.Order.{SessionId}
use fix4_0_demo.Fix.Session.{
  Event, sent, connection_shutdown, shutdown_callback, established_callback, on_logon, on_logout,
  from_app, from_admin, Pending,
}
use fix4_0_demo.Fix.Session.Machine.{
  View, Permits, rebuffer, Phase, waiting, live, leaving, over, Move, align, log_on, advance, reset,
  deliver, administer, log_out, shut_down, stage, next_stage, Stage, after, during, stage_of,
  IsOrderly, IsInOrder, Delivers,
}

pub Delivers-mono : (a b : ℤ) (events : List Event) → a ≤ℤ b → Delivers a events → Delivers b events
Delivers-mono a b [] h d = tt
Delivers-mono a b (from_app msg id ∷ events) h (n, e, l, d) = (n, e, omega int_laws, d)
Delivers-mono a b (sent _ ∷ events) h d = Delivers-mono a b events h d
Delivers-mono a b (connection_shutdown ∷ events) h d = Delivers-mono a b events h d
Delivers-mono a b (shutdown_callback ∷ events) h d = Delivers-mono a b events h d
Delivers-mono a b (established_callback ∷ events) h d = Delivers-mono a b events h d
Delivers-mono a b (on_logon _ ∷ events) h d = Delivers-mono a b events h d
Delivers-mono a b (on_logout _ ∷ events) h d = Delivers-mono a b events h d
Delivers-mono a b (from_admin _ _ ∷ events) h d = Delivers-mono a b events h d

next_stage-on_logout :
    (p : Phase) (id : SessionId) → p ≢ over → next_stage (stage_of p) (on_logout id) ≡ some after
unfolding next_stage
next_stage-on_logout waiting id h = refl
next_stage-on_logout live id h = refl
next_stage-on_logout leaving id h = refl
next_stage-on_logout over id h = absurd (h refl)

next_stage-from_admin :
    (p : Phase) (msg : FixMessage) (id : SessionId)
    → p ≢ waiting
    → next_stage (stage_of p) (from_admin msg id) ≡ some (stage_of p)
unfolding next_stage
next_stage-from_admin waiting msg id h = absurd (h refl)
next_stage-from_admin live msg id h = refl
next_stage-from_admin leaving msg id h = refl
next_stage-from_admin over msg id h = refl

stage-tell :
    (told : Bool) (e : Event) (calls : List Event) (s t : Stage)
    → (told ≡ true) × (stage calls ≡ some s)
    → next_stage s e ≡ some t
    → (told ≡ true) × (stage (if told then e ∷ calls else calls) ≡ some t)
unfolding stage
stage-tell told e calls s t (app, h) n = (app, rw (app, h) n)

pub Move-IsOrderly : (permits : Permits) (v w : View) → Move permits v w → IsOrderly v → IsOrderly w
unfolding next_stage
Move-IsOrderly r v w (align n e) h = h
Move-IsOrderly r v w (log_on id e) h =
    stage-tell v.has_application (on_logon id) v.calls (stage_of v.phase) during h (rw e refl)
Move-IsOrderly r v w (advance n l) h = h
Move-IsOrderly r v w (reset n _ _) h = h
Move-IsOrderly r v w (deliver msg id e _) h =
    stage-tell v.has_application (from_app msg id) v.calls (stage_of v.phase) (stage_of v.phase) h
      (rw e refl)
Move-IsOrderly r v w (administer msg id n) h =
    stage-tell v.has_application (from_admin msg id) v.calls (stage_of v.phase) (stage_of v.phase) h
      (next_stage-from_admin v.phase msg id n)
Move-IsOrderly r v w (rebuffer _ _) h = h
Move-IsOrderly r v w (log_out e) h = (h.0, subst (λ p. stage v.calls ≡ some (stage_of p)) e h.1)
Move-IsOrderly r v w (shut_down id n) h =
    stage-tell v.has_application (on_logout id) v.calls (stage_of v.phase) after h
      (next_stage-on_logout v.phase id n)

Delivers-tell :
    (told : Bool) (e : Event) (bound : ℤ) (calls : List Event)
    → Delivers bound (e ∷ calls)
    → Delivers bound calls
    → Delivers bound (if told then e ∷ calls else calls)
Delivers-tell true e bound calls d _ = d
Delivers-tell false e bound calls _ d = d

-- Without resets, no move delivers a number twice or out of its turn.
pub Move-IsInOrder :
    (buffers : Bool) (v w : View)
    → Move (record { resets = false; buffers = buffers }) v w
    → IsInOrder v
    → IsInOrder w
Move-IsInOrder b v w (align n e) h = (subst (Delivers n) (sym (h.1 e)) tt, h.1)
Move-IsInOrder b v w (log_on id e) h =
    (Delivers-tell v.has_application (on_logon id) v.expected v.calls h.0 h.0, λ e. cc)
Move-IsInOrder b v w (advance n l) h = (Delivers-mono v.expected n v.calls l h.0, h.1)
Move-IsInOrder b v w (reset n r _) h = absurd (false≢true r)
Move-IsInOrder b v w (deliver msg id e due) h = (
  Delivers-tell v.has_application (from_app msg id) (v.expected +ℤ pos 1) v.calls
      (v.expected, due, omega int_laws, h.0)
      (Delivers-mono v.expected (v.expected +ℤ pos 1) v.calls (omega int_laws) h.0),
  λ f. cc,
)
Move-IsInOrder b v w (administer msg id n) h = (
  Delivers-tell v.has_application (from_admin msg id) v.expected v.calls h.0 h.0,
  λ e. absurd (n e),
)
Move-IsInOrder b v w (rebuffer _ _) h = h
Move-IsInOrder b v w (log_out e) h = (h.0, λ f. cc)
Move-IsInOrder b v w (shut_down id n) h =
    (Delivers-tell v.has_application (on_logout id) v.expected v.calls h.0 h.0, λ e. cc)

-- Only a machine that is let do so changes what is buffered.
pub Move-buffered :
    (resets : Bool) (b : Pending) (v w : View)
    → Move (record { resets = resets; buffers = false }) v w
    → v.buffered ≡ b
    → w.buffered ≡ b
Move-buffered r b v w (align n e) h = h
Move-buffered r b v w (log_on id e) h = h
Move-buffered r b v w (advance n l) h = h
Move-buffered r b v w (reset n _ _) h = h
Move-buffered r b v w (deliver msg id e _) h = h
Move-buffered r b v w (administer msg id n) h = h
Move-buffered r b v w (rebuffer _ e) h = absurd (false≢true e)
Move-buffered r b v w (log_out e) h = h
Move-buffered r b v w (shut_down id n) h = h
