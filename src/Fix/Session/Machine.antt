-- ===== src/Fix/Session/Machine.antt =====
-- What a session promises its application, apart from src/fix/session.cpp: a machine with four phases
-- whose moves are all that a session may do, as far as its application and its peer's numbers go.
pub mod Calls
use fix4_0_demo.Prelude.{
  ◌≡◌, ◌≢◌, refl, Bool, true, false, List, [], ◌∷◌, Option, none, some, if◌then◌else◌, ℤ, pos, ◌+ℤ◌,
  ◌≤ℤ◌, ◌<ℤ◌, arith, int_laws,
}
use fix4_0_demo.Fix.Tags
use fix4_0_demo.Fix.Message.{FixMessage, ok, get_int}
use fix4_0_demo.Fix.Session.{
  Event, sent, connection_shutdown, shutdown_callback, established_callback, on_logon, on_logout,
  from_app, from_admin, Pending,
}
use fix4_0_demo.Engine.Order.{SessionId}

pub data Phase : Type 0 where
  waiting live leaving over : Phase

-- What a machine is let do: go back in the numbers, and change what is buffered.
pub record Permits : Type 0 where
  pub resets : Bool
  pub buffers : Bool

pub record View : Type 0 where
  pub phase : Phase
  pub expected : ℤ
  pub has_application : Bool
  pub buffered : Pending
  -- the calls of the application, the latest first
  pub calls : List Event

abbrev pub tell : Event → View → View
tell e v = record v { calls = (if v.has_application then e ∷ v.calls else v.calls) }

pub data Move (permits : Permits) (v : View) : View → Type 0 where
  align : (n : ℤ) → v.phase ≡ waiting → Move permits v (record v { expected = n })
  log_on :
      (id : SessionId)
      → v.phase ≡ waiting
      → Move permits v (tell (on_logon id) (record v { phase = live }))
  advance : (n : ℤ) → v.expected ≤ℤ n → Move permits v (record v { expected = n })
  reset :
      (n : ℤ)
      → permits.resets ≡ true
      → v.phase ≢ waiting
      → Move permits v (record v { expected = n })
  deliver :
      (msg : FixMessage) (id : SessionId)
      → v.phase ≡ live
      → get_int Tags.msg_seq_num msg ≡ ok v.expected
      → Move permits v (tell (from_app msg id) (record v { expected = v.expected +ℤ pos 1 }))
  administer :
      (msg : FixMessage) (id : SessionId)
      → v.phase ≢ waiting
      → Move permits v (tell (from_admin msg id) v)
  rebuffer :
      (pending : Pending)
      → permits.buffers ≡ true
      → Move permits v (record v { buffered = pending })
  log_out : v.phase ≡ live → Move permits v (record v { phase = leaving })
  shut_down :
      (id : SessionId)
      → v.phase ≢ over
      → Move permits v (tell (on_logout id) (record v { phase = over }))

pub data Moves (permits : Permits) (v : View) : View → Type 0 where
  here : Moves permits v v
  next : {w u : View} → Moves permits v w → Move permits w u → Moves permits v u

pub Moves-append :
    {permits : Permits} {v w u : View} → Moves permits v w → Moves permits w u → Moves permits v u
Moves-append p here = p
Moves-append p (next q m) = next (Moves-append p q) m

pub Moves-keep :
    {permits : Permits} {v w : View} (P : View → Type 0)
    → ((u t : View) → Move permits u t → P u → P t)
    → Moves permits v w
    → P v
    → P w
Moves-keep P h here p = p
Moves-keep P h (next {w} {u} q m) p = h w u m (Moves-keep P h q p)

-- No move goes back to the phase before the logon.
pub Move-started :
    (permits : Permits) (v w : View) → Move permits v w → v.phase ≢ waiting → w.phase ≢ waiting
Move-started r v w (align n e) h = h
Move-started r v w (log_on id e) h = λ x. cc
Move-started r v w (advance n l) h = h
Move-started r v w (reset n _ _) h = h
Move-started r v w (deliver msg id e _) h = h
Move-started r v w (administer msg id n) h = h
Move-started r v w (rebuffer _ _) h = h
Move-started r v w (log_out e) h = λ x. cc
Move-started r v w (shut_down id n) h = λ x. cc

-- The protocol of the calls: a logon, the messages, a logout.
pub data Stage : Type 0 where
  before during after : Stage

unfoldable pub next_stage : Stage → Event → Option Stage
next_stage before (on_logon _) = some during
next_stage before (on_logout _) = some after
next_stage during (from_app _ _) = some during
next_stage during (from_admin _ _) = some during
next_stage during (on_logout _) = some after
next_stage after (from_admin _ _) = some after
next_stage _ _ = none

unfoldable pub stage : List Event → Option Stage
stage [] = some before
stage (e ∷ events) = elim (stage events) [ none ↦ none | some s ↦ next_stage s e ]

abbrev pub stage_of : Phase → Stage
stage_of waiting = before
stage_of live = during
stage_of leaving = during
stage_of over = after

abbrev pub IsOrderly : View → Type 0
IsOrderly v = (v.has_application ≡ true) × (stage v.calls ≡ some (stage_of v.phase))

-- The numbers of the messages delivered rise, and all are below the bound.
abbrev pub Delivers : ℤ → List Event → Type 0
Delivers bound [] = Unit
Delivers bound (from_app msg _ ∷ events) =
    (n : ℤ) × (get_int Tags.msg_seq_num msg ≡ ok n) × (n <ℤ bound) × Delivers n events
Delivers bound (sent _ ∷ events) = Delivers bound events
Delivers bound (connection_shutdown ∷ events) = Delivers bound events
Delivers bound (shutdown_callback ∷ events) = Delivers bound events
Delivers bound (established_callback ∷ events) = Delivers bound events
Delivers bound (on_logon _ ∷ events) = Delivers bound events
Delivers bound (on_logout _ ∷ events) = Delivers bound events
Delivers bound (from_admin _ _ ∷ events) = Delivers bound events

abbrev pub IsInOrder : View → Type 0
IsInOrder v = Delivers v.expected v.calls × (v.phase ≡ waiting → v.calls ≡ [])
