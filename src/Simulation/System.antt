-- ===== src/Simulation/System.antt =====
-- src/app/simulation_app.cpp with src/app/engine/matching_engine.cpp: what the engine does in every
-- state that the application reaches, when it takes market data and what was submitted to it.
use fix4_0_demo.Prelude.{
  not, Map, false, ◌≡◌, refl, sym, subst, inl, inr, by_test, All, All-Memᴰ, List, [], Option, Text,
  Double, DoubleText,
}
use mathlib.Core.List.{Memᴰ}
use fix4_0_demo.Fix.Message.{FixMessage, ok}
use fix4_0_demo.Engine.Order.{SessionId}
use fix4_0_demo.Engine.Events.{OrderEvent, EventData, OrderEventType, session_event, empty_event}
use fix4_0_demo.Engine.Matching
use fix4_0_demo.Engine.Matching.{Effect, MatchingEngine, submit}
use fix4_0_demo.Engine.Matching.Requests
use fix4_0_demo.Engine.Matching.Requests.{Turn, run_turn}
use fix4_0_demo.Engine.Matching.Fills.{IsFair, IsSound}
use fix4_0_demo.Engine.Matching.Fills.Running.{IsNew, run_turn-IsSound}
use fix4_0_demo.Manager.Accounts.{Account}
use fix4_0_demo.Manager.Positions.{Position}
use fix4_0_demo.Manager.Risk.{Instrument, RejectReason}
use fix4_0_demo.Manager.Instruments.{add_instruments}
use fix4_0_demo.Simulation.{SimulationApp, OrderStore, Users}
use fix4_0_demo.Simulation.Dispatch
use fix4_0_demo.Simulation.Dispatch.{new_app, on_logon, on_logout, from_app, react_all, engine_turn}
use fix4_0_demo.Simulation.Booking.{react_all-Holds}
use fix4_0_demo.Simulation.Authority.Submitting.{AsksFor, IsAllowed, from_app-AsksFor}

-- Any order may go to any session.
abbrev Anywhere : Text → SessionId → Type 0
Anywhere id session_id = Unit

-- The queue of events hands out what was put in it; market data come from outside.
abbrev pub CanRun : {W : Type 0} → Turn W → List (Effect W) → Type 0
CanRun (Turn.market md) effects = Unit
CanRun (Turn.event ev) effects = Memᴰ (Effect.enqueued ev) effects

module _ {W T : Type 0} ⦃d : Double W⦄ ⦃t : DoubleText W⦄ ⦃s : OrderStore W T⦄
    (reason_text : RejectReason → Text) where
  -- The states of the application: it is started, with what the store had, instruments are added,
  -- sessions call it, and the engine takes its turns. The sessions and the time are those of the moment.
  pub data Reached : SimulationApp W T → Type 0 where
    started :
        (loaded : Option (T × List (Account W) × List (Position W)))
        → Reached (Dispatch.start (new_app loaded))
    stopped : {app : SimulationApp W T} → Reached app → Reached (Dispatch.stop app)
    listed :
        {app : SimulationApp W T} (instruments : List (Instrument W))
        → Reached app
        → Reached (record app { instruments = add_instruments instruments app.instruments })
    logged_on :
        {app : SimulationApp W T} (users : Users) (session_id : SessionId)
        → Reached app
        → Reached (on_logon users session_id app)
    logged_out :
        {app : SimulationApp W T} (session_id : SessionId)
        → Reached app
        → Reached (on_logout session_id app)
    received :
        {app app' : SimulationApp W T} (users : Users) (now : Text) (msg : FixMessage)
        (session_id : SessionId)
        → Reached app
        → from_app users reason_text now msg session_id app ≡ ok app'
        → Reached app'
    turned :
        {app : SimulationApp W T} (users : Users) (now : Text) (turn : Turn W)
        → Reached app
        → CanRun turn app.engine.effects
        → Reached (engine_turn users reason_text now turn app)

module _ {W : Type 0} ⦃d : Double W⦄ where
  -- What was put in the queue of events is new.
  abbrev IsQueued : Effect W → Type 0
  IsQueued (Effect.enqueued ev) = IsNew Anywhere (Turn.event ev)
  IsQueued _ = Unit

  record IsServed (e : MatchingEngine W) : Type 0 where
    sound : IsSound Anywhere e
    queued : All IsQueued e.effects

  submit-IsServed :
      (ev : OrderEvent W) (e : MatchingEngine W)
      → IsNew Anywhere (Turn.event ev)
      → IsServed e
      → IsServed (submit ev e)
  unfolding submit
  submit-IsServed ev e new h = record {
    sound = record {
      untouched = h.sound.untouched;
      mapped = h.sound.mapped;
      fair = (tt, h.sound.fair);
    };
    queued = (new, h.queued);
  }

  IsNew-allowed :
      (owners : _) (session_id : SessionId) (user_id : Text) (ev : OrderEvent W)
      → IsAllowed owners session_id user_id ev
      → IsNew Anywhere (Turn.event ev)
  IsNew-allowed owners session_id user_id ev h =
      elim ev.payload
          as (λ p.
            IsAllowed owners session_id user_id (record ev { payload = p })
            → IsNew Anywhere (Turn.event (record ev { payload = p }))) [
              | EventData.order o ↦ λ (a, b, (i, c, q)). (c, tt)
              | EventData.request r ↦ λ a. tt
              | EventData.nothing ↦ λ a. tt
            ]
        h

  IsNew-queued :
      (turn : Turn W) (effects : List (Effect W))
      → All IsQueued effects
      → CanRun turn effects
      → IsNew Anywhere turn
  IsNew-queued (Turn.market md) effects q c = tt
  IsNew-queued (Turn.event ev) effects q c = All-Memᴰ IsQueued (Effect.enqueued ev) effects q c

  -- A turn on its own, without what was recorded before it.
  abbrev fresh : MatchingEngine W → MatchingEngine W
  fresh e = record e { effects = [] }

  turn-IsSound :
      (turn : Turn W) (e : MatchingEngine W)
      → IsServed e
      → CanRun turn e.effects
      → IsSound Anywhere (run_turn turn (fresh e))
  turn-IsSound turn e h c =
      run_turn-IsSound Anywhere turn (fresh e) (IsNew-queued turn e.effects h.queued c)
        (record { untouched = h.sound.untouched; mapped = h.sound.mapped; fair = tt })

  stop-IsServed : (e : MatchingEngine W) → IsServed e → IsServed (Requests.stop e)
  unfolding Requests.stop
  stop-IsServed e h = by_test IsServed (not e.running) h (
      submit-IsServed empty_event (record e { running = false }) tt
        (record {
          sound = record {
            untouched = h.sound.untouched;
            mapped = h.sound.mapped;
            fair = h.sound.fair;
          };
          queued = h.queued;
        }))

  asked-IsServed :
      (owners : Map Text) (session_id : SessionId) (user_id : Text) (e e' : MatchingEngine W)
      → AsksFor owners session_id user_id e e'
      → IsServed e
      → IsServed e'
  asked-IsServed owners session_id user_id e e' (inl same) h = subst IsServed (sym same) h
  asked-IsServed owners session_id user_id e e' (inr (ev, allowed, same)) h =
      subst IsServed (sym same)
        (submit-IsServed ev e (IsNew-allowed owners session_id user_id ev allowed) h)

module _ {W T : Type 0} ⦃d : Double W⦄ ⦃t : DoubleText W⦄ ⦃s : OrderStore W T⦄
    (reason_text : RejectReason → Text) where
  turn-IsServed :
      (users : Users) (now : Text) (turn : Turn W) (app : SimulationApp W T)
      → IsServed app.engine
      → CanRun turn app.engine.effects
      → IsServed (engine_turn users reason_text now turn app).engine
  unfolding engine_turn
  turn-IsServed users now turn app h c =
      let e = run_turn turn (fresh app.engine) in
      let after : MatchingEngine W = record e { effects = app.engine.effects } in
      let sound = turn-IsSound turn app.engine h c in
      subst IsServed
        (sym (
          react_all-Holds (λ x m. x ≡ after) (λ c x m k. k) users reason_text now e.effects
            (record app { engine = after }) refl))
        (record {
          sound = record {
            untouched = sound.untouched;
            mapped = sound.mapped;
            fair = h.sound.fair;
          };
          queued = h.queued;
        })

  Reached-IsServed : {app : SimulationApp W T} → Reached reason_text app → IsServed app.engine
  unfolding Dispatch.start Matching.start new_app Dispatch.stop on_logon on_logout
  Reached-IsServed (started loaded) = record {
    sound = record { untouched = tt; mapped = tt; fair = tt };
    queued = tt;
  }
  Reached-IsServed (stopped {app} r) = stop-IsServed app.engine (Reached-IsServed r)
  Reached-IsServed (listed instruments r) = Reached-IsServed r
  Reached-IsServed (logged_on {app} users session_id r) =
      by_test (λ (x : SimulationApp W T). IsServed x.engine) _ (Reached-IsServed r)
        (submit-IsServed (session_event OrderEventType.session_logon session_id) app.engine tt
          (Reached-IsServed r))
  Reached-IsServed (logged_out {app} session_id r) =
      submit-IsServed (session_event OrderEventType.session_logout session_id) app.engine tt
        (Reached-IsServed r)
  Reached-IsServed (received {app} {app'} users now msg session_id r e) =
      asked-IsServed app.order_account_map session_id (users.extract_account_id session_id)
        app.engine app'.engine (from_app-AsksFor users reason_text now msg session_id app app' e)
        (Reached-IsServed r)
  Reached-IsServed (turned {app} users now turn r c) =
      turn-IsServed users now turn app (Reached-IsServed r) c

  -- In every state that the application reaches, when the engine takes market data or an event that
  -- was submitted to it: each fill that it reports is of the whole order, with nothing left, and at a
  -- price no worse than the limit of a limit order.
  pub Reached-AreFair :
      (app : SimulationApp W T) (turn : Turn W)
      → Reached reason_text app
      → CanRun turn app.engine.effects
      → All (IsFair Anywhere) (run_turn turn (fresh app.engine)).effects
  Reached-AreFair app turn r c = (turn-IsSound turn app.engine (Reached-IsServed r) c).fair
