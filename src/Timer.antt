-- ===== src/Timer.antt =====
-- include/base/timing_wheel.hpp: the hashed timing wheel that drives heartbeats and timeouts.
-- A node is shared between a slot of the wheel and `task_map_`, so nodes live in a store and
-- slots hold their ids; ids are never reused. The mutex is not modelled: each operation runs whole.
pub mod Counting
pub mod Slots
pub mod Schedule
pub mod Advance
pub mod Lifetime
pub mod Contract
pub mod Cancel
mod Tests
use fix4_0_demo.Prelude.{
  ℕ, zero, suc, ◌+◌, ◌-◌, ◌/◌, ◌%◌, Bool, true, false, not, List, [], ◌∷◌, ◌++◌, Option, none, some,
  ltb, ◌==◌, if◌then◌else◌, get_or, set, replicate, ℤ, pos, negsuc, is_some,
}

pub record TimerNode (T : Type 0) : Type 0 where
  pub remaining_laps : ℕ
  pub interval_ticks : ℕ
  pub is_periodic : Bool
  pub cancelled : Bool
  -- `std::function`, possibly empty
  pub task : Option T

pub record TimingWheel (T : Type 0) : Type 0 where
  pub wheel_size : ℕ
  pub tick_interval_ms : ℕ
  pub current_tick : ℕ
  -- the slots, each a list of node ids
  pub wheel : List (List ℕ)
  -- the shared nodes, by id; what `task_map_` still holds
  pub nodes : ℕ → TimerNode T
  pub task_map : ℕ → Bool
  pub next_task_id : ℕ

-- INT_MAX / 1000
abbrev pub max_safe_delay_ms : ℕ
max_safe_delay_ms = 2147483

abbrev pub invalid_timer_id : ℕ
invalid_timer_id = 0

abbrev pub update {ℓ} : {A : Type ℓ} → (ℕ → A) → ℕ → A → ℕ → A
update f i v j = if j == i then v else f j

-- `wheel_[slot].push_back(node)`
abbrev pub push_back : List (List ℕ) → ℕ → ℕ → List (List ℕ)
push_back wheel slot id = set wheel slot (get_or wheel slot [] ++ (id ∷ []))

-- What the pass over one slot has built so far.
pub record Scan (T : Type 0) : Type 0 where
  pub kept : List ℕ
  pub to_run : List ℕ
  pub to_reschedule : List ℕ
  pub nodes : ℕ → TimerNode T
  pub task_map : ℕ → Bool

module _ {T : Type 0} where
  abbrev pub idle_node : TimerNode T
  idle_node = record {
    remaining_laps = 0;
    interval_ticks = 0;
    is_periodic = false;
    cancelled = false;
    task = none;
  }

  pub init : ℕ → ℕ → TimingWheel T
  init wheel_size tick_interval_ms = record {
    wheel_size = wheel_size;
    tick_interval_ms = tick_interval_ms;
    current_tick = 0;
    wheel = replicate wheel_size [];
    nodes = λ _. idle_node;
    task_map = λ _. false;
    next_task_id = 1;
  }

  -- How many ticks a delay takes, rounded up. The program's sum is one of `int`, which is in range
  -- as long as the interval of the wheel leaves room for the delay.
  abbrev pub ticks_to_wait : TimingWheel T → ℕ → ℕ
  ticks_to_wait w delay_ms = (delay_ms + w.tick_interval_ms - 1) / w.tick_interval_ms

  abbrev pub insert_node : TimingWheel T → ℕ → Option T → Bool → TimingWheel T
  insert_node w ticks task periodic = record w {
    wheel = push_back w.wheel ((w.current_tick + ticks) % w.wheel_size) w.next_task_id;
    nodes = update w.nodes w.next_task_id (record {
      remaining_laps = (ticks - 1) / w.wheel_size;
      interval_ticks = ticks;
      is_periodic = periodic;
      cancelled = false;
      task = task;
    });
    task_map = update w.task_map w.next_task_id true;
    next_task_id = w.next_task_id + 1;
  }

  unfoldable pub add_task_internal : TimingWheel T → ℤ → Option T → Bool → TimingWheel T × ℕ
  add_task_internal w (negsuc d) task periodic = (w, invalid_timer_id)
  add_task_internal w (pos d) task periodic =
      if d == 0
      then (w, invalid_timer_id)
      else if not (is_some task)
      then (w, invalid_timer_id)
      else if ltb max_safe_delay_ms d
      then (w, invalid_timer_id)
      else (insert_node w (ticks_to_wait w d) task periodic, w.next_task_id)

  unfoldable pub add_task : TimingWheel T → ℤ → Option T → TimingWheel T × ℕ
  unfolding add_task_internal
  add_task w delay_ms task = add_task_internal w delay_ms task false

  unfoldable pub add_periodic_task : TimingWheel T → ℤ → Option T → TimingWheel T × ℕ
  unfolding add_task_internal
  add_periodic_task w interval_ms task = add_task_internal w interval_ms task true

  unfoldable pub cancel_task : TimingWheel T → ℕ → TimingWheel T
  cancel_task w id =
      if id == invalid_timer_id
      then w
      else if w.task_map id
      then record w { nodes = update w.nodes id (record (w.nodes id) { cancelled = true }) }
      else w

  -- One node of the slot, inside the first lock.
  unfoldable pub scan_node : ℕ → Scan T → Scan T
  scan_node id a =
      if (a.nodes id).cancelled
      then record a { task_map = update a.task_map id false }
      else if ltb 0 (a.nodes id).remaining_laps
      then record a {
        kept = a.kept ++ (id ∷ []);
        nodes =
            update a.nodes id
              (record (a.nodes id) { remaining_laps = (a.nodes id).remaining_laps - 1 });
      }
      else if (a.nodes id).is_periodic
      then record a { to_run = a.to_run ++ (id ∷ []); to_reschedule = a.to_reschedule ++ (id ∷ []) }
      else record a { to_run = a.to_run ++ (id ∷ []); task_map = update a.task_map id false }

  unfoldable pub scan_slot : List ℕ → Scan T → Scan T
  scan_slot [] a = a
  scan_slot (id ∷ ids) a = scan_slot ids (scan_node id a)

  unfoldable pub reschedule_node : TimingWheel T → ℕ → TimingWheel T
  reschedule_node w id = if (w.nodes id).cancelled then w else record w {
    wheel = push_back w.wheel ((w.current_tick + (w.nodes id).interval_ticks) % w.wheel_size) id;
    nodes =
        update w.nodes id (record (w.nodes id) {
          remaining_laps = ((w.nodes id).interval_ticks - 1) / w.wheel_size;
        });
  }

  unfoldable pub reschedule : List ℕ → TimingWheel T → TimingWheel T
  reschedule [] w = w
  reschedule (id ∷ ids) w = reschedule ids (reschedule_node w id)

  abbrev pub next_slot : TimingWheel T → ℕ
  next_slot w = (w.current_tick + 1) % w.wheel_size

  abbrev pub unscanned : TimingWheel T → Scan T
  unscanned w = record {
    kept = [];
    to_run = [];
    to_reschedule = [];
    nodes = w.nodes;
    task_map = w.task_map;
  }

  abbrev pub scanned : TimingWheel T → Scan T
  scanned w = scan_slot (get_or w.wheel (next_slot w) []) (unscanned w)

  -- The wheel once the slot is scanned.
  abbrev pub with_scan : TimingWheel T → Scan T → TimingWheel T
  with_scan w a = record w {
    current_tick = next_slot w;
    wheel = set w.wheel (next_slot w) a.kept;
    nodes = a.nodes;
    task_map = a.task_map;
  }

  -- The part of `tick` under the lock: the wheel behind it, and the tasks to run.
  unfoldable pub advance : TimingWheel T → TimingWheel T × List ℕ
  advance w = (reschedule (scanned w).to_reschedule (with_scan w (scanned w)), (scanned w).to_run)

-- A callback may call the wheel again: `exec` is what running a task does to it. The second
-- part of the result lists the tasks that were run.
module _ {T : Type 0} (exec : T → TimingWheel T → TimingWheel T) where
  -- One task that came due, outside the lock.
  unfoldable pub run_node : ℕ → TimingWheel T → TimingWheel T × List ℕ
  run_node id w =
      if (w.nodes id).cancelled
      then (w, [])
      else elim (w.nodes id).task [ none ↦ (w, []) | some t ↦ (exec t w, id ∷ []) ]

  unfoldable pub run_tasks : List ℕ → TimingWheel T → TimingWheel T × List ℕ
  run_tasks [] w = (w, [])
  run_tasks (id ∷ ids) w =
      let (w', fired) = run_node id w in let (w'', more) = run_tasks ids w' in (w'', fired ++ more)

  unfoldable pub tick : TimingWheel T → TimingWheel T × List ℕ
  tick w = run_tasks (advance w).1 (advance w).0

  -- Several ticks, with all the tasks that they ran.
  unfoldable pub ticks : ℕ → TimingWheel T → TimingWheel T × List ℕ
  ticks zero w = (w, [])
  ticks (suc n) w = let (w', fired) = tick w in let (w'', more) = ticks n w' in (w'', fired ++ more)
