-- ===== src/Timer/Cancel.antt =====
-- `TimingWheel::cancel_task` (include/base/timing_wheel.hpp), and the flag that it sets.
use fix4_0_demo.Prelude.{
  ℕ, zero, suc, ◌<◌, ◌≡◌, refl, ◌∙◌, List, [], ◌∷◌, arith, true, Bool, Bool-cases, inl, inr, Option,
  Option-cases, ℤ, pos, ◌==◌, ltb, is_some,
}
use fix4_0_demo.Timer.{
  TimingWheel, insert_node, add_task_internal, ticks_to_wait, max_safe_delay_ms, Scan, scan_node,
  scan_slot, reschedule_node, reschedule, unscanned, scanned, with_scan, advance, run_node,
  run_tasks, tick, ticks, cancel_task,
}
use fix4_0_demo.Timer.Counting.{count, count-append}
use fix4_0_demo.Timer.Advance.{advance-next_task_id}

module _ {T : Type 0} (i : ℕ) where
  scan_node-cancelled :
      (x : ℕ) (a : Scan T) → ((scan_node x a).nodes i).cancelled ≡ (a.nodes i).cancelled
  unfolding scan_node
  scan_node-cancelled x a = ground arith

  scan_slot-cancelled :
      (xs : List ℕ) (a : Scan T) → ((scan_slot xs a).nodes i).cancelled ≡ (a.nodes i).cancelled
  unfolding scan_slot
  scan_slot-cancelled [] a = refl
  scan_slot-cancelled (x ∷ xs) a = scan_slot-cancelled xs (scan_node x a) ∙ scan_node-cancelled x a

  reschedule_node-cancelled :
      (x : ℕ) (w : TimingWheel T)
      → ((reschedule_node w x).nodes i).cancelled ≡ (w.nodes i).cancelled
  unfolding reschedule_node
  reschedule_node-cancelled x w = ground arith

  reschedule-cancelled :
      (xs : List ℕ) (w : TimingWheel T)
      → ((reschedule xs w).nodes i).cancelled ≡ (w.nodes i).cancelled
  unfolding reschedule
  reschedule-cancelled [] w = refl
  reschedule-cancelled (x ∷ xs) w =
      reschedule-cancelled xs (reschedule_node w x) ∙ reschedule_node-cancelled x w

  advance-cancelled :
      (w : TimingWheel T) → ((advance w).0.nodes i).cancelled ≡ (w.nodes i).cancelled
  unfolding advance
  advance-cancelled w =
      reschedule-cancelled (scanned w).to_reschedule (with_scan w (scanned w))
      ∙ scan_slot-cancelled _ (unscanned w)

  -- A task that was given out and is cancelled.
  abbrev pub IsCancelled : TimingWheel T → Type 0
  IsCancelled w = (i < w.next_task_id) × ((w.nodes i).cancelled ≡ true)

  insert_node-IsCancelled :
      (w : TimingWheel T) (n : ℕ) (task : Option T) (p : Bool)
      → IsCancelled w
      → IsCancelled (insert_node w n task p)
  insert_node-IsCancelled w n task p (known, h) = (omega arith, ground arith)

  -- No task that is added, and no other that is cancelled, takes a cancellation back.
  pub add_task_internal-IsCancelled :
      (w : TimingWheel T) (delay_ms : ℤ) (task : Option T) (p : Bool)
      → IsCancelled w
      → IsCancelled (add_task_internal w delay_ms task p).0
  unfolding add_task_internal
  add_task_internal-IsCancelled w (ℤ.negsuc d) task p h = h
  add_task_internal-IsCancelled w (pos d) task p h = elim (Bool-cases (d == 0)) [
    | inl e ↦ rw e h
    | inr e ↦ rw e (elim (Bool-cases (is_some task)) [
      | inr none' ↦ rw none' h
      | inl given ↦ rw given (elim (Bool-cases (ltb max_safe_delay_ms d)) [
        | inl long ↦ rw long h
        | inr short ↦ rw short (insert_node-IsCancelled w (ticks_to_wait w d) task p h)
      ])
    ])
  ]

  pub cancel_task-IsCancelled :
      (w : TimingWheel T) (id : ℕ) → IsCancelled w → IsCancelled (cancel_task w id)
  unfolding cancel_task
  cancel_task-IsCancelled w id (known, h) = (ground arith, ground arith)

  advance-IsCancelled : (w : TimingWheel T) → IsCancelled w → IsCancelled (advance w).0
  advance-IsCancelled w (known, h) =
      (omega (arith, advance-next_task_id w), advance-cancelled w ∙ h)

  module _ (exec : T → TimingWheel T → TimingWheel T)
      (keeps : (t : T) (w : TimingWheel T) → IsCancelled w → IsCancelled (exec t w)) where
    -- Running one task, listed anywhere, does not run a cancelled one, and keeps it cancelled.
    run_node-IsCancelled :
        (x : ℕ) (w : TimingWheel T)
        → IsCancelled w
        → (count i (run_node exec x w).1 ≡ 0) × IsCancelled (run_node exec x w).0
    unfolding run_node
    run_node-IsCancelled x w (known, h) = elim (Bool-cases (w.nodes x).cancelled) [
      | inl e ↦ rw e (refl, (known, h))
      | inr e ↦ rw e (elim (Option-cases (w.nodes x).task) [
        | inl none' ↦ rw none' (refl, (known, h))
        | inr (t, e') ↦ rw e' (ground arith, keeps t w (known, h))
      ])
    ]

    run_tasks-IsCancelled :
        (xs : List ℕ) (w : TimingWheel T)
        → IsCancelled w
        → (count i (run_tasks exec xs w).1 ≡ 0) × IsCancelled (run_tasks exec xs w).0
    unfolding run_tasks
    run_tasks-IsCancelled [] w h = (refl, h)
    run_tasks-IsCancelled (x ∷ xs) w h =
        let one = run_node-IsCancelled x w h in
        let more = run_tasks-IsCancelled xs (run_node exec x w).0 one.1 in
        (
          omega (
            arith,
            count-append i (run_node exec x w).1 (run_tasks exec xs (run_node exec x w).0).1,
            one.0,
            more.0,
          ),
          more.1,
        )

    ticks-cancelled : (n : ℕ) (w : TimingWheel T) → IsCancelled w → count i (ticks exec n w).1 ≡ 0
    unfolding ticks tick
    ticks-cancelled zero w h = refl
    ticks-cancelled (suc n) w h =
        let one = run_tasks-IsCancelled (advance w).1 (advance w).0 (advance-IsCancelled w h) in
        omega (
          arith,
          count-append i (tick exec w).1 (ticks exec n (tick exec w).0).1,
          one.0,
          ticks-cancelled n (tick exec w).0 one.1,
        )

    -- Once cancelled, a task that the wheel gave out and still knows never runs, however long the
    -- wheel turns, whatever else callbacks do to the wheel, as long as none of them takes the
    -- cancellation back or the id itself, which adding and cancelling tasks do not.
    pub ticks-cancel_task :
        (w : TimingWheel T) (n : ℕ)
        → 0 < i
        → i < w.next_task_id
        → w.task_map i ≡ true
        → count i (ticks exec n (cancel_task w i)).1 ≡ 0
    unfolding cancel_task
    ticks-cancel_task w n h known k =
        ticks-cancelled n (cancel_task w i) (ground arith, ground arith)
