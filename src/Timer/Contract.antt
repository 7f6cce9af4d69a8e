-- ===== src/Timer/Contract.antt =====
-- include/base/timing_wheel.hpp as its callers see it, and the invariant behind that.
use fix4_0_demo.Prelude.{
  ℕ, suc, ◌+◌, ◌-◌, ◌*◌, ◌/◌, ◌%◌, ◌<◌, ◌≤◌, ◌≡◌, ◌≢◌, refl, sym, ◌∙◌, ap, List, [], ◌∷◌, arith,
  ◌==◌, if◌then◌else◌, length-set, length-replicate, false, true, ◌⊎◌, inl, inr, Bool-cases, Bool,
  Option, Option-cases, some, none, ltb, leb, ℤ, pos, ◌≤ℤ◌, ◌<ℤ◌, is_some, pos_part,
}
use fix4_0_demo.Timer.{
  TimingWheel, push_back, scanned, with_scan, advance, run_node, run_tasks, tick, ticks, init,
  ticks_to_wait, add_task, add_periodic_task, add_task_internal, insert_node, max_safe_delay_ms,
  invalid_timer_id,
}
use fix4_0_demo.Timer.Counting.{count, slot_count, slot_count-push_ne, slot_count-replicate}
use fix4_0_demo.Timer.Schedule.{IsSized, Due}
use fix4_0_demo.Timer.Advance.{push_back-alone, slot-lt, advance-Gone, reschedule-constants}
use native.Mathlib.Nat.{div-le_of_le-mul, mul-suc, suc-mul}
use fix4_0_demo.Timer.Slots.{SameFor, SameFor-refl}
use fix4_0_demo.Timer.Lifetime.{Frames, ticks-count_once, ticks-count_periodic}

-- INT_MAX
abbrev pub int_max : ℕ
int_max = 2147483647

rounded : (k d : ℕ) → 0 < k → 0 < d → d + k - 1 ≤ k * d
rounded ℕ.zero d h l = absurd (omega arith)
rounded (suc k) ℕ.zero h l = absurd (omega arith)
rounded (suc k) (suc d) h l = omega (arith, mul-suc (suc k) d, suc-mul k d)

module _ {T : Type 0} where
  -- Every slot exists, and no slot holds an id that has not been given out.
  pub record IsValid (w : TimingWheel T) : Type 0 where
    pub sized : IsSized w
    pub interval_pos : 0 < w.tick_interval_ms
    pub fresh : (i : ℕ) → w.next_task_id ≤ i → (s : ℕ) → slot_count i w.wheel s ≡ 0
    pub ids_pos : 0 < w.next_task_id

  pub init-IsValid :
      (wheel_size tick_interval_ms : ℕ)
      → 0 < wheel_size
      → 0 < tick_interval_ms
      → IsValid (init wheel_size tick_interval_ms)
  unfolding init
  init-IsValid n t h k = record {
    sized = record { size_pos = h; slots = length-replicate n [] };
    interval_pos = k;
    fresh = λ i _ s. slot_count-replicate i n s;
    ids_pos = omega arith;
  }

  insert_node-IsValid :
      (w : TimingWheel T) (n : ℕ) (task : Option T) (p : Bool)
      → IsValid w
      → IsValid (insert_node w n task p)
  insert_node-IsValid w n task p v = record {
    sized = record { size_pos = v.sized.size_pos; slots = length-set w.wheel _ _ ∙ v.sized.slots };
    interval_pos = v.interval_pos;
    fresh = λ i h s.
        slot_count-push_ne i w.wheel _ w.next_task_id s (omega arith) ∙ v.fresh i (omega arith) s;
    ids_pos = omega arith;
  }

  -- Whatever it is called with, adding a task keeps a valid wheel valid.
  pub add_task_internal-IsValid :
      (w : TimingWheel T) (delay_ms : ℤ) (task : Option T) (p : Bool)
      → IsValid w
      → IsValid (add_task_internal w delay_ms task p).0
  unfolding add_task_internal
  add_task_internal-IsValid w (ℤ.negsuc d) task p v = v
  add_task_internal-IsValid w (pos d) task p v = elim (Bool-cases (d == 0)) [
    | inl e ↦ rw e v
    | inr e ↦ rw e (elim (Bool-cases (is_some task)) [
      | inr none' ↦ rw none' v
      | inl given ↦ rw given (elim (Bool-cases (ltb max_safe_delay_ms d)) [
        | inl long ↦ rw long v
        | inr short ↦ rw short (insert_node-IsValid w (ticks_to_wait w d) task p v)
      ])
    ])
  ]

  insert_node-SameFor :
      (i : ℕ) (w : TimingWheel T) (n : ℕ) (task : Option T) (p : Bool)
      → i < w.next_task_id
      → let w' = insert_node w n task p in SameFor i w w' × (i < w'.next_task_id)
  insert_node-SameFor i w n task p known = (
    record {
      node = ground arith;
      mapped = ground arith;
      now = refl;
      size = refl;
      slots = length-set w.wheel _ _;
      held = λ s. slot_count-push_ne i w.wheel _ w.next_task_id s (omega arith);
    },
    omega arith,
  )

  -- The delay, in ticks, of an accepted task counts at least one.
  ticks_to_wait_pos : (w : TimingWheel T) (d : ℕ) → IsValid w → 0 < d → 0 < ticks_to_wait w d
  ticks_to_wait_pos w d v h = ground arith

  insert_node-Due :
      (w : TimingWheel T) (m : ℕ) (t : T) (p : Bool)
      → IsValid w
      → Due w.next_task_id (suc m) p t m (insert_node w (suc m) (some t) p)
  insert_node-Due w m t p v = record {
    sized = record { size_pos = v.sized.size_pos; slots = length-set w.wheel _ _ ∙ v.sized.slots };
    node = ground arith;
    here = rw turn pushed.0;
    elsewhere = λ s ne. pushed.1 s (λ q. ne (q ∙ sym turn));
  }
    where
      turn : (w.current_tick + (m + 1)) % w.wheel_size ≡ (w.current_tick + suc m) % w.wheel_size
      turn = ap (λ (x : ℕ). (w.current_tick + x) % w.wheel_size) (omega arith)

      pushed :
          (slot_count w.next_task_id
              (push_back w.wheel ((w.current_tick + suc m) % w.wheel_size) w.next_task_id)
              ((w.current_tick + suc m) % w.wheel_size)
            ≡ 1)
          × ((s : ℕ)
              → s ≢ (w.current_tick + suc m) % w.wheel_size
              → slot_count w.next_task_id
                  (push_back w.wheel ((w.current_tick + suc m) % w.wheel_size) w.next_task_id)
                  s
                ≡ 0)
      pushed =
          push_back-alone w.next_task_id w.wheel _ (slot-lt w v.sized (suc m))
            (v.fresh w.next_task_id (omega arith))

  -- What an accepted call does.
  add_task_internal-accepts :
      (w : TimingWheel T) (d : ℕ) (t : T) (p : Bool)
      → 0 < d
      → d ≤ max_safe_delay_ms
      → add_task_internal w (pos d) (some t) p
        ≡ (insert_node w (ticks_to_wait w d) (some t) p, w.next_task_id)
  unfolding add_task_internal
  add_task_internal-accepts w d t p h k = ground arith

  -- On a valid wheel, adding a task whose delay is not positive or is too long, or that is no
  -- task, gives the invalid id and leaves the wheel alone; any other gets the next id, which is a
  -- valid one.
  pub add_task_internal-refuses :
      (w : TimingWheel T) (delay_ms : ℤ) (task : Option T) (p : Bool)
      → IsValid w
      → let r = add_task_internal w delay_ms task p in
        (((delay_ms ≤ℤ pos 0) ⊎ (task ≡ none) ⊎ (max_safe_delay_ms < pos_part delay_ms))
          × (r ≡ (w, invalid_timer_id)))
        ⊎ ((pos 0 <ℤ delay_ms)
            × (is_some task ≡ true)
            × (pos_part delay_ms ≤ max_safe_delay_ms)
            × (r.1 ≡ w.next_task_id)
            × (r.1 ≢ invalid_timer_id))
  unfolding add_task_internal
  add_task_internal-refuses w (ℤ.negsuc d) task p v = inl (inl (omega arith), refl)
  add_task_internal-refuses w (pos d) none p v = inl (inr (inl refl), ground arith)
  add_task_internal-refuses w (pos d) (some t) p v = elim (Bool-cases (d == 0)) [
    | inl e ↦ inl (inl (ground arith), rw e refl)
    | inr e ↦ elim (Bool-cases (ltb max_safe_delay_ms d)) [
      | inl long ↦ inl (inr (inr (ground arith)), rw (e, long) refl)
      | inr short ↦
          let ids_pos = v.ids_pos in
          rw (e, short) (inr (ground arith, refl, ground arith, refl, omega arith))
    ]
  ]

module _ {T : Type 0} where
  -- The sums of `int` that place a task are in its range: the delay rounded up, and its slot.
  abbrev pub FitsInt : TimingWheel T → ℕ → Type 0
  FitsInt w d =
      (d + w.tick_interval_ms - 1 ≤ int_max) × (w.current_tick + ticks_to_wait w d ≤ int_max)

  -- A wheel whose interval and number of slots leave room for every delay, and whose hand is on it.
  abbrev pub IsSmall : TimingWheel T → Type 0
  IsSmall w =
      (w.tick_interval_ms + max_safe_delay_ms ≤ int_max)
      × (w.wheel_size + max_safe_delay_ms ≤ int_max)
      × (w.current_tick < w.wheel_size)

  -- No delay takes more ticks than it has milliseconds.
  ticks_to_wait-le : (w : TimingWheel T) (d : ℕ) → IsValid w → 0 < d → ticks_to_wait w d ≤ d
  ticks_to_wait-le w d v h =
      div-le_of_le-mul w.tick_interval_ms (rounded w.tick_interval_ms d v.interval_pos h)

  IsSmall-FitsInt :
      (w : TimingWheel T) (d : ℕ)
      → IsValid w
      → IsSmall w
      → 0 < d
      → d ≤ max_safe_delay_ms
      → FitsInt w d
  IsSmall-FitsInt w d v (a, b, c) h k = (omega arith, omega (arith, ticks_to_wait-le w d v h))

  -- Adding a task leaves every task alone that was added before.
  pub add_task_internal-SameFor :
      (i : ℕ) (w : TimingWheel T) (delay_ms : ℤ) (task : Option T) (p : Bool)
      → i < w.next_task_id
      → let w' = (add_task_internal w delay_ms task p).0 in SameFor i w w' × (i < w'.next_task_id)
  unfolding add_task_internal
  add_task_internal-SameFor i w (ℤ.negsuc d) task p known = (SameFor-refl i w, known)
  add_task_internal-SameFor i w (pos d) task p known = elim (Bool-cases (d == 0)) [
    | inl e ↦ rw e (SameFor-refl i w, known)
    | inr e ↦ rw e (elim (Bool-cases (is_some task)) [
      | inr none' ↦ rw none' (SameFor-refl i w, known)
      | inl given ↦ rw given (elim (Bool-cases (ltb max_safe_delay_ms d)) [
        | inl long ↦ rw long (SameFor-refl i w, known)
        | inr short ↦ rw short (insert_node-SameFor i w (ticks_to_wait w d) task p known)
      ])
    ])
  ]

module _ {T : Type 0} (exec : T → TimingWheel T → TimingWheel T) where
  -- A one-shot task added to a valid wheel, with a delay in range, runs on the tick where its
  -- delay, rounded up to ticks, has passed: not before, and never again. The interval and the number
  -- of slots are such that the sums of `int` for any delay are in range, which is shown for this one.
  -- Callbacks may use the wheel, and add and cancel other tasks, as long as they leave this task
  -- alone once it is added.
  pub ticks-add_task :
      (w : TimingWheel T) (d : ℕ) (t : T) (n : ℕ)
      → IsValid w
      → IsSmall w
      → 0 < d
      → d ≤ max_safe_delay_ms
      → Frames w.next_task_id exec
      → FitsInt w d
        × (count (add_task w (pos d) (some t)).1 (ticks exec n (add_task w (pos d) (some t)).0).1
            ≡ (if leb (ticks_to_wait w d) n then 1 else 0))
  unfolding add_task
  ticks-add_task w d t n v small h k f = (
    IsSmall-FitsInt w d v small h k,
    rw (add_task_internal-accepts w d t false h k) (
        let e : ticks_to_wait w d ≡ suc (ticks_to_wait w d - 1) =
          omega (arith, ticks_to_wait_pos w d v h) in
        rw e (
          ticks-count_once w.next_task_id exec f n (ticks_to_wait w d - 1) _ t _ (omega arith)
            (insert_node-Due w (ticks_to_wait w d - 1) t false v)
          ∙ ground arith)),
  )

  -- A periodic task added to a valid wheel, with an interval in range, has run once for every
  -- whole interval, rounded up to ticks. The interval of the wheel and the number of its slots are
  -- such that the sums of `int` for any delay are in range, which is shown for this one. Callbacks
  -- may use the wheel, and add and cancel other tasks, as long as they leave this task alone once
  -- it is added.
  pub ticks-add_periodic_task :
      (w : TimingWheel T) (d : ℕ) (t : T) (n : ℕ)
      → IsValid w
      → IsSmall w
      → 0 < d
      → d ≤ max_safe_delay_ms
      → Frames w.next_task_id exec
      → FitsInt w d
        × (count
              (add_periodic_task w (pos d) (some t)).1
              (ticks exec n (add_periodic_task w (pos d) (some t)).0).1
            ≡ n / ticks_to_wait w d)
  unfolding add_periodic_task
  ticks-add_periodic_task w d t n v small h k f = (
    IsSmall-FitsInt w d v small h k,
    rw (add_task_internal-accepts w d t true h k) (
        let m = ticks_to_wait w d - 1 in
        let e : ticks_to_wait w d ≡ suc m = omega (arith, ticks_to_wait_pos w d v h) in
        let all : n + m - m ≡ n = omega arith in
        rw e (
          ticks-count_periodic w.next_task_id exec f n m m t _ (omega arith) (omega arith)
            (insert_node-Due w m t true v)
          ∙ ap (λ (x : ℕ). x / suc m) all)),
  )

module _ {T : Type 0} where
  advance-IsValid : (w : TimingWheel T) → IsValid w → IsValid (advance w).0
  unfolding advance
  advance-IsValid w v =
      let same = reschedule-constants (scanned w).to_reschedule (with_scan w (scanned w)) in
      let gone = λ (i : ℕ) (h : w.next_task_id ≤ i).
        advance-Gone i w (record { sized = v.sized; nowhere = v.fresh i h }) in
      record {
        sized = (gone w.next_task_id (omega arith)).1.sized;
        interval_pos = omega (arith, same.1);
        fresh = λ i h. (gone i (omega (arith, same.0))).1.nowhere;
        ids_pos = omega (arith, same.0);
      }

module _ {T : Type 0} (exec : T → TimingWheel T → TimingWheel T)
    (keeps : (t : T) (w : TimingWheel T) → IsValid w → IsValid (exec t w)) where
  run_tasks-IsValid :
      (xs : List ℕ) (w : TimingWheel T) → IsValid w → IsValid (run_tasks exec xs w).0
  unfolding run_tasks run_node
  run_tasks-IsValid [] w v = v
  run_tasks-IsValid (x ∷ xs) w v =
      run_tasks-IsValid xs (run_node exec x w).0 (elim (Bool-cases (w.nodes x).cancelled) [
        | inl e ↦ rw e v
        | inr e ↦ rw e (elim (Option-cases (w.nodes x).task) [
          | inl none' ↦ rw none' v
          | inr (t, e') ↦ rw e' (keeps t w v)
        ])
      ])

  -- A tick keeps a valid wheel valid, if each callback does.
  pub tick-IsValid : (w : TimingWheel T) → IsValid w → IsValid (tick exec w).0
  unfolding tick
  tick-IsValid w v = run_tasks-IsValid (advance w).1 (advance w).0 (advance-IsValid w v)
