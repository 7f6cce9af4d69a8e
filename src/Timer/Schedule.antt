-- ===== src/Timer/Schedule.antt =====
-- include/base/timing_wheel.hpp: the slot and the laps of a node, and the ticks they stand for.
use fix4_0_demo.Prelude.{
  ℕ, suc, ◌+◌, ◌-◌, ◌/◌, ◌%◌, ◌<◌, ◌≡◌, ◌≢◌, refl, sym, ◌∙◌, ap, [], arith, ◌==◌, if◌then◌else◌,
  get_or, length, length-set, false, inl, inr, Bool-cases, ==_iff, Bool, some,
}
use fix4_0_demo.Timer.{
  TimerNode, TimingWheel, Scan, scan_node, reschedule_node, next_slot, unscanned, with_scan,
  advance,
}
use fix4_0_demo.Timer.Counting.{
  count, slot_count, slot_count-set_self, slot_count-set_ne, slot_after_tick, laps_left, slot_now,
  laps_fall, laps_stay,
}
use fix4_0_demo.Timer.Slots.{
  Agrees, SameFor, SameFor-trans, scan_slot-absent, scan_slot-once, reschedule-absent,
  reschedule-once, reschedule_node-cong,
}

module _ {T : Type 0} where
  pub record IsSized (w : TimingWheel T) : Type 0 where
    pub size_pos : 0 < w.wheel_size
    pub slots : length w.wheel ≡ w.wheel_size

  -- The node of a live task, with what is left and how it was added.
  abbrev pub live_node : ℕ → ℕ → Bool → T → TimerNode T
  live_node laps interval periodic t = record {
    remaining_laps = laps;
    interval_ticks = interval;
    is_periodic = periodic;
    cancelled = false;
    task = some t;
  }

  -- Task `i`, with its interval and kind, stands in one slot, and comes due in `m + 1` ticks.
  pub record Due (i interval : ℕ) (periodic : Bool) (t : T) (m : ℕ) (w : TimingWheel T)
      : Type 0 where
    pub sized : IsSized w
    pub node : w.nodes i ≡ live_node (m / w.wheel_size) interval periodic t
    pub here : slot_count i w.wheel ((w.current_tick + (m + 1)) % w.wheel_size) ≡ 1
    pub elsewhere :
        (s : ℕ) → s ≢ (w.current_tick + (m + 1)) % w.wheel_size → slot_count i w.wheel s ≡ 0

  -- No slot holds task `i`.
  pub record Gone (i : ℕ) (w : TimingWheel T) : Type 0 where
    pub sized : IsSized w
    pub nowhere : (s : ℕ) → slot_count i w.wheel s ≡ 0

  pub next_slot-lt : (w : TimingWheel T) → IsSized w → next_slot w < length w.wheel
  next_slot-lt w z = omega arith

  IsSized-SameFor : (i : ℕ) {v w : TimingWheel T} → SameFor i v w → IsSized v → IsSized w
  IsSized-SameFor i p z = record { size_pos = omega arith; slots = omega arith }

  pub Gone-SameFor : (i : ℕ) {v w : TimingWheel T} → SameFor i v w → Gone i v → Gone i w
  Gone-SameFor i p g = record {
    sized = IsSized-SameFor i p g.sized;
    nowhere = λ s. p.held s ∙ g.nowhere s;
  }

  pub Due-SameFor :
      (i k : ℕ) (p : Bool) (t : T) (m : ℕ) {v w : TimingWheel T}
      → SameFor i v w
      → Due i k p t m v
      → Due i k p t m w
  Due-SameFor i k p t m {v} {w} same d = record {
    sized = IsSized-SameFor i same d.sized;
    node = rw same.size (same.node ∙ d.node);
    here = rw (same.size, same.now) (same.held _ ∙ d.here);
    elsewhere = λ s ne. same.held s ∙ d.elsewhere s (λ e. ne (rw (same.size, same.now) e));
  }

  -- The pass over the slot, as task `i` sees it.
  abbrev pub alone : ℕ → TimingWheel T → TimingWheel T
  alone i w = with_scan w (scan_node i (unscanned w))

  module _ (i : ℕ) (w : TimingWheel T) (z : IsSized w) where
    -- Scans that agree on `i` leave it alike in the wheel.
    with_scan-SameFor : (a b : Scan T) → Agrees i a b → SameFor i (with_scan w a) (with_scan w b)
    with_scan-SameFor a b g = record {
      node = g.node;
      mapped = g.mapped;
      now = refl;
      size = refl;
      slots = length-set w.wheel _ _ ∙ sym (length-set w.wheel _ _);
      held = λ s. elim (Bool-cases (next_slot w == s)) [
        | inl e ↦
            let same : next_slot w ≡ s = (==_iff _ s).0 e in
            rw (← same) (
              slot_count-set_self i w.wheel (next_slot w) b.kept (next_slot-lt w z)
              ∙ g.kept
              ∙ sym (slot_count-set_self i w.wheel (next_slot w) a.kept (next_slot-lt w z)))
        | inr e ↦
            slot_count-set_ne i w.wheel (next_slot w) s _ (ground arith)
            ∙ sym (slot_count-set_ne i w.wheel (next_slot w) s _ (ground arith))
      ];
    }

    pub advance-absent :
        slot_count i w.wheel (next_slot w) ≡ 0
        → (count i (advance w).1 ≡ 0) × SameFor i (with_scan w (unscanned w)) (advance w).0
    unfolding advance
    advance-absent h =
        let a = scan_slot-absent i (get_or w.wheel (next_slot w) []) (unscanned w) h in
        (a.run, SameFor-trans i (with_scan-SameFor _ _ a) (reschedule-absent i _ _ a.again))

    pub advance-once :
        slot_count i w.wheel (next_slot w) ≡ 1
        → (count i (advance w).1 ≡ count i (scan_node i (unscanned w)).to_run)
          × (count i (scan_node i (unscanned w)).to_reschedule ≡ 0
              → SameFor i (alone i w) (advance w).0)
          × (count i (scan_node i (unscanned w)).to_reschedule ≡ 1
              → SameFor i (reschedule_node (alone i w) i) (advance w).0)
    unfolding advance
    advance-once h =
        let a = scan_slot-once i (get_or w.wheel (next_slot w) []) (unscanned w) h in
        (
          a.run,
          λ none.
              SameFor-trans i (with_scan-SameFor _ _ a) (reschedule-absent i _ _ (a.again ∙ none)),
          λ once.
              SameFor-trans i (reschedule_node-cong i (with_scan-SameFor _ _ a))
                (reschedule-once i _ _ (a.again ∙ once)),
        )

  module _ (i k : ℕ) (p : Bool) (t : T) (w : TimingWheel T) where
    -- A node with laps left stays in its slot, one lap nearer.
    scan_node-late :
        (l : ℕ)
        → 0 < l
        → w.nodes i ≡ live_node l k p t
        → ((scan_node i (unscanned w)).nodes i ≡ live_node (l - 1) k p t)
          × (count i (scan_node i (unscanned w)).kept ≡ 1)
          × (count i (scan_node i (unscanned w)).to_run ≡ 0)
          × (count i (scan_node i (unscanned w)).to_reschedule ≡ 0)
    unfolding scan_node
    scan_node-late l h e = (ground arith, ground arith, ground arith, ground arith)

    -- A node with no laps left is run, and a periodic one is scheduled again.
    pub scan_node-due :
        w.nodes i ≡ live_node 0 k p t
        → ((scan_node i (unscanned w)).nodes i ≡ live_node 0 k p t)
          × (count i (scan_node i (unscanned w)).kept ≡ 0)
          × (count i (scan_node i (unscanned w)).to_run ≡ 1)
          × (count i (scan_node i (unscanned w)).to_reschedule ≡ (if p then 1 else 0))
    unfolding scan_node
    scan_node-due e = (ground arith, ground arith, ground arith, ground arith)

    module _ (m : ℕ) (d : Due i k p t (suc m) w) where
      slot_later :
          (next_slot w + (m + 1)) % w.wheel_size ≡ (w.current_tick + (suc m + 1)) % w.wheel_size
      slot_later =
          slot_after_tick w.wheel_size d.sized.size_pos w.current_tick (m + 1)
          ∙ ap (λ (x : ℕ). (w.current_tick + x) % w.wheel_size) (omega arith)

      -- The slot comes up, and a lap is used.
      later_lap :
          suc m % w.wheel_size ≡ 0 → (count i (advance w).1 ≡ 0) × Due i k p t m (advance w).0
      later_lap e = (
        once.0 ∙ late.2,
        Due-SameFor i k p t m (once.1 late.3) (record {
          sized = record {
            size_pos = d.sized.size_pos;
            slots = length-set w.wheel _ _ ∙ d.sized.slots;
          };
          node = late.0 ∙ ap (λ (l : ℕ). live_node l k p t) fall.1;
          here = rw slot_later (
              rw (← now)
                (slot_count-set_self i w.wheel (next_slot w) _ (next_slot-lt w d.sized) ∙ late.1));
          elsewhere = λ s ne.
              slot_count-set_ne i w.wheel (next_slot w) s _ (λ q. ne (sym q ∙ now ∙ sym slot_later))
              ∙ d.elsewhere s (λ q. ne (q ∙ sym slot_later));
        }),
      )
        where
          fall : (0 < suc m / w.wheel_size) × (suc m / w.wheel_size - 1 ≡ m / w.wheel_size)
          fall = laps_fall w.wheel_size d.sized.size_pos m e

          now : next_slot w ≡ (w.current_tick + (suc m + 1)) % w.wheel_size
          now = slot_now w.wheel_size d.sized.size_pos w.current_tick (suc m) e

          late :
              ((scan_node i (unscanned w)).nodes i ≡ live_node (suc m / w.wheel_size - 1) k p t)
              × (count i (scan_node i (unscanned w)).kept ≡ 1)
              × (count i (scan_node i (unscanned w)).to_run ≡ 0)
              × (count i (scan_node i (unscanned w)).to_reschedule ≡ 0)
          late = scan_node-late (suc m / w.wheel_size) fall.0 d.node

          once :
              (count i (advance w).1 ≡ count i (scan_node i (unscanned w)).to_run)
              × (count i (scan_node i (unscanned w)).to_reschedule ≡ 0
                  → SameFor i (alone i w) (advance w).0)
              × (count i (scan_node i (unscanned w)).to_reschedule ≡ 1
                  → SameFor i (reschedule_node (alone i w) i) (advance w).0)
          once = advance-once i w d.sized (rw now d.here)

      -- Another slot comes up.
      later_stay :
          suc m % w.wheel_size ≢ 0 → (count i (advance w).1 ≡ 0) × Due i k p t m (advance w).0
      later_stay ne = (
        away.0,
        Due-SameFor i k p t m away.1 (record {
          sized = record {
            size_pos = d.sized.size_pos;
            slots = length-set w.wheel _ _ ∙ d.sized.slots;
          };
          node =
              d.node
              ∙ ap (λ (l : ℕ). live_node l k p t) (laps_stay w.wheel_size d.sized.size_pos m ne);
          here = rw slot_later (slot_count-set_ne i w.wheel (next_slot w) _ _ not_now ∙ d.here);
          elsewhere = λ s other. elim (Bool-cases (next_slot w == s)) [
            | inl e ↦
                let same : next_slot w ≡ s = (==_iff _ s).0 e in
                rw (← same)
                  (slot_count-set_self i w.wheel (next_slot w) [] (next_slot-lt w d.sized))
            | inr e ↦
                slot_count-set_ne i w.wheel (next_slot w) s _ (ground arith)
                ∙ d.elsewhere s (λ q. other (q ∙ sym slot_later))
          ];
        }),
      )
        where
          not_now : next_slot w ≢ (w.current_tick + (suc m + 1)) % w.wheel_size
          not_now e = ne (laps_left w.wheel_size d.sized.size_pos w.current_tick (suc m) e)

          away : (count i (advance w).1 ≡ 0) × SameFor i (with_scan w (unscanned w)) (advance w).0
          away = advance-absent i w d.sized (d.elsewhere (next_slot w) not_now)

    -- A task that is not due yet is not run, and comes one tick nearer.
    pub advance-later :
        (m : ℕ) → Due i k p t (suc m) w → (count i (advance w).1 ≡ 0) × Due i k p t m (advance w).0
    advance-later m d = elim (Bool-cases (suc m % w.wheel_size == 0)) [
      | inl e ↦ later_lap m d (ground arith)
      | inr e ↦ later_stay m d (ground arith)
    ]
