-- ===== src/Timer/Advance.antt =====
-- The life of one task over one tick: when it comes due, and when it is put back.
use fix4_0_demo.Prelude.{
  ℕ, suc, ◌+◌, ◌%◌, ◌<◌, ◌≡◌, ◌≢◌, refl, ◌∷◌, sym, ◌∙◌, ap, List, [], arith, ◌==◌, length,
  length-set, false, true, inl, inr, Bool-cases, ==_iff, Bool,
}
use fix4_0_demo.Timer.{
  TimingWheel, scan_node, reschedule_node, reschedule, push_back, next_slot, unscanned, scanned,
  with_scan, advance,
}
use fix4_0_demo.Timer.Counting.{
  count, slot_count, slot_count-set_self, slot_count-set_ne, slot_count-push,
}
use fix4_0_demo.Timer.Slots.{SameFor}
use fix4_0_demo.Timer.Schedule.{
  IsSized, Due, Gone, live_node, alone, Due-SameFor, Gone-SameFor, advance-once, advance-absent,
  scan_node-due, next_slot-lt,
}

-- An id that stands nowhere stands, once pushed, in its slot alone.
pub push_back-alone :
    (i : ℕ) (wheel : List (List ℕ)) (s : ℕ)
    → s < length wheel
    → ((s' : ℕ) → slot_count i wheel s' ≡ 0)
    → (slot_count i (push_back wheel s i) s ≡ 1)
      × ((s' : ℕ) → s' ≢ s → slot_count i (push_back wheel s i) s' ≡ 0)
push_back-alone i wheel s h empty = (
  ground (arith, slot_count-push i wheel s i s, empty s),
  λ s' ne. ground (arith, slot_count-push i wheel s i s', empty s'),
)

pub slot-lt :
    {T : Type 0} (w : TimingWheel T)
    → IsSized w
    → (n : ℕ) → (w.current_tick + n) % w.wheel_size < length w.wheel
slot-lt w z n = omega arith

module _ {T : Type 0} (i : ℕ) where
  pub reschedule_node-Due :
      (k l : ℕ) (t : T) (v : TimingWheel T)
      → IsSized v
      → v.nodes i ≡ live_node l (suc k) true t
      → ((s : ℕ) → slot_count i v.wheel s ≡ 0)
      → Due i (suc k) true t k (reschedule_node v i)
  unfolding reschedule_node
  reschedule_node-Due k l t v z e empty = rw e (record {
    sized = record { size_pos = z.size_pos; slots = length-set v.wheel _ _ ∙ z.slots };
    node = ground (arith, e);
    here = rw turn pushed.0;
    elsewhere = λ s ne. pushed.1 s (λ q. ne (q ∙ sym turn));
  })
    where
      turn : (v.current_tick + (k + 1)) % v.wheel_size ≡ (v.current_tick + suc k) % v.wheel_size
      turn = ap (λ (x : ℕ). (v.current_tick + x) % v.wheel_size) (omega arith)

      pushed :
          (slot_count i
              (push_back v.wheel ((v.current_tick + suc k) % v.wheel_size) i)
              ((v.current_tick + suc k) % v.wheel_size)
            ≡ 1)
          × ((s : ℕ)
              → s ≢ (v.current_tick + suc k) % v.wheel_size
              → slot_count i (push_back v.wheel ((v.current_tick + suc k) % v.wheel_size) i) s ≡ 0)
      pushed = push_back-alone i v.wheel _ (slot-lt v z (suc k)) empty

  module _ (k : ℕ) (p : Bool) (t : T) (w : TimingWheel T) (d : Due i k p t 0 w) where
    due_node : w.nodes i ≡ live_node 0 k p t
    due_node = d.node ∙ ap (λ (l : ℕ). live_node l k p t) (omega (arith, d.sized.size_pos))

    -- The pass takes a task that is due out of its slot.
    alone-empty : (s : ℕ) → slot_count i (alone i w).wheel s ≡ 0
    alone-empty s = elim (Bool-cases (next_slot w == s)) [
      | inl e ↦
          let same : next_slot w ≡ s = (==_iff _ s).0 e in
          rw (← same) (
            slot_count-set_self i w.wheel (next_slot w) _ (next_slot-lt w d.sized)
            ∙ (scan_node-due i k p t w due_node).1)
      | inr e ↦
          slot_count-set_ne i w.wheel (next_slot w) s _ (ground arith)
          ∙ d.elsewhere s (ground arith)
    ]

  -- A task that is due and does not repeat is run once, and leaves the wheel.
  pub advance-now :
      (k : ℕ) (t : T) (w : TimingWheel T)
      → Due i k false t 0 w
      → (count i (advance w).1 ≡ 1)
        × Gone i (advance w).0
        × ((advance w).0.nodes i ≡ live_node 0 k false t)
  advance-now k t w d =
      let scan = scan_node-due i k false t w (due_node k false t w d) in
      let once = advance-once i w d.sized d.here in
      let same = once.1 scan.3 in
      (
        once.0 ∙ scan.2,
        Gone-SameFor i same (
            (record {
              sized = record {
                size_pos = d.sized.size_pos;
                slots = length-set w.wheel _ _ ∙ d.sized.slots;
              };
              nowhere = alone-empty k false t w d;
            })),
        same.node ∙ scan.0,
      )

  -- A periodic task that is due is run once, and comes due again after its interval.
  pub advance-again :
      (k : ℕ) (t : T) (w : TimingWheel T)
      → Due i (suc k) true t 0 w
      → (count i (advance w).1 ≡ 1) × Due i (suc k) true t k (advance w).0
  advance-again k t w d = (
    once.0 ∙ scan.2,
    Due-SameFor i (suc k) true t k (once.2 scan.3) (
        reschedule_node-Due k 0 t (alone i w)
          (record { size_pos = d.sized.size_pos; slots = length-set w.wheel _ _ ∙ d.sized.slots })
          scan.0 (alone-empty (suc k) true t w d)),
  )
    where
      scan :
          ((scan_node i (unscanned w)).nodes i ≡ live_node 0 (suc k) true t)
          × (count i (scan_node i (unscanned w)).kept ≡ 0)
          × (count i (scan_node i (unscanned w)).to_run ≡ 1)
          × (count i (scan_node i (unscanned w)).to_reschedule ≡ 1)
      scan = scan_node-due i (suc k) true t w (due_node (suc k) true t w d)

      once :
          (count i (advance w).1 ≡ count i (scan_node i (unscanned w)).to_run)
          × (count i (scan_node i (unscanned w)).to_reschedule ≡ 0
              → SameFor i (alone i w) (advance w).0)
          × (count i (scan_node i (unscanned w)).to_reschedule ≡ 1
              → SameFor i (reschedule_node (alone i w) i) (advance w).0)
      once = advance-once i w d.sized d.here

  pub advance-Gone :
      (w : TimingWheel T) → Gone i w → (count i (advance w).1 ≡ 0) × Gone i (advance w).0
  advance-Gone w g =
      let away = advance-absent i w g.sized (g.nowhere (next_slot w)) in
      (
        away.0,
        Gone-SameFor i away.1 (record {
          sized = record {
            size_pos = g.sized.size_pos;
            slots = length-set w.wheel _ _ ∙ g.sized.slots;
          };
          nowhere = λ s. elim (Bool-cases (next_slot w == s)) [
            | inl e ↦
                let same : next_slot w ≡ s = (==_iff _ s).0 e in
                rw (← same)
                  (slot_count-set_self i w.wheel (next_slot w) [] (next_slot-lt w g.sized))
            | inr e ↦ slot_count-set_ne i w.wheel (next_slot w) s _ (ground arith) ∙ g.nowhere s
          ];
        }),
      )

module _ {T : Type 0} where
  pub reschedule-constants :
      (xs : List ℕ) (w : TimingWheel T)
      → ((reschedule xs w).next_task_id ≡ w.next_task_id)
        × ((reschedule xs w).tick_interval_ms ≡ w.tick_interval_ms)
  unfolding reschedule reschedule_node
  reschedule-constants [] w = (refl, refl)
  reschedule-constants (x ∷ xs) w = ground (arith, reschedule-constants xs (reschedule_node w x))

  -- The next id that is given out stays as it is.
  pub advance-next_task_id : (w : TimingWheel T) → (advance w).0.next_task_id ≡ w.next_task_id
  unfolding advance
  advance-next_task_id w =
      (reschedule-constants (scanned w).to_reschedule (with_scan w (scanned w))).0
