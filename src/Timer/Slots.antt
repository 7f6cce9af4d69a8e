-- ===== src/Timer/Slots.antt =====
-- `TimingWheel::tick`: one pass over a slot, and the rescheduling behind it, for one of the nodes.
use fix4_0_demo.Prelude.{
  ℕ, ◌+◌, ◌%◌, ◌≡◌, ◌≢◌, refl, sym, ◌∙◌, ap, List, [], ◌∷◌, arith, ◌==◌, length, length-set, false,
  true, inl, inr, Bool-cases, ==_iff,
}
use fix4_0_demo.Timer.{
  TimerNode, TimingWheel, Scan, scan_node, scan_slot, reschedule_node, reschedule,
}
use fix4_0_demo.Timer.Counting.{
  count, count-append, slot_count, slot_count-push, slot_count-push_ne,
}

module _ {T : Type 0} (i : ℕ) where
  -- Two scans that treat the task alike.
  pub record Agrees (a b : Scan T) : Type 0 where
    pub node : b.nodes i ≡ a.nodes i
    pub mapped : b.task_map i ≡ a.task_map i
    pub kept : count i b.kept ≡ count i a.kept
    pub run : count i b.to_run ≡ count i a.to_run
    pub again : count i b.to_reschedule ≡ count i a.to_reschedule

  Agrees-trans : {a b c : Scan T} → Agrees a b → Agrees b c → Agrees a c
  Agrees-trans p q = record {
    node = q.node ∙ p.node;
    mapped = q.mapped ∙ p.mapped;
    kept = q.kept ∙ p.kept;
    run = q.run ∙ p.run;
    again = q.again ∙ p.again;
  }

  scan_node-Agrees : (id : ℕ) (a : Scan T) → id ≢ i → Agrees a (scan_node id a)
  unfolding scan_node
  scan_node-Agrees id a ne = ground (
    arith,
    count-append i a.kept (id ∷ []),
    count-append i a.to_run (id ∷ []),
    count-append i a.to_reschedule (id ∷ []),
  )

  scan_node-cong : {a b : Scan T} → Agrees a b → Agrees (scan_node i a) (scan_node i b)
  unfolding scan_node
  scan_node-cong {a} {b} p = ground (
    arith,
    count-append i a.kept (i ∷ []),
    count-append i a.to_run (i ∷ []),
    count-append i a.to_reschedule (i ∷ []),
    count-append i b.kept (i ∷ []),
    count-append i b.to_run (i ∷ []),
    count-append i b.to_reschedule (i ∷ []),
  )

  pub scan_slot-absent : (ids : List ℕ) (a : Scan T) → count i ids ≡ 0 → Agrees a (scan_slot ids a)
  unfolding scan_slot
  scan_slot-absent [] a h = record {
    node = refl;
    mapped = refl;
    kept = refl;
    run = refl;
    again = refl;
  }
  scan_slot-absent (x ∷ xs) a h =
      Agrees-trans (scan_node-Agrees x a (ground arith))
        (scan_slot-absent xs (scan_node x a) (ground arith))

  -- A task that stands once in the slot is treated as if it stood there alone.
  pub scan_slot-once :
      (ids : List ℕ) (a : Scan T) → count i ids ≡ 1 → Agrees (scan_node i a) (scan_slot ids a)
  unfolding scan_slot
  scan_slot-once [] a h = absurd (omega arith)
  scan_slot-once (x ∷ xs) a h = elim (Bool-cases (x == i)) [
    | inl e ↦
        let same : x ≡ i = (==_iff x i).0 e in
        rw same (scan_slot-absent xs (scan_node i a) (ground arith))
    | inr e ↦
        Agrees-trans (scan_node-cong (scan_node-Agrees x a (ground arith)))
          (scan_slot-once xs (scan_node x a) (ground arith))
  ]

  -- Two wheels that hold the task alike.
  pub record SameFor (v w : TimingWheel T) : Type 0 where
    pub node : w.nodes i ≡ v.nodes i
    pub mapped : w.task_map i ≡ v.task_map i
    pub now : w.current_tick ≡ v.current_tick
    pub size : w.wheel_size ≡ v.wheel_size
    pub slots : length w.wheel ≡ length v.wheel
    pub held : (s : ℕ) → slot_count i w.wheel s ≡ slot_count i v.wheel s

  pub SameFor-refl : (w : TimingWheel T) → SameFor w w
  SameFor-refl w = record {
    node = refl;
    mapped = refl;
    now = refl;
    size = refl;
    slots = refl;
    held = λ s. refl;
  }

  pub SameFor-trans : {u v w : TimingWheel T} → SameFor u v → SameFor v w → SameFor u w
  SameFor-trans p q = record {
    node = q.node ∙ p.node;
    mapped = q.mapped ∙ p.mapped;
    now = q.now ∙ p.now;
    size = q.size ∙ p.size;
    slots = q.slots ∙ p.slots;
    held = λ s. q.held s ∙ p.held s;
  }

  pub reschedule_node-SameFor :
      (id : ℕ) (w : TimingWheel T) → id ≢ i → SameFor w (reschedule_node w id)
  unfolding reschedule_node
  reschedule_node-SameFor id w ne = elim (Bool-cases (w.nodes id).cancelled) [
    | inl e ↦ rw e (SameFor-refl w)
    | inr e ↦ rw e (record {
      node = ground arith;
      mapped = refl;
      now = refl;
      size = refl;
      slots = length-set w.wheel _ _;
      held = λ s. slot_count-push_ne i w.wheel _ id s ne;
    })
  ]

  pub reschedule_node-cong :
      {v w : TimingWheel T} → SameFor v w → SameFor (reschedule_node v i) (reschedule_node w i)
  unfolding reschedule_node
  reschedule_node-cong {v} {w} p = elim (Bool-cases (v.nodes i).cancelled) [
    | inl e ↦
        let e' : (w.nodes i).cancelled ≡ true = ap (λ (n : TimerNode T). n.cancelled) p.node ∙ e in
        rw (e, e') p
    | inr e ↦
        let e' : (w.nodes i).cancelled ≡ false = ap (λ (n : TimerNode T). n.cancelled) p.node ∙ e in
        rw (e, e')
          (record {
            node = ground arith;
            mapped = p.mapped;
            now = p.now;
            size = p.size;
            slots = length-set w.wheel _ _ ∙ p.slots ∙ sym (length-set v.wheel _ _);
            held = λ s. ground (
              arith,
              p.held s,
              slot_count-push i v.wheel
                  ((v.current_tick + (v.nodes i).interval_ticks) % v.wheel_size) i s,
              slot_count-push i w.wheel
                  ((w.current_tick + (w.nodes i).interval_ticks) % w.wheel_size) i s,
            );
          })
  ]

  pub reschedule-absent :
      (ids : List ℕ) (w : TimingWheel T) → count i ids ≡ 0 → SameFor w (reschedule ids w)
  unfolding reschedule
  reschedule-absent [] w h = SameFor-refl w
  reschedule-absent (x ∷ xs) w h =
      SameFor-trans (reschedule_node-SameFor x w (ground arith))
        (reschedule-absent xs (reschedule_node w x) (ground arith))

  -- So a task that is listed once is rescheduled as if it were listed alone.
  pub reschedule-once :
      (ids : List ℕ) (w : TimingWheel T)
      → count i ids ≡ 1
      → SameFor (reschedule_node w i) (reschedule ids w)
  unfolding reschedule
  reschedule-once [] w h = absurd (omega arith)
  reschedule-once (x ∷ xs) w h = elim (Bool-cases (x == i)) [
    | inl e ↦
        let same : x ≡ i = (==_iff x i).0 e in
        rw same (reschedule-absent xs (reschedule_node w i) (ground arith))
    | inr e ↦
        SameFor-trans (reschedule_node-cong (reschedule_node-SameFor x w (ground arith)))
          (reschedule-once xs (reschedule_node w x) (ground arith))
  ]
