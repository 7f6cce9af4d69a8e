-- ===== src/Timer/Lifetime.antt =====
-- The life of one task: how often it has run after any number of ticks.
use native.Mathlib.Nat.{div-eq_of_lt, add-div_right}
use fix4_0_demo.Prelude.{
  ℕ, zero, suc, ◌+◌, ◌-◌, ◌/◌, ◌<◌, ◌≤◌, ◌≡◌, ◌≢◌, refl, sym, ◌∙◌, ap, List, [], ◌∷◌, arith, ◌==◌,
  if◌then◌else◌, false, true, inl, inr, Bool-cases, Bool, Option-cases, ltb,
}
use fix4_0_demo.Timer.{TimingWheel, advance, run_node, run_tasks, tick, ticks}
use fix4_0_demo.Timer.Counting.{count, count-append}
use fix4_0_demo.Timer.Slots.{SameFor, SameFor-refl, SameFor-trans}
use fix4_0_demo.Timer.Schedule.{Due, Gone, live_node, Due-SameFor, Gone-SameFor, advance-later}
use fix4_0_demo.Timer.Advance.{advance-now, advance-again, advance-Gone, advance-next_task_id}

-- One more interval is one more run.
one_more : (k n : ℕ) → (suc n + k - 0) / suc k ≡ (n + k - k) / suc k + 1
one_more k n =
    ap (λ (x : ℕ). x / suc k) (let e : suc n + k - 0 ≡ n + suc k = omega arith in e)
    ∙ add-div_right n (omega arith)
    ∙ ap (λ (x : ℕ). x / suc k + 1) (omega arith)

-- What a callback does that leaves task `i` as it is: on a wheel that has given out `i`, it
-- neither cancels it nor moves it, and takes no id back. It may add tasks and cancel others.
abbrev pub Frames : {T : Type 0} → ℕ → (T → TimingWheel T → TimingWheel T) → Type 0
Frames {T} i exec =
    (t : T) (w : TimingWheel T)
    → i < w.next_task_id
    → SameFor i w (exec t w) × (i < (exec t w).next_task_id)

module _ {T : Type 0} (i : ℕ) (exec : T → TimingWheel T → TimingWheel T)
    (frames : Frames i exec) where
  run_node-SameFor :
      (x : ℕ) (w : TimingWheel T)
      → i < w.next_task_id
      → SameFor i w (run_node exec x w).0 × (i < (run_node exec x w).0.next_task_id)
  unfolding run_node
  run_node-SameFor x w known = elim (Bool-cases (w.nodes x).cancelled) [
    | inl e ↦ rw e (SameFor-refl i w, known)
    | inr e ↦ rw e (elim (Option-cases (w.nodes x).task) [
      | inl none' ↦ rw none' (SameFor-refl i w, known)
      | inr (t, e') ↦ rw e' (frames t w known)
    ])
  ]

  run_node-count :
      (x : ℕ) (w : TimingWheel T) (l k : ℕ) (p : Bool) (t : T)
      → w.nodes i ≡ live_node l k p t
      → count i (run_node exec x w).1 ≡ (if x == i then 1 else 0)
  unfolding run_node
  run_node-count x w l k p t e = ground arith

  run_tasks-SameFor :
      (ids : List ℕ) (w : TimingWheel T)
      → i < w.next_task_id
      → SameFor i w (run_tasks exec ids w).0 × (i < (run_tasks exec ids w).0.next_task_id)
  unfolding run_tasks
  run_tasks-SameFor [] w known = (SameFor-refl i w, known)
  run_tasks-SameFor (x ∷ xs) w known =
      let one = run_node-SameFor x w known in
      let more = run_tasks-SameFor xs (run_node exec x w).0 one.1 in
      (SameFor-trans i one.0 more.0, more.1)

  -- What the callbacks of a tick do to the task.
  ran-SameFor :
      (w : TimingWheel T)
      → i < w.next_task_id
      → SameFor i (advance w).0 (run_tasks exec (advance w).1 (advance w).0).0
  ran-SameFor w known =
      (run_tasks-SameFor (advance w).1 (advance w).0 (omega (arith, advance-next_task_id w))).0

  tick-known : (w : TimingWheel T) → i < w.next_task_id → i < (tick exec w).0.next_task_id
  unfolding tick
  tick-known w known =
      (run_tasks-SameFor (advance w).1 (advance w).0 (omega (arith, advance-next_task_id w))).1

  -- A live task is run as often as it is listed.
  run_tasks-count :
      (ids : List ℕ) (w : TimingWheel T) (l k : ℕ) (p : Bool) (t : T)
      → i < w.next_task_id
      → w.nodes i ≡ live_node l k p t
      → count i (run_tasks exec ids w).1 ≡ count i ids
  unfolding run_tasks
  run_tasks-count [] w l k p t known e = refl
  run_tasks-count (x ∷ xs) w l k p t known e = omega (
    arith,
    count-append i (run_node exec x w).1 (run_tasks exec xs (run_node exec x w).0).1,
    run_node-count x w l k p t e,
    run_tasks-count xs (run_node exec x w).0 l k p t (run_node-SameFor x w known).1
        ((run_node-SameFor x w known).0.node ∙ e),
  )

  run_node-none : (x : ℕ) (w : TimingWheel T) → x ≢ i → count i (run_node exec x w).1 ≡ 0
  unfolding run_node
  run_node-none x w ne = ground arith

  run_tasks-absent :
      (ids : List ℕ) (w : TimingWheel T) → count i ids ≡ 0 → count i (run_tasks exec ids w).1 ≡ 0
  unfolding run_tasks
  run_tasks-absent [] w h = refl
  run_tasks-absent (x ∷ xs) w h = omega (
    arith,
    count-append i (run_node exec x w).1 (run_tasks exec xs (run_node exec x w).0).1,
    run_node-none x w (ground arith),
    run_tasks-absent xs (run_node exec x w).0 (ground arith),
  )

  module _ (k : ℕ) (p : Bool) (t : T) where
    tick-later :
        (m : ℕ) (w : TimingWheel T)
        → i < w.next_task_id
        → Due i k p t (suc m) w
        → (count i (tick exec w).1 ≡ 0) × Due i k p t m (tick exec w).0
    unfolding tick
    tick-later m w known d =
        let later = advance-later i k p t w m d in
        (
          run_tasks-absent (advance w).1 (advance w).0 later.0,
          Due-SameFor i k p t m (ran-SameFor w known) later.1,
        )

  tick-now :
      (k : ℕ) (t : T) (w : TimingWheel T)
      → i < w.next_task_id
      → Due i k false t 0 w
      → (count i (tick exec w).1 ≡ 1) × Gone i (tick exec w).0
  unfolding tick
  tick-now k t w known d =
      let now = advance-now i k t w d in
      (
        run_tasks-count (advance w).1 (advance w).0 0 k false t
              (omega (arith, advance-next_task_id w)) now.2
            ∙ now.0,
        Gone-SameFor i (ran-SameFor w known) now.1,
      )

  tick-again :
      (k : ℕ) (t : T) (w : TimingWheel T)
      → i < w.next_task_id
      → Due i (suc k) true t 0 w
      → (count i (tick exec w).1 ≡ 1) × Due i (suc k) true t k (tick exec w).0
  unfolding tick
  tick-again k t w known d =
      let now = advance-again i k t w d in
      (
        run_tasks-count (advance w).1 (advance w).0 _ (suc k) true t
              (omega (arith, advance-next_task_id w)) now.1.node
            ∙ now.0,
        Due-SameFor i (suc k) true t k (ran-SameFor w known) now.1,
      )

  tick-Gone :
      (w : TimingWheel T)
      → i < w.next_task_id
      → Gone i w
      → (count i (tick exec w).1 ≡ 0) × Gone i (tick exec w).0
  unfolding tick
  tick-Gone w known g =
      let gone = advance-Gone i w g in
      (
        run_tasks-absent (advance w).1 (advance w).0 gone.0,
        Gone-SameFor i (ran-SameFor w known) gone.1,
      )

  ticks-count-Gone :
      (n : ℕ) (w : TimingWheel T) → i < w.next_task_id → Gone i w → count i (ticks exec n w).1 ≡ 0
  unfolding ticks
  ticks-count-Gone zero w known g = refl
  ticks-count-Gone (suc n) w known g =
      let gone = tick-Gone w known g in
      omega (
        arith,
        count-append i (tick exec w).1 (ticks exec n (tick exec w).0).1,
        ticks-count-Gone n (tick exec w).0 (tick-known w known) gone.1,
        gone.0,
      )

  -- A task that does not repeat has run once from its due tick on, and not at all before.
  pub ticks-count_once :
      (n m k : ℕ) (t : T) (w : TimingWheel T)
      → i < w.next_task_id
      → Due i k false t m w
      → count i (ticks exec n w).1 ≡ (if ltb m n then 1 else 0)
  unfolding ticks
  ticks-count_once zero m k t w known d = ground arith
  ticks-count_once (suc n) zero k t w known d =
      let now = tick-now k t w known d in
      ground (
        arith,
        count-append i (tick exec w).1 (ticks exec n (tick exec w).0).1,
        ticks-count-Gone n (tick exec w).0 (tick-known w known) now.1,
        now.0,
      )
  ticks-count_once (suc n) (suc m) k t w known d =
      let later = tick-later k false t m w known d in
      ground (
        arith,
        count-append i (tick exec w).1 (ticks exec n (tick exec w).0).1,
        ticks-count_once n m k t (tick exec w).0 (tick-known w known) later.1,
        later.0,
      )

  -- A periodic task has run once for each whole interval.
  pub ticks-count_periodic :
      (n m k : ℕ) (t : T) (w : TimingWheel T)
      → i < w.next_task_id
      → m ≤ k
      → Due i (suc k) true t m w
      → count i (ticks exec n w).1 ≡ (n + k - m) / suc k
  unfolding ticks
  ticks-count_periodic zero m k t w known h d = sym (
      ap (λ (x : ℕ). x / suc k) (omega arith)
      ∙ div-eq_of_lt (let e : k - m < suc k = omega arith in e))
  ticks-count_periodic (suc n) zero k t w known h d =
      let now = tick-again k t w known d in
      omega (
        arith,
        count-append i (tick exec w).1 (ticks exec n (tick exec w).0).1,
        ticks-count_periodic n k k t (tick exec w).0 (tick-known w known) (omega arith) now.1,
        now.0,
        one_more k n,
      )
  ticks-count_periodic (suc n) (suc m) k t w known h d =
      let later = tick-later (suc k) true t m w known d in
      let same : n + k - m ≡ suc n + k - suc m = omega arith in
      omega (
        arith,
        count-append i (tick exec w).1 (ticks exec n (tick exec w).0).1,
        ticks-count_periodic n m k t (tick exec w).0 (tick-known w known) (omega arith) later.1,
        later.0,
        ap (λ (x : ℕ). x / suc k) same,
      )
