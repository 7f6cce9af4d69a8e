-- ===== src/Timer/Tests.antt =====
-- Runs of a small wheel, and the contract at concrete inputs.
use fix4_0_demo.Prelude.{
  ◌≤ℤ◌, ◌<ℤ◌, ◌⊎◌, ◌≤◌, ◌<◌, ◌≢◌, none, ℕ, ◌≡◌, refl, [], ◌∷◌, arith, some, true, false, pos, ℤ,
  Option,
}
use fix4_0_demo.Timer.{
  TimingWheel, init, add_task, add_task_internal, add_periodic_task, cancel_task, ticks, tick,
  advance, scan_node, scan_slot, reschedule, run_node, run_tasks,
}
use fix4_0_demo.Timer.Counting.{count}
use fix4_0_demo.Timer.Lifetime.{Frames}
use fix4_0_demo.Timer.Contract.{
  IsValid, init-IsValid, IsSmall, FitsInt, add_task_internal-SameFor, add_task_internal-refuses,
  ticks-add_task, ticks-add_periodic_task,
}
use fix4_0_demo.Timer.Cancel.{
  IsCancelled, add_task_internal-IsCancelled, cancel_task-IsCancelled, ticks-cancel_task,
}

-- Four slots of 100 ms; a task is a number, and running it does nothing to the wheel.
abbrev small : TimingWheel ℕ
small = init 4 100

abbrev ignore : ℕ → TimingWheel ℕ → TimingWheel ℕ
ignore t w = w

small-IsValid : IsValid small
small-IsValid = init-IsValid 4 100 (omega arith) (omega arith)

-- 950 ms are ten ticks: two laps and two slots.
fires_at_ten : (ticks ignore 9 (add_task small (pos 950) (some 7)).0).1 ≡ []
unfolding ticks tick advance scan_node scan_slot reschedule run_node run_tasks add_task init
fires_at_ten = refl

fires_once : (ticks ignore 25 (add_task small (pos 950) (some 7)).0).1 ≡ 1 ∷ []
unfolding ticks tick advance scan_node scan_slot reschedule run_node run_tasks add_task init
fires_once = refl

-- A callback that adds its task once more.
abbrev again : ℕ → TimingWheel ℕ → TimingWheel ℕ
again t w = (add_task w (pos 300) (some t)).0

again-Frames : (i : ℕ) → Frames i again
unfolding add_task
again-Frames i t w known = add_task_internal-SameFor i w (pos 300) (some t) false known

small-IsSmall : IsSmall small
unfolding init
small-IsSmall = (omega arith, omega arith, omega arith)

ticks-add_task_example :
    FitsInt small 950 × (count 1 (ticks again 12 (add_task small (pos 950) (some 7)).0).1 ≡ 1)
unfolding init add_task
ticks-add_task_example =
    ticks-add_task again small 950 7 12 small-IsValid small-IsSmall (omega arith) (omega arith)
      (again-Frames 1)

ticks-add_periodic_task_example :
    FitsInt small 300
    × (count 1 (ticks again 12 (add_periodic_task small (pos 300) (some 7)).0).1 ≡ 4)
unfolding init add_periodic_task
ticks-add_periodic_task_example =
    ticks-add_periodic_task again small 300 7 12 small-IsValid small-IsSmall (omega arith)
      (omega arith) (again-Frames 1)

-- A callback that adds its task once more, and cancels the first one.
abbrev cancelling : ℕ → TimingWheel ℕ → TimingWheel ℕ
cancelling t w = cancel_task (again t w) 1

cancelling-IsCancelled :
    (t : ℕ) (w : TimingWheel ℕ) → IsCancelled 1 w → IsCancelled 1 (cancelling t w)
unfolding add_task
cancelling-IsCancelled t w h =
    cancel_task-IsCancelled 1 (again t w) 1
      (add_task_internal-IsCancelled 1 w (pos 300) (some t) false h)

ticks-cancel_task_example :
    count 1 (ticks cancelling 12 (cancel_task (add_periodic_task small (pos 300) (some 7)).0 1)).1
    ≡ 0
unfolding init add_periodic_task
ticks-cancel_task_example =
    ticks-cancel_task 1 cancelling cancelling-IsCancelled
      (add_periodic_task small (pos 300) (some 7)).0 12 (omega arith) (omega arith) refl

add_task_internal-refuses_example :
    (((ℤ.negsuc 4 ≤ℤ pos 0) ⊎ (◌≡◌ {A = Option ℕ} (some 7) none) ⊎ (2147483 < 0))
      × (add_task_internal small (ℤ.negsuc 4) (some 7) true ≡ (small, 0)))
    ⊎ ((pos 0 <ℤ ℤ.negsuc 4)
        × (true ≡ true)
        × (0 ≤ 2147483)
        × ((add_task_internal small (ℤ.negsuc 4) (some 7) true).1 ≡ 1)
        × ((add_task_internal small (ℤ.negsuc 4) (some 7) true).1 ≢ 0))
unfolding init
add_task_internal-refuses_example =
    add_task_internal-refuses small (ℤ.negsuc 4) (some 7) true small-IsValid
