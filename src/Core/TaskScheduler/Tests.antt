-- ===== src/Core/TaskScheduler/Tests.antt =====
-- Runs of a scheduler with two tasks that count their calls, one of which always throws.
use cubesat_fsw_gnc.Prelude.{
  ℕ, zero, suc, ◌≡◌, ◌≤◌, ◌<◌, refl, Bool, true, false, List, [], ◌∷◌, ◌++◌, Option, some, none,
  arith,
}
use cubesat_fsw_gnc.Prelude.Int.{pos}
use cubesat_fsw_gnc.Double.{lit}
use cubesat_fsw_gnc.Fixed.{Fixed, fixed_double}
use cubesat_fsw_gnc.Core.TaskScheduler.{
  TaskScheduler, Outcome, Reading, task, init, execute_task, execute_due_tasks, step, update_stats,
  count_overrun, loop, run,
}
use cubesat_fsw_gnc.Core.TaskScheduler.Termination.{time_after, run-Ends}
use cubesat_fsw_gnc.Core.TaskScheduler.Stale.{AllEarly, run-stale}

-- The names of the tasks that were called.
abbrev call : Bool → ℕ → Fixed → List ℕ → Outcome (List ℕ)
call returned n dt w = record { world = w ++ n ∷ []; returned = returned; stopped = false }

abbrev scheduler : TaskScheduler Fixed (List ℕ)
unfolding init task
scheduler = record (init (lit 1 1) false) {
  tasks =
      task "control" (call true 1) (lit 2 1) (pos 2)
      ∷ task "log" (call false 2) (lit 1 1) (pos 1)
      ∷ [];
}

abbrev clock : ℕ → Reading Fixed
clock n = record { elapsed = lit 0 0; actual_dt = lit 0 0 }

abbrev result_of :
    Option (TaskScheduler Fixed (List ℕ) × List ℕ) → TaskScheduler Fixed (List ℕ) × List ℕ
result_of none = (scheduler, [])
result_of (some r) = r

-- The first task runs in every second cycle, and the second in each.
three_cycles : (result_of (run 3 (lit 25 2) clock scheduler [])).1 ≡ 1 ∷ 2 ∷ 2 ∷ 1 ∷ 2 ∷ []
unfolding run loop step execute_due_tasks execute_task update_stats count_overrun init task
    scheduler
three_cycles = refl

run-Ends_example :
    (s' : TaskScheduler Fixed (List ℕ)) × (w' : List ℕ) × (run 3 (lit 25 2) clock scheduler []
      ≡ some (s', w'))
    × (s'.stats.cycles_executed ≤ 3)
    × (s'.current_time ≡ time_after s'.stats.cycles_executed (lit 1 1))
unfolding time_after scheduler init
run-Ends_example = run-Ends 2 (lit 25 2) clock scheduler [] refl refl

-- A scheduler with a task that ran at 0.2, as after three cycles.
abbrev used : TaskScheduler Fixed (List ℕ)
unfolding init task
used = record (init (lit 1 1) false) {
  tasks =
      record (task "control" (call true 1) (lit 2 1) (pos 2)) { last_execution_time = lit 2 1 }
      ∷ [];
}

waits :
    (i : ℕ)
    → i < 3
    → fixed_double.le
        (fixed_double.sub (lit 2 1) (lit 1 6))
        (fixed_double.sub (time_after i (lit 1 1)) (lit 2 1))
      ≡ false
unfolding time_after
waits zero b = refl
waits (suc zero) b = refl
waits (suc (suc zero)) b = refl
waits (suc (suc (suc i))) b = absurd (omega (arith, b))

used_waits : AllEarly (lit 1 1) 3 used.tasks
unfolding time_after used init task
used_waits = (waits, tt)

run-stale_example :
    (s' : TaskScheduler Fixed (List ℕ)) × (run 3 (lit 25 2) clock used [] ≡ some (s', []))
    × (s'.tasks ≡ used.tasks)
unfolding time_after used init
run-stale_example = run-stale 2 (lit 25 2) clock used [] refl refl used_waits
