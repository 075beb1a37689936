-- ===== src/Core/TaskScheduler.antt =====
-- src/fsw/core/TaskScheduler.hpp and TaskScheduler.cpp: periodic tasks by priority. The tasks act on
-- a world `W`. A callback may not call the scheduler but for `stop`, since the mutex is held while it
-- runs. `std::sort` and the wall clock are parameters. Logging is left out.
pub mod Due
pub mod Termination
pub mod Stale
pub mod Tests
use Prim.Native.String.{String}
use cubesat_fsw_gnc.Prelude.{
  ℕ, zero, suc, ◌+◌, Bool, true, false, not, ◌&&◌, List, [], ◌∷◌, ◌++◌, Option, none, some,
  if◌then◌else◌, ltb,
}
use cubesat_fsw_gnc.Prelude.Int.{ℤ, ltb_ℤ}
use cubesat_fsw_gnc.Double.{Double, lit, ◌⊕◌, ◌⊖◌, ◌⊗◌, ◌≺◌, ◌≼◌, fmax}

-- What a call of a task leaves: the world, whether it returned or threw an exception, and whether it
-- called `stop`.
pub record Outcome (W : Type 0) : Type 0 where
  pub world : W
  pub returned : Bool
  pub stopped : Bool

pub record Task (D W : Type 0) : Type 0 where
  pub name : String
  pub callback : D → W → Outcome W
  pub period_sec : D
  pub last_execution_time : D
  pub priority : ℤ

pub record SchedulerStats (D : Type 0) : Type 0 where
  pub avg_jitter_ms : D
  pub max_jitter_ms : D
  pub cycles_executed : ℕ
  pub task_overruns : ℕ

pub record TaskScheduler (D W : Type 0) : Type 0 where
  pub tasks : List (Task D W)
  pub base_dt : D
  pub use_real_time : Bool
  pub current_time : D
  pub running : Bool
  pub stats : SchedulerStats D

-- `std::sort` with the comparison that it is given.
pub record Sorting (A : Type 0) : Type 0 where
  pub sort : (A → A → Bool) → List A → List A

-- The readings of the clock in a cycle of `run`, in seconds: from the start of the step to its end,
-- and from the last cycle's end to this one's.
pub record Reading (D : Type 0) : Type 0 where
  pub elapsed : D
  pub actual_dt : D

module _ {D : Type 0} ⦃d : Double D⦄ where
  abbrev pub fresh_stats : SchedulerStats D
  fresh_stats = record {
    avg_jitter_ms = lit 0 0;
    max_jitter_ms = lit 0 0;
    cycles_executed = 0;
    task_overruns = 0;
  }

module _ {D W : Type 0} ⦃d : Double D⦄ where
  -- The constructor of Task.
  unfoldable pub task : String → (D → W → Outcome W) → D → ℤ → Task D W
  task n cb period prio = record {
    name = n;
    callback = cb;
    period_sec = period;
    last_execution_time = d.neg period;
    priority = prio;
  }

  unfoldable pub init : D → Bool → TaskScheduler D W
  init base_dt use_real_time = record {
    tasks = [];
    base_dt = base_dt;
    use_real_time = use_real_time;
    current_time = lit 0 0;
    running = false;
    stats = fresh_stats;
  }

  unfoldable pub register_task :
      ⦃s : Sorting (Task D W)⦄ → TaskScheduler D W → Task D W → TaskScheduler D W
  register_task ⦃s⦄ t new = record t {
    tasks = s.sort (λ a b. ltb_ℤ b.priority a.priority) (t.tasks ++ new ∷ []);
  }

  unfoldable pub is_due : D → Task D W → Bool
  is_due now t = (t.period_sec ⊖ lit 1 6) ≼ (now ⊖ t.last_execution_time)

  -- The body of the loop over the tasks; the flag is `running_`.
  unfoldable pub execute_task : D → D → Task D W → W → Bool → Task D W × W × Bool
  unfolding is_due
  execute_task now dt t w running =
      let o = t.callback dt w in
      if is_due now t
      then (
        if o.returned then record t { last_execution_time = now } else t,
        o.world,
        running && not o.stopped,
      )
      else (t, w, running)

  -- The loop over the tasks.
  unfoldable pub execute_due_tasks : D → D → List (Task D W) → W → Bool → List (Task D W) × W × Bool
  execute_due_tasks now dt [] w running = ([], w, running)
  execute_due_tasks now dt (t ∷ ts) w running =
      let (t', w', running') = execute_task now dt t w running in
      let (ts', w'', running'') = execute_due_tasks now dt ts w' running' in
      (t' ∷ ts', w'', running'')

  unfoldable pub step : TaskScheduler D W → D → W → TaskScheduler D W × W
  unfolding execute_due_tasks
  step s dt w =
      let (tasks, w', running) = execute_due_tasks s.current_time dt s.tasks w s.running in
      (
        record s {
          tasks = tasks;
          running = running;
          current_time = s.current_time ⊕ dt;
          stats = record s.stats { cycles_executed = s.stats.cycles_executed + 1 };
        },
        w',
      )

  unfoldable pub update_stats : TaskScheduler D W → D → TaskScheduler D W
  update_stats s actual_dt =
      let jitter_ms = d.abs (actual_dt ⊖ s.base_dt) ⊗ lit 1000 0 in
      let alpha = lit 1 1 in
      if s.use_real_time && ltb 0 s.stats.cycles_executed
      then record s {
        stats = record s.stats {
          max_jitter_ms = fmax s.stats.max_jitter_ms jitter_ms;
          avg_jitter_ms = alpha ⊗ jitter_ms ⊕ (lit 1 0 ⊖ alpha) ⊗ s.stats.avg_jitter_ms;
        };
      }
      else s

  -- The count of overruns in a cycle of `run`. Sleeping leaves no trace in the state.
  unfoldable pub count_overrun : TaskScheduler D W → D → TaskScheduler D W
  count_overrun s elapsed =
      if s.use_real_time && not (lit 0 0 ≺ (s.base_dt ⊖ elapsed))
      then record s { stats = record s.stats { task_overruns = s.stats.task_overruns + 1 } }
      else s

  -- The loop of `run`, on fuel, over the readings of the clock; `none` is out of fuel.
  unfoldable pub loop :
      ℕ → D → (ℕ → Reading D) → TaskScheduler D W → W → Option (TaskScheduler D W × W)
  loop zero duration clock s w = none
  loop (suc fuel) duration clock s w =
      let (s', w') = step s s.base_dt w in
      let r = clock 0 in
      let rest =
        loop fuel duration (λ n. clock (n + 1))
          (update_stats (count_overrun s' r.elapsed) r.actual_dt) w' in
      if s.running
      then (if (lit 0 0 ≺ duration) && (duration ≼ s'.current_time) then some (s', w') else rest)
      else some (s, w)

  unfoldable pub run :
      ℕ → D → (ℕ → Reading D) → TaskScheduler D W → W → Option (TaskScheduler D W × W)
  run fuel duration clock s w =
      loop fuel duration clock
        (record s { running = true; current_time = lit 0 0; stats = fresh_stats }) w

module _ {D W : Type 0} where
  unfoldable pub stop : TaskScheduler D W → TaskScheduler D W
  stop s = record s { running = false }

  unfoldable pub clear_tasks : TaskScheduler D W → TaskScheduler D W
  clear_tasks s = record s { tasks = [] }

unfoldable pub reset : {D W : Type 0} → ⦃d : Double D⦄ → TaskScheduler D W → TaskScheduler D W
reset s = record s { tasks = []; current_time = lit 0 0; running = false; stats = fresh_stats }
