-- ===== src/Core/TaskScheduler/Due.antt =====
-- src/fsw/core/TaskScheduler.cpp: what a step does to the world and to the tasks.
use cubesat_fsw_gnc.Prelude.{
  ◌≡◌, refl, ◌∙◌, inl, inr, ◌⊎◌, Bool, false, List, [], ◌∷◌, Bool-cases, if◌then◌else◌,
}
use cubesat_fsw_gnc.Double.{Double}
use cubesat_fsw_gnc.Core.TaskScheduler.{
  Task, TaskScheduler, is_due, execute_task, execute_due_tasks, step,
}

module _ {D W : Type 0} ⦃d : Double D⦄ where
  -- The tasks of a list that are due.
  unfoldable pub due : D → List (Task D W) → List (Task D W)
  due now [] = []
  due now (t ∷ ts) = let rest = due now ts in if is_due now t then t ∷ rest else rest

  -- A task after a step.
  abbrev pub Updated : D → Task D W → Task D W → Type 0
  Updated now t t' =
      (is_due now t ≡ false → t' ≡ t) × ((t' ≡ t) ⊎ (t' ≡ record t { last_execution_time = now }))

  abbrev pub AllUpdated : D → List (Task D W) → List (Task D W) → Type 0
  AllUpdated now [] [] = Unit
  AllUpdated now [] (t' ∷ ts') = ⊥
  AllUpdated now (t ∷ ts) [] = ⊥
  AllUpdated now (t ∷ ts) (t' ∷ ts') = Updated now t t' × AllUpdated now ts ts'

  -- All the calls, one after the other, whether they return or throw.
  unfoldable pub call_all : D → List (Task D W) → W → W
  call_all dt [] w = w
  call_all dt (t ∷ ts) w = call_all dt ts (t.callback dt w).world

  execute_task-Updated :
      (now dt : D) (t : Task D W) (w : W) (running : Bool)
      → Updated now t (execute_task now dt t w running).0
  unfolding execute_task
  execute_task-Updated now dt t w running = elim (Bool-cases (is_due now t)) [
    | inl p ↦ elim (Bool-cases (t.callback dt w).returned) [
      | inl q ↦ rw (p, q) (λ e. cc, inr refl)
      | inr q ↦ rw (p, q) (λ e. cc, inl refl)
    ]
    | inr p ↦ rw p (λ e. refl, inl refl)
  ]

  execute_task-world :
      (now dt : D) (t : Task D W) (w : W) (running : Bool) (ts : List (Task D W))
      → call_all dt (due now ts) (execute_task now dt t w running).1
        ≡ call_all dt (due now (t ∷ ts)) w
  unfolding execute_task due call_all
  execute_task-world now dt t w running ts = elim (Bool-cases (is_due now t)) [
    | inl p ↦ rw p refl
    | inr p ↦ rw p refl
  ]

  execute_due_tasks_lem :
      (now dt : D) (ts : List (Task D W)) (w : W) (running : Bool)
      → let (ts', w', running') = execute_due_tasks now dt ts w running in
        (w' ≡ call_all dt (due now ts) w) × AllUpdated now ts ts'
  unfolding execute_due_tasks due call_all
  execute_due_tasks_lem now dt [] w running = (refl, tt)
  execute_due_tasks_lem now dt (t ∷ ts) w running =
      let w' = (execute_task now dt t w running).1 in
      let running' = (execute_task now dt t w running).2 in
      let (e, u) = execute_due_tasks_lem now dt ts w' running' in
      (e ∙ execute_task-world now dt t w running ts, (execute_task-Updated now dt t w running, u))

  -- A step calls exactly the tasks that are due, one after the other in the order of the list,
  -- whether those before them returned or threw; a task that is not due is left as it was, and of a
  -- due one at most the time of its last execution changes, to the time of the step.
  pub step_lem :
      (s : TaskScheduler D W) (dt : D) (w : W)
      → let (s', w') = step s dt w in
        (w' ≡ call_all dt (due s.current_time s.tasks) w)
        × AllUpdated s.current_time s.tasks s'.tasks
  unfolding step
  step_lem s dt w = execute_due_tasks_lem s.current_time dt s.tasks w s.running
