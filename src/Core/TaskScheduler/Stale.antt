-- ===== src/Core/TaskScheduler/Stale.antt =====
-- src/fsw/core/TaskScheduler.cpp: a run over tasks that were executed later than its times.
use mathlib.Core.Option.{some-injective}
use cubesat_fsw_gnc.Prelude.{
  ℕ, zero, suc, ◌+◌, ◌<◌, ◌≡◌, refl, sym, ap, ap₂, ◌∙◌, inl, inr, true, false, ◌&&◌, List, [], ◌∷◌,
  some, Bool-cases, arith,
}
use cubesat_fsw_gnc.Double.{Double, lit, ◌⊖◌, ◌≺◌, ◌≼◌}
use cubesat_fsw_gnc.Core.TaskScheduler.{
  Task, TaskScheduler, Reading, is_due, step, update_stats, count_overrun, loop, run,
}
use cubesat_fsw_gnc.Core.TaskScheduler.Due.{due, call_all, AllUpdated, step_lem}
use cubesat_fsw_gnc.Core.TaskScheduler.Termination.{
  time_after, HasRun, step-HasRun, stats-HasRun, remaining, loop-suc, run-Ends,
}

module _ {D W : Type 0} ⦃d : Double D⦄ where
  AllUpdated-stale :
      (now : D) (ts ts' : List (Task D W)) → due now ts ≡ [] → AllUpdated now ts ts' → ts' ≡ ts
  unfolding due
  AllUpdated-stale now [] [] e u = refl
  AllUpdated-stale now [] (t' ∷ ts') e u = absurd u
  AllUpdated-stale now (t ∷ ts) [] e u = absurd u
  AllUpdated-stale now (t ∷ ts) (t' ∷ ts') e (u, us) = elim (Bool-cases (is_due now t)) [
    | inl p ↦ absurd (ground (arith, p, e))
    | inr p ↦ ap₂ (λ x y. x ∷ y) (u.0 p) (AllUpdated-stale now ts ts' (ground (arith, p, e)) us)
  ]

  step-stale :
      (s : TaskScheduler D W) (dt : D) (w : W)
      → due s.current_time s.tasks ≡ []
      → let (s', w') = step s dt w in (w' ≡ w) × (s'.tasks ≡ s.tasks)
  unfolding call_all
  step-stale s dt w e =
      let (world, updated) = step_lem s dt w in
      (
        world ∙ ap (λ ts. call_all dt ts w) e,
        AllUpdated-stale s.current_time s.tasks (step s dt w).0.tasks e updated,
      )

  tasks-stats :
      (s : TaskScheduler D W) (r : Reading D)
      → (update_stats (count_overrun s r.elapsed) r.actual_dt).tasks ≡ s.tasks
  unfolding update_stats count_overrun
  tasks-stats s r = ground arith

  -- None of these tasks is due before the cycle `n`.
  abbrev pub NeverDue : D → List (Task D W) → ℕ → Type 0
  NeverDue dt ts n = (i : ℕ) → i < n → due (time_after i dt) ts ≡ []

  loop-stale :
      (fuel n : ℕ) (dt duration : D) (clock : ℕ → Reading D) (s s' : TaskScheduler D W) (w w' : W)
      → HasRun dt n s
      → NeverDue dt s.tasks (n + fuel)
      → loop fuel duration clock s w ≡ some (s', w')
      → (w' ≡ w) × (s'.tasks ≡ s.tasks)
  unfolding loop remaining
  loop-stale zero n dt duration clock s s' w w' h stale e = cc
  loop-stale (suc fuel) n dt duration clock s s' w w' h stale e =
      let s1 = (step s s.base_dt w).0 in
      let w1 = (step s s.base_dt w).1 in
      let (world, tasks) = step-stale s s.base_dt w (rw h.time_eq (stale n (omega arith))) in
      let over = (lit 0 0 ≺ duration) && (duration ≼ s1.current_time) in
      let s2 = update_stats (count_overrun s1 (clock 0).elapsed) (clock 0).actual_dt in
      let kept : s2.tasks ≡ s.tasks = tasks-stats s1 (clock 0) ∙ tasks in
      elim (Bool-cases s.running) [
        | inl r ↦ elim (Bool-cases over) [
          | inl t ↦
              let q =
                some-injective _ _ (sym (loop-suc fuel duration clock s w true true r t) ∙ e) in
              (ap (λ x. x.1) (sym q) ∙ world, ap (λ x. x.0.tasks) (sym q) ∙ tasks)
          | inr t ↦
              let q = sym (loop-suc fuel duration clock s w true false r t) ∙ e in
              let later : NeverDue dt s2.tasks (suc n + fuel) =
                λ i b. rw kept (stale i (omega (arith, b))) in
              let (a, b) =
                loop-stale fuel (suc n) dt duration (λ i. clock (i + 1)) s2 s' w1 w'
                  (stats-HasRun dt (suc n) s1 (clock 0) (step-HasRun dt n s w h)) later q in
              (a ∙ world, b ∙ kept)
        ]
        | inr r ↦
            let q =
              some-injective _ _ (sym (loop-suc fuel duration clock s w false over r refl) ∙ e) in
            (ap (λ x. x.1) (sym q), ap (λ x. x.0.tasks) (sym q))
      ]

  loop-run :
      (fuel : ℕ) (duration : D) (clock : ℕ → Reading D) (s s' : TaskScheduler D W) (w w' : W)
      → NeverDue s.base_dt s.tasks fuel
      → run fuel duration clock s w ≡ some (s', w')
      → (w' ≡ w) × (s'.tasks ≡ s.tasks)
  unfolding run time_after
  loop-run fuel duration clock s s' w w' stale e =
      loop-stale fuel 0 s.base_dt duration clock _ s' w w'
        (record { base_eq = refl; cycles_eq = refl; time_eq = refl })
        (λ i b. stale i (omega (arith, b))) e

  -- At every time of this many cycles, counted from zero, less than its period but for a microsecond
  -- has passed since the last execution of each task.
  abbrev pub AllEarly : D → ℕ → List (Task D W) → Type 0
  AllEarly dt n [] = Unit
  AllEarly dt n (t ∷ ts) =
      ((i : ℕ)
        → i < n
        → (t.period_sec ⊖ lit 1 6) ≼ (time_after i dt ⊖ t.last_execution_time) ≡ false)
      × AllEarly dt n ts

  AllEarly-NeverDue : (dt : D) (n : ℕ) (ts : List (Task D W)) → AllEarly dt n ts → NeverDue dt ts n
  unfolding due is_due
  AllEarly-NeverDue dt n [] early i b = refl
  AllEarly-NeverDue dt n (t ∷ ts) (early, rest) i b =
      rw (early i b) (AllEarly-NeverDue dt n ts rest i b)

  -- A run with a positive duration that the clock reaches returns, and has called no task and
  -- changed none, if at each of its times, from zero on, the time since the last execution of a
  -- task is not at least its period less a microsecond, for every task.
  pub run-stale :
      (k : ℕ) (duration : D) (clock : ℕ → Reading D) (s : TaskScheduler D W) (w : W)
      → lit 0 0 ≺ duration ≡ true
      → duration ≼ time_after (suc k) s.base_dt ≡ true
      → AllEarly s.base_dt (suc k) s.tasks
      → (s' : TaskScheduler D W) × (run (suc k) duration clock s w ≡ some (s', w))
        × (s'.tasks ≡ s.tasks)
  run-stale k duration clock s w positive reached early =
      let (s', w', e, cycles, time) = run-Ends k duration clock s w positive reached in
      let (world, tasks) =
        loop-run (suc k) duration clock s s' w w'
          (AllEarly-NeverDue s.base_dt (suc k) s.tasks early) e in
      (s', e ∙ ap (λ x. some (s', x)) world, tasks)
