-- ===== src/Core/TaskScheduler/Termination.antt =====
-- src/fsw/core/TaskScheduler.cpp: `run` ends when the time that it counts reaches the duration.
use cubesat_fsw_gnc.Prelude.{
  ℕ, zero, suc, ◌+◌, ◌≤◌, ◌≡◌, refl, ap₂, inl, inr, Bool, true, false, ◌&&◌, Option, some,
  Bool-cases, arith, if◌then◌else◌,
}
use cubesat_fsw_gnc.Double.{Double, lit, ◌⊕◌, ◌≺◌, ◌≼◌}
use cubesat_fsw_gnc.Core.TaskScheduler.{
  TaskScheduler, Reading, step, update_stats, count_overrun, loop, run,
}

module _ {D : Type 0} ⦃d : Double D⦄ where
  -- The time step added to 0 this many times.
  unfoldable pub time_after : ℕ → D → D
  time_after zero dt = lit 0 0
  time_after (suc n) dt = time_after n dt ⊕ dt

module _ {D W : Type 0} ⦃d : Double D⦄ where
  -- The scheduler has run this many cycles.
  pub record HasRun (dt : D) (n : ℕ) (s : TaskScheduler D W) : Type 0 where
    pub base_eq : s.base_dt ≡ dt
    pub cycles_eq : s.stats.cycles_executed ≡ n
    pub time_eq : s.current_time ≡ time_after n dt

  pub step-HasRun :
      (dt : D) (n : ℕ) (s : TaskScheduler D W) (w : W)
      → HasRun dt n s
      → HasRun dt (suc n) (step s s.base_dt w).0
  unfolding step time_after
  step-HasRun dt n s w h = record {
    base_eq = h.base_eq;
    cycles_eq = omega (arith, h.cycles_eq);
    time_eq = rw (h.time_eq, h.base_eq) refl;
  }

  pub stats-HasRun :
      (dt : D) (n : ℕ) (s : TaskScheduler D W) (r : Reading D)
      → HasRun dt n s
      → HasRun dt n (update_stats (count_overrun s r.elapsed) r.actual_dt)
  unfolding update_stats count_overrun
  stats-HasRun dt n s r h = ground (arith, h.base_eq, h.cycles_eq, h.time_eq)

  -- The loop with a result: the time and the cycles agree, within a bound.
  abbrev pub Ends : D → ℕ → Option (TaskScheduler D W × W) → Type 0
  Ends dt n result =
      (s : TaskScheduler D W) × (w : W) × (result ≡ some (s, w))
      × (s.stats.cycles_executed ≤ n)
      × (s.current_time ≡ time_after s.stats.cycles_executed dt)

  HasRun-Ends :
      (dt : D) (n bound : ℕ) (s : TaskScheduler D W) (w : W)
      → HasRun dt n s
      → n ≤ bound
      → Ends dt bound (some (s, w))
  HasRun-Ends dt n bound s w h b =
      (s, w, refl, omega (arith, h.cycles_eq, b), rw h.cycles_eq h.time_eq)

  -- The loop after a cycle that does not end it.
  unfoldable pub remaining :
      ℕ → D → (ℕ → Reading D) → TaskScheduler D W → W → Option (TaskScheduler D W × W)
  remaining fuel duration clock s w =
      let r = clock 0 in
      loop fuel duration (λ i. clock (i + 1)) (update_stats (count_overrun s r.elapsed) r.actual_dt)
        w

  -- One cycle of the loop, for each outcome of its two tests.
  pub loop-suc :
      (fuel : ℕ) (duration : D) (clock : ℕ → Reading D) (s : TaskScheduler D W) (w : W)
      (running over : Bool)
      → s.running ≡ running
      → ((lit 0 0 ≺ duration) && (duration ≼ (step s s.base_dt w).0.current_time)) ≡ over
      → let (s', w') = step s s.base_dt w in
        loop (suc fuel) duration clock s w ≡ (
          if running
          then (if over then some (s', w') else remaining fuel duration clock s' w')
          else some (s, w))
  unfolding loop remaining
  loop-suc fuel duration clock s w running over p q =
      let s' = (step s s.base_dt w).0 in
      let w' = (step s s.base_dt w).1 in
      ap₂
        (λ x y.
          if x
          then (if y then some (s', w') else remaining fuel duration clock s' w')
          else some (s, w))
        p q

  cycle-Ends :
      (fuel n bound : ℕ) (dt duration : D) (clock : ℕ → Reading D) (s : TaskScheduler D W) (w : W)
      → HasRun dt n s
      → suc n ≤ bound
      → lit 0 0 ≺ duration ≡ true
      → let (s', w') = step s s.base_dt w in
        (duration ≼ s'.current_time ≡ false → Ends dt bound (remaining fuel duration clock s' w'))
        → Ends dt bound (loop (suc fuel) duration clock s w)
  cycle-Ends fuel n bound dt duration clock s w h b p rest =
      let s' = (step s s.base_dt w).0 in
      let w' = (step s s.base_dt w).1 in
      let h' = step-HasRun dt n s w h in
      elim (Bool-cases s.running) [
        | inl r ↦ elim (Bool-cases (duration ≼ s'.current_time)) [
          | inl t ↦
              rw (loop-suc fuel duration clock s w true true r (ground (arith, p, t)))
                (HasRun-Ends dt (suc n) bound s' w' h' b)
          | inr t ↦
              rw (loop-suc fuel duration clock s w true false r (ground (arith, p, t))) (rest t)
        ]
        | inr r ↦
            rw (loop-suc fuel duration clock s w false _ r refl)
              (HasRun-Ends dt n bound s w h (omega (arith, b)))
      ]

  loop-Ends :
      (k n bound : ℕ) (dt duration : D) (clock : ℕ → Reading D) (s : TaskScheduler D W) (w : W)
      → HasRun dt n s
      → n + suc k ≡ bound
      → lit 0 0 ≺ duration ≡ true
      → duration ≼ time_after bound dt ≡ true
      → Ends dt bound (loop (suc k) duration clock s w)
  unfolding remaining
  loop-Ends zero n bound dt duration clock s w h b p q =
      cycle-Ends zero n bound dt duration clock s w h (omega (arith, b)) p λ t.
        let e : suc n ≡ bound = omega (arith, b) in
        let g : duration ≼ (step s s.base_dt w).0.current_time ≡ true =
          rw ((step-HasRun dt n s w h).time_eq, e) q in
        cc
  loop-Ends (suc k) n bound dt duration clock s w h b p q =
      cycle-Ends (suc k) n bound dt duration clock s w h (omega (arith, b)) p λ t.
        loop-Ends k (suc n) bound dt duration (λ i. clock (i + 1)) _ _
          (stats-HasRun dt (suc n) _ (clock 0) (step-HasRun dt n s w h)) (omega (arith, b)) p q

  -- A run with a positive duration ends, if the time step added to zero some number of times, one
  -- or more, reaches the duration: fuel for that many cycles is enough. It has run at most that
  -- many cycles, and the time is the time step added once for each of them.
  pub run-Ends :
      (k : ℕ) (duration : D) (clock : ℕ → Reading D) (s : TaskScheduler D W) (w : W)
      → lit 0 0 ≺ duration ≡ true
      → duration ≼ time_after (suc k) s.base_dt ≡ true
      → (s' : TaskScheduler D W) × (w' : W) × (run (suc k) duration clock s w ≡ some (s', w'))
        × (s'.stats.cycles_executed ≤ suc k)
        × (s'.current_time ≡ time_after s'.stats.cycles_executed s.base_dt)
  unfolding run time_after
  run-Ends k duration clock s w p q =
      loop-Ends k 0 (suc k) s.base_dt duration clock _ w
        (record { base_eq = refl; cycles_eq = refl; time_eq = refl }) (omega arith) p q
