-- ===== src/Fdir/Actions/WheelModes.antt =====
-- How wheel failures move the mission mode (src/fsw/fdir/FDIRManager.cpp, `updateWheels`).
use cubesat_fsw_gnc.Prelude.{
  ℕ, ◌≤◌, ◌<◌, ◌≡◌, inl, inr, true, List, Option, some, arith, Option-cases, length,
}
use cubesat_fsw_gnc.Double.{Double}
use cubesat_fsw_gnc.Core.ModeManager.{
  ModeManager, safe, degraded as degraded_mode, force_mode_change,
}
use cubesat_fsw_gnc.Gnc.Interfaces.{Estimator}
use cubesat_fsw_gnc.Fdir.Wheels.{WheelHealthData, failed_count, grow, update_loop}
use cubesat_fsw_gnc.Fdir.Wheels.Latch.{update_loop-Worsens, failed_count_mono, failed_count-grow}
use cubesat_fsw_gnc.Fdir.Actions.{Linked, update_wheels}

module _ {D : Type 0} ⦃d : Double D⦄ where
  -- What `updateWheels` may do to the mode manager, by the failed wheels before and after.
  abbrev pub Answers : ModeManager D → ℕ → ℕ → Option (ModeManager D) → Type 0
  Answers m before after r =
      (before ≤ after)
      × (before ≡ after → r ≡ some m)
      × (before < after → after ≡ 1 → r ≡ some (force_mode_change m degraded_mode))
      × (before < after → 2 ≤ after → r ≡ some (force_mode_change m safe))

module _ {D E : Type 0} ⦃d : Double D⦄ ⦃est : Estimator D E⦄ where
  -- With a mode manager and automatic transitions on, a run of `updateWheels` with a result never
  -- lowers the number of failed wheels. If that number stays, the mode manager is left alone; a
  -- first failed wheel forces DEGRADED mode, and a rise to two or more forces SAFE mode. Sensors,
  -- groups and the filter are left alone.
  pub update_wheels-Answers :
      (w w' : Linked D E) (speeds torques : List D) (dt : D) (m : ModeManager D)
      → w.mode_manager ≡ some m
      → w.fdir.auto_mode_transition ≡ true
      → update_wheels w speeds torques dt ≡ some w'
      → Answers m
          (failed_count w.fdir.wheel_monitors)
          (failed_count w'.fdir.wheel_monitors)
          w'.mode_manager
        × (w'.mekf ≡ w.mekf)
        × (w'.fdir.vector_monitors ≡ w.fdir.vector_monitors)
        × (w'.fdir.redundancy_groups ≡ w.fdir.redundancy_groups)
  unfolding update_wheels
  update_wheels-Answers w w' speeds torques dt m em et e =
      let before : List (WheelHealthData D) = grow w.fdir.wheel_monitors (length speeds) in
      elim (Option-cases (update_loop before speeds torques dt)) [
        | inl p ↦ absurd (ground (arith, p))
        | inr (vs, p) ↦ ground (
          arith,
          p,
          failed_count_mono before vs (update_loop-Worsens before vs speeds torques dt p),
          failed_count-grow w.fdir.wheel_monitors (length speeds),
        )
      ]
