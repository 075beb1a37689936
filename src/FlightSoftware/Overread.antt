-- ===== src/FlightSoftware/Overread.antt =====
-- src/fsw/FlightSoftware.cpp: how a cycle without four wheel speeds makes a later one read past the
-- wheel commands.
use cubesat_fsw_gnc.Prelude.{
  ℕ, zero, suc, ◌≡◌, refl, inl, inr, true, false, List, [], ◌∷◌, length, some, none, Option-cases,
  arith, ◌==◌, get_elem?,
}
use mathlib.Core.Option.{some-injective}
use cubesat_fsw_gnc.Double.{Double, Stored, lit, ◌≼◌}
use cubesat_fsw_gnc.Eigen.{Eigen, Vector3}
use cubesat_fsw_gnc.Linear.{Matrices}
use cubesat_fsw_gnc.Core.ModeManager.{safe}
use cubesat_fsw_gnc.Gnc.Interfaces.{Estimator, Controller}
use cubesat_fsw_gnc.Fdir.Wheels.{WheelHealthData, saturated, grow}
use cubesat_fsw_gnc.Fdir.Wheels.Bounds.{InBounds, update_loop-InBounds}
use cubesat_fsw_gnc.Fdir.Actions.{Linked, update_wheels}
use cubesat_fsw_gnc.FlightSoftware.State.{FlightSoftware}
use cubesat_fsw_gnc.FlightSoftware.Step.{process_commands, adopt, manage_wheels, complete, step}
use cubesat_fsw_gnc.FlightSoftware.Cycle.{Input, cycle, prepared}
use cubesat_fsw_gnc.FlightSoftware.Ready.{wheel_monitors-update_wheels}
use cubesat_fsw_gnc.FlightSoftware.Commands.{step-Wired}

module _ {D : Type 0} ⦃d : Double D⦄ where
  saturated_of_InBounds :
      (ws : List (WheelHealthData D)) (speeds : List D) (k : ℕ) (speed : D)
      → InBounds ws speeds []
      → get_elem? speeds k ≡ some speed
      → saturated speed ≡ true
  saturated_of_InBounds ws [] k speed h e = cc
  saturated_of_InBounds [] (s ∷ speeds) k speed h e = absurd h
  saturated_of_InBounds (w ∷ ws) (s ∷ speeds) zero speed h e = rw (← some-injective _ _ e) h.0
  saturated_of_InBounds (w ∷ ws) (s ∷ speeds) (suc k) speed h e =
      saturated_of_InBounds ws speeds k speed h.1 e

module _ {D E : Type 0} ⦃d : Double D⦄ ⦃est : Estimator D E⦄ where
  update_wheels-overreads :
      (w : Linked D E) (speeds : List D) (dt : D) (k : ℕ) (speed : D)
      → get_elem? speeds k ≡ some speed
      → saturated speed ≡ false
      → update_wheels w speeds [] dt ≡ none
  update_wheels-overreads w speeds dt k speed e n =
      elim (Option-cases (update_wheels w speeds [] dt)) [
        | inl p ↦ p
        | inr (w', p) ↦
            let b =
              update_loop-InBounds (grow w.fdir.wheel_monitors (length speeds))
                w'.fdir.wheel_monitors speeds [] dt
                (wheel_monitors-update_wheels w w' speeds [] dt p) in
            let t = saturated_of_InBounds _ speeds k speed b e in cc
      ]

module _ {D E C M : Type 0} ⦃d : Double D⦄ ⦃stored : Stored D⦄ ⦃e : Eigen D⦄ ⦃m : Matrices D M⦄
    ⦃est : Estimator D E⦄ ⦃ctl : Controller D C⦄ where
  cycle-overreads :
      (f : FlightSoftware D E C M) (i : Input D) (k : ℕ) (speed : D)
      → f.last_rw_torque_cmds ≡ []
      → i.dt ≼ lit 0 0 ≡ false
      → length i.sensors.rw_speeds ≡ 4
      → get_elem? i.sensors.rw_speeds k ≡ some speed
      → saturated speed ≡ false
      → cycle f i ≡ none
  unfolding step manage_wheels complete process_commands adopt
  cycle-overreads f i k speed c p l s n =
      let w : Linked D E = record {
        fdir = f.fdir;
        mode_manager = some f.mode_manager;
        mekf = (prepared f i).estimator;
      } in
      let t : (length i.sensors.rw_speeds == 4) ≡ true = ground (arith, l) in
      rw (p, t, c, update_wheels-overreads w i.sensors.rw_speeds i.dt k speed s n) refl

  -- If a cycle with a result, a positive time step and not four wheel speeds, from an allocator of
  -- four wheels, ends outside SAFE mode, then a next cycle with a positive time step and four wheel
  -- speeds, one of them below saturation, has no result: it reads past the end of the wheel
  -- commands, which the first cycle cleared.
  pub step-cleared :
      (f f' : FlightSoftware D E C M) (i j : Input D) (torque : Vector3 D) (k : ℕ) (speed : D)
      → length f.control_allocator.wheel_healthy ≡ 4
      → i.dt ≼ lit 0 0 ≡ false
      → (length i.sensors.rw_speeds == 4) ≡ false
      → cycle f i ≡ some (f', torque)
      → (f'.mode_manager.current_mode ≡ safe → ⊥)
      → j.dt ≼ lit 0 0 ≡ false
      → length j.sensors.rw_speeds ≡ 4
      → get_elem? j.sensors.rw_speeds k ≡ some speed
      → saturated speed ≡ false
      → cycle f' j ≡ none
  step-cleared f f' i j torque k speed h p n q o p' l s u =
      cycle-overreads f' j k speed ((step-Wired f i (f', torque) h p q).ends.clears n o) p' l s u
