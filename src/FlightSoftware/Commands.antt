-- ===== src/FlightSoftware/Commands.antt =====
-- src/fsw/FlightSoftware.cpp: what a step commands to failed wheels, in SAFE mode, and with no wheels.
use cubesat_fsw_gnc.Prelude.{
  zero, ◌≡◌, refl, ap, false, length, replicate, arith, ◌==◌, ℕ, suc, ◌<◌, some, get_elem?,
}
use cubesat_fsw_gnc.Double.{Double, lit, Stored, ◌≼◌}
use cubesat_fsw_gnc.Eigen.{Eigen, Vector3}
use cubesat_fsw_gnc.Linear.{Matrices}
use cubesat_fsw_gnc.Core.ModeManager.{safe}
use cubesat_fsw_gnc.Gnc.Interfaces.{Controller, Estimator}
use cubesat_fsw_gnc.Gnc.ControlAllocator.Spares.{get_elem?-Spares}
use cubesat_fsw_gnc.Fdir.Manager.{FdirManager}
use cubesat_fsw_gnc.FlightSoftware.State.{FlightSoftware}
use cubesat_fsw_gnc.Fdir.Health.{failed}
use cubesat_fsw_gnc.Fdir.Wheels.{wheel_status}
use cubesat_fsw_gnc.FlightSoftware.Step.{process_commands, finish}
use cubesat_fsw_gnc.FlightSoftware.Cycle.{
  Input, flags, cycle, prepared, estimated, step_inv, manage_wheels-wired,
}
use cubesat_fsw_gnc.FlightSoftware.Control.{control}
use cubesat_fsw_gnc.FlightSoftware.Wheels.{Ends, control-Ends, finish-Ends}

failed_flag :
    {D : Type 0} (f : FdirManager D) (wheel : ℕ)
    → wheel < 4
    → wheel_status f.wheel_monitors wheel ≡ failed
    → get_elem? (flags f) wheel ≡ some false
failed_flag f zero b s = rw s refl
failed_flag f (suc zero) b s = rw s refl
failed_flag f (suc (suc zero)) b s = rw s refl
failed_flag f (suc (suc (suc zero))) b s = rw s refl
failed_flag f (suc (suc (suc (suc n)))) b s = absurd (omega (arith, b))

module _ {D E C M : Type 0} ⦃d : Double D⦄ ⦃stored : Stored D⦄ ⦃e : Eigen D⦄ ⦃m : Matrices D M⦄
    ⦃est : Estimator D E⦄ ⦃ctl : Controller D C⦄ where
  -- What section 3 knows, and what the step leaves.
  pub record Wired (f : FlightSoftware D E C M) (i : Input D)
      (r : FlightSoftware D E C M × Vector3 D) : Type 0 where
    pub between : FlightSoftware D E C M
    pub ends : Ends between.fdir between.control_allocator (length i.sensors.rw_speeds == 4) r.0
    pub four : length between.control_allocator.wheel_healthy ≡ 4
    pub known :
        length i.sensors.rw_speeds ≡ 4
        → between.control_allocator.wheel_healthy ≡ flags between.fdir

  pub step-Wired :
      (f : FlightSoftware D E C M) (i : Input D) (r : FlightSoftware D E C M × Vector3 D)
      → length f.control_allocator.wheel_healthy ≡ 4
      → i.dt ≼ lit 0 0 ≡ false
      → cycle f i ≡ some r
      → Wired f i r
  unfolding process_commands
  step-Wired f i r h p q =
      let (f2, managed, eq) = step_inv f i r p q in
      let (four, known) = manage_wheels-wired (prepared f i) f2 i.sensors i.dt h managed in
      let ends = control-Ends f2 i.sensors (estimated f i) i.dt i.unset four in
      let result = control f2 i.sensors (estimated f i) i.dt i.unset in
      record {
        between = f2;
        ends =
            let t : r.0 ≡ (finish (estimated f i) i.dt result).0 = ap (λ x. x.0) eq in
            rw t (finish-Ends _ _ _ _ _ result ends);
        four = four;
        known = known;
      }

  -- A cycle with a result and a positive time step, from an allocator of four wheels, that ends in
  -- SAFE mode commands all four wheels to zero, also where a failed allocation forced that mode.
  pub step-rests :
      (f f' : FlightSoftware D E C M) (i : Input D) (torque : Vector3 D)
      → length f.control_allocator.wheel_healthy ≡ 4
      → i.dt ≼ lit 0 0 ≡ false
      → cycle f i ≡ some (f', torque)
      → f'.mode_manager.current_mode ≡ safe
      → f'.last_rw_torque_cmds ≡ replicate 4 (lit 0 0)
  step-rests f f' i torque h p q = (step-Wired f i (f', torque) h p q).ends.rests

  -- In a cycle with a result, a positive time step and four wheel speeds, from an allocator of four
  -- wheels, every wheel that is FAILED at the end of the cycle is commanded to zero in that very
  -- cycle.
  pub step-failed :
      (f f' : FlightSoftware D E C M) (i : Input D) (torque : Vector3 D) (wheel : ℕ)
      → length f.control_allocator.wheel_healthy ≡ 4
      → i.dt ≼ lit 0 0 ≡ false
      → length i.sensors.rw_speeds ≡ 4
      → cycle f i ≡ some (f', torque)
      → wheel < 4
      → wheel_status f'.fdir.wheel_monitors wheel ≡ failed
      → get_elem? f'.last_rw_torque_cmds wheel ≡ some (lit 0 0)
  step-failed f f' i torque wheel h p l q b s =
      let w = step-Wired f i (f', torque) h p q in
      get_elem?-Spares w.between.control_allocator.wheel_healthy f'.last_rw_torque_cmds wheel
        (w.ends.spares (ground (arith, l)))
        (rw (w.known l) (failed_flag w.between.fdir wheel b (rw (← w.ends.fdir_eq) s)))
