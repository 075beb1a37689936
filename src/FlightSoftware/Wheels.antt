-- ===== src/FlightSoftware/Wheels.antt =====
-- src/fsw/FlightSoftware.cpp: what a step commands to the wheels.
use cubesat_fsw_gnc.Prelude.{
  ◌≡◌, refl, inl, inr, Bool, true, false, List, [], length, replicate, Bool-cases, arith, ◌==◌,
}
use cubesat_fsw_gnc.Double.{Double, lit, Stored}
use cubesat_fsw_gnc.Eigen.{Eigen, Vector3}
use cubesat_fsw_gnc.Linear.{Matrices}
use cubesat_fsw_gnc.Core.ModeManager.{safe, same_mode, update}
use cubesat_fsw_gnc.Gnc.Interfaces.{SensorData, State, GuidanceTarget, Controller}
use cubesat_fsw_gnc.Gnc.ControlAllocator.{ControlAllocator}
use cubesat_fsw_gnc.Gnc.ControlAllocator.Spares.{Spares, Spares-replicate, allocate-Spares}
use cubesat_fsw_gnc.Fdir.Manager.{FdirManager}
use cubesat_fsw_gnc.FlightSoftware.State.{FlightSoftware}
use cubesat_fsw_gnc.FlightSoftware.Step.{finish}
use cubesat_fsw_gnc.FlightSoftware.Control.{distribute, pointing, detumble, control}

module _ {D E C M : Type 0} ⦃d : Double D⦄ where
  -- What sections 4 and 5 leave: the fault detection and the allocator stay, SAFE mode has no wheel
  -- torques, with four wheels there is one command for each, and otherwise none outside SAFE mode.
  pub record Ends (fdir : FdirManager D) (allocator : ControlAllocator M) (wheels : Bool)
      (f : FlightSoftware D E C M) : Type 0 where
    pub fdir_eq : f.fdir ≡ fdir
    pub allocator_eq : f.control_allocator ≡ allocator
    pub rests : f.mode_manager.current_mode ≡ safe → f.last_rw_torque_cmds ≡ replicate 4 (lit 0 0)
    pub spares : wheels ≡ true → Spares allocator.wheel_healthy f.last_rw_torque_cmds
    pub clears :
        wheels ≡ false → (f.mode_manager.current_mode ≡ safe → ⊥) → f.last_rw_torque_cmds ≡ []

  distribute-Ends :
      (f : FlightSoftware D E C M) (torque : Vector3 D) (r : List D × Bool)
      → Spares f.control_allocator.wheel_healthy r.0
      → (r.1 ≡ false → r.0 ≡ replicate 4 (lit 0 0))
      → (f.mode_manager.current_mode ≡ safe → ⊥)
      → Ends f.fdir f.control_allocator true (distribute f torque r).0
  unfolding distribute
  distribute-Ends f torque (ts, true) s z n = record {
    fdir_eq = refl;
    allocator_eq = refl;
    rests = λ p. absurd (n p);
    spares = λ p. s;
    clears = λ p. cc;
  }
  distribute-Ends f torque (ts, false) s z n = record {
    fdir_eq = refl;
    allocator_eq = refl;
    rests = λ p. refl;
    spares = λ p. rw (← z refl) s;
    clears = λ p. cc;
  }

module _ {D E C M : Type 0} ⦃d : Double D⦄ ⦃m : Matrices D M⦄ ⦃ctl : Controller D C⦄
    ⦃e : Eigen D⦄ where
  pointing-Ends :
      (f : FlightSoftware D E C M) (sensors : SensorData D) (state : State D) (dt : D)
      → length f.control_allocator.wheel_healthy ≡ 4
      → (f.mode_manager.current_mode ≡ safe → ⊥)
      → Ends f.fdir f.control_allocator
          (length sensors.rw_speeds == 4)
          (pointing f sensors state dt).0
  unfolding pointing
  pointing-Ends f sensors state dt h n = elim (Bool-cases (length sensors.rw_speeds == 4)) [
    | inl p ↦
        let (s, z) = allocate-Spares f.control_allocator _ h in rw p (distribute-Ends _ _ _ s z n)
    | inr p ↦ rw p (record {
      fdir_eq = refl;
      allocator_eq = refl;
      rests = λ q. absurd (n q);
      spares = λ q. cc;
      clears = λ q o. refl;
    })
  ]

  detumble-Ends :
      (f : FlightSoftware D E C M) (sensors : SensorData D) (state : State D)
      (target : GuidanceTarget D) (dt : D)
      → length f.control_allocator.wheel_healthy ≡ 4
      → f.mode_manager.current_mode ≡ safe
      → Ends f.fdir f.control_allocator
          (length sensors.rw_speeds == 4)
          (detumble f sensors state target dt).0
  unfolding detumble
  detumble-Ends f sensors state target dt h n = record {
    fdir_eq = refl;
    allocator_eq = refl;
    rests = λ p. refl;
    spares = λ p. Spares-replicate D f.control_allocator.wheel_healthy 4 h;
    clears = λ q o. absurd (o n);
  }

  pub control-Ends :
      (f : FlightSoftware D E C M) (sensors : SensorData D) (state : State D) (dt : D)
      (unset : State D)
      → length f.control_allocator.wheel_healthy ≡ 4
      → Ends f.fdir f.control_allocator
          (length sensors.rw_speeds == 4)
          (control f sensors state dt unset).0
  unfolding control
  control-Ends f sensors state dt unset h =
      let manager = update f.mode_manager state.w dt in
      elim (Bool-cases (same_mode manager.current_mode safe)) [
        | inl p ↦ rw p (detumble-Ends _ sensors state _ dt h (ground (arith, p)))
        | inr p ↦ rw p (pointing-Ends _ sensors state dt h (λ q. ground (arith, p, q)))
      ]

module _ {D E C M : Type 0} ⦃d : Double D⦄ ⦃stored : Stored D⦄ where
  pub finish-Ends :
      (fdir : FdirManager D) (allocator : ControlAllocator M) (wheels : Bool) (state : State D)
      (dt : D) (r : FlightSoftware D E C M × Vector3 D)
      → Ends fdir allocator wheels r.0
      → Ends fdir allocator wheels (finish state dt r).0
  unfolding finish
  finish-Ends fdir allocator wheels state dt r ends = record {
    fdir_eq = ends.fdir_eq;
    allocator_eq = ends.allocator_eq;
    rests = ends.rests;
    spares = ends.spares;
    clears = ends.clears;
  }
