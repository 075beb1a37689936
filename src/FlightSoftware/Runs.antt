-- ===== src/FlightSoftware/Runs.antt =====
-- src/fsw/FlightSoftware.cpp: runs of cycles that always have four wheel speeds.
use cubesat_fsw_gnc.Prelude.{
  ◌≡◌, ◌≤◌, refl, ◌∙◌, inl, inr, true, List, [], ◌∷◌, length, Option, none, some, Bool-cases, arith,
  ◌==◌,
}
use cubesat_fsw_gnc.Double.{Double, Stored, lit, ◌≼◌}
use cubesat_fsw_gnc.Eigen.{Eigen, Vector3, vector_zero}
use cubesat_fsw_gnc.Linear.{Matrices}
use cubesat_fsw_gnc.Core.ModeManager.{ModeTransitionConfig}
use cubesat_fsw_gnc.Core.DataStore.{DataStore}
use cubesat_fsw_gnc.Gnc.Interfaces.{State, Estimator, Controller}
use cubesat_fsw_gnc.Gnc.ControlAllocator
use cubesat_fsw_gnc.Gnc.ControlAllocator.Spares.{length-Spares}
use cubesat_fsw_gnc.Fdir.Manager.{init as fdir_init}
use cubesat_fsw_gnc.Telemetry.Service.{Counts}
use cubesat_fsw_gnc.FlightSoftware.State.{FlightSoftware, Subscribers, init}
use cubesat_fsw_gnc.FlightSoftware.Control.{control}
use cubesat_fsw_gnc.FlightSoftware.Step.{process_commands, manage_wheels, complete, finish, step}
use cubesat_fsw_gnc.FlightSoftware.Cycle.{Input, cycle, prepared, estimated, manage_wheels-wired}
use cubesat_fsw_gnc.FlightSoftware.Wheels.{Ends, control-Ends, finish-Ends}
use cubesat_fsw_gnc.FlightSoftware.Ready.{IsReady, manage_wheels-some}

-- Every cycle has four wheel speeds.
abbrev pub HaveSpeeds : {D : Type 0} → List (Input D) → Type 0
HaveSpeeds [] = Unit
HaveSpeeds (i ∷ is) = (length i.sensors.rw_speeds ≡ 4) × HaveSpeeds is

module _ {D E C M : Type 0} ⦃d : Double D⦄ ⦃stored : Stored D⦄ ⦃e : Eigen D⦄ ⦃m : Matrices D M⦄
    ⦃est : Estimator D E⦄ ⦃ctl : Controller D C⦄ where
  unfoldable pub run : FlightSoftware D E C M → List (Input D) → Option (FlightSoftware D E C M)
  run f [] = some f
  run f (i ∷ is) = elim (cycle f i) [ none ↦ none | some (f', torque) ↦ run f' is ]

  Ends-IsReady :
      (f2 f' : FlightSoftware D E C M)
      → Ends f2.fdir f2.control_allocator true f'
      → length f2.control_allocator.wheel_healthy ≡ 4
      → 4 ≤ length f2.fdir.wheel_monitors
      → IsReady f'
  Ends-IsReady f2 f' ends four n = record {
    commands = length-Spares _ _ (ends.spares refl) ∙ four;
    allocator = rw ends.allocator_eq four;
    monitors = rw ends.fdir_eq n;
  }

  IsReady-result :
      (f f2 : FlightSoftware D E C M) (i : Input D)
      → IsReady f
      → length i.sensors.rw_speeds ≡ 4
      → manage_wheels (prepared f i) i.sensors i.dt ≡ some f2
      → 4 ≤ length f2.fdir.wheel_monitors
      → IsReady (finish (estimated f i) i.dt (control f2 i.sensors (estimated f i) i.dt i.unset)).0
  unfolding process_commands
  IsReady-result f f2 i r l managed n =
      let (four, known) =
        manage_wheels-wired (prepared f i) f2 i.sensors i.dt r.allocator managed in
      let t : (length i.sensors.rw_speeds == 4) ≡ true = ground (arith, l) in
      let result = control f2 i.sensors (estimated f i) i.dt i.unset in
      let ends : Ends f2.fdir f2.control_allocator true result.0 =
        rw (← t) (control-Ends f2 i.sensors (estimated f i) i.dt i.unset four) in
      Ends-IsReady f2 _ (finish-Ends _ _ true _ _ result ends) four n

  cycle-IsReady :
      (f : FlightSoftware D E C M) (i : Input D)
      → IsReady f
      → length i.sensors.rw_speeds ≡ 4
      → (r : FlightSoftware D E C M × Vector3 D) × (cycle f i ≡ some r) × IsReady r.0
  unfolding step complete process_commands
  cycle-IsReady f i r l =
      let before : IsReady (prepared f i) = record {
        commands = r.commands;
        allocator = r.allocator;
        monitors = r.monitors;
      } in
      let (f2, managed, n) = manage_wheels-some (prepared f i) i.sensors i.dt before l in
      elim (Bool-cases (i.dt ≼ lit 0 0)) [
        | inl p ↦ ((f, vector_zero), rw p refl, r)
        | inr p ↦ (
          finish (estimated f i) i.dt (control f2 i.sensors (estimated f i) i.dt i.unset),
          rw (p, managed) refl,
          IsReady-result f f2 i r l managed n,
        )
      ]

  pub run-cons :
      (f : FlightSoftware D E C M) (i : Input D) (is : List (Input D))
      (r : FlightSoftware D E C M × Vector3 D)
      → cycle f i ≡ some r
      → run f (i ∷ is) ≡ run r.0 is
  unfolding run
  run-cons f i is r e = rw (run, e) refl

  run-IsReady :
      (f : FlightSoftware D E C M) (is : List (Input D))
      → IsReady f
      → HaveSpeeds is
      → (f' : FlightSoftware D E C M) × (run f is ≡ some f') × IsReady f'
  unfolding run
  run-IsReady f [] r h = (f, refl, r)
  run-IsReady f (i ∷ is) r (l, h) =
      let (result, e, r') = cycle-IsReady f i r l in
      let (f', e', r'') = run-IsReady result.0 is r' h in (f', run-cons f i is result e ∙ e', r'')

  -- A run of cycles from the constructor in which every cycle has four wheel speeds always has a
  -- result: no cycle reads past the wheel commands or monitors. At its end there are four wheel
  -- commands, four flags in the allocator, and a monitor for each wheel.
  pub run-init-IsReady :
      (mode_cfg : ModeTransitionConfig D) (sun : Vector3 D) (estimator : Option E)
      (attitude bdot : Option C) (store : DataStore D (Subscribers D C)) (counts : Counts)
      (unset : State D) (is : List (Input D))
      → HaveSpeeds is
      → (f : FlightSoftware D E C M) × (run
            (init mode_cfg sun estimator attitude bdot store counts unset)
            is
          ≡ some f)
        × IsReady f
  unfolding init ControlAllocator.init fdir_init
  run-init-IsReady mode_cfg sun estimator attitude bdot store counts unset is h =
      run-IsReady _ is (record { commands = refl; allocator = refl; monitors = omega arith }) h
