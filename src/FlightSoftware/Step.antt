-- ===== src/FlightSoftware/Step.antt =====
-- src/fsw/FlightSoftware.cpp: one control cycle over all the parts. Logging is left out.
use cubesat_fsw_gnc.Prelude.{ℕ, not, List, [], ◌∷◌, Option, none, some, if◌then◌else◌, ◌==◌, length}
use cubesat_fsw_gnc.Double.{Double, Stored, lit, ◌⊕◌, ◌≼◌}
use cubesat_fsw_gnc.Eigen.{Eigen, Vector3, vector_zero}
use cubesat_fsw_gnc.Linear.{Matrices}
use cubesat_fsw_gnc.Common.StateHistory.{add_state}
use cubesat_fsw_gnc.Core.SpscQueue.{push}
use cubesat_fsw_gnc.Core.DataStore.{string_payload, quaternion_payload}
use cubesat_fsw_gnc.Core.CommandManager
use cubesat_fsw_gnc.Core.CommandManager.{CommandManager, enqueue_command}
use cubesat_fsw_gnc.Gnc.Interfaces.{SensorData, State, Estimator, Controller}
use cubesat_fsw_gnc.Gnc.ControlAllocator.{ControlAllocator, set_wheel_health}
use cubesat_fsw_gnc.Fdir.Health.{failed, same_status}
use cubesat_fsw_gnc.Fdir.Wheels.{wheel_status}
use cubesat_fsw_gnc.Fdir.Manager.{FdirManager}
use cubesat_fsw_gnc.Fdir.Actions.{Linked, update_wheels}
use cubesat_fsw_gnc.Telemetry.Command.{parse}
use cubesat_fsw_gnc.Telemetry.Manager.{update as update_telemetry}
use cubesat_fsw_gnc.FlightSoftware.State.{FlightSoftware}
use cubesat_fsw_gnc.FlightSoftware.Control.{control}

module _ {D : Type 0} ⦃d : Double D⦄ ⦃stored : Stored D⦄ where
  -- The loop over the raw commands.
  unfoldable pub enqueue_all : CommandManager D → List (List ℕ) → CommandManager D
  enqueue_all m [] = m
  enqueue_all m (raw ∷ raws) = enqueue_all (enqueue_command m (parse raw)) raws

module _ {D E C M : Type 0} ⦃d : Double D⦄ ⦃stored : Stored D⦄ where
  -- Section 1 of the step.
  unfoldable pub process_commands : FlightSoftware D E C M → List (List ℕ) → FlightSoftware D E C M
  process_commands f raws =
      let (manager, store, w) =
        CommandManager.update (enqueue_all f.command_manager raws) f.data_store f.subscribers in
      record f { command_manager = manager; data_store = store; subscribers = w }

-- Section 2: the estimator after the cycle and the estimated state. Position and velocity keep what
-- the memory held, `unset`.
unfoldable pub estimate :
    {D E : Type 0}
    → ⦃est : Estimator D E⦄ → Option E
    → SensorData D
    → D
    → State D
    → Option E × State D
estimate none sensors dt unset =
    (none, record unset { q = sensors.q_measured; w = sensors.gyro_body })
estimate ⦃est⦄ (some x) sensors dt unset =
    let x' = est.update x sensors dt in
    (some x', record unset { q = est.get_attitude x'; w = est.get_angular_velocity x' })

-- The loop that tells the allocator which wheels are healthy.
unfoldable pub configure :
    {D M : Type 0} → FdirManager D → List ℕ → ControlAllocator M → ControlAllocator M
configure f [] a = a
configure f (i ∷ is) a =
    configure f is
      (set_wheel_health a i (not (same_status (wheel_status f.wheel_monitors i) failed)))

module _ {D E C M : Type 0} ⦃d : Double D⦄ where
  -- What section 3 takes over from the fault detection.
  unfoldable pub adopt :
      FlightSoftware D E C M → Option (Linked D E) → Option (FlightSoftware D E C M)
  adopt f none = none
  adopt f (some w) = some (record f {
    fdir = w.fdir;
    mode_manager = elim w.mode_manager [ none ↦ f.mode_manager | some manager ↦ manager ];
    control_allocator = configure w.fdir (0 ∷ 1 ∷ 2 ∷ 3 ∷ []) f.control_allocator;
  })

  -- Section 3; `none` is a read of the wheel commands past their end.
  unfoldable pub manage_wheels :
      ⦃est : Estimator D E⦄
      → FlightSoftware D E C M
      → SensorData D
      → D
      → Option (FlightSoftware D E C M)
  manage_wheels f sensors dt =
      let w : Linked D E = record {
        fdir = f.fdir;
        mode_manager = some f.mode_manager;
        mekf = f.estimator;
      } in
      if length sensors.rw_speeds == 4
      then adopt f (update_wheels w sensors.rw_speeds f.last_rw_torque_cmds dt)
      else some f

module _ {D E C M : Type 0} ⦃d : Double D⦄ ⦃stored : Stored D⦄ where
  -- The end of the step: the queue, the history and section 6.
  unfoldable pub finish :
      State D → D → FlightSoftware D E C M × Vector3 D → FlightSoftware D E C M × Vector3 D
  finish state dt (f, torque) =
      let (manager, counts) = update_telemetry f.telemetry_manager f.data_store f.counts dt in
      (
        record f {
          telemetry_queue = (push f.telemetry_queue state).0;
          state_history = add_state f.state_history state;
          telemetry_manager = manager;
          counts = counts;
          last_torque_cmd = torque;
        },
        torque,
      )

module _ {D E C M : Type 0} ⦃d : Double D⦄ ⦃stored : Stored D⦄ ⦃e : Eigen D⦄ ⦃m : Matrices D M⦄
    ⦃est : Estimator D E⦄ ⦃ctl : Controller D C⦄ where
  -- Sections 4 to 6 after section 3.
  unfoldable pub complete :
      Option (FlightSoftware D E C M)
      → SensorData D
      → State D
      → D
      → State D
      → Option (FlightSoftware D E C M × Vector3 D)
  complete none sensors state dt unset = none
  complete (some f) sensors state dt unset =
      some (finish state dt (control f sensors state dt unset))

  -- The state after the step and the commanded torque. `unset` is what the memory of the local
  -- variables holds before they are written.
  unfoldable pub step :
      FlightSoftware D E C M
      → SensorData D
      → List (List ℕ)
      → D
      → State D
      → Option (FlightSoftware D E C M × Vector3 D)
  step f sensors raw_commands dt unset =
      let f1 =
        process_commands (record f { accumulated_time = f.accumulated_time ⊕ dt }) raw_commands in
      let (estimator, state) = estimate f1.estimator sensors dt unset in
      let f2 = manage_wheels (record f1 { estimator = estimator }) sensors dt in
      if dt ≼ lit 0 0 then some (f, vector_zero) else complete f2 sensors state dt unset
