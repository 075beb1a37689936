-- ===== src/Opt/Flown/Idle.antt =====
-- src/opt/FitnessEvaluator.hpp with src/fsw/FlightSoftware.cpp: the flight of an evaluation has no
-- controller for detumbling, so it commands nothing while it is in SAFE mode.
use cubesat_fsw_gnc.Double.{Libm, lit, ◌≼◌, ◌⊕◌, Stored, Double}
use cubesat_fsw_gnc.Prelude.{
  ◌≡◌, refl, sym, ap, ◌∙◌, ◌≢◌, inl, inr, Bool, true, false, none, some, List, [], length, ◌==◌,
  if◌then◌else◌, Bool-cases,
}
use cubesat_fsw_gnc.FlightSoftware.Construct.{construct, evaluator_config}
use cubesat_fsw_gnc.Gnc.Factory.{AnyController, any_controller}
use cubesat_fsw_gnc.Gnc.Mekf.{Mekf}
use cubesat_fsw_gnc.FlightSoftware.State.{Subscribers, FlightSoftware}
use cubesat_fsw_gnc.Core.DataStore.{DataStore}
use cubesat_fsw_gnc.Telemetry.Service.{Counts}
use mathlib.Core.Option.{some-injective}
use mathlib.Core.Path.{subst}
use cubesat_fsw_gnc.Opt.Flown.{manage_wheels-empty}
use cubesat_fsw_gnc.FlightSoftware.Step.{estimate, finish, complete, enqueue_all, process_commands}
use cubesat_fsw_gnc.FlightSoftware.Control.{steer, detumble, pointing, distribute, control}
use cubesat_fsw_gnc.Gnc.ControlAllocator.{allocate}
use cubesat_fsw_gnc.Eigen.{Vector3, vector_zero, Eigen}
use cubesat_fsw_gnc.Linear.{Matrices}
use mathlib.Core.Bool.{true≢false}
use cubesat_fsw_gnc.FlightSoftware.Step
use cubesat_fsw_gnc.Core.ModeManager
use cubesat_fsw_gnc.Core.ModeManager.{MissionMode, same_mode, safe}
use cubesat_fsw_gnc.Gnc.Interfaces.{GuidanceTarget, State, SensorData, Estimator, Controller}
-- A flight without commands in the queue and without the controller of SAFE mode.
use cubesat_fsw_gnc.Core.CommandManager
use cubesat_fsw_gnc.Core.CommandManager.{drain}

abbrev pub IsUndamped : {D E C M : Type 0} → FlightSoftware D E C M → Type 0
IsUndamped f = (f.command_manager.command_queue ≡ []) × (f.bdot_controller ≡ none)

module _ {D E C M : Type 0} ⦃d : Double D⦄ ⦃stored : Stored D⦄ where
  process_commands-IsUndamped :
      (f : FlightSoftware D E C M) → IsUndamped f → IsUndamped (process_commands f [])
  unfolding process_commands enqueue_all CommandManager.update drain
  process_commands-IsUndamped f h =
      (refl, ap (λ q. (drain q f.data_store f.subscribers).1.bdot_controller) h.0 ∙ h.1)

other_mode : (mode : MissionMode) → same_mode mode safe ≡ false → mode ≢ safe
other_mode mode h e = true≢false (ap (λ x. same_mode x safe) (sym e) ∙ h)

-- A command while SAFE is the zero torque.
abbrev IsIdle : {D E C M : Type 0} → ⦃d : Double D⦄ → FlightSoftware D E C M × Vector3 D → Type 0
IsIdle p = p.0.mode_manager.current_mode ≡ safe → p.1 ≡ vector_zero

IsIdle-if :
    {D E C M : Type 0} ⦃d : Double D⦄ (b : Bool) (x y : FlightSoftware D E C M × Vector3 D)
    → (b ≡ true → IsIdle x)
    → (b ≡ false → IsIdle y)
    → IsIdle (if b then x else y)
IsIdle-if true x y p q = p refl
IsIdle-if false x y p q = q refl

module _ {D E C M : Type 0} ⦃d : Double D⦄ where
  distribute-IsIdle :
      (f : FlightSoftware D E C M) (torque : Vector3 D) (p : List D × Bool)
      → f.mode_manager.current_mode ≢ safe
      → IsIdle (distribute f torque p)
  unfolding distribute
  distribute-IsIdle f torque (torques, true) ne s = absurd (ne s)
  distribute-IsIdle f torque (torques, false) ne s = refl

module _ {D E C M : Type 0} ⦃d : Double D⦄ ⦃e : Eigen D⦄ ⦃m : Matrices D M⦄
    ⦃ctl : Controller D C⦄ where
  pointing-IsIdle :
      (f : FlightSoftware D E C M) (sensors : SensorData D) (state : State D) (dt : D)
      → f.mode_manager.current_mode ≢ safe
      → IsIdle (pointing f sensors state dt)
  unfolding pointing
  pointing-IsIdle f sensors state dt ne =
      IsIdle-if (length sensors.rw_speeds == 4) _ _
        (λ t. distribute-IsIdle _ _ (allocate f.control_allocator _) ne) (λ t s. absurd (ne s))

  detumble-IsIdle :
      (f : FlightSoftware D E C M) (sensors : SensorData D) (state : State D)
      (target : GuidanceTarget D) (dt : D)
      → f.bdot_controller ≡ none
      → (detumble f sensors state target dt).1 ≡ vector_zero
  unfolding detumble steer
  detumble-IsIdle f sensors state target dt h = ap (λ c. (steer c sensors state target dt).1) h

  control-IsIdle :
      (f : FlightSoftware D E C M) (sensors : SensorData D) (state : State D) (dt : D)
      (unset : State D)
      → f.bdot_controller ≡ none
      → IsIdle (control f sensors state dt unset)
  unfolding control
  control-IsIdle f sensors state dt unset h =
      let mode = (ModeManager.update f.mode_manager state.w dt).current_mode in
      IsIdle-if (same_mode mode safe) _ _ (λ t s. detumble-IsIdle _ sensors state _ dt h)
        (λ t. pointing-IsIdle _ sensors state dt (λ s. other_mode mode t s))

finish-IsIdle :
    {D E C M : Type 0} ⦃d : Double D⦄ ⦃stored : Stored D⦄ (state : State D) (dt : D)
    (p : FlightSoftware D E C M × Vector3 D)
    → IsIdle p
    → IsIdle (finish state dt p)
unfolding finish
finish-IsIdle state dt (f, torque) h = h

module _ {D E C M : Type 0} ⦃d : Double D⦄ ⦃stored : Stored D⦄ ⦃e : Eigen D⦄ ⦃m : Matrices D M⦄
    ⦃est : Estimator D E⦄ ⦃ctl : Controller D C⦄ where
  -- A flight whose software has no controller for detumbling commands no torque in a cycle that ends
  -- in SAFE mode, if the cycle has no commands and no wheel speeds, whatever its other controller is.
  pub step-IsIdle :
      (f f' : FlightSoftware D E C M) (sensors : SensorData D) (dt : D) (unset : State D)
      (torque : Vector3 D)
      → IsUndamped f
      → sensors.rw_speeds ≡ []
      → Step.step f sensors [] dt unset ≡ some (f', torque)
      → f'.mode_manager.current_mode ≡ safe
      → torque ≡ vector_zero
  unfolding Step.step complete finish
  step-IsIdle f f' sensors dt unset torque undamped empty h s =
      let f0 = record f { accumulated_time = f.accumulated_time ⊕ dt } in
      let f1 = process_commands f0 [] in
      let (estimator, state) = estimate f1.estimator sensors dt unset in
      let f2 = record f1 { estimator = estimator } in
      let same = manage_wheels-empty f2 sensors dt empty in
      elim (Bool-cases (dt ≼ lit 0 0)) [
        | inl t ↦ sym (ap (λ p. p.1) (some-injective _ _ (rw t at h)))
        | inr t ↦
            let idle =
              control-IsIdle f2 sensors state dt unset
                (process_commands-IsUndamped f0 undamped).1 in
            subst IsIdle (some-injective _ _ (rw (t, same) at h))
              (finish-IsIdle state dt (control f2 sensors state dt unset) idle) s
      ]

module _ {D M : Type 0} ⦃d : Double D⦄ ⦃e : Eigen D⦄ ⦃m : Matrices D M⦄ where
  construct-IsUndamped :
      (kp ki kd : D) (store : DataStore D (Subscribers D (AnyController D))) (counts : Counts)
      (unset : State D) {f : FlightSoftware D (Mekf D M) (AnyController D) M}
      → construct (evaluator_config kp ki kd) store counts unset ≡ some f
      → IsUndamped f
  unfolding construct evaluator_config
  construct-IsUndamped kp ki kd store counts unset h =
      subst IsUndamped (some-injective _ _ h) (refl, refl)

module _ {D M : Type 0} ⦃d : Double D⦄ ⦃stored : Stored D⦄ ⦃e : Eigen D⦄ ⦃l : Libm D⦄
    ⦃m : Matrices D M⦄ ⦃est : Estimator D (Mekf D M)⦄ where
  -- Whatever gains an evaluation tries, the first cycle of its flight software commands no torque
  -- if it ends in SAFE mode, without commands and without wheel speeds, as in the simulation.
  pub construct-IsIdle :
      (kp ki kd : D) (store : DataStore D (Subscribers D (AnyController D))) (counts : Counts)
      (unset : State D) (f f' : FlightSoftware D (Mekf D M) (AnyController D) M)
      (sensors : SensorData D) (dt : D) (torque : Vector3 D)
      → construct (evaluator_config kp ki kd) store counts unset ≡ some f
      → sensors.rw_speeds ≡ []
      → Step.step f sensors [] dt unset ≡ some (f', torque)
      → f'.mode_manager.current_mode ≡ safe
      → torque ≡ vector_zero
  construct-IsIdle kp ki kd store counts unset f f' sensors dt torque made empty h s =
      step-IsIdle f f' sensors dt unset torque
        (construct-IsUndamped kp ki kd store counts unset made) empty h s
