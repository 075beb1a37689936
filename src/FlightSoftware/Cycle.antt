-- ===== src/FlightSoftware/Cycle.antt =====
-- src/fsw/FlightSoftware.cpp: a whole step, taken apart, and runs of steps.
use mathlib.Core.Option.{some-injective}
use cubesat_fsw_gnc.Prelude.{
  ℕ, ◌≡◌, refl, ap, inl, inr, Bool, false, not, List, [], ◌∷◌, length, Option, none, some, set,
  Bool-cases, Option-cases, arith, ◌==◌,
}
use cubesat_fsw_gnc.Double.{Double, Stored, lit, ◌≼◌, ◌⊕◌}
use cubesat_fsw_gnc.Eigen.{Eigen, Vector3}
use cubesat_fsw_gnc.Linear.{Matrices}
use cubesat_fsw_gnc.Gnc.Interfaces.{SensorData, State, Estimator, Controller}
use cubesat_fsw_gnc.Gnc.ControlAllocator.{ControlAllocator, set_wheel_health}
use cubesat_fsw_gnc.Fdir.Health.{failed, same_status}
use cubesat_fsw_gnc.Fdir.Wheels.{wheel_status}
use cubesat_fsw_gnc.Fdir.Manager.{FdirManager}
use cubesat_fsw_gnc.Fdir.Actions.{Linked, update_wheels}
use cubesat_fsw_gnc.FlightSoftware.State.{FlightSoftware}
use cubesat_fsw_gnc.FlightSoftware.Control.{control}
use cubesat_fsw_gnc.FlightSoftware.Step.{
  process_commands, estimate, configure, adopt, manage_wheels, complete, finish, step,
}

-- The arguments of a step.
pub record Input (D : Type 0) : Type 0 where
  pub sensors : SensorData D
  pub raw_commands : List (List ℕ)
  pub dt : D
  pub unset : State D

-- What the allocator knows of the wheels.
abbrev pub flags : {D : Type 0} → FdirManager D → List Bool
flags {D} f =
    let flag : ℕ → Bool = λ i. not (same_status (wheel_status f.wheel_monitors i) failed) in
    flag 0 ∷ flag 1 ∷ flag 2 ∷ flag 3 ∷ []

four :
    (hs : List Bool) (p q r s : Bool)
    → length hs ≡ 4
    → set (set (set (set hs 0 p) 1 q) 2 r) 3 s ≡ p ∷ q ∷ r ∷ s ∷ []
four (a ∷ b ∷ c ∷ d ∷ []) p q r s h = refl
four [] p q r s h = absurd (omega (arith, h))
four (a ∷ []) p q r s h = absurd (omega (arith, h))
four (a ∷ b ∷ []) p q r s h = absurd (omega (arith, h))
four (a ∷ b ∷ c ∷ []) p q r s h = absurd (omega (arith, h))
four (a ∷ b ∷ c ∷ d ∷ e ∷ rest) p q r s h = absurd (omega (arith, h))

module _ {D M : Type 0} where
  configure_lem :
      (f : FdirManager D) (a : ControlAllocator M)
      → length a.wheel_healthy ≡ 4
      → (configure f (0 ∷ 1 ∷ 2 ∷ 3 ∷ []) a).wheel_healthy ≡ flags f
  unfolding configure set_wheel_health
  configure_lem f a h = four a.wheel_healthy _ _ _ _ h

module _ {D E C M : Type 0} ⦃d : Double D⦄ ⦃stored : Stored D⦄ ⦃est : Estimator D E⦄ where
  -- The state before section 3, and the estimate.
  abbrev pub prepared : FlightSoftware D E C M → Input D → FlightSoftware D E C M
  unfolding process_commands
  prepared f i =
      let f1 =
        process_commands (record f { accumulated_time = f.accumulated_time ⊕ i.dt })
          i.raw_commands in
      record f1 { estimator = (estimate f1.estimator i.sensors i.dt i.unset).0 }

  abbrev pub estimated : FlightSoftware D E C M → Input D → State D
  unfolding process_commands
  estimated f i =
      let f1 =
        process_commands (record f { accumulated_time = f.accumulated_time ⊕ i.dt })
          i.raw_commands in
      (estimate f1.estimator i.sensors i.dt i.unset).1

module _ {D E C M : Type 0} ⦃d : Double D⦄ where
  adopt-flags :
      (f f' : FlightSoftware D E C M) (r : Option (Linked D E))
      → length f.control_allocator.wheel_healthy ≡ 4
      → adopt f r ≡ some f'
      → f'.control_allocator.wheel_healthy ≡ flags f'.fdir
  unfolding adopt
  adopt-flags f f' none h e = cc
  adopt-flags f f' (some w) h e =
      rw (← some-injective _ _ e) (configure_lem w.fdir f.control_allocator h)

  -- What section 3 leaves to the allocator.
  pub manage_wheels-wired :
      ⦃est : Estimator D E⦄
      → (f f' : FlightSoftware D E C M) (sensors : SensorData D) (dt : D)
      → length f.control_allocator.wheel_healthy ≡ 4
      → manage_wheels f sensors dt ≡ some f'
      → (length f'.control_allocator.wheel_healthy ≡ 4)
        × (length sensors.rw_speeds ≡ 4 → f'.control_allocator.wheel_healthy ≡ flags f'.fdir)
  unfolding manage_wheels
  manage_wheels-wired f f' sensors dt h e = elim (Bool-cases (length sensors.rw_speeds == 4)) [
    | inl p ↦
        let w : Linked D E = record {
          fdir = f.fdir;
          mode_manager = some f.mode_manager;
          mekf = f.estimator;
        } in
        let q =
          adopt-flags f f' (update_wheels w sensors.rw_speeds f.last_rw_torque_cmds dt) h
            (ground (arith, p, e)) in
        (ap length q, λ l. q)
    | inr p ↦ (ground (arith, p, e, h), λ l. ground (arith, p, l))
  ]

module _ {D E C M : Type 0} ⦃d : Double D⦄ ⦃stored : Stored D⦄ ⦃e : Eigen D⦄ ⦃m : Matrices D M⦄
    ⦃est : Estimator D E⦄ ⦃ctl : Controller D C⦄ where
  abbrev pub cycle : FlightSoftware D E C M → Input D → Option (FlightSoftware D E C M × Vector3 D)
  cycle f i = step f i.sensors i.raw_commands i.dt i.unset

  -- A step with a result, for a positive time step.
  pub step_inv :
      (f : FlightSoftware D E C M) (i : Input D) (r : FlightSoftware D E C M × Vector3 D)
      → i.dt ≼ lit 0 0 ≡ false
      → cycle f i ≡ some r
      → (f2 : FlightSoftware D E C M) × (manage_wheels (prepared f i) i.sensors i.dt ≡ some f2)
        × (r ≡ finish (estimated f i) i.dt (control f2 i.sensors (estimated f i) i.dt i.unset))
  unfolding step complete process_commands
  step_inv f i r p e = elim (Option-cases (manage_wheels (prepared f i) i.sensors i.dt)) [
    | inl q ↦ absurd (ground (arith, p, q, e))
    | inr (f2, q) ↦ (f2, q, ground (arith, p, q, e))
  ]
