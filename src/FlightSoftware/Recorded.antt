-- ===== src/FlightSoftware/Recorded.antt =====
-- src/fsw/FlightSoftware.cpp: what runs of cycles leave in the telemetry queue and in the history.
use cubesat_fsw_gnc.Prelude.{
  suc, ◌≡◌, refl, ap, sym, ◌∙◌, inl, inr, Bool, true, false, List, [], ◌∷◌, length, Option, none,
  some, Bool-cases, Option-cases, arith, ◌==◌, min, take,
}
use mathlib.Core.Option.{some-injective}
use cubesat_fsw_gnc.Double.{Double, Stored, lit, ◌≼◌}
use cubesat_fsw_gnc.Eigen.{Eigen, Vector3}
use cubesat_fsw_gnc.Linear.{Matrices}
use cubesat_fsw_gnc.Common.StateHistory.{StateHistory, add_state, init as history_init}
use cubesat_fsw_gnc.Common.StateHistory.Rows.{Rows}
use cubesat_fsw_gnc.Common.StateHistory.Newest.{add_all, newest, add_all-init}
use cubesat_fsw_gnc.Core.ModeManager.{ModeTransitionConfig, same_mode, safe, update}
use cubesat_fsw_gnc.Core.SpscQueue.{SpscQueue, push, size, init as queue_init}
use cubesat_fsw_gnc.Core.SpscQueue.Unread.{push_all, IsUnread, push_all-init}
use cubesat_fsw_gnc.Core.DataStore.{DataStore}
use cubesat_fsw_gnc.Gnc.Interfaces.{SensorData, State, Estimator, Controller}
use cubesat_fsw_gnc.Fdir.Actions.{Linked, update_wheels}
use cubesat_fsw_gnc.Telemetry.Service.{Counts}
use cubesat_fsw_gnc.FlightSoftware.State.{FlightSoftware, Subscribers, init}
use cubesat_fsw_gnc.FlightSoftware.Control.{distribute, pointing, detumble, control}
use cubesat_fsw_gnc.FlightSoftware.Step.{process_commands, adopt, manage_wheels, finish}
use cubesat_fsw_gnc.FlightSoftware.Cycle.{Input, cycle, prepared, estimated, step_inv}
use cubesat_fsw_gnc.FlightSoftware.Runs.{run, run-cons}

-- Every cycle has a positive time step.
abbrev pub HaveTime : {D : Type 0} → ⦃d : Double D⦄ → List (Input D) → Type 0
HaveTime [] = Unit
HaveTime (i ∷ is) = (i.dt ≼ lit 0 0 ≡ false) × HaveTime is

module _ {D E C M : Type 0} where
  abbrev recorded : FlightSoftware D E C M → SpscQueue (State D) × StateHistory D
  recorded f = (f.telemetry_queue, f.state_history)

module _ {D E C M : Type 0} ⦃d : Double D⦄ where
  recorded-distribute :
      (f : FlightSoftware D E C M) (torque : Vector3 D) (r : List D × Bool)
      → recorded (distribute f torque r).0 ≡ recorded f
  unfolding distribute
  recorded-distribute f torque (ts, true) = refl
  recorded-distribute f torque (ts, false) = refl

  recorded-adopt :
      (f f' : FlightSoftware D E C M) (w : Option (Linked D E))
      → adopt f w ≡ some f'
      → recorded f' ≡ recorded f
  unfolding adopt
  recorded-adopt f f' none e = cc
  recorded-adopt f f' (some w) e = rw (← some-injective _ _ e) refl

  recorded-manage_wheels :
      ⦃est : Estimator D E⦄
      → (f f' : FlightSoftware D E C M) (sensors : SensorData D) (dt : D)
      → manage_wheels f sensors dt ≡ some f'
      → recorded f' ≡ recorded f
  unfolding manage_wheels
  recorded-manage_wheels f f' sensors dt e =
      let w : Linked D E = record {
        fdir = f.fdir;
        mode_manager = some f.mode_manager;
        mekf = f.estimator;
      } in
      elim (Bool-cases (length sensors.rw_speeds == 4)) [
        | inl p ↦
            recorded-adopt f f' (update_wheels w sensors.rw_speeds f.last_rw_torque_cmds dt)
              (ground (arith, p, e))
        | inr p ↦ let q : some f ≡ some f' = ground (arith, p, e) in rw (some-injective _ _ q) refl
      ]

module _ {D E C M : Type 0} ⦃d : Double D⦄ ⦃m : Matrices D M⦄ ⦃ctl : Controller D C⦄
    ⦃e : Eigen D⦄ where
  recorded-pointing :
      (f : FlightSoftware D E C M) (sensors : SensorData D) (state : State D) (dt : D)
      → recorded (pointing f sensors state dt).0 ≡ recorded f
  unfolding pointing
  recorded-pointing f sensors state dt = elim (Bool-cases (length sensors.rw_speeds == 4)) [
    | inl p ↦ rw p (recorded-distribute _ _ _)
    | inr p ↦ rw p refl
  ]

  recorded-control :
      (f : FlightSoftware D E C M) (sensors : SensorData D) (state : State D) (dt : D)
      (unset : State D)
      → recorded (control f sensors state dt unset).0 ≡ recorded f
  unfolding control detumble
  recorded-control f sensors state dt unset =
      elim (Bool-cases (same_mode (update f.mode_manager state.w dt).current_mode safe)) [
        | inl p ↦ rw p refl
        | inr p ↦ rw p (recorded-pointing _ sensors state dt)
      ]

module _ {D E C M : Type 0} ⦃d : Double D⦄ ⦃stored : Stored D⦄ ⦃e : Eigen D⦄ ⦃m : Matrices D M⦄
    ⦃est : Estimator D E⦄ ⦃ctl : Controller D C⦄ where
  recorded-finish :
      (state : State D) (dt : D) (r : FlightSoftware D E C M × Vector3 D)
      → recorded (finish state dt r).0
        ≡ ((push r.0.telemetry_queue state).0, add_state r.0.state_history state)
  unfolding finish
  recorded-finish state dt r = refl

  recorded-cycle :
      (f : FlightSoftware D E C M) (i : Input D) (r : FlightSoftware D E C M × Vector3 D)
      → i.dt ≼ lit 0 0 ≡ false
      → cycle f i ≡ some r
      → recorded r.0
        ≡ ((push f.telemetry_queue (estimated f i)).0, add_state f.state_history (estimated f i))
  unfolding process_commands
  recorded-cycle f i r p q =
      let (f2, managed, eq) = step_inv f i r p q in
      let s = estimated f i in
      let k =
        recorded-control f2 i.sensors s i.dt i.unset
        ∙ recorded-manage_wheels (prepared f i) f2 i.sensors i.dt managed in
      ap (λ x. recorded x.0) eq
      ∙ recorded-finish s i.dt (control f2 i.sensors s i.dt i.unset)
      ∙ ap (λ x. ((push x.0 s).0, add_state x.1 s)) k

  -- The estimates of a run's cycles, up to one without a result.
  unfoldable pub estimates : FlightSoftware D E C M → List (Input D) → List (State D)
  estimates f [] = []
  estimates f (i ∷ is) =
      estimated f i ∷ elim (cycle f i) [ none ↦ [] | some (f', torque) ↦ estimates f' is ]

  estimates-nil : (f : FlightSoftware D E C M) → estimates f [] ≡ []
  unfolding estimates
  estimates-nil f = refl

  estimates-cons :
      (f : FlightSoftware D E C M) (i : Input D) (is : List (Input D))
      (r : FlightSoftware D E C M × Vector3 D)
      → cycle f i ≡ some r
      → estimates f (i ∷ is) ≡ estimated f i ∷ estimates r.0 is
  unfolding estimates
  estimates-cons f i is r e = rw (estimates, e) refl

  recorded-run :
      (f f' : FlightSoftware D E C M) (is : List (Input D))
      → HaveTime is
      → run f is ≡ some f'
      → (length (estimates f is) ≡ length is)
        × (recorded f' ≡ (
          push_all f.telemetry_queue (estimates f is),
          add_all f.state_history (estimates f is),
        ))
  unfolding run push_all add_all
  recorded-run f f' [] h q =
      (ap length (estimates-nil f), rw (estimates-nil f) (rw (← some-injective _ _ q) refl))
  recorded-run f f' (i ∷ is) (p, h) q = elim (Option-cases (cycle f i)) [
    | inl n ↦ absurd (ground (arith, n, q))
    | inr (r, n) ↦
        let (l, g) = recorded-run r.0 f' is h (sym (run-cons f i is r n) ∙ q) in
        let k = recorded-cycle f i r p n in
        let c = estimates-cons f i is r n in
        (
          ap length c ∙ ap suc l,
          g
              ∙ ap (λ x. (push_all x.0 (estimates r.0 is), add_all x.1 (estimates r.0 is))) k
              ∙ sym (ap (λ ss. (push_all f.telemetry_queue ss, add_all f.state_history ss)) c),
        )
  ]

  -- After a run with a result from the constructor, whose time steps are positive, the telemetry
  -- queue, which nothing reads, holds the first 127 estimates of the cycles from cell 0 on and
  -- refused all later ones, and the history holds the newest 1000; their sizes are the number of
  -- cycles, up to 127 and 1000.
  pub run-init_records :
      (mode_cfg : ModeTransitionConfig D) (sun : Vector3 D) (estimator : Option E)
      (attitude bdot : Option C) (store : DataStore D (Subscribers D C)) (counts : Counts)
      (unset : State D) (is : List (Input D)) (f : FlightSoftware D E C M)
      → HaveTime is
      → run (init mode_cfg sun estimator attitude bdot store counts unset) is ≡ some f
      → let states = estimates (init mode_cfg sun estimator attitude bdot store counts unset) is in
        IsUnread 7 f.telemetry_queue (take 127 states)
        × (size f.telemetry_queue ≡ min (length is) 127)
        × (f.state_history.current_size ≡ min (length is) 1000)
        × Rows 1000 f.state_history (newest 1000 states)
  unfolding init
  run-init_records mode_cfg sun estimator attitude bdot store counts unset is f h q =
      let states = estimates (init mode_cfg sun estimator attitude bdot store counts unset) is in
      let (l, g) =
        recorded-run (init mode_cfg sun estimator attitude bdot store counts unset) f is h q in
      let (u, n) = push_all-init 7 unset states in
      let (c, r) = add_all-init 1000 states (omega arith) in
      let a : f.telemetry_queue ≡ push_all (queue_init 128 unset) states = ap (λ x. x.0) g in
      let b : f.state_history ≡ add_all (history_init 1000) states = ap (λ x. x.1) g in
      (rw a u, rw (a, ← l) n, rw (b, ← l) c, rw b r)
