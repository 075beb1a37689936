-- ===== src/FlightSoftware/Ready.antt =====
-- src/fsw/FlightSoftware.cpp: cycles that read inside their vectors.
use mathlib.Core.Option.{some-injective}
use cubesat_fsw_gnc.Prelude.{
  ℕ, suc, ◌≡◌, ◌≤◌, refl, ap, sym, ◌∙◌, inl, inr, true, List, [], ◌∷◌, length, none, some,
  Option-cases, arith, ◌==◌,
}
use cubesat_fsw_gnc.Double.{Double}
use cubesat_fsw_gnc.Gnc.Interfaces.{SensorData, Estimator}
use cubesat_fsw_gnc.Fdir.Wheels.{WheelHealthData, grow, update_loop}
use cubesat_fsw_gnc.Fdir.Wheels.Bounds.{InBounds, update_loop-some}
use cubesat_fsw_gnc.Fdir.Wheels.Latch.{Worsens, update_loop-Worsens}
use cubesat_fsw_gnc.Fdir.Actions.{Linked, update_wheels}
use cubesat_fsw_gnc.FlightSoftware.State.{FlightSoftware}
use cubesat_fsw_gnc.FlightSoftware.Step.{adopt, manage_wheels}

length-Worsens :
    {D : Type 0} (ws vs : List (WheelHealthData D)) → Worsens ws vs → length vs ≡ length ws
length-Worsens [] [] h = refl
length-Worsens [] (v ∷ vs) h = absurd h
length-Worsens (w ∷ ws) [] h = absurd h
length-Worsens (w ∷ ws) (v ∷ vs) h = ap suc (length-Worsens ws vs h.1)

module _ {D : Type 0} ⦃d : Double D⦄ where
  InBounds-of_length :
      (ws : List (WheelHealthData D)) (speeds commands : List D)
      → length speeds ≤ length ws
      → length speeds ≤ length commands
      → InBounds ws speeds commands
  InBounds-of_length ws [] commands p q = tt
  InBounds-of_length [] (s ∷ speeds) commands p q = absurd (omega (arith, p))
  InBounds-of_length (w ∷ ws) (s ∷ speeds) [] p q = absurd (omega (arith, q))
  InBounds-of_length (w ∷ ws) (s ∷ speeds) (c ∷ commands) p q =
      InBounds-of_length ws speeds commands (omega (arith, p)) (omega (arith, q))

  grow_le : (ws : List (WheelHealthData D)) (n : ℕ) → n ≤ length ws → grow ws n ≡ ws
  unfolding grow
  grow_le ws n p = ground (arith, p)

module _ {D E : Type 0} ⦃d : Double D⦄ ⦃est : Estimator D E⦄ where
  pub wheel_monitors-update_wheels :
      (w w' : Linked D E) (speeds commands : List D) (dt : D)
      → update_wheels w speeds commands dt ≡ some w'
      → update_loop (grow w.fdir.wheel_monitors (length speeds)) speeds commands dt
        ≡ some w'.fdir.wheel_monitors
  unfolding update_wheels
  wheel_monitors-update_wheels w w' speeds commands dt e = ground (arith, e)

  update_wheels-none :
      (w : Linked D E) (speeds commands : List D) (dt : D)
      → update_wheels w speeds commands dt ≡ none
      → update_loop (grow w.fdir.wheel_monitors (length speeds)) speeds commands dt ≡ none
  unfolding update_wheels
  update_wheels-none w speeds commands dt e = ground (arith, e)

  update_wheels-some :
      (w : Linked D E) (speeds commands : List D) (dt : D)
      → length speeds ≤ length w.fdir.wheel_monitors
      → length speeds ≤ length commands
      → (w' : Linked D E) × (update_wheels w speeds commands dt ≡ some w')
        × (length w'.fdir.wheel_monitors ≡ length w.fdir.wheel_monitors)
  update_wheels-some w speeds commands dt p q =
      let ws = w.fdir.wheel_monitors in
      let (vs, e) =
        update_loop-some ws speeds commands dt (InBounds-of_length ws speeds commands p q) in
      let l = length-Worsens ws vs (update_loop-Worsens ws vs speeds commands dt e) in
      let g = grow_le ws (length speeds) p in
      elim (Option-cases (update_wheels w speeds commands dt)) [
        | inl n ↦ absurd (ground (arith, e, g, update_wheels-none w speeds commands dt n))
        | inr (w', r) ↦
            let k = wheel_monitors-update_wheels w w' speeds commands dt r in
            let s : vs ≡ w'.fdir.wheel_monitors =
              some-injective _ _ (sym e ∙ ap (λ x. update_loop x speeds commands dt) (sym g) ∙ k) in
            (w', r, rw (← s) l)
      ]

module _ {D E C M : Type 0} ⦃d : Double D⦄ where
  -- There is a command and a monitor for each of four wheels.
  pub record IsReady (f : FlightSoftware D E C M) : Type 0 where
    pub commands : length f.last_rw_torque_cmds ≡ 4
    pub allocator : length f.control_allocator.wheel_healthy ≡ 4
    pub monitors : 4 ≤ length f.fdir.wheel_monitors

  adopt-some :
      (f : FlightSoftware D E C M) (w : Linked D E)
      → (f' : FlightSoftware D E C M) × (adopt f (some w) ≡ some f') × (f'.fdir ≡ w.fdir)
  unfolding adopt
  adopt-some f w = (_, refl, refl)

  pub manage_wheels-some :
      ⦃est : Estimator D E⦄
      → (f : FlightSoftware D E C M) (sensors : SensorData D) (dt : D) → IsReady f
      → length sensors.rw_speeds ≡ 4
      → (f' : FlightSoftware D E C M) × (manage_wheels f sensors dt ≡ some f')
        × (4 ≤ length f'.fdir.wheel_monitors)
  unfolding manage_wheels
  manage_wheels-some f sensors dt r l =
      let w : Linked D E = record {
        fdir = f.fdir;
        mode_manager = some f.mode_manager;
        mekf = f.estimator;
      } in
      let (w', e, n) =
        update_wheels-some w sensors.rw_speeds f.last_rw_torque_cmds dt
          (omega (arith, l, r.monitors)) (omega (arith, l, r.commands)) in
      let (f', a, q) = adopt-some f w' in
      let t : (length sensors.rw_speeds == 4) ≡ true = ground (arith, l) in
      (f', rw (t, e) a, rw q (omega (arith, n, r.monitors)))
