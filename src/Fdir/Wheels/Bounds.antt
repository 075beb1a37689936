-- ===== src/Fdir/Wheels/Bounds.antt =====
-- The counters of the wheel monitors, and when the loop of `updateWheels` stays inside its vectors
-- (src/fsw/fdir/FDIRManager.cpp).
use cubesat_fsw_gnc.Prelude.{
  ℕ, zero, suc, ◌-◌, ◌≡◌, refl, inl, inr, true, false, List, [], ◌∷◌, ◌++◌, Option, none, some,
  arith, Bool-cases, ltb, leb, length, replicate,
}
use mathlib.Core.Option.{some-injective}
use cubesat_fsw_gnc.Double.{Double, ◌⊖◌, ◌⊘◌}
use cubesat_fsw_gnc.Fdir.Health.{healthy, failed, same_status}
use cubesat_fsw_gnc.Fdir.Wheels.{
  WheelHealthData, head?, tail, saturated, fresh_wheel, grow, update_wheel, update_loop,
  check_torque,
}
use cubesat_fsw_gnc.Fdir.Wheels.Latch.{update_loop-cons}

module _ {D : Type 0} where
  -- A full counter has told: ten stalls mean FAILED, fifteen weak responses mean not HEALTHY.
  pub record IsSettled (w : WheelHealthData D) : Type 0 where
    pub stuck : leb 10 w.stuck_count ≡ true → w.status ≡ failed
    pub weak : leb 15 w.degraded_count ≡ true → same_status w.status healthy ≡ false

  abbrev pub AllSettled : List (WheelHealthData D) → Type 0
  AllSettled [] = Unit
  AllSettled (w ∷ ws) = IsSettled w × AllSettled ws

module _ {D : Type 0} ⦃d : Double D⦄ where
  append_fresh :
      (ws : List (WheelHealthData D)) (k : ℕ)
      → AllSettled ws
      → AllSettled (ws ++ replicate k fresh_wheel)
  append_fresh [] zero h = tt
  append_fresh [] (suc k) h = (ground arith, append_fresh [] k tt)
  append_fresh (w ∷ ws) k h = (h.0, append_fresh ws k h.1)

  pub AllSettled-grow :
      (ws : List (WheelHealthData D)) (n : ℕ) → AllSettled ws → AllSettled (grow ws n)
  unfolding grow
  AllSettled-grow ws n h = elim (Bool-cases (ltb (length ws) n)) [
    | inl e ↦ rw e (append_fresh ws (n - length ws) h)
    | inr e ↦ rw e h
  ]

  update_wheel-IsSettled :
      (w v : WheelHealthData D) (speed : D) (command : Option D) (dt : D)
      → IsSettled w
      → update_wheel w speed command dt ≡ some v
      → IsSettled v
  unfolding update_wheel check_torque
  update_wheel-IsSettled w v speed command dt h e = ground arith

  -- A run of the loop with a result keeps every full counter in agreement with the status of its
  -- wheel: ten stalls mean FAILED, fifteen weak responses mean not HEALTHY.
  pub update_loop-AllSettled :
      (ws vs : List (WheelHealthData D)) (speeds commands : List D) (dt : D)
      → AllSettled ws
      → update_loop ws speeds commands dt ≡ some vs
      → AllSettled vs
  unfolding update_loop
  update_loop-AllSettled ws vs [] commands dt h e = rw (← some-injective _ _ e) h
  update_loop-AllSettled [] vs (s ∷ speeds) commands dt h e = cc
  update_loop-AllSettled (w ∷ ws) vs (s ∷ speeds) commands dt h e =
      let (u, us, p, q, eq) = update_loop-cons w ws vs s speeds commands dt e in
      rw eq (
        update_wheel-IsSettled w u s (head? commands) dt h.0 p,
        update_loop-AllSettled ws us speeds (tail commands) dt h.1 q,
      )

  -- The loop reads inside its vectors: each speed has a monitor, and a command unless the wheel is
  -- saturated.
  abbrev pub InBounds : List (WheelHealthData D) → List D → List D → Type 0
  InBounds ws [] commands = Unit
  InBounds [] (s ∷ speeds) commands = ⊥
  InBounds (w ∷ ws) (s ∷ speeds) [] = (saturated s ≡ true) × InBounds ws speeds []
  InBounds (w ∷ ws) (s ∷ speeds) (c ∷ commands) = InBounds ws speeds commands

  update_wheel-some :
      (w : WheelHealthData D) (s c dt : D)
      → (v : WheelHealthData D) × (update_wheel w s (some c) dt ≡ some v)
  unfolding update_wheel
  update_wheel-some w s c dt = elim (Bool-cases (saturated s)) [
    | inl h ↦ (record w { last_speed = s; status = failed }, rw h)
    | inr h ↦ (check_torque (record w { last_speed = s }) s ((s ⊖ w.last_speed) ⊘ dt) c, rw h)
  ]

  update_wheel-saturated :
      (w : WheelHealthData D) (s : D) (command : Option D) (dt : D)
      → saturated s ≡ true
      → update_wheel w s command dt ≡ some (record w { last_speed = s; status = failed })
  unfolding update_wheel
  update_wheel-saturated w s command dt h = rw h

  saturated_of_none :
      (w v : WheelHealthData D) (s dt : D) → update_wheel w s none dt ≡ some v → saturated s ≡ true
  unfolding update_wheel
  saturated_of_none w v s dt e = ground arith

  pub update_loop-some :
      (ws : List (WheelHealthData D)) (speeds commands : List D) (dt : D)
      → InBounds ws speeds commands
      → (vs : List (WheelHealthData D)) × (update_loop ws speeds commands dt ≡ some vs)
  unfolding update_loop
  update_loop-some ws [] commands dt h = (ws, refl)
  update_loop-some [] (s ∷ speeds) commands dt h = absurd h
  update_loop-some (w ∷ ws) (s ∷ speeds) [] dt (sat, h) =
      let (us, q) = update_loop-some ws speeds [] dt h in
      (
        record w { last_speed = s; status = failed } ∷ us,
        rw (update_wheel-saturated w s none dt sat, update_loop, q),
      )
  update_loop-some (w ∷ ws) (s ∷ speeds) (c ∷ commands) dt h =
      let (us, q) = update_loop-some ws speeds commands dt h in
      let (u, p) = update_wheel-some w s c dt in (u ∷ us, rw (p, update_loop, q))

  pub update_loop-InBounds :
      (ws vs : List (WheelHealthData D)) (speeds commands : List D) (dt : D)
      → update_loop ws speeds commands dt ≡ some vs
      → InBounds ws speeds commands
  unfolding update_loop
  update_loop-InBounds ws vs [] commands dt e = tt
  update_loop-InBounds [] vs (s ∷ speeds) commands dt e = cc
  update_loop-InBounds (w ∷ ws) vs (s ∷ speeds) [] dt e =
      let (u, us, p, q, _) = update_loop-cons w ws vs s speeds [] dt e in
      (saturated_of_none w u s dt p, update_loop-InBounds ws us speeds [] dt q)
  update_loop-InBounds (w ∷ ws) vs (s ∷ speeds) (c ∷ commands) dt e =
      let (u, us, p, q, _) = update_loop-cons w ws vs s speeds (c ∷ commands) dt e in
      update_loop-InBounds ws us speeds commands dt q

  -- The loop of `updateWheels` has a result exactly when it reads inside its vectors: each speed
  -- has a monitor, and each speed below saturation has a command.
  pub update_loop_iff :
      (ws : List (WheelHealthData D)) (speeds commands : List D) (dt : D)
      → (InBounds ws speeds commands
          → (vs : List (WheelHealthData D)) × (update_loop ws speeds commands dt ≡ some vs))
        × ((vs : List (WheelHealthData D))
            → update_loop ws speeds commands dt ≡ some vs
            → InBounds ws speeds commands)
  update_loop_iff ws speeds commands dt =
      (update_loop-some ws speeds commands dt, λ vs. update_loop-InBounds ws vs speeds commands dt)
