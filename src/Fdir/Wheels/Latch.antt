-- ===== src/Fdir/Wheels/Latch.antt =====
-- Wheel health never improves (src/fsw/fdir/FDIRManager.cpp, `updateWheels`).
use cubesat_fsw_gnc.Prelude.{
  ℕ, zero, suc, ◌-◌, ◌≤◌, ◌≡◌, refl, inl, inr, List, [], ◌∷◌, ◌++◌, Option, some, arith,
  Option-cases, length, replicate,
}
use mathlib.Core.Option.{some-injective}
use cubesat_fsw_gnc.Double.{Double}
use cubesat_fsw_gnc.Fdir.Health.{status_code}
use cubesat_fsw_gnc.Fdir.Wheels.{
  WheelHealthData, head?, tail, failed_count, grow, fresh_wheel, update_wheel, update_loop,
  check_torque,
}

-- Wheel by wheel, the second list is as healthy as the first or worse.
abbrev pub Worsens : {D : Type 0} → List (WheelHealthData D) → List (WheelHealthData D) → Type 0
Worsens [] [] = Unit
Worsens [] (v ∷ vs) = ⊥
Worsens (w ∷ ws) [] = ⊥
Worsens (w ∷ ws) (v ∷ vs) = (status_code w.status ≤ status_code v.status) × Worsens ws vs

Worsens-refl : {D : Type 0} (ws : List (WheelHealthData D)) → Worsens ws ws
Worsens-refl [] = tt
Worsens-refl (w ∷ ws) = (omega arith, Worsens-refl ws)

pub failed_count_mono :
    {D : Type 0} (ws vs : List (WheelHealthData D))
    → Worsens ws vs
    → failed_count ws ≤ failed_count vs
unfolding failed_count
failed_count_mono [] [] h = omega arith
failed_count_mono [] (v ∷ vs) h = absurd h
failed_count_mono (w ∷ ws) [] h = absurd h
failed_count_mono (w ∷ ws) (v ∷ vs) h = ground (arith, failed_count_mono ws vs h.1)

module _ {D : Type 0} ⦃d : Double D⦄ where
  failed_count-append_fresh :
      (ws : List (WheelHealthData D)) (n : ℕ)
      → failed_count (ws ++ replicate n fresh_wheel) ≡ failed_count ws
  unfolding failed_count
  failed_count-append_fresh [] zero = refl
  failed_count-append_fresh [] (suc n) = failed_count-append_fresh [] n
  failed_count-append_fresh (w ∷ ws) n = ground (arith, failed_count-append_fresh ws n)

  pub failed_count-grow :
      (ws : List (WheelHealthData D)) (n : ℕ) → failed_count (grow ws n) ≡ failed_count ws
  unfolding grow
  failed_count-grow ws n = ground (arith, failed_count-append_fresh ws (n - length ws))

  update_wheel-le :
      (w v : WheelHealthData D) (speed : D) (command : Option D) (dt : D)
      → update_wheel w speed command dt ≡ some v
      → status_code w.status ≤ status_code v.status
  unfolding update_wheel check_torque
  update_wheel-le w v speed command dt e = ground arith

  -- What a run of the loop over a first wheel consists of.
  pub update_loop-cons :
      (w : WheelHealthData D) (ws vs : List (WheelHealthData D)) (s : D) (speeds commands : List D)
      (dt : D)
      → update_loop (w ∷ ws) (s ∷ speeds) commands dt ≡ some vs
      → (u : WheelHealthData D) × (us : List (WheelHealthData D)) × (update_wheel w s
            (head? commands)
            dt
          ≡ some u)
        × (update_loop ws speeds (tail commands) dt ≡ some us)
        × (vs ≡ u ∷ us)
  unfolding update_loop
  update_loop-cons w ws vs s speeds commands dt e =
      elim (Option-cases (update_wheel w s (head? commands) dt)) [
        | inl none1 ↦ absurd (ground (arith, none1))
        | inr (u, p) ↦ elim (Option-cases (update_loop ws speeds (tail commands) dt)) [
          | inl none2 ↦ absurd (ground (arith, none2, p))
          | inr (us, q) ↦ (u, us, p, q, ground (arith, p, q))
        ]
      ]

  -- A run of the loop with a result keeps the number of monitors and makes no wheel healthier, so a
  -- failed wheel stays failed.
  pub update_loop-Worsens :
      (ws vs : List (WheelHealthData D)) (speeds commands : List D) (dt : D)
      → update_loop ws speeds commands dt ≡ some vs
      → Worsens ws vs
  unfolding update_loop
  update_loop-Worsens ws vs [] commands dt e = rw (← some-injective _ _ e) (Worsens-refl ws)
  update_loop-Worsens [] vs (s ∷ speeds) commands dt e = cc
  update_loop-Worsens (w ∷ ws) vs (s ∷ speeds) commands dt e =
      let (u, us, p, q, eq) = update_loop-cons w ws vs s speeds commands dt e in
      rw eq (
        update_wheel-le w u s (head? commands) dt p,
        update_loop-Worsens ws us speeds (tail commands) dt q,
      )
