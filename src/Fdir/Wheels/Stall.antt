-- ===== src/Fdir/Wheels/Stall.antt =====
-- A wheel that stops answering its commands is found (src/fsw/fdir/FDIRManager.cpp).
use cubesat_fsw_gnc.Prelude.{
  ℕ, suc, ◌+◌, ◌≤◌, ◌≡◌, refl, ◌⊎◌, inl, inr, true, false, List, [], ◌∷◌, Option, none, some, arith,
  Bool-cases, leb, length,
}
use cubesat_fsw_gnc.Double.{Double, lit, ◌⊖◌, ◌⊗◌, ◌⊘◌, ◌≺◌}
use cubesat_fsw_gnc.Fdir.Health.{failed}
use cubesat_fsw_gnc.Fdir.Wheels.{WheelHealthData, saturated, update_wheel, check_torque}
use cubesat_fsw_gnc.Fdir.Wheels.Bounds.{IsSettled}

module _ {D : Type 0} ⦃d : Double D⦄ where
  -- A wheel that does not answer its command in one cycle.
  abbrev pub Stalls : WheelHealthData D → D → D → D → Type 0
  Stalls w speed command dt =
      let torque = command ⊖ (lit 1 4 ⊗ speed) in
      (saturated speed ≡ false)
      × (lit 2 3 ≺ d.abs torque ≡ true)
      × (d.abs ((speed ⊖ w.last_speed) ⊘ dt) ≺ (lit 5 2 ⊗ d.abs (torque ⊘ lit 1 3)) ≡ true)

  abbrev after : WheelHealthData D → D → D → D → WheelHealthData D
  after w speed command dt =
      check_torque (record w { last_speed = speed }) speed ((speed ⊖ w.last_speed) ⊘ dt) command

  abbrev pub AllStall : WheelHealthData D → List (D × D) → D → Type 0
  AllStall w [] dt = Unit
  AllStall w ((speed, command) ∷ cs) dt =
      Stalls w speed command dt × AllStall (after w speed command dt) cs dt

  -- The cycles of one wheel, a speed and the last command each.
  pub run_wheel : WheelHealthData D → List (D × D) → D → Option (WheelHealthData D)
  run_wheel w [] dt = some w
  run_wheel w ((speed, command) ∷ cs) dt = elim (update_wheel w speed (some command) dt) [
    | none ↦ none
    | some v ↦ run_wheel v cs dt
  ]

  after_counts :
      (w : WheelHealthData D) (speed command dt : D)
      → Stalls w speed command dt
      → (update_wheel w speed (some command) dt ≡ some (after w speed command dt))
        × ((after w speed command dt).stuck_count ≡ w.stuck_count + 1)
        × (9 ≤ w.stuck_count → (after w speed command dt).status ≡ failed)
        × (w.status ≡ failed → (after w speed command dt).status ≡ failed)
  unfolding update_wheel check_torque
  after_counts w speed command dt (a, b, c) = ground arith

  -- FAILED by now, or within as many stalls as are to come.
  abbrev WillFail : WheelHealthData D → ℕ → Type 0
  WillFail w n = (w.status ≡ failed) ⊎ (10 ≤ w.stuck_count + n) × (w.stuck_count ≤ 9)

  after-WillFail :
      (w : WheelHealthData D) (speed command dt : D) (n : ℕ)
      → Stalls w speed command dt
      → WillFail w (suc n)
      → WillFail (after w speed command dt) n
  after-WillFail w speed command dt n h (inl f) = inl ((after_counts w speed command dt h).3 f)
  after-WillFail w speed command dt n h (inr (b, small)) = elim (Bool-cases (leb 9 w.stuck_count)) [
    | inl e ↦ inl ((after_counts w speed command dt h).2 (ground arith))
    | inr e ↦ inr (omega (arith, not_nine e, after_counts w speed command dt h))
  ]
    where
      not_nine : leb 9 w.stuck_count ≡ false → w.stuck_count ≤ 8
      not_nine e = ground arith

  run_wheel-failed :
      (cs : List (D × D)) (w : WheelHealthData D) (dt : D)
      → AllStall w cs dt
      → WillFail w (length cs)
      → (v : WheelHealthData D) × (run_wheel w cs dt ≡ some v) × (v.status ≡ failed)
  unfolding run_wheel
  run_wheel-failed [] w dt h (inl f) = (w, refl, f)
  run_wheel-failed [] w dt h (inr b) = absurd (omega arith)
  run_wheel-failed ((speed, command) ∷ cs) w dt (h, hs) b =
      let (v, e, f) =
        run_wheel-failed cs (after w speed command dt) dt hs
          (after-WillFail w speed command dt (length cs) h b) in
      (v, rw ((after_counts w speed command dt h).0, run_wheel) e, f)

  -- Ten cycles or more in a row in which a wheel does not answer its command end with the wheel
  -- FAILED, if a full counter had failed it before.
  pub ten_stalls_fail :
      (w : WheelHealthData D) (cs : List (D × D)) (dt : D)
      → IsSettled w
      → AllStall w cs dt
      → 10 ≤ length cs
      → (v : WheelHealthData D) × (run_wheel w cs dt ≡ some v) × (v.status ≡ failed)
  ten_stalls_fail w cs dt settled h n = elim (Bool-cases (leb 10 w.stuck_count)) [
    | inl e ↦ run_wheel-failed cs w dt h (inl (settled.stuck e))
    | inr e ↦ run_wheel-failed cs w dt h (inr (omega arith, ground arith))
  ]
