-- ===== src/MonteCarlo/Outcomes.antt =====
-- src/test/MonteCarloRunner.cpp: which runs end, and which of them pass.
use cubesat_fsw_gnc.Prelude.Options.{
  Returns-bind_eq, Returns-bind, Returns-some, Returns, Returns-cases,
}
use cubesat_fsw_gnc.Prelude.{
  ℕ, arith, ◌<◌, zero, suc, ◌≡◌, refl, sym, ap, ◌∙◌, Bool, true, false, some, List, [], ◌∷◌, length,
  if◌then◌else◌,
}
use cubesat_fsw_gnc.Sim.Simulation.{Generators}
use cubesat_fsw_gnc.MonteCarlo.{
  advance, start_result, run_single_simulation, run_from, run, Draws, Noise, angular_rate, track,
  Matrices, check_pointing, check_rate, Eigen, verify, Double, MonteCarloResult, loop,
  MonteCarloConfig,
}
use cubesat_fsw_gnc.Eigen.{Vector3}
use cubesat_fsw_gnc.Double.{◌⊘◌, ◌≺◌, Libm, lit, ◌⊕◌, ◌⊗◌}
use mathlib.Core.Bool.{true≢false}
use cubesat_fsw_gnc.Gnc.Guidance.{pi}
use cubesat_fsw_gnc.Core.ModeManager.{nominal, same_mode}
use cubesat_fsw_gnc.Sim.Loop.{pointing_error, advance-Returns, Flight, World}

-- The time after some steps, by the repeated sums of the loop.
abbrev pub clock : {D : Type 0} → ⦃d : Double D⦄ → D → ℕ → D → D
clock dt zero t = t
clock dt (suc k) t = clock dt k (t ⊕ dt)

module _ {D G M F : Type 0} ⦃d : Double D⦄ ⦃e : Eigen D⦄ ⦃l : Libm D⦄ ⦃m : Matrices D M⦄
    ⦃n : Noise D G⦄ ⦃flight : Flight D F⦄ where
  loop-Returns :
      (c : MonteCarloConfig D) (fuel k : ℕ) (t : D) (w : World D G M F) (res : MonteCarloResult D)
      → k < fuel
      → clock c.dt k t ≺ c.duration ≡ false
      → Returns {0, 0} (λ o. Unit) (loop c fuel t w res)
  unfolding loop
  loop-Returns c zero k t w res h late = absurd (omega arith)
  loop-Returns c (suc fuel) zero t w res h late =
      Returns-cases (t ≺ c.duration) (λ e. Returns-some tt)
        (λ e. absurd (true≢false (sym e ∙ late)))
  loop-Returns c (suc fuel) (suc k) t w res h late =
      Returns-cases (t ≺ c.duration) (λ e. Returns-some tt)
        λ e. Returns-bind (advance-Returns w c.dt) λ (w1, torque) u.
          Returns-cases (lit 1 0 ≺ angular_rate w1)
            (λ f. loop-Returns c fuel k (t ⊕ c.dt) w1 (track w1 res) (omega arith) late)
            (λ f. Returns-some tt)

-- The runs that pass.
abbrev pub passes : {D : Type 0} → List (MonteCarloResult D) → ℕ
passes [] = 0
passes (res ∷ rest) = if res.success then suc (passes rest) else passes rest

module _ (M G : Type 0) {D H F : Type 0} ⦃d : Double D⦄ ⦃e : Eigen D⦄ ⦃l : Libm D⦄
    ⦃m : Matrices D M⦄ ⦃n : Noise D H⦄ ⦃flight : Flight D F⦄ ⦃r : Draws D G⦄ (boot : F)
    (gens : ℕ → Generators H) where
  run_from-Returns :
      (c : MonteCarloConfig D) (fuel k i left : ℕ)
      → k < fuel
      → clock c.dt k (lit 0 0) ≺ c.duration ≡ false
      → Returns
          (λ (results, successes). (length results ≡ left) × (successes ≡ passes results))
          (run_from M G boot gens c fuel i left)
  unfolding run_from run_single_simulation
  run_from-Returns c fuel k i zero h late = Returns-some (refl, refl)
  run_from-Returns c fuel k i (suc left) h late =
      Returns-bind (loop-Returns c fuel k (lit 0 0) _ start_result h late) λ res u.
        Returns-bind (run_from-Returns c fuel k (suc i) left h late) λ (results, successes) p.
          Returns-some (ap suc p.0, ap (λ j. if res.success then suc j else j) p.1)

  -- The analysis returns one result for each configured run, and counts the ones that succeed, with
  -- fuel for the steps in which the clock reaches the duration of a run.
  pub run-Returns :
      (c : MonteCarloConfig D) (fuel k : ℕ)
      → k < fuel
      → clock c.dt k (lit 0 0) ≺ c.duration ≡ false
      → Returns
          (λ (results, successes). (length results ≡ c.num_runs) × (successes ≡ passes results))
          (run M G boot gens c fuel)
  unfolding run
  run-Returns c fuel k h late = run_from-Returns c fuel k 0 c.num_runs h late

if_same {ℓ} : {A : Type ℓ} (b : Bool) (x : A) → (if b then x else x) ≡ x
if_same true x = refl
if_same false x = refl

module _ {D G M F : Type 0} ⦃d : Double D⦄ ⦃e : Eigen D⦄ ⦃l : Libm D⦄ ⦃m : Matrices D M⦄
    ⦃flight : Flight D F⦄ where
  -- A rate and a pointing error that are more than nothing, as a NaN is.
  pub record IsLost (w : World D G M F) : Type 0 where
    pub rate : (a : D) → a ≺ angular_rate w ≡ false
    pub error : (a : D) → a ≺ pointing_error w.sim ⊗ (lit 180 0 ⊘ pi) ≡ false

  track-IsLost : (w : World D G M F) (res : MonteCarloResult D) → IsLost w → track w res ≡ res
  unfolding track
  track-IsLost w res h =
      ap
        (λ b.
          if same_mode (flight.get_current_mode w.fsw) nominal
          then record res {
            max_pointing_error_deg =
                if b then pointing_error w.sim ⊗ (lit 180 0 ⊘ pi) else res.max_pointing_error_deg;
          }
          else res)
        (h.error res.max_pointing_error_deg)
      ∙ if_same (same_mode (flight.get_current_mode w.fsw) nominal) res

-- A result without a failure so far.
abbrev pub IsClean :
    {D : Type 0} → ⦃d : Double D⦄ → MonteCarloConfig D → MonteCarloResult D → Type 0
IsClean c res =
    (res.success ≡ true)
    × (c.pass_pointing_error_deg ⊗ lit 5 0 ≺ res.max_pointing_error_deg ≡ false)

module _ {D : Type 0} ⦃d : Double D⦄ where
  -- A final rate that is more than no limit, as a NaN is, passes.
  pub verify-clean :
      (c : MonteCarloConfig D) (rate : D) (res : MonteCarloResult D)
      → c.pass_rate_rads ⊗ lit 5 0 ≺ rate ≡ false
      → IsClean c res
      → (verify c rate res).success ≡ true
  unfolding verify check_rate check_pointing
  verify-clean c rate res h clean = ground (arith, h, clean)

module _ {D G M F : Type 0} ⦃d : Double D⦄ ⦃e : Eigen D⦄ ⦃l : Libm D⦄ ⦃m : Matrices D M⦄
    ⦃n : Noise D G⦄ ⦃flight : Flight D F⦄ where
  -- A flight returns and passes, with fuel for the steps in which the clock reaches its duration,
  -- if nothing failed before and from its start on no number is less than its angular rate or its
  -- pointing error, as if they are NaN: where this holds in all worlds of a predicate that a step
  -- keeps, no test fails.
  pub loop-lost :
      (c : MonteCarloConfig D) (P : World D G M F → Type 0)
      → ((w : World D G M F) → P w → IsLost w)
      → ((w w1 : World D G M F) (torque : Vector3 D)
          → P w
          → advance w c.dt ≡ some (w1, torque)
          → P w1)
      → (fuel k : ℕ) (t : D) (w : World D G M F) (res : MonteCarloResult D) → P w
      → IsClean c res
      → k < fuel
      → clock c.dt k t ≺ c.duration ≡ false
      → Returns (λ res'. res'.success ≡ true) (loop c fuel t w res)
  unfolding loop
  loop-lost c P lost keeps zero k t w res p clean h late = absurd (omega arith)
  loop-lost c P lost keeps (suc fuel) zero t w res p clean h late =
      Returns-cases (t ≺ c.duration)
        (λ e. Returns-some (verify-clean c (angular_rate w) res ((lost w p).rate _) clean))
        (λ e. absurd (true≢false (sym e ∙ late)))
  loop-lost c P lost keeps (suc fuel) (suc k) t w res p clean h late =
      Returns-cases (t ≺ c.duration)
        (λ e. Returns-some (verify-clean c (angular_rate w) res ((lost w p).rate _) clean))
        λ e. Returns-bind_eq (advance w c.dt) (advance-Returns w c.dt) λ (w1, torque) e1.
          let p1 = keeps w w1 torque p e1 in
          Returns-cases (lit 1 0 ≺ angular_rate w1)
            (λ f.
              rw (track-IsLost w1 res (lost w1 p1))
                (loop-lost c P lost keeps fuel k (t ⊕ c.dt) w1 res p1 clean (omega arith) late))
            (λ f. absurd (true≢false (sym f ∙ (lost w1 p1).rate (lit 1 0))))
