-- ===== src/Opt/Fitness/Flights.antt =====
-- src/opt/FitnessEvaluator.hpp: which flights end, and which ones count as stable.
use cubesat_fsw_gnc.Sim.Simulation.{Generators}
use cubesat_fsw_gnc.Prelude.Options.{
  Returns-cases, >>=-eq_some, Returns-bind, Returns-some, Returns, ◌>>=◌,
}
use cubesat_fsw_gnc.Prelude.{
  ℕ, arith, ◌≤◌, ◌<◌, zero, suc, ◌≡◌, refl, sym, ◌∙◌, Bool, true, false, Option, none, some, List,
  length,
}
use mathlib.Core.Bool.{true≢false}
use cubesat_fsw_gnc.Opt.Fitness.{
  start_tally, start_world, add_step, pointing_error, is_failure, Tally, advance, World, evaluate,
  loop, Flight, Noise, Matrices, Eigen, dt,
}
use cubesat_fsw_gnc.Prelude.Every.{get_elem?-Returns}
use mathlib.Core.Option.{some-injective, none-ne-some}
use mathlib.Core.Path.{subst}
use cubesat_fsw_gnc.Sim.Loop.{advance-Returns}
use cubesat_fsw_gnc.Opt.Optimizer.Total.{Evaluates}
use cubesat_fsw_gnc.Double.{◌≺◌, lit, Libm, HasNan, ◌⊕◌, Double}

-- The time after `n` more steps, by the repeated sums of the loop.
unfoldable pub clock : {D : Type 0} → ⦃d : Double D⦄ → ℕ → D → D
unfolding dt
clock zero t = t
clock (suc n) t = clock n (t ⊕ dt)

module _ {D G M F : Type 0} ⦃d : Double D⦄ ⦃e : Eigen D⦄ ⦃l : Libm D⦄ ⦃m : Matrices D M⦄
    ⦃n : Noise D G⦄ ⦃flight : Flight D F⦄ where
  -- The world after some steps.
  unfoldable pub visit : ℕ → World D G M F → Option (World D G M F)
  unfolding dt
  visit zero w = some w
  visit (suc k) w = do (w1, torque) ← advance w dt; visit k w1

-- A result under a test that holds.
taken {ℓ} :
    {A : Type ℓ} (b : Bool) (x y : Option A) {a : A}
    → b ≡ true
    → elim b [ false ↦ x | true ↦ y ] ≡ some a
    → y ≡ some a
taken true x y t h = h
taken false x y t h = absurd (true≢false (sym t))

-- A result that is not a failure.
survives {ℓ} :
    {A : Type ℓ} (b : Bool) (x : Option (Option A)) {a : A}
    → elim b [ false ↦ x | true ↦ some none ] ≡ some (some a)
    → (b ≡ false) × (x ≡ some (some a))
survives true x h = absurd (none-ne-some _ (some-injective _ _ h))
survives false x h = (refl, h)

module _ {D G M F : Type 0} ⦃d : Double D⦄ ⦃nan : HasNan D⦄ ⦃e : Eigen D⦄ ⦃l : Libm D⦄
    ⦃m : Matrices D M⦄ ⦃n : Noise D G⦄ ⦃flight : Flight D F⦄ where
  loop-Returns :
      (fuel k : ℕ) (duration t : D) (w : World D G M F) (a : Tally D)
      → k < fuel
      → clock k t ≺ duration ≡ false
      → Returns {0, 0} (λ o. Unit) (loop fuel duration t w a)
  unfolding loop clock dt
  loop-Returns zero k duration t w a h c = absurd (omega arith)
  loop-Returns (suc fuel) zero duration t w a h c =
      Returns-cases (t ≺ duration) (λ e. Returns-some tt) (λ e. absurd (true≢false (sym e ∙ c)))
  loop-Returns (suc fuel) (suc k) duration t w a h c =
      Returns-cases (t ≺ duration) (λ e. Returns-some tt)
        λ e. Returns-bind (advance-Returns w dt) λ (w1, torque) u.
          let error = pointing_error w1.sim in
          Returns-cases (is_failure error)
            (λ f.
              loop-Returns fuel k duration (t ⊕ dt) w1 (add_step a t error torque) (omega arith) c)
            (λ f. Returns-some tt)

  -- The first world, and those after it.
  visited :
      (k : ℕ) (w1 w' : World D G M F)
      → is_failure (pointing_error w1.sim) ≡ false
      → visit k w1 ≡ some w'
      → ((j : ℕ)
          → k ≡ suc j
          → visit (suc j) w1 ≡ some w'
          → is_failure (pointing_error w'.sim) ≡ false)
      → is_failure (pointing_error w'.sim) ≡ false
  unfolding visit
  visited zero w1 w' fine v later =
      subst (λ u. is_failure (pointing_error u.sim) ≡ false) (some-injective _ _ v) fine
  visited (suc j) w1 w' fine v later = later j refl v

  loop-visited :
      (fuel k : ℕ) (duration t : D) (w w' : World D G M F) (a : Tally D) {a' : Tally D}
      → loop fuel duration t w a ≡ some (some a')
      → ((j : ℕ) → j ≤ k → clock j t ≺ duration ≡ true)
      → visit (suc k) w ≡ some w'
      → is_failure (pointing_error w'.sim) ≡ false
  unfolding loop clock visit dt
  loop-visited zero k duration t w w' a h early v = absurd (none-ne-some _ h)
  loop-visited (suc fuel) k duration t w w' a h early v =
      let ((w1, torque), e1, h1) =
        >>=-eq_some (advance w dt) (taken (t ≺ duration) _ _ (early 0 (omega arith)) h) in
      let (fine, h2) = survives (is_failure (pointing_error w1.sim)) _ h1 in
      visited k w1 w' fine (rw e1 at v) λ j same v'.
        loop-visited fuel j duration (t ⊕ dt) w1 w' (add_step a t (pointing_error w1.sim) torque) h2
          (λ i le. early (suc i) (omega (arith, same))) v'

  -- In a flight that counts as stable no step before the end of the duration left a pointing error
  -- above 3 rad or a NaN: whatever world the first k + 1 steps reach, if the clock was before the
  -- end at each of them.
  pub loop-visit :
      (fuel k : ℕ) (duration t : D) (w w' : World D G M F) (a : Tally D) {a' : Tally D}
      → loop fuel duration t w a ≡ some (some a')
      → ((j : ℕ) → j ≤ k → clock j t ≺ duration ≡ true)
      → visit (suc k) w ≡ some w'
      → (lit 3 0 ≺ pointing_error w'.sim ≡ false) × (nan.is_nan (pointing_error w'.sim) ≡ false)
  unfolding is_failure
  loop-visit fuel k duration t w w' a h early v =
      ground (arith, loop-visited fuel k duration t w w' a h early v)

module _ (M : Type 0) {D G F : Type 0} ⦃d : Double D⦄ ⦃nan : HasNan D⦄ ⦃e : Eigen D⦄ ⦃l : Libm D⦄
    ⦃m : Matrices D M⦄ ⦃n : Noise D G⦄ ⦃flight : Flight D F⦄ (boot : D → D → D → F) where
  -- The cost alone, as the optimiser takes it.
  unfoldable pub cost_of : ℕ → Generators G → D → List D → Option D
  cost_of fuel g duration gains = do res ← evaluate M boot fuel g gains duration; some res.cost

  pub evaluate-Returns :
      (fuel k : ℕ) (g : Generators G) (duration : D)
      → k < fuel
      → clock k (lit 0 0) ≺ duration ≡ false
      → (gains : List D) → 3 ≤ length gains
      → Returns {0, 0} (λ res. Unit) (evaluate M boot fuel g gains duration)
  unfolding evaluate
  evaluate-Returns fuel k g duration h c gains many =
      Returns-bind (get_elem?-Returns gains 0 (omega arith)) λ kp u.
        Returns-bind (get_elem?-Returns gains 1 (omega arith)) λ ki u.
          Returns-bind (get_elem?-Returns gains 2 (omega arith)) λ kd u.
            Returns-bind
              (loop-Returns fuel k duration (lit 0 0) (start_world M boot g kp ki kd) start_tally h
                c)
              λ outcome u. Returns-some tt

  -- The evaluator has a cost for any three or more gains, with fuel for the steps in which the clock
  -- reaches the duration.
  pub cost_of-Evaluates :
      (fuel k : ℕ) (g : Generators G) (duration : D)
      → k < fuel
      → clock k (lit 0 0) ≺ duration ≡ false
      → Evaluates (cost_of fuel g duration)
  unfolding cost_of
  cost_of-Evaluates fuel k g duration h c gains many =
      Returns-bind (evaluate-Returns fuel k g duration h c gains many) λ res u. Returns-some tt
