-- ===== src/Opt/Fitness.antt =====
-- src/opt/FitnessEvaluator.hpp: the cost of controller gains in a simulated flight. The flight
-- software that the factory builds for three gains is a parameter. The loop over time is on fuel.
pub mod Flights
pub mod Seeds
mod Tests
use cubesat_fsw_gnc.Prelude.{
  ℕ, arith, ◌+◌, ◌-◌, ◌*◌, ◌/◌, ◌%◌, ◌^◌, ◌≤◌, ◌<◌, min, zero, suc, ◌≡◌, refl, sym, ap, ap₂, ◌∙◌,
  ◌≢◌, ◌↔◌, ◌⊎◌, inl, inr, Bool, true, false, not, ◌&&◌, ◌||◌, Option, none, some, List, [], ◌∷◌,
  ◌++◌, map, length, get_elem?, set, get_or, take, drop, replicate, ltb, leb, ◌==◌, if◌then◌else◌,
  Bool-cases, Option-cases,
}
use cubesat_fsw_gnc.Sim.Loop.{pointing_error, advance, World, Flight}
use cubesat_fsw_gnc.Prelude.Options.{◌>>=◌}
use cubesat_fsw_gnc.Double.{◌⊘◌, fmax, ◌⊕◌, Libm, ◌≺◌, ◌⊗◌, HasNan, lit, Double}
use cubesat_fsw_gnc.Sim.Simulation.{SimulationConfig, Generators, default_config}
use cubesat_fsw_gnc.Gnc.Guidance.{pi}
use cubesat_fsw_gnc.Sim.Noise.{Noise}
use cubesat_fsw_gnc.Eigen.{Vector3, Eigen}
use cubesat_fsw_gnc.Linear.{Matrices}
use cubesat_fsw_gnc.Sim.Simulation

-- What the loop adds up.
pub record Tally (D : Type 0) : Type 0 where
  pub total_error_integral : D
  pub total_energy : D
  pub max_error : D

-- `none` stands for a field that is never written.
pub record Results (D : Type 0) : Type 0 where
  pub cost : D
  pub settling_time : Option D
  pub max_overshoot : Option D
  pub energy_used : Option D

module _ {D : Type 0} ⦃d : Double D⦄ where
  unfoldable pub start_tally : Tally D
  start_tally = record {
    total_error_integral = lit 0 0;
    total_energy = lit 0 0;
    max_error = lit 0 0;
  }

  unfoldable pub dt : D
  dt = lit 1 1

  -- After the loop; `none` is a flight that failed.
  unfoldable pub results : Option (Tally D) → Results D
  results none = record {
    cost = lit 1000000000000 0;
    settling_time = none;
    max_overshoot = none;
    energy_used = none;
  }
  results (some a) = record {
    cost = lit 100 0 ⊗ a.total_error_integral ⊕ lit 10 0 ⊗ a.total_energy;
    settling_time = none;
    max_overshoot = none;
    energy_used = some a.total_energy;
  }

module _ {D : Type 0} ⦃d : Double D⦄ ⦃nan : HasNan D⦄ where
  -- An error that grew too large, or a NaN.
  unfoldable pub is_failure : D → Bool
  is_failure error_rad = (lit 3 0 ≺ error_rad) || nan.is_nan error_rad

module _ {D : Type 0} ⦃d : Double D⦄ ⦃e : Eigen D⦄ where
  -- The sums after a step at time `t`.
  unfoldable pub add_step : Tally D → D → D → Vector3 D → Tally D
  unfolding dt
  add_step a t error_rad torque = record {
    total_error_integral = a.total_error_integral ⊕ error_rad ⊗ dt;
    total_energy = a.total_energy ⊕ e.squared_norm torque ⊗ dt;
    max_error = if lit 1 1 ≺ t then fmax a.max_error error_rad else a.max_error;
  }

module _ {D G M F : Type 0} ⦃d : Double D⦄ ⦃nan : HasNan D⦄ ⦃e : Eigen D⦄ ⦃l : Libm D⦄
    ⦃m : Matrices D M⦄ ⦃n : Noise D G⦄ ⦃flight : Flight D F⦄ where
  -- The loop from time `t`: the sums at its end, or `none` for a flight that failed.
  unfoldable pub loop : ℕ → D → D → World D G M F → Tally D → Option (Option (Tally D))
  unfolding dt
  loop zero duration t w a = none
  loop (suc fuel) duration t w a = elim (t ≺ duration) [
    | false ↦ some (some a)
    | true ↦ do
      (w1, torque) ← advance w dt
      elim (is_failure (pointing_error w1.sim)) [
        | true ↦ some none
        | false ↦ loop fuel duration (t ⊕ dt) w1 (add_step a t (pointing_error w1.sim) torque)
      ]
  ]

module _ {D M : Type 0} ⦃d : Double D⦄ ⦃e : Eigen D⦄ ⦃m : Matrices D M⦄ where
  -- 30 degrees about X, and a small tumble.
  unfoldable pub start_config : SimulationConfig D M
  unfolding default_config
  start_config = record default_config {
    init_q =
        e.of_angle_axis (lit 30 0 ⊗ (pi ⊘ lit 180 0))
          (record { x = lit 1 0; y = lit 0 0; z = lit 0 0 });
    init_w = record { x = lit 1 2; y = d.neg (lit 1 2); z = lit 5 3 };
  }

module _ (M : Type 0) {D G F : Type 0} ⦃d : Double D⦄ ⦃nan : HasNan D⦄ ⦃e : Eigen D⦄ ⦃l : Libm D⦄
    ⦃m : Matrices D M⦄ ⦃n : Noise D G⦄ ⦃flight : Flight D F⦄ (boot : D → D → D → F) where
  -- The world before the first step, with the generators of the sensors.
  unfoldable pub start_world : Generators G → D → D → D → World D G M F
  start_world g kp ki kd = record { sim = Simulation.init start_config g; fsw = boot kp ki kd }

  unfoldable pub evaluate : ℕ → Generators G → List D → D → Option (Results D)
  evaluate fuel g gains duration = do
    kp ← get_elem? gains 0
    ki ← get_elem? gains 1
    kd ← get_elem? gains 2
    outcome ← loop fuel duration (lit 0 0) (start_world g kp ki kd) start_tally
    some (results outcome)
