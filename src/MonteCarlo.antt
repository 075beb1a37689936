-- ===== src/MonteCarlo.antt =====
-- src/test/MonteCarloRunner.hpp and MonteCarloRunner.cpp: many flights from random starts. The
-- generator, its distributions and the flight software from the factory are parameters, the loop over
-- time is on fuel, and the arguments of a call are drawn from left to right. Logging is left out.
pub mod Outcomes
mod Tests
use cubesat_fsw_gnc.Prelude.{
  ℕ, arith, ◌+◌, ◌-◌, ◌*◌, ◌/◌, ◌%◌, ◌^◌, ◌≤◌, ◌<◌, min, zero, suc, ◌≡◌, refl, sym, ap, ap₂, ◌∙◌,
  ◌≢◌, ◌↔◌, ◌⊎◌, inl, inr, Bool, true, false, not, ◌&&◌, ◌||◌, Option, none, some, List, [], ◌∷◌,
  ◌++◌, map, length, get_elem?, set, get_or, take, drop, replicate, ltb, leb, ◌==◌, if◌then◌else◌,
  Bool-cases, Option-cases,
}
use cubesat_fsw_gnc.Sim.RigidBody.{get_angular_velocity}
use cubesat_fsw_gnc.Double.{◌⊕◌, Libm, fmax, ◌≺◌, ◌⊘◌, lit, ◌⊗◌, Double}
use cubesat_fsw_gnc.Sim.Noise.{Noise}
use cubesat_fsw_gnc.Eigen.{Eigen}
use cubesat_fsw_gnc.Linear.{Matrices}
use Prim.Native.String.{String}
use cubesat_fsw_gnc.Sim.Gyro
use cubesat_fsw_gnc.Core.ModeManager.{nominal, same_mode}
use cubesat_fsw_gnc.Gnc.Guidance.{pi}
use cubesat_fsw_gnc.Sim.Loop.{pointing_error, advance, Flight, World}
use cubesat_fsw_gnc.Sim.Simulation.{Simulation, SimulationConfig, Generators}
use cubesat_fsw_gnc.Sim.Simulation
use cubesat_fsw_gnc.Prelude.Options.{◌>>=◌}

-- `G` is the state of a generator. `seeded` is the generator of a seed, `uniform` draws between two
-- numbers, and `normal` about a mean with a deviation.
pub record Draws (D G : Type 0) : Type 0 where
  pub seeded : ℕ → G
  pub uniform : D → D → G → D × G
  pub normal : D → D → G → D × G

-- `gyro_noise_max`, `mag_noise_max` and `prob_dead_wheel` are there, and nothing reads them.
pub record MonteCarloConfig (D : Type 0) : Type 0 where
  pub num_runs : ℕ
  pub duration : D
  pub dt : D
  pub inertia_variation : D
  pub gyro_noise_max : D
  pub mag_noise_max : D
  pub prob_dead_gyro : D
  pub prob_dead_wheel : D
  pub pass_pointing_error_deg : D
  pub pass_rate_rads : D

-- The final rate is not written in a flight that fails before its end.
pub record MonteCarloResult (D : Type 0) : Type 0 where
  pub success : Bool
  pub max_pointing_error_deg : D
  pub final_rate_rads : Option D
  pub failure_reason : String

module _ {D : Type 0} ⦃d : Double D⦄ where
  unfoldable pub default_config : MonteCarloConfig D
  default_config = record {
    num_runs = 100;
    duration = lit 100 0;
    dt = lit 1 1;
    inertia_variation = lit 2 1;
    gyro_noise_max = lit 1 2;
    mag_noise_max = lit 1 6;
    prob_dead_gyro = lit 5 2;
    prob_dead_wheel = lit 5 2;
    pass_pointing_error_deg = lit 10 0;
    pass_rate_rads = lit 2 2;
  }

  unfoldable pub start_result : MonteCarloResult D
  start_result = record {
    success = true;
    max_pointing_error_deg = lit 0 0;
    final_rate_rads = none;
    failure_reason = "";
  }

  unfoldable pub fail : MonteCarloResult D → String → MonteCarloResult D
  fail res reason = record res { success = false; failure_reason = reason }

  -- The two tests at the end; the later one may replace the reason of the first.
  unfoldable pub check_pointing : MonteCarloConfig D → MonteCarloResult D → MonteCarloResult D
  unfolding fail
  check_pointing c res =
      if c.pass_pointing_error_deg ⊗ lit 5 0 ≺ res.max_pointing_error_deg
      then fail res "Pointing error too high"
      else res

  unfoldable pub check_rate : MonteCarloConfig D → D → MonteCarloResult D → MonteCarloResult D
  unfolding fail
  check_rate c rate res =
      if c.pass_rate_rads ⊗ lit 5 0 ≺ rate then fail res "Final rate too high" else res

  unfoldable pub verify : MonteCarloConfig D → D → MonteCarloResult D → MonteCarloResult D
  unfolding check_pointing check_rate
  verify c rate res =
      if res.success
      then check_pointing c (check_rate c rate (record res { final_rate_rads = some rate }))
      else res

module _ {D G M : Type 0} ⦃d : Double D⦄ ⦃m : Matrices D M⦄ ⦃r : Draws D G⦄ where
  -- `inertia(i, i) *= std::max(0.5, norm(run_gen))` for the indices of a list.
  unfoldable pub vary_inertia : D → List ℕ → M → G → M × G
  vary_inertia deviation [] inertia g = (inertia, g)
  vary_inertia deviation (i ∷ is) inertia g =
      let (a, g1) = r.normal (lit 1 0) deviation g in
      vary_inertia deviation is (m.set_at inertia i i (m.entry inertia i i ⊗ fmax (lit 5 1) a)) g1

  -- Section 1: the random inertia and tumble.
  unfoldable pub random_config : MonteCarloConfig D → G → SimulationConfig D M × G
  unfolding vary_inertia Simulation.default_config
  random_config c g =
      let base : SimulationConfig D M = Simulation.default_config in
      let (inertia, g1) =
        vary_inertia (c.inertia_variation ⊘ lit 2 0) (0 ∷ 1 ∷ 2 ∷ []) base.inertia g in
      let low = d.neg (lit 2 1) in
      let (x, g2) = r.uniform low (lit 2 1) g1 in
      let (y, g3) = r.uniform low (lit 2 1) g2 in
      let (z, g4) = r.uniform low (lit 2 1) g3 in
      (record base { inertia = inertia; init_w = record { x = x; y = y; z = z } }, g4)

  -- Section 3: the gyroscope may be dead.
  unfoldable pub inject_failures :
      {H : Type 0} → MonteCarloConfig D → Simulation D H M → G → Simulation D H M
  unfolding Gyro.inject_failure_dead
  inject_failures c s g =
      if (r.uniform (lit 0 0) (lit 1 0) g).0 ≺ c.prob_dead_gyro
      then record s { gyro = Gyro.inject_failure_dead s.gyro }
      else s

module _ {D G M F : Type 0} ⦃d : Double D⦄ ⦃e : Eigen D⦄ ⦃l : Libm D⦄ ⦃m : Matrices D M⦄
    ⦃flight : Flight D F⦄ where
  -- The largest pointing error of the NOMINAL mode, in degrees.
  unfoldable pub track : World D G M F → MonteCarloResult D → MonteCarloResult D
  track w res =
      let error_deg = pointing_error w.sim ⊗ (lit 180 0 ⊘ pi) in
      if same_mode (flight.get_current_mode w.fsw) nominal
      then record res { max_pointing_error_deg = fmax res.max_pointing_error_deg error_deg }
      else res

module _ {D G M F : Type 0} ⦃e : Eigen D⦄ ⦃m : Matrices D M⦄ where
  -- `sim.getAngularRate().norm()`
  unfoldable pub angular_rate : World D G M F → D
  angular_rate w = e.norm (get_angular_velocity w.sim.body)

module _ {D G M F : Type 0} ⦃d : Double D⦄ ⦃e : Eigen D⦄ ⦃l : Libm D⦄ ⦃m : Matrices D M⦄
    ⦃n : Noise D G⦄ ⦃flight : Flight D F⦄ where
  -- The loop from time `t`, with the tests at its end.
  unfoldable pub loop :
      MonteCarloConfig D → ℕ → D → World D G M F → MonteCarloResult D → Option (MonteCarloResult D)
  loop c zero t w res = none
  loop c (suc fuel) t w res = elim (t ≺ c.duration) [
    | false ↦ some (verify c (angular_rate w) res)
    | true ↦ do
      (w1, torque) ← advance w c.dt
      elim (lit 1 0 ≺ angular_rate w1) [
        | true ↦ some (fail (track w1 res) "Tumble rate limit exceeded")
        | false ↦ loop c fuel (t ⊕ c.dt) w1 (track w1 res)
      ]
  ]

module _ (M G : Type 0) {D H F : Type 0} ⦃d : Double D⦄ ⦃e : Eigen D⦄ ⦃l : Libm D⦄
    ⦃m : Matrices D M⦄ ⦃n : Noise D H⦄ ⦃flight : Flight D F⦄ ⦃r : Draws D G⦄ (boot : F)
    (gens : ℕ → Generators H) where
  -- One flight from the generator of its seed; the sensors of each flight have their own generators.
  unfoldable pub run_single_simulation : MonteCarloConfig D → ℕ → ℕ → Option (MonteCarloResult D)
  run_single_simulation c fuel seed =
      let (sim_cfg, g) = random_config {G = G} {M = M} c (r.seeded seed) in
      let sim = inject_failures c (Simulation.init sim_cfg (gens seed)) g in
      loop c fuel (lit 0 0) (record { sim = sim; fsw = boot }) start_result

  -- The results of the runs from one seed on, and how many succeed.
  unfoldable pub run_from : MonteCarloConfig D → ℕ → ℕ → ℕ → Option (List (MonteCarloResult D) × ℕ)
  run_from c fuel i zero = some ([], 0)
  run_from c fuel i (suc left) = do
    res ← run_single_simulation c fuel i
    (results, successes) ← run_from c fuel (suc i) left
    some (res ∷ results, (if res.success then suc successes else successes))

  unfoldable pub run : MonteCarloConfig D → ℕ → Option (List (MonteCarloResult D) × ℕ)
  run c fuel = run_from c fuel 0 c.num_runs
