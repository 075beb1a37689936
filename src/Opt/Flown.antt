-- ===== src/Opt/Flown.antt =====
-- src/opt/FitnessEvaluator.hpp with src/fsw/FlightSoftware.cpp: the search for gains over simulated
-- flights of the flight software itself.
mod Tests
pub mod Idle
use cubesat_fsw_gnc.Sim.Simulation.{Generators}
use cubesat_fsw_gnc.Opt.Fitness.Flights.{cost_of-Evaluates, cost_of, clock}
use cubesat_fsw_gnc.Opt.Optimizer.Total.{optimize-Returns, SortsByCost}
use cubesat_fsw_gnc.Prelude.{ℕ, ◌<◌, ◌≡◌, refl, inl, inr, false, some, List, [], length, Bool-cases}
use cubesat_fsw_gnc.Double.{◌≺◌, lit, ◌≼◌, ◌⊕◌, Libm, HasNan, Stored, Double}
use cubesat_fsw_gnc.Prelude.Options.{Returns-some, Returns}
use cubesat_fsw_gnc.Opt.Optimizer.Sizes.{IsSound}
use cubesat_fsw_gnc.FlightSoftware.Step.{estimate, process_commands, complete, manage_wheels}
use cubesat_fsw_gnc.Opt.Optimizer.{Individual, Random, Config, optimize}
use cubesat_fsw_gnc.Sim.Noise.{Noise}
use cubesat_fsw_gnc.Sim.Loop.{Flight}
use cubesat_fsw_gnc.Linear.{Matrices}
use cubesat_fsw_gnc.Eigen.{Eigen}
use cubesat_fsw_gnc.FlightSoftware.Step
use cubesat_fsw_gnc.FlightSoftware.State.{FlightSoftware}
use cubesat_fsw_gnc.Gnc.Interfaces.{State, SensorData, Estimator, Controller}

module _ {D E C M : Type 0} ⦃d : Double D⦄ where
  pub manage_wheels-empty :
      ⦃est : Estimator D E⦄
      → (f : FlightSoftware D E C M) (sensors : SensorData D) (dt : D) → sensors.rw_speeds ≡ []
      → manage_wheels f sensors dt ≡ some f
  unfolding manage_wheels
  manage_wheels-empty f sensors dt h = rw h refl

module _ {D E C M : Type 0} ⦃d : Double D⦄ ⦃stored : Stored D⦄ ⦃e : Eigen D⦄ ⦃m : Matrices D M⦄
    ⦃est : Estimator D E⦄ ⦃ctl : Controller D C⦄ (unset : State D) where
  pub step-empty :
      (f : FlightSoftware D E C M) (sensors : SensorData D) (dt : D)
      → sensors.rw_speeds ≡ []
      → Returns {0, 0} (λ t. Unit) (Step.step f sensors [] dt unset)
  unfolding Step.step complete
  step-empty f sensors dt h =
      let f1 = process_commands (record f { accumulated_time = f.accumulated_time ⊕ dt }) [] in
      let (estimator, state) = estimate f1.estimator sensors dt unset in
      elim (Bool-cases (dt ≼ lit 0 0)) [
        | inl t ↦ rw t (Returns-some tt)
        | inr t ↦
            rw (t, manage_wheels-empty (record f1 { estimator = estimator }) sensors dt h)
              (Returns-some tt)
      ]

  -- The flight software as the closed loop uses it. `unset` is what the memory of the local variables
  -- of a step holds before they are written.
  unfoldable pub flight_software : Flight D (FlightSoftware D E C M)
  flight_software = record {
    step = λ f sensors dt. Step.step f sensors [] dt unset;
    get_current_mode = λ f. f.mode_manager.current_mode;
    step-Returns = step-empty;
  }

  -- The whole search returns a gain for each bound: the optimiser with a sound configuration and a
  -- sort that orders by cost, over the costs of simulated flights of the flight software that the
  -- factory makes of three gains, with fuel for the steps in which the clock reaches the duration
  -- of a flight.
  pub optimize-flown :
      {G H : Type 0}
      → ⦃nan : HasNan D⦄ → ⦃l : Libm D⦄ → ⦃n : Noise D G⦄ → ⦃r : Random D H⦄
      → (boot : D → D → D → FlightSoftware D E C M)
        (sort : List (Individual D) → List (Individual D)) (c : Config D) (fuel k : ℕ)
        (duration : D) (g : Generators G) (draws : H)
      → IsSound c
      → SortsByCost D sort
      → k < fuel
      → clock k (lit 0 0) ≺ duration ≡ false
      → Returns
          (λ (genes, g1). length genes ≡ length c.min_gains)
          (optimize (cost_of M ⦃flight = flight_software⦄ boot fuel g duration) sort c draws)
  optimize-flown boot sort c fuel k duration g draws h s more late =
      optimize-Returns (cost_of M ⦃flight = flight_software⦄ boot fuel g duration) sort c draws h
        (cost_of-Evaluates M ⦃flight = flight_software⦄ boot fuel k g duration more late) s
