-- ===== src/Opt/Fitness/Seeds.antt =====
-- src/opt/FitnessEvaluator.hpp: the sensors' generators, which the clock seeds, do not matter to the
-- cost, as the simulation of an evaluation has no noise.
use cubesat_fsw_gnc.Prelude.{
  ℕ, zero, suc, ◌≡◌, refl, sym, ap, ◌∙◌, true, false, Option, none, some, List, get_elem?,
}
use cubesat_fsw_gnc.Opt.Fitness.{
  start_tally, results, evaluate, start_config, start_world, add_step, dt, is_failure, Tally, loop,
}
use cubesat_fsw_gnc.Sim.Quiet.{get_sensors-quiet, exact, IsQuiet, seed}
use cubesat_fsw_gnc.Sim.Simulation.{get_sensors, Generators, Simulation}
use cubesat_fsw_gnc.Double.{lit, ◌≺◌, ◌⊕◌, Libm, HasNan, Double}
use cubesat_fsw_gnc.Sim.Loop.{advance, Flight, World, pointing_error}
use cubesat_fsw_gnc.Sim.Gyro
use cubesat_fsw_gnc.Sim.StarTracker
use cubesat_fsw_gnc.Eigen.{Vector3, Eigen}
use cubesat_fsw_gnc.Sim.Noise.{Noise}
use cubesat_fsw_gnc.Linear.{Matrices}
use cubesat_fsw_gnc.Sim.Magnetometer
use cubesat_fsw_gnc.Prelude.Options.{◌>>=◌}
use cubesat_fsw_gnc.Sim.Simulation

-- The same world with other generators.
unfoldable pub reseed : {D G M F : Type 0} → Generators G → World D G M F → World D G M F
unfolding seed
reseed g w = record w { sim = seed g w.sim }

module _ {D G M : Type 0} ⦃d : Double D⦄ ⦃e : Eigen D⦄ ⦃l : Libm D⦄ ⦃m : Matrices D M⦄ where
  step-IsQuiet :
      (s : Simulation D G M) (t : D) (torque : Vector3 D)
      → IsQuiet s
      → IsQuiet (Simulation.step s t torque)
  unfolding Simulation.step Magnetometer.set_time
  step-IsQuiet s t torque q = record { gyro = q.gyro; mag = q.mag; star_tracker = q.star_tracker }

seed-IsQuiet :
    {D G M : Type 0} ⦃d : Double D⦄ (g : Generators G) (s : Simulation D G M)
    → IsQuiet s
    → IsQuiet (seed g s)
unfolding seed
seed-IsQuiet g s q = record { gyro = q.gyro; mag = q.mag; star_tracker = q.star_tracker }

module _ {D G M F : Type 0} ⦃d : Double D⦄ ⦃nan : HasNan D⦄ ⦃e : Eigen D⦄ ⦃l : Libm D⦄
    ⦃m : Matrices D M⦄ ⦃n : Noise D G⦄ ⦃flight : Flight D F⦄ where
  -- The rest of a round after the step of the flight software.
  follow :
      ℕ → D → D → Simulation D G M → Tally D → Option (F × Vector3 D) → Option (Option (Tally D))
  unfolding dt
  follow fuel duration t s a none = none
  follow fuel duration t s a (some (fsw, torque)) =
      let w1 : World D G M F = record { sim = Simulation.step s dt torque; fsw = fsw } in
      elim (is_failure (pointing_error w1.sim)) [
        | true ↦ some none
        | false ↦ loop fuel duration (t ⊕ dt) w1 (add_step a t (pointing_error w1.sim) torque)
      ]

  -- The world after the step, and what the loop makes of it.
  abbrev move : Simulation D G M → F × Vector3 D → World D G M F × Vector3 D
  move s p = (record { sim = Simulation.step s dt p.1; fsw = p.0 }, p.1)

  abbrev settle : ℕ → D → D → Tally D → World D G M F × Vector3 D → Option (Option (Tally D))
  settle fuel duration t a p = elim (is_failure (pointing_error p.0.sim)) [
    | true ↦ some none
    | false ↦ loop fuel duration (t ⊕ dt) p.0 (add_step a t (pointing_error p.0.sim) p.1)
  ]

  follow-bind :
      (fuel : ℕ) (duration t : D) (s : Simulation D G M) (a : Tally D) (o : Option (F × Vector3 D))
      → ((o >>= λ p. some (move s p)) >>= settle fuel duration t a) ≡ follow fuel duration t s a o
  unfolding follow dt
  follow-bind fuel duration t s a none = refl
  follow-bind fuel duration t s a (some (fsw, torque)) = refl

  -- One round of the loop in a quiet world.
  loop-quiet :
      (fuel : ℕ) (duration t : D) (w : World D G M F) (a : Tally D)
      → IsQuiet w.sim
      → loop (suc fuel) duration t w a ≡ elim (t ≺ duration) [
        | false ↦ some (some a)
        | true ↦ follow fuel duration t w.sim a (flight.step w.fsw (exact w.sim) dt)
      ]
  unfolding loop advance dt
  loop-quiet fuel duration t w a q =
      ap (λ x. elim (t ≺ duration) [ false ↦ some (some a) | true ↦ x ])
        (follow-bind fuel duration t (get_sensors w.sim).1 a
          (flight.step w.fsw (get_sensors w.sim).0 dt))
      ∙ ap
          (λ p. elim (t ≺ duration) [
            | false ↦ some (some a)
            | true ↦ follow fuel duration t p.1 a (flight.step w.fsw p.0 dt)
          ])
          (get_sensors-quiet w.sim q)

  loop-zero :
      (duration t : D) (w w' : World D G M F) (a : Tally D)
      → loop zero duration t w a ≡ loop zero duration t w' a
  unfolding loop
  loop-zero duration t w w' a = refl

  -- The rest of a round, if the rounds after it do not depend on the generators.
  follow-seed :
      (fuel : ℕ) (duration t : D) (s : Simulation D G M) (a : Tally D) (g : Generators G)
      → IsQuiet s
      → (o : Option (F × Vector3 D))
      → ((w1 : World D G M F)
          → IsQuiet w1.sim
          → (a1 : Tally D)
          → loop fuel duration (t ⊕ dt) (reseed g w1) a1 ≡ loop fuel duration (t ⊕ dt) w1 a1)
      → follow fuel duration t (seed g s) a o ≡ follow fuel duration t s a o
  unfolding follow seed reseed Simulation.step Magnetometer.set_time pointing_error dt
  follow-seed fuel duration t s a g q none later = refl
  follow-seed fuel duration t s a g q (some (fsw, torque)) later =
      let w1 : World D G M F = record { sim = Simulation.step s dt torque; fsw = fsw } in
      ap (λ x. elim (is_failure (pointing_error w1.sim)) [ true ↦ some none | false ↦ x ])
        (later w1 (step-IsQuiet s dt torque q) (add_step a t (pointing_error w1.sim) torque))

  -- In a quiet world the generators do not change what the loop returns.
  loop-reseed :
      (fuel : ℕ) (duration t : D) (w : World D G M F) (a : Tally D) (g : Generators G)
      → IsQuiet w.sim
      → loop fuel duration t (reseed g w) a ≡ loop fuel duration t w a
  unfolding reseed seed exact
  loop-reseed zero duration t w a g q = loop-zero duration t (reseed g w) w a
  loop-reseed (suc fuel) duration t w a g q =
      loop-quiet fuel duration t (reseed g w) a (seed-IsQuiet g w.sim q)
      ∙ ap (λ x. elim (t ≺ duration) [ false ↦ some (some a) | true ↦ x ])
          (follow-seed fuel duration t w.sim a g q (flight.step w.fsw (exact w.sim) dt)
            (λ w1 q1 a1. loop-reseed fuel duration (t ⊕ dt) w1 a1 g q1))
      ∙ sym (loop-quiet fuel duration t w a q)

module _ {D M : Type 0} {G : Type 0} ⦃d : Double D⦄ ⦃e : Eigen D⦄ ⦃m : Matrices D M⦄ where
  start-IsQuiet :
      (g : Generators G)
      → lit {D = D} 0 0 ≺ lit 0 0 ≡ false
      → IsQuiet {D = D} (Simulation.init {M = M} start_config g)
  unfolding Simulation.init start_config Simulation.default_config Gyro.init Magnetometer.init
      StarTracker.init Magnetometer.default_config
  start-IsQuiet g h = record { gyro = h; mag = h; star_tracker = h }

module _ (M : Type 0) {D G F : Type 0} ⦃d : Double D⦄ ⦃nan : HasNan D⦄ ⦃e : Eigen D⦄ ⦃l : Libm D⦄
    ⦃m : Matrices D M⦄ ⦃n : Noise D G⦄ ⦃flight : Flight D F⦄ (boot : D → D → D → F) where
  start-reseed :
      (g h : Generators G) (kp ki kd : D)
      → start_world M boot h kp ki kd ≡ reseed h (start_world M boot g kp ki kd)
  unfolding start_world reseed Simulation.init Gyro.init Magnetometer.init StarTracker.init
  start-reseed g h kp ki kd = refl

  start_world-IsQuiet :
      (g : Generators G) (kp ki kd : D)
      → lit {D = D} 0 0 ≺ lit 0 0 ≡ false
      → IsQuiet (start_world M boot g kp ki kd).sim
  unfolding start_world
  start_world-IsQuiet g kp ki kd h = start-IsQuiet g h

  -- Two evaluations of the same gains give the same results, whatever the clock seeds the generator
  -- of each of the three sensors with, given that 0 is not less than 0.
  pub evaluate-reseed :
      (fuel : ℕ) (g h : Generators G) (gains : List D) (duration : D)
      → lit {D = D} 0 0 ≺ lit 0 0 ≡ false
      → evaluate M boot fuel h gains duration ≡ evaluate M boot fuel g gains duration
  unfolding evaluate
  evaluate-reseed fuel g h gains duration zero_lt =
      ap
        (λ (run : D → D → D → Option (Option (Tally D))). do
          kp ← get_elem? gains 0
          ki ← get_elem? gains 1
          kd ← get_elem? gains 2
          outcome ← run kp ki kd
          some (results outcome))
        (λ i kp ki kd.
          (ap (λ w. loop fuel duration (lit 0 0) w start_tally) (start-reseed g h kp ki kd)
              ∙ loop-reseed fuel duration (lit 0 0) (start_world M boot g kp ki kd) start_tally h
                  (start_world-IsQuiet g kp ki kd zero_lt))
            i)
