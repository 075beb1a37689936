-- ===== src/Sim/Loop.antt =====
-- The closed loop of a simulation and the flight software, as src/opt/FitnessEvaluator.hpp and
-- src/test/MonteCarloRunner.cpp run it.
use cubesat_fsw_gnc.Prelude.Options.{Returns-some, Returns-bind, ◌>>=◌, Returns}
use cubesat_fsw_gnc.Prelude.{◌≡◌, refl, Option, some, []}
use cubesat_fsw_gnc.Sim.Orbit.{clamp}
use cubesat_fsw_gnc.Sim.RigidBody.{get_attitude}
use cubesat_fsw_gnc.Double.{lit, Libm, Double}
use cubesat_fsw_gnc.Sim.Simulation
use cubesat_fsw_gnc.Sim.Simulation.{get_sensors, Simulation}
use cubesat_fsw_gnc.Sim.Noise.{Noise}
use cubesat_fsw_gnc.Linear.{Matrices}
use cubesat_fsw_gnc.Core.ModeManager.{MissionMode}
use cubesat_fsw_gnc.Eigen.{Eigen, Vector3}
use cubesat_fsw_gnc.Gnc.Interfaces.{SensorData}

-- What the loop needs of the flight software of type `F`: a step without commands, `none` if it reads
-- outside a vector, and the mode. With no wheel speeds a step returns.
pub record Flight (D F : Type 0) : Type 0 where
  pub step : F → SensorData D → D → Option (F × Vector3 D)
  pub get_current_mode : F → MissionMode
  pub step-Returns :
      (f : F) (sensors : SensorData D) (dt : D)
      → sensors.rw_speeds ≡ []
      → Returns {0, 0} (λ t. Unit) (step f sensors dt)

pub record World (D G M F : Type 0) : Type 0 where
  pub sim : Simulation D G M
  pub fsw : F

module _ {D G M F : Type 0} ⦃d : Double D⦄ ⦃e : Eigen D⦄ ⦃l : Libm D⦄ ⦃m : Matrices D M⦄
    ⦃n : Noise D G⦄ ⦃flight : Flight D F⦄ where
  -- One step of the loop, and the commanded torque.
  unfoldable pub advance : World D G M F → D → Option (World D G M F × Vector3 D)
  advance w dt =
      let (sensors, sim) = get_sensors w.sim in
      do
        (fsw, torque) ← flight.step w.fsw sensors dt
        some (record { sim = Simulation.step sim dt torque; fsw = fsw }, torque)

module _ {D G M : Type 0} ⦃d : Double D⦄ ⦃e : Eigen D⦄ ⦃l : Libm D⦄ ⦃m : Matrices D M⦄ where
  -- The angle between the body's Z axis and the sun.
  unfoldable pub pointing_error : Simulation D G M → D
  unfolding clamp
  pointing_error sim =
      let z : Vector3 D = record { x = lit 0 0; y = lit 0 0; z = lit 1 0 } in
      let body_z = e.rotate (get_attitude sim.body) z in
      let sun_inertial : Vector3 D = record { x = lit 1 0; y = lit 0 0; z = lit 0 0 } in
      let cos_theta = e.dot body_z sun_inertial in
      l.acos (clamp cos_theta (d.neg (lit 1 0)) (lit 1 0))

module _ {D G M F : Type 0} ⦃d : Double D⦄ ⦃e : Eigen D⦄ ⦃l : Libm D⦄ ⦃m : Matrices D M⦄
    ⦃n : Noise D G⦄ ⦃flight : Flight D F⦄ where
  -- A step of the loop returns: the simulation reports no wheel speeds.
  pub advance-Returns : (w : World D G M F) (dt : D) → Returns {0, 0} (λ t. Unit) (advance w dt)
  unfolding advance get_sensors
  advance-Returns w dt =
      Returns-bind (flight.step-Returns w.fsw (get_sensors w.sim).0 dt refl)
        λ (fsw, torque) u. Returns-some tt
