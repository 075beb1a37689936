-- ===== src/Sim/Simulation.antt =====
-- src/sim/Simulation.hpp and Simulation.cpp: the body, the orbit and the sensors of one satellite. A
-- reading changes the generator of a sensor, so it returns the simulation after it.
use cubesat_fsw_gnc.Sim.StarTracker.{get_orientation, SimStarTracker}
use cubesat_fsw_gnc.Sim.RigidBody.{get_angular_velocity, get_attitude, RigidBody}
use cubesat_fsw_gnc.Sim.Orbit.{get_position, Orbit}
use cubesat_fsw_gnc.Eigen.{vector_zero, quaternion_identity, Eigen, Vector3, Quaternion}
use cubesat_fsw_gnc.Gnc.Interfaces.{SensorData}
use cubesat_fsw_gnc.Sim.Magnetometer.{set_time, SimMagnetometer, MagnetometerConfig}
use cubesat_fsw_gnc.Double.{◌⊕◌, Libm, lit, Double}
use cubesat_fsw_gnc.Sim.Noise.{Noise}
use cubesat_fsw_gnc.Sim.Gyro.{SimGyro}
use cubesat_fsw_gnc.Linear.{Matrices}
use cubesat_fsw_gnc.Prelude.{Bool, true, []}
use cubesat_fsw_gnc.Sim.RigidBody
use cubesat_fsw_gnc.Sim.Orbit
use cubesat_fsw_gnc.Sim.Gyro
use cubesat_fsw_gnc.Sim.Magnetometer
use cubesat_fsw_gnc.Sim.StarTracker

pub record SimulationConfig (D M : Type 0) : Type 0 where
  pub inertia : M
  pub init_q : Quaternion D
  pub init_w : Vector3 D
  pub init_pos : Vector3 D
  pub init_vel : Vector3 D
  pub enable_j2 : Bool
  pub mag_cfg : MagnetometerConfig D

pub record Simulation (D G M : Type 0) : Type 0 where
  pub body : RigidBody M
  pub orbit : Orbit M
  pub gyro : SimGyro D G
  pub mag : SimMagnetometer D G
  pub star_tracker : SimStarTracker D G
  pub sim_time : D

-- The generators of the three sensors; each seeds its own from the clock.
pub record Generators (G : Type 0) : Type 0 where
  pub gyro : G
  pub mag : G
  pub star_tracker : G

module _ {D M : Type 0} ⦃d : Double D⦄ ⦃m : Matrices D M⦄ where
  unfoldable pub default_config : SimulationConfig D M
  default_config = record {
    inertia = m.scale (lit 1 2) (m.identity 3);
    init_q = quaternion_identity;
    init_w = vector_zero;
    init_pos = record { x = lit 7000000 0; y = lit 0 0; z = lit 0 0 };
    init_vel = record { x = lit 0 0; y = lit 7500 0; z = lit 0 0 };
    enable_j2 = true;
    mag_cfg = Magnetometer.default_config;
  }

  -- The constructor, with the generators of the three sensors.
  unfoldable pub init : {G : Type 0} → SimulationConfig D M → Generators G → Simulation D G M
  init c gens = record {
    body = RigidBody.init c.inertia c.init_q c.init_w;
    orbit = Orbit.init c.init_pos c.init_vel c.enable_j2;
    gyro = Gyro.init gens.gyro;
    mag = Magnetometer.init c.mag_cfg gens.mag;
    star_tracker = StarTracker.init (lit 0 0) gens.star_tracker;
    sim_time = lit 0 0;
  }

module _ {D G M : Type 0} ⦃d : Double D⦄ ⦃e : Eigen D⦄ ⦃l : Libm D⦄ ⦃m : Matrices D M⦄ where
  -- A time step under a torque in body axes.
  unfoldable pub step : Simulation D G M → D → Vector3 D → Simulation D G M
  step s dt torque_cmd =
      let time = s.sim_time ⊕ dt in
      record s {
        sim_time = time;
        orbit = Orbit.step s.orbit dt;
        mag = set_time s.mag time;
        body = RigidBody.step s.body dt torque_cmd vector_zero vector_zero;
      }

module _ {D G M : Type 0} ⦃d : Double D⦄ ⦃e : Eigen D⦄ ⦃l : Libm D⦄ ⦃m : Matrices D M⦄
    ⦃n : Noise D G⦄ where
  -- The readings for the flight software. The wheel speeds stay empty.
  unfoldable pub get_sensors : Simulation D G M → SensorData D × Simulation D G M
  get_sensors s =
      let attitude = get_attitude s.body in
      let (mag_body, mag) = Magnetometer.read s.mag (get_position s.orbit) attitude in
      let (gyro_body, gyro) = Gyro.read s.gyro (get_angular_velocity s.body) in
      let (q_measured, star_tracker) = get_orientation s.star_tracker attitude in
      let sun_inertial : Vector3 D = record { x = lit 1 0; y = lit 0 0; z = lit 0 0 } in
      (
        record {
          mag_body = mag_body;
          gyro_body = gyro_body;
          q_measured = q_measured;
          sun_body = e.rotate (e.conjugate attitude) sun_inertial;
          rw_speeds = [];
          rw_torques_prev = [];
        },
        record s { mag = mag; gyro = gyro; star_tracker = star_tracker },
      )
