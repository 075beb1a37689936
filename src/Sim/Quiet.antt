-- ===== src/Sim/Quiet.antt =====
-- src/sim: a simulation whose sensors have no noise draws no random numbers, so its generators do not
-- matter.
use cubesat_fsw_gnc.Prelude.{◌≡◌, refl, ap, ◌∙◌, Bool, true, false, [], if◌then◌else◌}
use cubesat_fsw_gnc.Sim.Orbit.{get_position}
use cubesat_fsw_gnc.Sim.RigidBody.{get_angular_velocity, get_attitude}
use cubesat_fsw_gnc.Gnc.Interfaces.{SensorData}
use cubesat_fsw_gnc.Eigen.{vector_zero, Quaternion, Vector3, Eigen}
use cubesat_fsw_gnc.Linear.{Matrices}
use cubesat_fsw_gnc.Sim.Magnetometer.{compute_dipole_field, SimMagnetometer}
use cubesat_fsw_gnc.Double.{Libm, ◌≺◌, lit, Double}
use cubesat_fsw_gnc.Sim.Noise.{add_noise, Noise}
use cubesat_fsw_gnc.Sim.Gyro
use cubesat_fsw_gnc.Sim.Magnetometer
use cubesat_fsw_gnc.Sim.Gyro.{SimGyro}
use cubesat_fsw_gnc.Sim.StarTracker.{SimStarTracker, get_orientation}
use cubesat_fsw_gnc.Sim.Simulation.{Generators, Simulation, get_sensors}

-- No sensor has noise.
pub record IsQuiet {D G M : Type 0} ⦃d : Double D⦄ (s : Simulation D G M) : Type 0 where
  pub gyro : lit 0 0 ≺ s.gyro.noise_std ≡ false
  pub mag : lit 0 0 ≺ s.mag.config.noise_std ≡ false
  pub star_tracker : lit 0 0 ≺ s.star_tracker.noise_std ≡ false

module _ {D G : Type 0} ⦃d : Double D⦄ ⦃n : Noise D G⦄ where
  add_noise-quiet :
      (noise_std : D) (v : Vector3 D) (g : G)
      → lit 0 0 ≺ noise_std ≡ false
      → add_noise noise_std v g ≡ (v, g)
  unfolding add_noise
  add_noise-quiet noise_std v g h = rw h refl

if_pair {ℓ} :
    {A B : Type ℓ} (b : Bool) (x y : A) (s : B)
    → ◌≡◌ {A = A × B} (if b then (x, s) else (y, s)) (if b then x else y, s)
if_pair true x y s = refl
if_pair false x y s = refl

module _ {D G : Type 0} ⦃d : Double D⦄ ⦃e : Eigen D⦄ ⦃n : Noise D G⦄ where
  gyro-quiet :
      (s : SimGyro D G) (v : Vector3 D)
      → lit 0 0 ≺ s.noise_std ≡ false
      → Gyro.read s v
        ≡ (if s.is_dead then vector_zero else e.scale s.scaling_factor (e.add v s.bias), s)
  unfolding Gyro.read
  gyro-quiet s v h =
      let measured = e.scale s.scaling_factor (e.add v s.bias) in
      ap (λ p. if s.is_dead then (vector_zero, s) else (p.0, record s { gen = p.1 }))
        (add_noise-quiet s.noise_std measured s.gen h)
      ∙ if_pair s.is_dead vector_zero measured s

  star_tracker-quiet :
      (s : SimStarTracker D G) (q : Quaternion D)
      → lit 0 0 ≺ s.noise_std ≡ false
      → get_orientation s q ≡ (e.inverse q, s)
  unfolding get_orientation
  star_tracker-quiet s q h = rw h refl

module _ {D G : Type 0} ⦃d : Double D⦄ ⦃e : Eigen D⦄ ⦃l : Libm D⦄ ⦃n : Noise D G⦄ where
  abbrev field : SimMagnetometer D G → Vector3 D → Quaternion D → Vector3 D
  field s pos q =
      e.add (e.rotate (e.conjugate q) (compute_dipole_field s.config pos s.sim_time)) s.config.bias

  mag-quiet :
      (s : SimMagnetometer D G) (pos : Vector3 D) (q : Quaternion D)
      → lit 0 0 ≺ s.config.noise_std ≡ false
      → Magnetometer.read s pos q ≡ (if s.is_dead then vector_zero else field s pos q, s)
  unfolding Magnetometer.read
  mag-quiet s pos q h =
      ap (λ p. if s.is_dead then (vector_zero, s) else (p.0, record s { gen = p.1 }))
        (add_noise-quiet s.config.noise_std (field s pos q) s.gen h)
      ∙ if_pair s.is_dead vector_zero (field s pos q) s

-- The same simulation with other generators.
unfoldable pub seed : {D G M : Type 0} → Generators G → Simulation D G M → Simulation D G M
seed g s = record s {
  gyro = record (s.gyro) { gen = g.gyro };
  mag = record (s.mag) { gen = g.mag };
  star_tracker = record (s.star_tracker) { gen = g.star_tracker };
}

module _ {D G M : Type 0} ⦃d : Double D⦄ ⦃e : Eigen D⦄ ⦃l : Libm D⦄ ⦃m : Matrices D M⦄
    ⦃n : Noise D G⦄ where
  -- What the sensors read without noise.
  unfoldable pub exact : Simulation D G M → SensorData D
  exact s =
      let attitude = get_attitude s.body in
      let v = get_angular_velocity s.body in
      record {
        mag_body =
            if s.mag.is_dead then vector_zero else field s.mag (get_position s.orbit) attitude;
        gyro_body =
            if s.gyro.is_dead
            then vector_zero
            else e.scale s.gyro.scaling_factor (e.add v s.gyro.bias);
        q_measured = e.inverse attitude;
        sun_body =
            e.rotate (e.conjugate attitude) (record { x = lit 1 0; y = lit 0 0; z = lit 0 0 });
        rw_speeds = [];
        rw_torques_prev = [];
      }

  -- Without noise a reading is the exact one, a dead gyroscope and a dead magnetometer read zero, and
  -- no generator moves: the simulation stays as it is.
  pub get_sensors-quiet : (s : Simulation D G M) → IsQuiet s → get_sensors s ≡ (exact s, s)
  unfolding get_sensors exact
  get_sensors-quiet s q =
      let attitude = get_attitude s.body in
      λ i.
        let mag = mag-quiet s.mag (get_position s.orbit) attitude q.mag i in
        let gyro = gyro-quiet s.gyro (get_angular_velocity s.body) q.gyro i in
        let star = star_tracker-quiet s.star_tracker attitude q.star_tracker i in
        (
          record {
            mag_body = mag.0;
            gyro_body = gyro.0;
            q_measured = star.0;
            sun_body =
                e.rotate (e.conjugate attitude) (record { x = lit 1 0; y = lit 0 0; z = lit 0 0 });
            rw_speeds = [];
            rw_torques_prev = [];
          },
          record s { mag = mag.1; gyro = gyro.1; star_tracker = star.1 },
        )
