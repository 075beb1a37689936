-- ===== src/Sim/Tests.antt =====
-- Readings of a concrete simulation.
use cubesat_fsw_gnc.Sim.Orbit.Domain.{get_argument_of_perigee-IsPerigee, IsPerigee}
use cubesat_fsw_gnc.Sim.Orbit.{
  get_argument_of_perigee, eccentricity_vector, get_velocity, get_position, momentum, node, Orbit,
}
use cubesat_fsw_gnc.Fixed.{
  Fixed, fixed_double, fixed_eigen, fixed_libm, fixed_matrices, fixed_stored, fixed_reductions,
  Fixed-IsOrdered,
}
use cubesat_fsw_gnc.Prelude.{ℕ, ◌+◌, ◌≡◌, refl, true}
use cubesat_fsw_gnc.Double.{lit}
use cubesat_fsw_gnc.Sim.Quiet.{IsQuiet}
use cubesat_fsw_gnc.Eigen.{vector_zero}
use cubesat_fsw_gnc.Sim.Noise.{Noise}
use cubesat_fsw_gnc.Sim.Simulation
use cubesat_fsw_gnc.Sim.Gyro
use cubesat_fsw_gnc.Sim.StarTracker
use cubesat_fsw_gnc.Sim.Magnetometer
use cubesat_fsw_gnc.Sim.Gyro.{inject_failure_dead}
use cubesat_fsw_gnc.Sim.Simulation.{default_config, Simulation, get_sensors}

instance abbrev silent : Noise Fixed ℕ
silent = record { next = λ g. (lit g 0, g + 1) }

-- The gyroscope is dead.
abbrev faulty : Simulation Fixed ℕ ℕ
faulty =
    let s : Simulation Fixed ℕ ℕ =
      Simulation.init default_config (record { gyro = 3; mag = 4; star_tracker = 5 }) in
    record s { gyro = inject_failure_dead s.gyro }

faulty-IsQuiet : IsQuiet faulty
unfolding Simulation.init default_config inject_failure_dead Gyro.init Magnetometer.init
    StarTracker.init Magnetometer.default_config
faulty-IsQuiet = record { gyro = refl; mag = refl; star_tracker = refl }

faulty-gyro : (get_sensors faulty).0.gyro_body ≡ vector_zero
unfolding get_sensors Gyro.read inject_failure_dead
faulty-gyro = refl

abbrev low_orbit : Orbit ℕ
low_orbit = record { state = 6; enable_j2 = true }

get_argument_of_perigee-IsPerigee_example :
    IsPerigee {D = Fixed}
      (node (momentum (get_position low_orbit) (get_velocity low_orbit)))
      (eccentricity_vector (get_position low_orbit) (get_velocity low_orbit))
      (get_argument_of_perigee low_orbit)
get_argument_of_perigee-IsPerigee_example =
    get_argument_of_perigee-IsPerigee Fixed-IsOrdered refl low_orbit
