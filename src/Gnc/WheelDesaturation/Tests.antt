-- ===== src/Gnc/WheelDesaturation/Tests.antt =====
-- Runs of the desaturation controller on concrete numbers.
use cubesat_fsw_gnc.Prelude.{refl, List, [], ◌∷◌}
use cubesat_fsw_gnc.Double.{lit}
use cubesat_fsw_gnc.Eigen.{Vector3}
use cubesat_fsw_gnc.Fixed.{Fixed, fixed_double, fixed_eigen}
use cubesat_fsw_gnc.Gnc.WheelDesaturation.{
  WheelDesaturation, Wheel, default_desaturation, desaturating, cooldown, update,
}
use cubesat_fsw_gnc.Gnc.WheelDesaturation.Transitions.{IsUpdated, update-IsUpdated}
use cubesat_fsw_gnc.Gnc.WheelDesaturation.Runs.{Unloads, run-Unloads}

abbrev controller : WheelDesaturation Fixed
unfolding default_desaturation
controller = record {
  config = default_desaturation;
  state = desaturating;
  max_momentum = lit 3 0;
  total_momentum = lit 0 0;
  time_in_state = lit 299 0;
}

abbrev wheel : Wheel Fixed
wheel = record { angular_momentum = lit 9 1; max_momentum = lit 1 0 }

abbrev wheels : List (Wheel Fixed)
wheels = wheel ∷ wheel ∷ wheel ∷ []

abbrev field : Vector3 Fixed
field = record { x = lit 1 5; y = lit 2 5; z = lit 1 5 }

update-IsUpdated_example :
    IsUpdated controller wheels (lit 1 1) (update controller wheels field (lit 1 1)).0
update-IsUpdated_example = update-IsUpdated controller wheels field (lit 1 1)

run-Unloads_example :
    Unloads controller
      ((wheels, field, lit 5 1) ∷ (wheels, field, lit 4 1) ∷ (wheels, field, lit 2 1) ∷ [])
unfolding controller default_desaturation
run-Unloads_example =
    run-Unloads ((wheels, field, lit 4 1) ∷ (wheels, field, lit 2 1) ∷ []) controller wheels field
      (lit 5 1) refl refl

abbrev resting : WheelDesaturation Fixed
unfolding controller
resting = record controller { state = cooldown; time_in_state = lit 0 0 }
