-- ===== src/Sim/ReactionWheel/Tests.antt =====
-- A simulated wheel that is driven and halted.
use cubesat_fsw_gnc.Prelude.{refl, List, [], ◌∷◌}
use cubesat_fsw_gnc.Double.{lit}
use cubesat_fsw_gnc.Fixed.{Fixed, fixed_double, Fixed-IsOrdered}
use cubesat_fsw_gnc.Sim.ReactionWheel.{WheelConfig, init}
use cubesat_fsw_gnc.Sim.ReactionWheel.Faults.{
  Use, command, halt, advance, apply_all, IsLimited, apply_all-init,
}

abbrev small : WheelConfig Fixed
small = record {
  inertia = lit 1 3;
  max_torque = lit 2 3;
  max_momentum = lit 1 1;
  friction_coeff = lit 1 4;
  initial_speed = lit 10 0;
}

abbrev uses : List (Use Fixed)
uses =
    command (lit 5 0)
    ∷ advance (lit 1 1)
    ∷ halt
    ∷ command (fixed_double.neg (lit 1 0))
    ∷ advance (lit 1 1)
    ∷ []

apply_all-init_example : IsLimited (apply_all (init small) uses)
apply_all-init_example = apply_all-init ⦃o = Fixed-IsOrdered⦄ small uses refl refl refl
