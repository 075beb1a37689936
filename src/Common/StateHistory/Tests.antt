-- ===== src/Common/StateHistory/Tests.antt =====
-- A ring of two states that takes three.
use cubesat_fsw_gnc.Prelude.{ℕ, ◌≡◌, refl, min, length, List, [], ◌∷◌, arith}
use cubesat_fsw_gnc.Double.{lit}
use cubesat_fsw_gnc.Eigen.{vector_zero, quaternion_identity}
use cubesat_fsw_gnc.Fixed.{Fixed, fixed_double, fixed_reductions}
use cubesat_fsw_gnc.Gnc.Interfaces.{State}
use cubesat_fsw_gnc.Common.StateHistory.{
  StateHistory, init, add_state, get_component_history, component, velx,
}
use cubesat_fsw_gnc.Common.StateHistory.Newest.{add_all, newest, add_all-init}
use cubesat_fsw_gnc.Common.StateHistory.Rows.{Rows}

abbrev moving : ℕ → State Fixed
moving n = record {
  q = quaternion_identity;
  w = vector_zero;
  pos = vector_zero;
  vel = record { x = lit n 0; y = lit 0 0; z = lit 0 0 };
}

abbrev states : List (State Fixed)
states = moving 1 ∷ moving 2 ∷ moving 3 ∷ []

abbrev filled : StateHistory Fixed
unfolding init add_all add_state
filled = add_all (init 2) states

-- The history of a component is in the order of the rows, the newest first here.
history_of_three : get_component_history filled velx ≡ lit 3 0 ∷ lit 2 0 ∷ []
unfolding filled init add_all add_state get_component_history component
history_of_three = refl

add_all-init_example :
    let h = add_all (init 2) states in
    (h.current_size ≡ min (length states) 2) × Rows 2 h (newest 2 states)
add_all-init_example = add_all-init 2 states (omega arith)
