-- ===== src/Core/ModeManager/Tests.antt =====
-- Runs of the mode manager on concrete numbers.
use cubesat_fsw_gnc.Prelude.{ℕ, ◌*◌, ◌≡◌, refl, true, List, [], ◌∷◌}
use cubesat_fsw_gnc.Prelude.Int.{pos}
use cubesat_fsw_gnc.Eigen.{Vector3}
use cubesat_fsw_gnc.Fixed.{Fixed, nan, num, one, fixed_double, fixed_eigen}
use cubesat_fsw_gnc.Core.ModeManager.{ModeManager, safe, nominal, default_config, update}
use cubesat_fsw_gnc.Core.ModeManager.Laws.{Updated, update-Updated}

abbrev start : ModeManager Fixed
start = record {
  current_mode = safe;
  previous_mode = safe;
  config = default_config;
  time_in_current_mode = num (pos 0);
  callback = true;
  calls = [];
}

-- The numerator of a rate in units of 10^-9 rad/s, about one axis.
abbrev spin : ℕ → Vector3 Fixed
spin n = record { x = num (pos n); y = num (pos 0); z = num (pos 0) }

abbrev seconds : ℕ → Fixed
seconds n = num (pos (n * one))

abbrev lost : Vector3 Fixed
lost = record { x = nan; y = nan; z = nan }

abbrev slow_minute : List (Vector3 Fixed × Fixed)
slow_minute = (spin 1000, seconds 4) ∷ (spin 1000, seconds 5) ∷ []

detumbles : (update start (spin 1000) (seconds 11)).current_mode ≡ nominal
unfolding update
detumbles = refl

update-Updated_example :
    Updated start (spin 1000) (seconds 11) (update start (spin 1000) (seconds 11))
update-Updated_example = update-Updated start (spin 1000) (seconds 11)
