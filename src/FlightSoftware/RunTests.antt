-- ===== src/FlightSoftware/RunTests.antt =====
-- Runs of the flight software from its constructor, on concrete inputs.
use cubesat_fsw_gnc.Prelude.{ℕ, ◌≡◌, refl, [], ◌∷◌, none, some, min, take}
use cubesat_fsw_gnc.Double.{lit}
use cubesat_fsw_gnc.Fixed.{
  fixed_stored, Fixed, fixed_double, fixed_eigen, fixed_libm, fixed_matrices,
}
use cubesat_fsw_gnc.Core.ModeManager.{default_config}
use cubesat_fsw_gnc.Gnc.AttitudeController
use cubesat_fsw_gnc.Gnc.AttitudeController.{
  AttitudeController, attitude_controller, default_attitude,
}
use cubesat_fsw_gnc.FlightSoftware.State.{FlightSoftware, init}
use cubesat_fsw_gnc.FlightSoftware.Uplinked.{wired}
use cubesat_fsw_gnc.FlightSoftware.Runs.{run, run-init-IsReady}
use cubesat_fsw_gnc.FlightSoftware.Ready.{IsReady}
use cubesat_fsw_gnc.FlightSoftware.Recorded.{estimates, run-init_records}
use cubesat_fsw_gnc.Core.SpscQueue.{size}
use cubesat_fsw_gnc.Core.SpscQueue.Unread.{IsUnread}
use cubesat_fsw_gnc.Common.StateHistory.Rows.{Rows}
use cubesat_fsw_gnc.Common.StateHistory.Newest.{newest}
use cubesat_fsw_gnc.FlightSoftware.Tests.{resting, pointing_controller, rest, slow, sun}

abbrev start : FlightSoftware Fixed Unit (AttitudeController Fixed) ℕ
unfolding AttitudeController.init
start =
    init default_config (record { x = lit 1 0; y = lit 0 0; z = lit 0 0 }) (some tt)
      (some (AttitudeController.init default_attitude)) none wired (λ i. 0) rest

run-init-IsReady_example :
    (f : FlightSoftware Fixed Unit (AttitudeController Fixed) ℕ) × (run start (slow ∷ slow ∷ [])
      ≡ some f)
    × IsReady f
unfolding start
run-init-IsReady_example =
    run-init-IsReady default_config sun (some tt) (some (AttitudeController.init default_attitude))
      none wired (λ i. 0) rest (slow ∷ slow ∷ []) (refl, (refl, tt))

abbrev reached : FlightSoftware Fixed Unit (AttitudeController Fixed) ℕ
unfolding start
reached = run-init-IsReady_example.0

-- Four cycles fit the queue and the history.
run-init_records_example :
    let states = estimates start (slow ∷ slow ∷ []) in
    IsUnread 7 reached.telemetry_queue (take 127 states)
    × (size reached.telemetry_queue ≡ min 2 127)
    × (reached.state_history.current_size ≡ min 2 1000)
    × Rows 1000 reached.state_history (newest 1000 states)
unfolding start reached
run-init_records_example =
    run-init_records default_config sun (some tt) (some (AttitudeController.init default_attitude))
      none wired (λ i. 0) rest (slow ∷ slow ∷ []) reached (refl, (refl, tt))
      run-init-IsReady_example.1
