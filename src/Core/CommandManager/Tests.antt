-- ===== src/Core/CommandManager/Tests.antt =====
-- A run of the command manager on concrete commands.
use cubesat_fsw_gnc.Prelude.{[], ◌∷◌, ◌≡◌, refl, true, none, some}
use cubesat_fsw_gnc.Double.{lit}
use cubesat_fsw_gnc.Eigen.{Quaternion}
use cubesat_fsw_gnc.Fixed.{Fixed, fixed_double}
use cubesat_fsw_gnc.Core.CommandManager.{CommandManager, update}
use cubesat_fsw_gnc.Core.CommandManager.Drain.{connected, gained, aimed, aim, update-connected}
use cubesat_fsw_gnc.Telemetry.Command.{
  slew_to_nadir_command, set_pid_gains_command, slew_to_target_command,
}
use cubesat_fsw_gnc.Gnc.AttitudeController.{AttitudeController, default_attitude, init}

abbrev controller : AttitudeController Fixed
unfolding init
controller = init default_attitude

abbrev target : Quaternion Fixed
target = record { w = lit 1 0; x = lit 0 0; y = lit 0 0; z = lit 0 0 }

abbrev manager : CommandManager Fixed
manager = record {
  command_queue =
      slew_to_nadir_command
      ∷ set_pid_gains_command (lit 2 0) (lit 1 1) (lit 3 1) true
      ∷ slew_to_target_command target
      ∷ [];
}

aims : aimed manager.command_queue (none, none) ≡ (some "TARGET", some target)
unfolding aimed
aims = refl

update-connected_example :
    let (m', s', c') = update manager connected controller in
    (m'.command_queue ≡ [])
    × (c' ≡ gained manager.command_queue controller)
    × (aim s' ≡ aimed manager.command_queue (aim connected))
update-connected_example = update-connected manager connected controller refl
