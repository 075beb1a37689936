-- ===== src/Core/CommandManager.antt =====
-- src/fsw/core/CommandManager.cpp, and `execute` of the commands in src/fsw/core/commands: a queue of
-- commands that is drained in order, each of which publishes to the data store.
use Prim.Native.String.{String}
use cubesat_fsw_gnc.Prelude.{List, [], ◌∷◌, ◌++◌, ℕ, length, Option, none, some}
use cubesat_fsw_gnc.Double.{Double}
use cubesat_fsw_gnc.Core.DataStore.{
  DataStore, GainsPayload, publish, subscribe, string_payload, quaternion_payload, gains_payload,
}
use cubesat_fsw_gnc.Telemetry.Command.{
  Command, slew_to_nadir_command, set_pid_gains_command, slew_to_target_command,
}
use cubesat_fsw_gnc.Gnc.AttitudeController.{AttitudeController, set_gains}
pub mod Drain
pub mod Tests

pub record CommandManager (D : Type 0) : Type 0 where
  pub command_queue : List (Command D)

module _ {D : Type 0} where
  -- A null pointer is not queued.
  unfoldable pub enqueue_command : CommandManager D → Option (Command D) → CommandManager D
  enqueue_command m none = m
  enqueue_command m (some cmd) = record { command_queue = m.command_queue ++ cmd ∷ [] }

  unfoldable pub get_pending_count : CommandManager D → ℕ
  get_pending_count m = length m.command_queue

module _ {D W : Type 0} where
  -- `execute` of a command, which always reports success.
  unfoldable pub execute : Command D → DataStore D W → W → DataStore D W × W
  unfolding publish
  execute slew_to_nadir_command s w = publish {T = String} s "guidance/target_mode" "NADIR" w
  execute (set_pid_gains_command kp ki kd is_nominal) s w =
      let payload : GainsPayload D = record {
        kp = kp;
        ki = ki;
        kd = kd;
        is_nominal = is_nominal;
      } in
      publish s "gnc/att_gains" payload w
  execute (slew_to_target_command q) s w =
      let (s', w') = publish s "guidance/target_quaternion" q w in
      publish {T = String} s' "guidance/target_mode" "TARGET" w'

  -- The loop takes commands from the front until there is none.
  unfoldable pub drain : List (Command D) → DataStore D W → W → DataStore D W × W
  drain [] s w = (s, w)
  drain (cmd ∷ cmds) s w = let (s', w') = execute cmd s w in drain cmds s' w'

  unfoldable pub update :
      CommandManager D → DataStore D W → W → CommandManager D × DataStore D W × W
  unfolding drain
  update m s w = let (s', w') = drain m.command_queue s w in (record { command_queue = [] }, s', w')

-- The subscription that the constructor of AttitudeController makes.
unfoldable pub subscribe_gains :
    {D : Type 0}
    → ⦃d : Double D⦄ → DataStore D (AttitudeController D)
    → DataStore D (AttitudeController D)
unfolding subscribe
subscribe_gains {D} s =
    subscribe s "gnc/att_gains" (λ (p : GainsPayload D) c. set_gains c p.kp p.ki p.kd p.is_nominal)
