-- ===== src/Telemetry/Uplink.antt =====
-- Commands from the ground (src/sim/GroundStation.cpp) through the parser of the flight software
-- (src/fsw/core/CommandParser.cpp).
use cubesat_fsw_gnc.Prelude.{ℕ, ◌≡◌, refl, Bool, true, false, List, Option, some}
use cubesat_fsw_gnc.Double.{Double, Stored}
use cubesat_fsw_gnc.Telemetry.Bytes.{octets, memory, append_double-wire, of_bytes-octets}
use cubesat_fsw_gnc.Telemetry.Command.{
  Command, slew_to_nadir_command, set_pid_gains_command, slew_to_target_command, parse, parse_gnc,
  parse_set_gains, parse_point_target,
}
use cubesat_fsw_gnc.Telemetry.Ccsds.{read_packet_id}
use cubesat_fsw_gnc.Telemetry.GroundStation.{
  GroundStation, create_slew_to_nadir_command, create_slew_to_target_command,
  create_set_pid_gains_command,
}

module _ {D : Type 0} ⦃d : Double D⦄ ⦃s : Stored D⦄ where
  -- The station's packet for a command.
  unfoldable pub create : GroundStation D → Command D → GroundStation D × List ℕ
  create g slew_to_nadir_command = create_slew_to_nadir_command g
  create g (set_pid_gains_command kp ki kd is_nominal) =
      create_set_pid_gains_command g kp ki kd is_nominal
  create g (slew_to_target_command q) = create_slew_to_target_command g q

  gains :
      (kp ki kd : D) (is_nominal : Bool)
      → ◌≡◌ {A = Option (Command D)}
          (some (
            set_pid_gains_command
              (s.of_bytes (memory (octets kp)))
              (s.of_bytes (memory (octets ki)))
              (s.of_bytes (memory (octets kd)))
              is_nominal))
          (some (set_pid_gains_command kp ki kd is_nominal))
  gains kp ki kd is_nominal = λ i. some (
      set_pid_gains_command (of_bytes-octets kp i) (of_bytes-octets ki i) (of_bytes-octets kd i)
        is_nominal)

  -- Whatever the station has sent before, the parser turns the packet of any command into that very
  -- command, with every number in it, given that the eight bytes of a double determine it.
  pub parse-create : (g : GroundStation D) (c : Command D) → parse (create g c).1 ≡ some c
  unfolding create parse parse_gnc parse_set_gains parse_point_target read_packet_id
      create_slew_to_nadir_command create_slew_to_target_command create_set_pid_gains_command
  parse-create g slew_to_nadir_command = refl
  parse-create g (set_pid_gains_command kp ki kd true) =
      rw (append_double-wire _ kp, append_double-wire _ ki, append_double-wire _ kd)
        (gains kp ki kd true)
  parse-create g (set_pid_gains_command kp ki kd false) =
      rw (append_double-wire _ kp, append_double-wire _ ki, append_double-wire _ kd)
        (gains kp ki kd false)
  parse-create g (slew_to_target_command q) =
      rw
        (
          append_double-wire _ q.x,
          append_double-wire _ q.y,
          append_double-wire _ q.z,
          append_double-wire _ q.w,
        )
        (λ i. some (
          slew_to_target_command (record {
            w = of_bytes-octets q.w i;
            x = of_bytes-octets q.x i;
            y = of_bytes-octets q.y i;
            z = of_bytes-octets q.z i;
          })))
