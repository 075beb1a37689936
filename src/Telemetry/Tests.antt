-- ===== src/Telemetry/Tests.antt =====
-- Packets with concrete contents.
use cubesat_fsw_gnc.Prelude.{ℕ, ◌≡◌, refl, true, false, List, [], ◌∷◌, some}
use cubesat_fsw_gnc.Double.{Double, Stored, lit, ◌⊕◌, ◌⊘◌, ◌≼◌}
use cubesat_fsw_gnc.Eigen.{Vector3, Quaternion}
use cubesat_fsw_gnc.Fdir.Health.{degraded}
use cubesat_fsw_gnc.Telemetry.Ccsds.{read_packet_id}
use cubesat_fsw_gnc.Telemetry.Command.{
  set_pid_gains_command, slew_to_nadir_command, parse, parse_gnc,
}
use cubesat_fsw_gnc.Telemetry.Service.{Counts}
use cubesat_fsw_gnc.Telemetry.GroundStation.{
  GroundStation, process_telemetry, create_slew_to_nadir_command,
}
use cubesat_fsw_gnc.Telemetry.Uplink.{create, parse-create}
use cubesat_fsw_gnc.Core.DataStore.{
  DataStore, any_quaternion, any_vector3, any_status, get, vector3_payload, quaternion_payload,
  status_payload,
}
use cubesat_fsw_gnc.Telemetry.Manager.{TelemetryManager, update, flush_packets}
use cubesat_fsw_gnc.Telemetry.Manager.Received.{
  when, learn_attitude, learn_orbit, learn_health, process_telemetry-update,
}

-- A number that is its own representation. Nothing here computes with it.
record Raw : Type 0 where
  b0 : ℕ
  b1 : ℕ
  b2 : ℕ
  b3 : ℕ
  b4 : ℕ
  b5 : ℕ
  b6 : ℕ
  b7 : ℕ

abbrev raw_of : List ℕ → Raw
raw_of (a ∷ b ∷ c ∷ d ∷ e ∷ f ∷ g ∷ h ∷ r) = record {
  b0 = a;
  b1 = b;
  b2 = c;
  b3 = d;
  b4 = e;
  b5 = f;
  b6 = g;
  b7 = h;
}
raw_of _ = record { b0 = 0; b1 = 0; b2 = 0; b3 = 0; b4 = 0; b5 = 0; b6 = 0; b7 = 0 }

instance abbrev raw_double : Double Raw
raw_double = record {
  lit = λ m e. raw_of [];
  add = λ a b. a;
  sub = λ a b. a;
  mul = λ a b. a;
  div = λ a b. a;
  neg = λ a. a;
  abs = λ a. a;
  lt = λ a b. false;
  le = λ a b. true;
}

instance abbrev raw_stored : Stored Raw
raw_stored = record {
  bytes = λ a. a.b0 ∷ a.b1 ∷ a.b2 ∷ a.b3 ∷ a.b4 ∷ a.b5 ∷ a.b6 ∷ a.b7 ∷ [];
  of_bytes = raw_of;
  length-bytes = λ a. refl;
  of_bytes-bytes = λ a. refl;
}

abbrev pi : Raw
pi = raw_of (0x18 ∷ 0x2d ∷ 0x44 ∷ 0x54 ∷ 0xfb ∷ 0x21 ∷ 0x09 ∷ 0x40 ∷ [])

abbrev nil : Raw
nil = raw_of []

abbrev axis : Vector3 Raw
axis = record { x = pi; y = nil; z = nil }

abbrev turn : Quaternion Raw
turn = record { w = nil; x = pi; y = nil; z = nil }

abbrev station : GroundStation Raw
station = record {
  last_attitude = record { q = turn; omega = axis };
  last_orbit = record { position = axis; velocity = axis };
  health_map = [];
  command_sequence_count = 65535;
}

abbrev counts : Counts
counts i = 16383

parse-create_example :
    parse (create station (set_pid_gains_command pi nil pi true)).1
    ≡ some (set_pid_gains_command pi nil pi true)
parse-create_example = parse-create station (set_pid_gains_command pi nil pi true)

abbrev nadir_packet : List ℕ
nadir_packet = 0x18 ∷ 0xc9 ∷ 0xff ∷ 0xff ∷ 0 ∷ 6 ∷ 1 ∷ []

nadir_packet_lem : (create_slew_to_nadir_command station).1 ≡ nadir_packet
unfolding create_slew_to_nadir_command
nadir_packet_lem = refl

nadir_packet_parses : parse {D = Raw} nadir_packet ≡ some slew_to_nadir_command
unfolding parse parse_gnc read_packet_id
nadir_packet_parses = refl

-- A store with an attitude, a rate and a status of the gyro, and no orbit.
abbrev store : DataStore Raw Unit
store = record {
  data_map =
      ("attitude_estimate", any_quaternion turn)
      ∷ ("gyro_meas", any_vector3 axis)
      ∷ ("gyro_health", any_status degraded)
      ∷ [];
  subscribers = [];
}

abbrev telemetry_manager : TelemetryManager Raw
telemetry_manager = record {
  packet_buffer = [];
  attitude_timer = nil;
  orbit_timer = nil;
  health_timer = nil;
}

process_telemetry-update_example :
    process_telemetry station (flush_packets (update telemetry_manager store counts pi).0).1
    ≡ when
        (lit 1 0 ⊘ lit 5 1 ≼ (telemetry_manager.health_timer ⊕ pi))
        (learn_health (get store "gyro_health"))
        (when
          (lit 1 0 ⊘ lit 1 0 ≼ (telemetry_manager.orbit_timer ⊕ pi))
          (learn_orbit (get store "orbit_pos") (get store "orbit_vel"))
          (when
            (lit 1 0 ⊘ lit 10 0 ≼ (telemetry_manager.attitude_timer ⊕ pi))
            (learn_attitude (get store "attitude_estimate") (get store "gyro_meas"))
            (process_telemetry station [])))
process_telemetry-update_example =
    process_telemetry-update station telemetry_manager store counts pi
