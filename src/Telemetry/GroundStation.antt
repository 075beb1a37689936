-- ===== src/Telemetry/GroundStation.antt =====
-- src/sim/GroundStation.cpp: command packets for the spacecraft, and the decoding of its telemetry.
-- A health status is kept as the byte that is cast to the enumeration, a name as its bytes.
use cubesat_fsw_gnc.Prelude.{
  ℕ, ◌+◌, ◌^◌, ◌%◌, Bool, true, false, not, ◌&&◌, List, [], ◌∷◌, ◌++◌, if◌then◌else◌, ltb, ◌==◌,
  length, take, drop, get_or, replicate,
}
use cubesat_fsw_gnc.Double.{Stored}
use cubesat_fsw_gnc.Eigen.{Vector3, Quaternion}
use cubesat_fsw_gnc.Telemetry.Ccsds.{
  CcsdsHeader, CommandApid, gnc, command_apid_value, attitude, orbit, health, apid_value,
  slew_to_nadir, set_gains, point_target, function_value, secondary_header_size, set_version,
  set_type, set_secondary_header_flag, set_apid, set_sequence_flags, set_sequence_count, set_length,
  to_network_order, header_bytes, read_packet_id, apid_of, type_of,
}
use cubesat_fsw_gnc.Telemetry.Bytes.{memcpy, append_double, read_double}

pub record AttitudeTelemetry (D : Type 0) : Type 0 where
  pub q : Quaternion D
  pub omega : Vector3 D

pub record OrbitTelemetry (D : Type 0) : Type 0 where
  pub position : Vector3 D
  pub velocity : Vector3 D

pub record GroundStation (D : Type 0) : Type 0 where
  pub last_attitude : AttitudeTelemetry D
  pub last_orbit : OrbitTelemetry D
  pub health_map : List (List ℕ × ℕ)
  pub command_sequence_count : ℕ

unfoldable pub same_name : List ℕ → List ℕ → Bool
same_name [] [] = true
same_name (x ∷ xs) (y ∷ ys) = x == y && same_name xs ys
same_name _ _ = false

-- `health_map_[name] = ht` and a lookup in the map.
unfoldable pub put_health : List ℕ → ℕ → List (List ℕ × ℕ) → List (List ℕ × ℕ)
unfolding same_name
put_health name status [] = (name, status) ∷ []
put_health name status ((n, v) ∷ m) =
    if same_name n name then (name, status) ∷ m else (n, v) ∷ put_health name status m

unfoldable pub command_header : ℕ → ℕ → ℕ → CcsdsHeader
unfolding set_version set_type set_secondary_header_flag set_apid set_sequence_flags
    set_sequence_count set_length to_network_order
command_header apid count payload_size =
    let h0 : CcsdsHeader = record { packet_id = 0; sequence_ctrl = 0; packet_length = 0 } in
    let h1 = set_apid (set_secondary_header_flag (set_type (set_version h0 0) 1) true) apid in
    let h2 = set_sequence_count (set_sequence_flags h1 0x03) count in
    to_network_order (set_length h2 ((6 + secondary_header_size + payload_size) % 2 ^ 16))

-- The packet of header and function code that the three commands begin with.
abbrev pub command_start : CcsdsHeader → ℕ → List ℕ
command_start header code =
    memcpy (memcpy (replicate (6 + secondary_header_size) 0) 0 (header_bytes header)) 6 (code ∷ [])

module _ {D : Type 0} where
  -- The header, and the station with its counter moved on.
  unfoldable pub create_command_header :
      GroundStation D → CommandApid → ℕ → GroundStation D × CcsdsHeader
  unfolding command_header
  create_command_header g apid payload_size = (
    record g { command_sequence_count = (g.command_sequence_count + 1) % 2 ^ 16 },
    command_header (command_apid_value apid) g.command_sequence_count payload_size,
  )

  unfoldable pub create_slew_to_nadir_command : GroundStation D → GroundStation D × List ℕ
  unfolding create_command_header header_bytes memcpy
  create_slew_to_nadir_command g =
      let (g', header) = create_command_header g gnc 0 in
      (g', command_start header (function_value slew_to_nadir))

module _ {D : Type 0} ⦃s : Stored D⦄ where
  unfoldable pub create_slew_to_target_command :
      GroundStation D → Quaternion D → GroundStation D × List ℕ
  unfolding create_command_header header_bytes memcpy
  create_slew_to_target_command g target_q =
      let (g', header) = create_command_header g gnc 32 in
      let packet = command_start header (function_value point_target) in
      (
        g',
        append_double
            (append_double (append_double (append_double packet target_q.x) target_q.y) target_q.z)
            target_q.w,
      )

  unfoldable pub create_set_pid_gains_command :
      GroundStation D → D → D → D → Bool → GroundStation D × List ℕ
  unfolding create_command_header header_bytes memcpy
  create_set_pid_gains_command g kp ki kd is_nominal =
      let (g', header) = create_command_header g gnc 25 in
      let packet = command_start header (function_value set_gains) in
      (
        g',
        append_double (append_double (append_double packet kp) ki) kd
            ++ (if is_nominal then 1 else 0) ∷ [],
      )

  read_vector : List ℕ → ℕ → Vector3 D × ℕ
  unfolding read_double
  read_vector raw o0 =
      let (x, o1) = read_double raw o0 in
      let (y, o2) = read_double raw o1 in
      let (z, o3) = read_double raw o2 in (record { x = x; y = y; z = z }, o3)

  unfoldable pub receive_attitude : GroundStation D → List ℕ → GroundStation D
  unfolding read_vector
  receive_attitude g raw =
      let (w, o1) = read_double raw 6 in
      let (v, o2) = read_vector raw o1 in
      let (omega, o3) = read_vector raw o2 in
      if ltb (length raw) (6 + 56) then g else record g {
        last_attitude = record { q = record { w = w; x = v.x; y = v.y; z = v.z }; omega = omega };
      }

  unfoldable pub receive_orbit : GroundStation D → List ℕ → GroundStation D
  unfolding read_vector
  receive_orbit g raw =
      let (position, o1) = read_vector raw 6 in
      let (velocity, o2) = read_vector raw o1 in
      if ltb (length raw) (6 + 48)
      then g
      else record g { last_orbit = record { position = position; velocity = velocity } }

  unfoldable pub receive_health : GroundStation D → List ℕ → GroundStation D
  receive_health g raw =
      let name_len = get_or raw 7 0 in
      if ltb (length raw) (6 + 2)
      then g
      else (if ltb (length raw) (8 + name_len) then g else record g {
        health_map = put_health (take name_len (drop 8 raw)) (get_or raw 6 0) g.health_map;
      })

  -- The body of the loop of `processTelemetry`; an unchanged station is a `continue`.
  unfoldable pub receive : GroundStation D → List ℕ → GroundStation D
  unfolding receive_attitude receive_orbit receive_health read_packet_id
  receive g raw =
      let packet_id = read_packet_id (get_or raw 0 0) (get_or raw 1 0) in
      if ltb (length raw) 6
      then g
      else (if not (type_of packet_id == 0)
          then g
          else (if apid_of packet_id == apid_value attitude
              then receive_attitude g raw
              else (if apid_of packet_id == apid_value orbit
                  then receive_orbit g raw
                  else (if apid_of packet_id == apid_value health
                      then receive_health g raw
                      else g))))

  unfoldable pub process_telemetry : GroundStation D → List (List ℕ) → GroundStation D
  process_telemetry g [] = g
  process_telemetry g (raw ∷ packets) = process_telemetry (receive g raw) packets
