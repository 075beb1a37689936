-- ===== src/Telemetry/Service.antt =====
-- src/fsw/telemetry/TelemetryService.cpp: telemetry packets. The static array of sequence counts is a
-- function from the APID, taken before a call and given back after it. A name is its bytes.
use Prim.Native.Nat.{bit_and}
use cubesat_fsw_gnc.Prelude.{
  ℕ, ◌+◌, ◌^◌, ◌%◌, false, List, [], if◌then◌else◌, ◌==◌, min, length, take, set, replicate,
}
use cubesat_fsw_gnc.Double.{Stored}
use cubesat_fsw_gnc.Eigen.{Vector3, Quaternion}
use cubesat_fsw_gnc.Fdir.Health.{HealthStatus, status_code}
use cubesat_fsw_gnc.Telemetry.Ccsds.{
  CcsdsHeader, Apid, attitude, orbit, health, apid_value, set_version, set_type,
  set_secondary_header_flag, set_apid, set_sequence_flags, set_sequence_count, set_length,
  to_network_order, header_bytes,
}
use cubesat_fsw_gnc.Telemetry.Bytes.{memcpy, append_double}

abbrev pub Counts : Type 0
Counts = ℕ → ℕ

-- `sequence_counts_[i]++` on a `uint16_t`
unfoldable pub increment : Counts → ℕ → Counts
increment counts i j = if i == j then (counts j + 1) % 2 ^ 16 else counts j

unfoldable pub telemetry_header : ℕ → ℕ → ℕ → CcsdsHeader
unfolding set_version set_type set_secondary_header_flag set_apid set_sequence_flags
    set_sequence_count set_length to_network_order
telemetry_header apid count payload_size =
    let h0 : CcsdsHeader = record { packet_id = 0; sequence_ctrl = 0; packet_length = 0 } in
    let h1 = set_apid (set_secondary_header_flag (set_type (set_version h0 0) 0) false) apid in
    let h2 = set_sequence_count (set_sequence_flags h1 0x03) count in
    to_network_order (set_length h2 ((6 + payload_size) % 2 ^ 16))

unfoldable pub prepare_packet : Counts → Apid → ℕ → Counts × List ℕ
unfolding telemetry_header header_bytes memcpy
prepare_packet counts apid payload_size =
    let index = bit_and (apid_value apid) 0x07ff in
    (
      increment counts index,
      memcpy (replicate (6 + payload_size) 0) 0
          (header_bytes (telemetry_header (apid_value apid) (counts index) payload_size)),
    )

module _ {D : Type 0} ⦃s : Stored D⦄ where
  abbrev pub vector_payload : List ℕ → Vector3 D → List ℕ
  vector_payload payload v = append_double (append_double (append_double payload v.x) v.y) v.z

  unfoldable pub encode_attitude : Counts → Quaternion D → Vector3 D → Counts × List ℕ
  unfolding prepare_packet memcpy
  encode_attitude counts q omega =
      let (counts', packet) = prepare_packet counts attitude 56 in
      let p = append_double (append_double (append_double (append_double [] q.w) q.x) q.y) q.z in
      (counts', memcpy packet 6 (vector_payload p omega))

  unfoldable pub encode_orbit : Counts → Vector3 D → Vector3 D → Counts × List ℕ
  unfolding prepare_packet memcpy
  encode_orbit counts pos vel =
      let (counts', packet) = prepare_packet counts orbit 48 in
      (counts', memcpy packet 6 (vector_payload (vector_payload [] pos) vel))

unfoldable pub encode_health : Counts → List ℕ → HealthStatus → Counts × List ℕ
unfolding prepare_packet memcpy
encode_health counts sensor_name status =
    let name_len = min (length sensor_name) 255 in
    let (counts', packet) = prepare_packet counts health (2 + name_len) in
    (
      counts',
      memcpy (set (set packet 6 (status_code status)) 7 name_len) 8 (take name_len sensor_name),
    )
