-- ===== src/Telemetry/Manager.antt =====
-- src/fsw/telemetry/TelemetryManager.cpp: packets from the data store at three rates.
use Prim.Native.String.{String}
use cubesat_fsw_gnc.Prelude.{ℕ, List, [], ◌∷◌, ◌++◌, Option, none, some, if◌then◌else◌}
use cubesat_fsw_gnc.Double.{Double, Stored, lit, ◌⊕◌, ◌⊘◌, ◌≼◌}
use cubesat_fsw_gnc.Eigen.{Quaternion, Vector3}
use cubesat_fsw_gnc.Fdir.Health.{HealthStatus}
use cubesat_fsw_gnc.Core.DataStore.{
  DataStore, get, vector3_payload, quaternion_payload, status_payload,
}
use cubesat_fsw_gnc.Telemetry.Service.{Counts, encode_attitude, encode_orbit, encode_health}
pub mod Received

pub record TelemetryManager (D : Type 0) : Type 0 where
  pub packet_buffer : List (List ℕ)
  pub attitude_timer : D
  pub orbit_timer : D
  pub health_timer : D

-- The bytes of "GYRO".
abbrev pub gyro_name : List ℕ
gyro_name = 71 ∷ 89 ∷ 82 ∷ 79 ∷ []

-- The sequence counts and the packets so far.
abbrev pub Buffer : Type 0
Buffer = Counts × List (List ℕ)

module _ {D : Type 0} ⦃stored : Stored D⦄ where
  -- A packet is sent if the store has all that goes into it.
  unfoldable pub send_attitude : Option (Quaternion D) → Option (Vector3 D) → Buffer → Buffer
  send_attitude (some q) (some rate) (counts, packets) =
      let (counts', packet) = encode_attitude counts q rate in (counts', packets ++ packet ∷ [])
  send_attitude q rate b = b

  unfoldable pub send_orbit : Option (Vector3 D) → Option (Vector3 D) → Buffer → Buffer
  send_orbit (some pos) (some vel) (counts, packets) =
      let (counts', packet) = encode_orbit counts pos vel in (counts', packets ++ packet ∷ [])
  send_orbit pos vel b = b

unfoldable pub send_health : Option HealthStatus → Buffer → Buffer
send_health (some status) (counts, packets) =
    let (counts', packet) = encode_health counts gyro_name status in
    (counts', packets ++ packet ∷ [])
send_health none b = b

module _ {D W : Type 0} ⦃d : Double D⦄ ⦃stored : Stored D⦄ where
  -- The new manager and the sequence counts.
  unfoldable pub update :
      TelemetryManager D → DataStore D W → Counts → D → TelemetryManager D × Counts
  update m ds counts dt =
      let attitude_timer = m.attitude_timer ⊕ dt in
      let orbit_timer = m.orbit_timer ⊕ dt in
      let health_timer = m.health_timer ⊕ dt in
      let attitude_due = lit 1 0 ⊘ lit 10 0 ≼ attitude_timer in
      let orbit_due = lit 1 0 ⊘ lit 1 0 ≼ orbit_timer in
      let health_due = lit 1 0 ⊘ lit 5 1 ≼ health_timer in
      let b0 : Buffer = (counts, m.packet_buffer) in
      let b1 =
        if attitude_due
        then send_attitude {D = D} (get {T = Quaternion D} ds "attitude_estimate")
            (get {T = Vector3 D} ds "gyro_meas") b0
        else b0 in
      let b2 =
        if orbit_due
        then send_orbit {D = D} (get {T = Vector3 D} ds "orbit_pos")
            (get {T = Vector3 D} ds "orbit_vel") b1
        else b1 in
      let b3 =
        if health_due then send_health (get {T = HealthStatus} ds "gyro_health") b2 else b2 in
      (
        record {
          packet_buffer = b3.1;
          attitude_timer = if attitude_due then lit 0 0 else attitude_timer;
          orbit_timer = if orbit_due then lit 0 0 else orbit_timer;
          health_timer = if health_due then lit 0 0 else health_timer;
        },
        b3.0,
      )

-- The packets, and the manager without them.
unfoldable pub flush_packets :
    {D : Type 0} → TelemetryManager D → TelemetryManager D × List (List ℕ)
flush_packets m = (record m { packet_buffer = [] }, m.packet_buffer)
