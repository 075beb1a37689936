-- ===== src/Telemetry/Manager/Received.antt =====
-- What the ground station makes of the packets of src/fsw/telemetry/TelemetryManager.cpp.
use cubesat_fsw_gnc.Prelude.{
  ℕ, List, [], ◌∷◌, ◌++◌, Option, none, some, Bool, true, false, if◌then◌else◌, ◌≡◌, refl, ap, ◌∙◌,
}
use cubesat_fsw_gnc.Double.{Double, Stored, lit, ◌⊕◌, ◌⊘◌, ◌≼◌}
use cubesat_fsw_gnc.Eigen.{Quaternion, Vector3}
use cubesat_fsw_gnc.Fdir.Health.{HealthStatus, status_code}
use cubesat_fsw_gnc.Core.DataStore.{
  DataStore, get, vector3_payload, quaternion_payload, status_payload,
}
use cubesat_fsw_gnc.Telemetry.Service.{Counts, encode_attitude, encode_orbit, encode_health}
use cubesat_fsw_gnc.Telemetry.GroundStation.{GroundStation, receive, process_telemetry, put_health}
use cubesat_fsw_gnc.Telemetry.Downlink.{
  receive-encode_attitude, receive-encode_orbit, receive-encode_health,
}
use cubesat_fsw_gnc.Telemetry.Manager.{
  TelemetryManager, gyro_name, Buffer, send_attitude, send_orbit, send_health, update,
  flush_packets,
}

module _ {D : Type 0} ⦃stored : Stored D⦄ where
  -- The station learns what the store has of one kind, if it has all of it.
  unfoldable pub learn_attitude :
      Option (Quaternion D) → Option (Vector3 D) → GroundStation D → GroundStation D
  learn_attitude (some q) (some rate) g = record g {
    last_attitude = record { q = q; omega = rate };
  }
  learn_attitude q rate g = g

  unfoldable pub learn_orbit :
      Option (Vector3 D) → Option (Vector3 D) → GroundStation D → GroundStation D
  learn_orbit (some pos) (some vel) g = record g {
    last_orbit = record { position = pos; velocity = vel };
  }
  learn_orbit pos vel g = g

  unfoldable pub learn_health : Option HealthStatus → GroundStation D → GroundStation D
  learn_health (some status) g = record g {
    health_map = put_health gyro_name (status_code status) g.health_map;
  }
  learn_health none g = g

  process_telemetry-snoc :
      (g : GroundStation D) (packets : List (List ℕ)) (p : List ℕ)
      → process_telemetry g (packets ++ p ∷ []) ≡ receive (process_telemetry g packets) p
  unfolding process_telemetry
  process_telemetry-snoc g [] p = refl
  process_telemetry-snoc g (x ∷ xs) p = process_telemetry-snoc (receive g x) xs p

  process_telemetry-send_attitude :
      (g : GroundStation D) (q : Option (Quaternion D)) (rate : Option (Vector3 D)) (b : Buffer)
      → process_telemetry g (send_attitude q rate b).1
        ≡ learn_attitude q rate (process_telemetry g b.1)
  unfolding send_attitude learn_attitude
  process_telemetry-send_attitude g (some q) (some rate) (counts, packets) =
      process_telemetry-snoc g packets (encode_attitude counts q rate).1
      ∙ receive-encode_attitude (process_telemetry g packets) counts q rate
  process_telemetry-send_attitude g none rate b = refl
  process_telemetry-send_attitude g (some q) none b = refl

  process_telemetry-send_orbit :
      (g : GroundStation D) (pos vel : Option (Vector3 D)) (b : Buffer)
      → process_telemetry g (send_orbit pos vel b).1 ≡ learn_orbit pos vel (process_telemetry g b.1)
  unfolding send_orbit learn_orbit
  process_telemetry-send_orbit g (some pos) (some vel) (counts, packets) =
      process_telemetry-snoc g packets (encode_orbit counts pos vel).1
      ∙ receive-encode_orbit (process_telemetry g packets) counts pos vel
  process_telemetry-send_orbit g none vel b = refl
  process_telemetry-send_orbit g (some pos) none b = refl

  process_telemetry-send_health :
      (g : GroundStation D) (status : Option HealthStatus) (b : Buffer)
      → process_telemetry g (send_health status b).1 ≡ learn_health status (process_telemetry g b.1)
  unfolding send_health learn_health
  process_telemetry-send_health g (some status) (counts, packets) =
      process_telemetry-snoc g packets (encode_health counts gyro_name status).1
      ∙ receive-encode_health (process_telemetry g packets) counts gyro_name status
  process_telemetry-send_health g none b = refl

-- A step that is taken only if a test holds.
abbrev pub when {ℓ} : {A : Type ℓ} → Bool → (A → A) → A → A
when b f a = if b then f a else a

module _ {D : Type 0} ⦃stored : Stored D⦄ where
  process_telemetry-when :
      (g : GroundStation D) (t : Bool) (f : Buffer → Buffer) (l : GroundStation D → GroundStation D)
      (b : Buffer)
      → ((c : Buffer) → process_telemetry g (f c).1 ≡ l (process_telemetry g c.1))
      → process_telemetry g (if t then f b else b).1 ≡ when t l (process_telemetry g b.1)
  process_telemetry-when g true f l b h = h b
  process_telemetry-when g false f l b h = refl

module _ {D W : Type 0} ⦃d : Double D⦄ ⦃stored : Stored D⦄ where
  -- A station that processes all packets flushed after a cycle has processed those buffered before,
  -- and then learns, of each kind that is due, what the data store holds, if it holds all of that
  -- kind; nothing else changes in it, given that the eight bytes of a double determine it.
  pub process_telemetry-update :
      (g : GroundStation D) (m : TelemetryManager D) (ds : DataStore D W) (counts : Counts) (dt : D)
      → process_telemetry g (flush_packets (update m ds counts dt).0).1
        ≡ when (lit 1 0 ⊘ lit 5 1 ≼ (m.health_timer ⊕ dt)) (learn_health (get ds "gyro_health")) (
            when
              (lit 1 0 ⊘ lit 1 0 ≼ (m.orbit_timer ⊕ dt))
              (learn_orbit (get ds "orbit_pos") (get ds "orbit_vel"))
              (when
                (lit 1 0 ⊘ lit 10 0 ≼ (m.attitude_timer ⊕ dt))
                (learn_attitude (get ds "attitude_estimate") (get ds "gyro_meas"))
                (process_telemetry g m.packet_buffer)))
  unfolding update flush_packets
  process_telemetry-update g m ds counts dt =
      let attitude_due = lit 1 0 ⊘ lit 10 0 ≼ (m.attitude_timer ⊕ dt) in
      let orbit_due = lit 1 0 ⊘ lit 1 0 ≼ (m.orbit_timer ⊕ dt) in
      let health_due = lit 1 0 ⊘ lit 5 1 ≼ (m.health_timer ⊕ dt) in
      let q = get {T = Quaternion D} ds "attitude_estimate" in
      let rate = get {T = Vector3 D} ds "gyro_meas" in
      let pos = get {T = Vector3 D} ds "orbit_pos" in
      let vel = get {T = Vector3 D} ds "orbit_vel" in
      let status = get {T = HealthStatus} ds "gyro_health" in
      let b0 : Buffer = (counts, m.packet_buffer) in
      let b1 = if attitude_due then send_attitude {D = D} q rate b0 else b0 in
      let b2 = if orbit_due then send_orbit {D = D} pos vel b1 else b1 in
      process_telemetry-when g health_due (send_health status) (learn_health status) b2
        (process_telemetry-send_health g status)
      ∙ ap (when health_due (learn_health status)) (
          process_telemetry-when g orbit_due (send_orbit pos vel) (learn_orbit pos vel) b1
            (process_telemetry-send_orbit g pos vel)
          ∙ ap (when orbit_due (learn_orbit pos vel)) (
              process_telemetry-when g attitude_due (send_attitude q rate) (learn_attitude q rate)
                b0 (process_telemetry-send_attitude g q rate)))
