-- ===== src/Telemetry/Downlink.antt =====
-- Telemetry of the flight software (src/fsw/telemetry/TelemetryService.cpp) through the decoder of
-- the ground station (src/sim/GroundStation.cpp).
use mathlib.Core.List.{append-nil}
use cubesat_fsw_gnc.Prelude.{
  ℕ, zero, suc, ◌+◌, ◌≡◌, refl, ap, ◌∙◌, List, [], ◌∷◌, arith, min, length, length-take, take, drop,
  replicate,
}
use cubesat_fsw_gnc.Double.{Stored}
use cubesat_fsw_gnc.Eigen.{Quaternion, Vector3}
use cubesat_fsw_gnc.Fdir.Health.{HealthStatus, status_code}
use cubesat_fsw_gnc.Telemetry.Bytes.{octets, memory, append_double-wire, of_bytes-octets}
use cubesat_fsw_gnc.Telemetry.Service.{Counts, encode_attitude, encode_orbit, encode_health}
use cubesat_fsw_gnc.Telemetry.GroundStation.{GroundStation, receive, put_health}

module _ {D : Type 0} ⦃s : Stored D⦄ where
  abbrev sent : D → D
  sent value = s.of_bytes (memory (octets value))

  abbrev sent_vector : Vector3 D → Vector3 D
  sent_vector v = record { x = sent v.x; y = sent v.y; z = sent v.z }

  sent_vector_lem : (v : Vector3 D) → sent_vector v ≡ v
  sent_vector_lem v = λ i. record {
    x = of_bytes-octets v.x i;
    y = of_bytes-octets v.y i;
    z = of_bytes-octets v.z i;
  }

  -- A station that receives an attitude packet holds the attitude and the rate that were sent, and
  -- the rest of its state is as before, given that the eight bytes of a double determine it.
  pub receive-encode_attitude :
      (g : GroundStation D) (counts : Counts) (q : Quaternion D) (omega : Vector3 D)
      → receive g (encode_attitude counts q omega).1
        ≡ record g { last_attitude = record { q = q; omega = omega } }
  unfolding receive encode_attitude
  receive-encode_attitude g counts q omega =
      rw
        (
          append_double-wire _ q.w,
          append_double-wire _ q.x,
          append_double-wire _ q.y,
          append_double-wire _ q.z,
          append_double-wire _ omega.x,
          append_double-wire _ omega.y,
          append_double-wire _ omega.z,
        )
        (λ i. record g {
          last_attitude = record {
            q = record {
              w = of_bytes-octets q.w i;
              x = of_bytes-octets q.x i;
              y = of_bytes-octets q.y i;
              z = of_bytes-octets q.z i;
            };
            omega = sent_vector_lem omega i;
          };
        })

  -- A station that receives an orbit packet holds the position and the velocity that were sent, and
  -- the rest of its state is as before, given that the eight bytes of a double determine it.
  pub receive-encode_orbit :
      (g : GroundStation D) (counts : Counts) (pos vel : Vector3 D)
      → receive g (encode_orbit counts pos vel).1
        ≡ record g { last_orbit = record { position = pos; velocity = vel } }
  unfolding receive encode_orbit
  receive-encode_orbit g counts pos vel =
      rw
        (
          append_double-wire _ pos.x,
          append_double-wire _ pos.y,
          append_double-wire _ pos.z,
          append_double-wire _ vel.x,
          append_double-wire _ vel.y,
          append_double-wire _ vel.z,
        )
        (λ i. record g {
          last_orbit = record {
            position = sent_vector_lem pos i;
            velocity = sent_vector_lem vel i;
          };
        })

take-all : {A : Type 0} (n : ℕ) (xs : List A) → length xs ≡ n → take n xs ≡ xs
take-all zero [] h = refl
take-all (suc n) [] h = refl
take-all zero (x ∷ xs) h = absurd (omega arith)
take-all (suc n) (x ∷ xs) h = ap (◌∷◌ x) (take-all n xs (omega arith))

drop-replicate : (n : ℕ) → drop n (replicate {A = ℕ} n 0) ≡ []
drop-replicate zero = refl
drop-replicate (suc n) = drop-replicate n

take-min : {A : Type 0} (n k : ℕ) (xs : List A) → min (length xs) k ≡ n → take n xs ≡ take k xs
take-min zero zero xs e = refl
take-min zero (suc k) [] e = refl
take-min zero (suc k) (x ∷ xs) e = absurd (omega arith)
take-min (suc n) zero xs e = absurd (omega arith)
take-min (suc n) (suc k) [] e = refl
take-min (suc n) (suc k) (x ∷ xs) e = ap (◌∷◌ x) (take-min n k xs (omega arith))

module _ {D : Type 0} ⦃s : Stored D⦄ where
  receive-encode_health_at :
      (g : GroundStation D) (counts : Counts) (name : List ℕ) (status : HealthStatus) (n : ℕ)
      → min (length name) 255 ≡ n
      → length (take n name) ≡ n
      → receive g (encode_health counts name status).1
        ≡ record g { health_map = put_health (take n name) (status_code status) g.health_map }
  unfolding receive encode_health
  receive-encode_health_at g counts name status n e l =
      let grown : 6 + (2 + n) ≡ suc (suc (suc (suc (suc (suc (suc (suc n))))))) = omega arith in
      let behind : 8 + length (take n name) ≡ suc (suc (suc (suc (suc (suc (suc (suc n))))))) =
        omega arith in
      rw (e, grown, behind, drop-replicate, append-nil) (ground (arith, take-all n (take n name) l))

  -- A station that receives a health packet enters the status under the first 255 bytes of the
  -- sensor's name, and the rest of its state is as before.
  pub receive-encode_health :
      (g : GroundStation D) (counts : Counts) (name : List ℕ) (status : HealthStatus)
      → receive g (encode_health counts name status).1
        ≡ record g { health_map = put_health (take 255 name) (status_code status) g.health_map }
  receive-encode_health g counts name status =
      receive-encode_health_at g counts name status (min (length name) 255) refl
        (omega (arith, length-take (min (length name) 255) name))
      ∙ ap (λ n. record g { health_map = put_health n (status_code status) g.health_map })
          (take-min (min (length name) 255) 255 name refl)
