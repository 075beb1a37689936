-- ===== src/Fdir/Manager/Summary.antt =====
-- The aggregate health of src/fsw/fdir/FDIRManager.cpp.
use cubesat_fsw_gnc.Prelude.{ℕ, ◌+◌, ◌≤◌, ◌≡◌, refl, [], ◌∷◌, arith, if◌then◌else◌, ltb, length}
use cubesat_fsw_gnc.Fdir.Health.{HealthStatus, healthy, degraded, failed}
use cubesat_fsw_gnc.Fdir.Manager.{
  FdirManager, Monitors, HealthSummary, count_status, worst_status, summarise, get_system_health,
  get_health_summary,
}

abbrev total : HealthSummary → ℕ
total c = c.healthy_count + c.degraded_count + c.failed_count

-- The worst status that a summary counts.
abbrev pub verdict : HealthSummary → HealthStatus
verdict c =
    if ltb 0 c.failed_count then failed else (if ltb 0 c.degraded_count then degraded else healthy)

module _ {D : Type 0} where
  total-summarise :
      (c : HealthSummary) (ms : Monitors D) → total (summarise c ms) ≡ total c + length ms
  unfolding summarise
  total-summarise c [] = omega arith
  total-summarise c ((name, s) ∷ ms) =
      ground (arith, total-summarise (count_status s.current_status c) ms)

  failed-summarise :
      (c : HealthSummary) (ms : Monitors D) → c.failed_count ≤ (summarise c ms).failed_count
  unfolding summarise
  failed-summarise c [] = omega arith
  failed-summarise c ((name, s) ∷ ms) =
      ground (arith, failed-summarise (count_status s.current_status c) ms)

  worst_status-verdict :
      (c : HealthSummary) (ms : Monitors D)
      → c.failed_count ≡ 0
      → worst_status (verdict c) ms ≡ verdict (summarise c ms)
  unfolding summarise worst_status
  worst_status-verdict c [] h = refl
  worst_status-verdict c ((name, s) ∷ ms) h = ground (
    arith,
    worst_status-verdict (count_status s.current_status c) ms,
    failed-summarise (count_status s.current_status c) ms,
  )

  -- The summary counts every monitor once, and the system health is the worst status that it
  -- counts: FAILED if any sensor failed, or else DEGRADED if any is degraded, or else HEALTHY.
  pub get_system_health_lem :
      (f : FdirManager D)
      → let c = get_health_summary f in
        (c.healthy_count + c.degraded_count + c.failed_count ≡ length f.vector_monitors)
        × (get_system_health f ≡ verdict c)
  unfolding get_health_summary get_system_health
  get_system_health_lem f =
      let none_yet : HealthSummary = record {
        healthy_count = 0;
        degraded_count = 0;
        failed_count = 0;
      } in
      (
        omega (arith, total-summarise none_yet f.vector_monitors),
        worst_status-verdict none_yet f.vector_monitors refl,
      )
