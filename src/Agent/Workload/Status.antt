-- ===== src/Agent/Workload/Status.antt =====
-- The status of a workload.
use zensu_monitoring_agent.Prelude.{◌+◌, ◌<◌, ◌≡◌, ◌↔◌, ◌⊎◌, arith}
use zensu_monitoring_agent.Prelude.Int.{ℤ, pos, negsuc, ◌≤ℤ◌, pos_part, neg_part}
use zensu_monitoring_agent.Agent.Workload.{derive_status, status_up, status_degraded, status_down}

-- A workload is up exactly when it wants a replica at least and as many are ready as it wants, degraded
-- exactly when some are ready but fewer than it wants, and down exactly when it wants none or none is
-- ready; negative counts are as zero.
pub derive_status_iff :
    (ready desired : ℤ)
    → ((derive_status ready desired ≡ status_up) ↔ ((pos 1 ≤ℤ desired) × (desired ≤ℤ ready)))
      × ((derive_status ready desired ≡ status_degraded) ↔ (
          (pos 1 ≤ℤ ready)
          × (neg_part desired + pos_part ready < pos_part desired + neg_part ready)))
      × ((derive_status ready desired ≡ status_down) ↔ ((desired ≤ℤ pos 0) ⊎ (ready ≤ℤ pos 0)))
unfolding derive_status
derive_status_iff (pos a) (pos b) = ground arith
derive_status_iff (pos a) (negsuc b) = ground arith
derive_status_iff (negsuc a) (pos b) = ground arith
derive_status_iff (negsuc a) (negsuc b) = ground arith
