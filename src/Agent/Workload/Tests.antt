-- ===== src/Agent/Workload/Tests.antt =====
-- Runs of the mapping of workloads, and its theorems at concrete values.
use zensu_monitoring_agent.Prelude.{◌≡◌, refl, List, [], ◌∷◌, codes, eqb, arith}
use zensu_monitoring_agent.Prelude.Maps.{get}
use zensu_monitoring_agent.Prelude.Int.{pos, negsuc, ◌+ℤ◌, wrap, residue}
use zensu_monitoring_agent.Agent.Workload.{
  derive_status, Pod, add_all, sum_from, sum_restarts, pod_names, pod_metrics_for_selector,
  sum_pod_metrics, sum_pods, sum_containers, listed, usage,
}
use zensu_monitoring_agent.Agent.Workload.Restarts.{sum_pod_counts, sum_restarts_lem}

workload : Unit {0}
unfolding get eqb ◌+ℤ◌ wrap residue derive_status add_all sum_from sum_restarts pod_names
    pod_metrics_for_selector sum_pod_metrics sum_pods sum_containers
workload = tt

abbrev pods : List Pod
pods =
    record { name = codes "a"; restart_counts = pos 2 ∷ pos 3 ∷ [] }
    ∷ record { name = codes "b"; restart_counts = pos 4 ∷ [] }
    ∷ []

-- The sum of the counts wraps around at 2^31.
sum_run :
    (sum_restarts pods ≡ pos 9)
    × (sum_restarts (record { name = []; restart_counts = pos 2147483647 ∷ pos 1 ∷ [] } ∷ [])
        ≡ negsuc 2147483647)
unfolding workload
sum_run = (refl, refl)

reading_run :
    pod_metrics_for_selector
      (listed ((record { cpu_milli = pos 250; memory_bytes = pos 10 } ∷ []) ∷ [] ∷ []))
    ≡ usage (pos 250) (pos 10)
unfolding workload
reading_run = refl

sum_restarts_lem_example : sum_restarts pods ≡ pos (sum_pod_counts pods)
sum_restarts_lem_example =
    sum_restarts_lem pods ((refl, (refl, tt)), ((refl, tt), tt)) (omega arith)
