-- ===== src/Agent/Counts.antt =====
-- What `Collect` of internal/agent/agent.go counts of the samples that it attaches, and shows in the metrics.
use zensu_monitoring_agent.Prelude.{ℕ, ◌+◌, Option, none, some, List, [], ◌∷◌, Str, codes}
use zensu_monitoring_agent.Prelude.Maps.{Map, get, put}
use zensu_monitoring_agent.Prelude.Int.{pos}
use zensu_monitoring_agent.Scrape.Resolve.{cpu, memory}
use zensu_monitoring_agent.Metrics.{
  Metrics, set_resource_services_mapped, set_resource_samples, set_resource_source,
}
use zensu_monitoring_agent.Agent.Exposition.{MetricSample, metric_key_for}
use zensu_monitoring_agent.Agent.Workload.{ServiceHeartbeat}
use zensu_monitoring_agent.Agent.Source.{}
use zensu_monitoring_agent.Agent.Reporter.{}

-- The numbers that `Collect` counts: the services with samples, and the samples of each key.
pub record Counts : Type 0 where
  pub mapped : ℕ
  pub per_role : Map ℕ

abbrev pub or_zero : Option ℕ → ℕ
or_zero none = 0
or_zero (some n) = n

abbrev pub no_counts : Counts
no_counts = record { mapped = 0; per_role = [] }

module _ {F : Type 0} where
  -- `perRole[m.Key]++`, for each sample
  unfoldable pub count_samples : List (MetricSample F) → Map ℕ → Map ℕ
  count_samples [] per_role = per_role
  count_samples (m ∷ ms) per_role =
      count_samples ms (put m.key (or_zero (get m.key per_role) + 1) per_role)

  unfoldable pub count_service : Option (List (MetricSample F)) → Counts → Counts
  count_service none c = c
  count_service (some []) c = c
  count_service (some (m ∷ ms)) c = record {
    mapped = c.mapped + 1;
    per_role = count_samples (m ∷ ms) c.per_role;
  }

  unfoldable pub count_services :
      Map (List (MetricSample F)) → List (ServiceHeartbeat F) → Counts → Counts
  count_services samples [] c = c
  count_services samples (e ∷ es) c =
      count_services samples es (count_service (get e.slug samples) c)

-- The four calls of the metrics at the end of `Collect`.
unfoldable pub record_counts : Counts → Str → Option Metrics → Option Metrics
record_counts c name m = set_resource_source name (
    set_resource_samples (codes "memory") (pos (or_zero (get (metric_key_for memory) c.per_role))) (
      set_resource_samples (codes "cpu") (pos (or_zero (get (metric_key_for cpu) c.per_role)))
        (set_resource_services_mapped (pos c.mapped) m)))
