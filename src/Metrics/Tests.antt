-- ===== src/Metrics/Tests.antt =====
-- Runs of the metrics, and their theorems at a concrete history.
use zensu_monitoring_agent.Prelude.{◌≡◌, refl, true, false, none, some, List, [], ◌∷◌, codes, eqb}
use zensu_monitoring_agent.Prelude.Maps.{get, put}
use zensu_monitoring_agent.Prelude.Int.{pos}
use zensu_monitoring_agent.Metrics.{
  Metrics, with_label, with_labels, new_metrics, inc, record_heartbeat, set_services_reported,
  record_scrape, set_resource_services_mapped, set_resource_samples, canonical, set_sources,
  set_resource_source, set_roles_withheld, serve, cancelled,
}
use zensu_monitoring_agent.Metrics.Calls.{Call, heartbeat, scrape, source, withheld, apply, run}
use zensu_monitoring_agent.Metrics.History.{IsHistory, run-IsHistory}

registry : Unit {0}
unfolding get put eqb with_label with_labels new_metrics inc record_heartbeat set_services_reported
    record_scrape set_resource_services_mapped set_resource_samples canonical set_sources
    set_resource_source set_roles_withheld serve apply run
registry = tt

-- The last call first.
abbrev calls : List Call
calls =
    source (codes "auto")
    ∷ heartbeat false (pos 3) 8
    ∷ withheld (codes "cpu") (pos 2)
    ∷ heartbeat true (pos 5) 7
    ∷ scrape true (pos 4)
    ∷ []

-- `auto` is no source of the list, so it is recorded as unknown.
source_run :
    get
      (codes "unknown")
      (set_sources (canonical (codes "auto")) (codes "none" ∷ codes "unknown" ∷ []) [])
    ≡ some (pos 1)
unfolding registry
source_run = refl

nil_run : (run calls none ≡ none) × (serve none (cancelled []) ≡ none)
unfolding registry
nil_run = (refl, refl)

run-IsHistory_example : (m : Metrics) × (run calls (some new_metrics) ≡ some m) × IsHistory calls m
run-IsHistory_example = run-IsHistory calls
