-- ===== src/Agent/Build/Names.antt =====
-- The names of the sources that are built, and what the agent's metrics show of them.
use zensu_monitoring_agent.Prelude.{
  ℕ, ◌≡◌, ◌⊎◌, refl, sym, subst, Bool, true, false, Option, some, is_some, List, [], ◌∷◌, Str, eqb,
  not, inl, inr, Bool-cases, Option-cases,
}
use zensu_monitoring_agent.Prelude.Maps.{get, put, get-put}
use zensu_monitoring_agent.Prelude.Int.{ℤ, pos}
use zensu_monitoring_agent.Prelude.Float.{Float64, Clock}
use zensu_monitoring_agent.Metrics.{
  Metrics, source_unknown, with_label, with_labels, new_metrics, canonical, set_sources,
  set_resource_source, record_heartbeat, set_services_reported, set_resource_services_mapped,
  set_resource_samples,
}
use zensu_monitoring_agent.Agent.Exposition.{ExpositionConfig}
use zensu_monitoring_agent.Agent.Workload.{ServiceHeartbeat}
use zensu_monitoring_agent.Agent.Source.{
  source_metrics_server, source_exposition, source_none, MetricSource, none_source, AutoSource,
  auto_name, Built, built_none, built_metrics_server, built_exposition, built_auto, no_scrape_url,
  bad_scrape_url, unknown_mode,
}
use zensu_monitoring_agent.Agent.Collect.{Config}
use zensu_monitoring_agent.Agent.Reporter.{HeartbeatBatch, Reporter, attempt, send}
use zensu_monitoring_agent.Agent.Counts.{Counts, record_counts}
use zensu_monitoring_agent.Agent.Tick.{
  Environment, Agent, new_agent, Wake, gathered, second_phase, collect, report, run,
}
use zensu_monitoring_agent.Agent.Tick.Loop.{collect_samples-metrics}
use zensu_monitoring_agent.Agent.Tick.Keeps.{tick-keeps, run-keeps}
use zensu_monitoring_agent.Agent.Build.{
  World, metrics_server_source, exposition_source, auto_source, source_of, state_of,
}

-- One of the three names that a source can report.
abbrev pub IsKnownName : Str → Type 0
IsKnownName s = (s ≡ source_metrics_server) ⊎ ((s ≡ source_exposition) ⊎ (s ≡ source_none))

module _ {fl : Float64} (ck : Clock fl) (w : World ck) where
  auto-IsKnownName :
      (s : AutoSource (metrics_server_source ck w) (exposition_source ck w))
      → IsKnownName (auto_name (metrics_server_source ck w) (exposition_source ck w) s)
  unfolding auto_name metrics_server_source exposition_source
  auto-IsKnownName s = elim (Bool-cases s.switched) [
    | inl e ↦ rw (auto_name, e) (inr (inl refl))
    | inr e ↦ rw (auto_name, e) (inl refl)
  ]

  source_of-IsKnownName :
      (b : Built) (s : (source_of ck w b).State) → IsKnownName ((source_of ck w b).name s)
  unfolding source_of none_source metrics_server_source exposition_source auto_source
  source_of-IsKnownName built_none s = inr (inr refl)
  source_of-IsKnownName built_metrics_server s = inl refl
  source_of-IsKnownName built_exposition s = inr (inl refl)
  source_of-IsKnownName built_auto (s, n) = auto-IsKnownName s
  source_of-IsKnownName no_scrape_url s = inr (inr refl)
  source_of-IsKnownName (bad_scrape_url e) s = inr (inr refl)
  source_of-IsKnownName (unknown_mode mode) s = inr (inr refl)

-- Metrics that are there, and do not show the source as unknown.
abbrev pub ShowsNoUnknown : Option Metrics → Type 0
ShowsNoUnknown m =
    (m' : Metrics) × (m ≡ some m') × (get source_unknown m'.resource_source ≡ some (pos 0))

set_resource_source-Shows :
    (name : Str) (m : Metrics)
    → IsKnownName name
    → ShowsNoUnknown (set_resource_source name (some m))
unfolding set_resource_source set_sources canonical eqb
set_resource_source-Shows name m (inl e) = rw e (_, refl, get-put source_unknown source_unknown _ _)
set_resource_source-Shows name m (inr (inl e)) =
    rw e (_, refl, get-put source_unknown source_unknown _ _)
set_resource_source-Shows name m (inr (inr e)) =
    rw e (_, refl, get-put source_unknown source_unknown _ _)

record_counts-Shows :
    (c : Counts) (name : Str) (m : Option Metrics)
    → IsKnownName name
    → ShowsNoUnknown m
    → ShowsNoUnknown (record_counts c name m)
unfolding record_counts set_resource_services_mapped set_resource_samples
record_counts-Shows c name m known (m', e, h) = rw e (set_resource_source-Shows name _ known)

set_services_reported-Shows :
    (n : ℤ) (m : Option Metrics) → ShowsNoUnknown m → ShowsNoUnknown (set_services_reported n m)
unfolding set_services_reported
set_services_reported-Shows n m (m', e, h) = rw e (_, refl, h)

record_heartbeat-Shows :
    (b : Bool) (d : ℤ) (now : ℕ) (m : Option Metrics)
    → ShowsNoUnknown m
    → ShowsNoUnknown (record_heartbeat b d now m)
unfolding record_heartbeat
record_heartbeat-Shows true d now m (m', e, h) = rw e (_, refl, h)
record_heartbeat-Shows false d now m (m', e, h) = rw e (_, refl, h)

module _ {F : Type 0} (source : MetricSource F) (cfg : Config) (reporter : Reporter)
    (known : (s : source.State) → IsKnownName (source.name s)) where
  collect-Shows :
      (env : Environment F) (a : Agent source)
      → ShowsNoUnknown a.metrics
      → ShowsNoUnknown (collect source cfg env a).0.metrics
  unfolding collect second_phase
  collect-Shows env a h = elim (Bool-cases (gathered cfg env a.latch).1) [
    | inr failed ↦ rw (collect, failed) h
    | inl listed ↦
        let g = (gathered cfg env a.latch).0 in
        let kept =
          collect_samples-metrics source cfg env.done_at_read g.targets
            (record a { latch = g.latch }) in
        rw (collect, listed)
          (record_counts-Shows _ _ _ (known _) (subst ShowsNoUnknown (sym kept) h))
  ]

  report-Shows :
      (env : Environment F) (services : List (ServiceHeartbeat F)) (a : Agent source)
      → ShowsNoUnknown a.metrics
      → ShowsNoUnknown (report source cfg reporter env services a).0.metrics
  unfolding report send
  report-Shows env [] a h = set_services_reported-Shows (pos 0) a.metrics h
  report-Shows env (e ∷ services) a h =
      let batch : HeartbeatBatch F = record {
        product_id = cfg.product_id;
        source = cfg.source;
        services = e ∷ services;
      } in
      let sent =
        record_heartbeat-Shows (not (is_some (attempt env.marshal env.post reporter batch)))
          env.duration env.now a.metrics h in
      elim (Option-cases (attempt env.marshal env.post reporter batch)) [
        | inr (failure, ko) ↦ rw (report, send, ko) sent
        | inl ok ↦ rw (report, send, ok) (set_services_reported-Shows _ _ sent)
      ]

new_metrics-Shows : ShowsNoUnknown (some new_metrics)
unfolding new_metrics get eqb with_labels with_label put
new_metrics-Shows = (_, refl, refl)

-- In every run of a new agent with metrics, whichever source `NewMetricSource` built and whatever the
-- cluster, the exposition, the clock and the HTTP client do: the series of the source gauge that stands for an
-- unknown source is there and 0.
pub run-ShowsNoUnknown :
    {fl : Float64} (ck : Clock fl) (w : World ck) (exposition : ExpositionConfig) (b : Built)
    (cfg : Config) (reporter : Reporter) (once : Bool) (first : Environment fl.F)
    (wakes : List (Wake fl.F))
    → ShowsNoUnknown
        (run
          (source_of ck w b)
          cfg
          reporter
          once
          first
          wakes
          (new_agent (source_of ck w b) (state_of ck w exposition b) (some new_metrics))).0.metrics
unfolding new_agent
run-ShowsNoUnknown ck w exposition b cfg reporter once first wakes =
    let source = source_of ck w b in
    let known = source_of-IsKnownName ck w b in
    run-keeps source cfg reporter (λ a. ShowsNoUnknown a.metrics)
      (tick-keeps source cfg reporter (λ a. ShowsNoUnknown a.metrics)
        (collect-Shows source cfg reporter known) (report-Shows source cfg reporter known))
      (λ a log h. h) once first wakes
      (new_agent source (state_of ck w exposition b) (some new_metrics)) new_metrics-Shows
