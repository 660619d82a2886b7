-- ===== src/Agent/Tick/Reported.antt =====
-- What `Collect` of internal/agent/agent.go returns, from what the cluster lists.
use zensu_monitoring_agent.Prelude.{
  ◌≡◌, refl, ap, Option, none, some, List, [], inl, inr, Bool-cases,
}
use zensu_monitoring_agent.Prelude.Maps.{Map}
use zensu_monitoring_agent.Agent.Exposition.{MetricSample}
use zensu_monitoring_agent.Agent.Workload.{ServiceHeartbeat}
use zensu_monitoring_agent.Agent.Source.{MetricSource}
use zensu_monitoring_agent.Agent.Collect.{Config, attach}
use zensu_monitoring_agent.Agent.Collect.Listed.{all_listed}
use zensu_monitoring_agent.Agent.Collect.First.{first_reported, gather-first}
use zensu_monitoring_agent.Agent.Tick.{
  Environment, Agent, gathered, collect_samples, second_phase, collect,
}

-- The services with what a source answered for their targets, an error being no samples.
abbrev pub with_samples :
    {F : Type 0}
    → Map (List (MetricSample F))
    → Option (List (ServiceHeartbeat F))
    → Option (List (ServiceHeartbeat F))
with_samples samples none = none
with_samples samples (some es) = some (attach samples es)

module _ {F : Type 0} (source : MetricSource F) (cfg : Config) (env : Environment F)
    (a : Agent source) where
  -- What the source is asked for, and the map that it gives.
  abbrev pub asked : Map (List (MetricSample F))
  asked =
      let g = (gathered cfg env a.latch).0 in
      (collect_samples source cfg env.done_at_read g.targets (record a { latch = g.latch })).1

  -- `Collect` returns an error exactly if the listing of a namespace fails, and else one service for each
  -- annotated Deployment that is the first with its slug in the order of the namespaces and of their lists,
  -- in that order, with the status, replicas and restarts of that Deployment, and with the samples that the
  -- source gave for its slug.
  pub collect-first :
      (collect source cfg env a).1
      ≡ with_samples asked
          (first_reported env.list_pods cfg (all_listed env.list_deployments cfg.namespaces))
  unfolding collect second_phase
  collect-first =
      let first =
        gather-first {F = F} env.list_pods cfg env.list_deployments cfg.namespaces
          (record { claimed = []; out = []; targets = []; latch = a.latch }) refl refl in
      elim (Bool-cases (gathered cfg env a.latch).1) [
        | inl listed ↦ rw (collect, listed) (ap (with_samples asked) (rw listed at first))
        | inr failed ↦ rw (collect, failed) (ap (with_samples asked) (rw failed at first))
      ]
