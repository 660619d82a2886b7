-- ===== src/Agent/Tick/Warnings.antt =====
-- What an agent has written of duplicate slugs when it has run.
use zensu_monitoring_agent.Prelude.{
  ◌≡◌, refl, Bool, Option, List, [], ◌∷◌, inl, inr, Bool-cases, Option-cases, arith,
}
use zensu_monitoring_agent.Metrics.{Metrics}
use zensu_monitoring_agent.Agent.Index.{ServiceTarget}
use zensu_monitoring_agent.Agent.Workload.{ServiceHeartbeat}
use zensu_monitoring_agent.Agent.Source.{MetricSource}
use zensu_monitoring_agent.Agent.Collect.{Config}
use zensu_monitoring_agent.Agent.Collect.Warned.{
  gather-keeps, IsOnce, warn_duplicate_slug-IsOnce, list_pods_failed-IsOnce,
}
use zensu_monitoring_agent.Agent.Reporter.{HeartbeatBatch, Reporter, send}
use zensu_monitoring_agent.Agent.Tick.{
  Environment, Agent, new_agent, Wake, gathered, collect_samples, second_phase, collect, report,
  run,
}
use zensu_monitoring_agent.Agent.Tick.Keeps.{tick-keeps, run-keeps}

module _ {F : Type 0} (source : MetricSource F) (cfg : Config) where
  abbrev Once : Agent source → Type 0
  Once a = IsOnce a.latch

  collect_samples-latch :
      (done : Bool) (targets : List ServiceTarget) (a : Agent source)
      → (collect_samples source cfg done targets a).0.latch ≡ a.latch
  unfolding collect_samples
  collect_samples-latch done [] a = refl
  collect_samples-latch done (t ∷ targets) a = refl

  collect-Once :
      (env : Environment F) (a : Agent source) → Once a → Once (collect source cfg env a).0
  unfolding collect second_phase
  collect-Once env a h =
      let kept =
        gather-keeps IsOnce warn_duplicate_slug-IsOnce list_pods_failed-IsOnce env.list_pods cfg
          env.list_deployments cfg.namespaces _ h in
      elim (Bool-cases (gathered cfg env a.latch).1) [
        | inr failed ↦ rw (collect, failed) kept
        | inl listed ↦
            let g = (gathered cfg env a.latch).0 in
            rw (collect, listed)
              (rw (collect_samples-latch env.done_at_read g.targets (record a { latch = g.latch }))
                kept)
      ]

  module _ (reporter : Reporter) where
    report-Once :
        (env : Environment F) (services : List (ServiceHeartbeat F)) (a : Agent source)
        → Once a
        → Once (report source cfg reporter env services a).0
    unfolding report
    report-Once env [] a h = h
    report-Once env (e ∷ services) a h =
        let batch : HeartbeatBatch F = record {
          product_id = cfg.product_id;
          source = cfg.source;
          services = e ∷ services;
        } in
        elim (Option-cases
          (send env.marshal env.post env.duration env.now reporter batch a.metrics).1) [
            | inl ok ↦ rw (report, ok) h
            | inr (failure, ko) ↦ rw (report, ko) h
          ]

    -- In every run of a new agent, whatever the cluster lists and whatever is done with it: the log names a
    -- pair of a slug and a workload that it shadows at most once over all ticks, names at most 1024 pairs, and
    -- says at most once that there are more of them; the latch holds exactly the pairs that were named.
    pub run-IsOnce :
        (state : source.State) (metrics : Option Metrics) (once : Bool) (first : Environment F)
        (wakes : List (Wake F))
        → IsOnce (run source cfg reporter once first wakes (new_agent source state metrics)).0.latch
    unfolding new_agent
    run-IsOnce state metrics once first wakes =
        run-keeps source cfg reporter Once
          (tick-keeps source cfg reporter Once collect-Once report-Once) (λ a log h. h) once first
          wakes (new_agent source state metrics) (refl, tt, omega arith, refl)
