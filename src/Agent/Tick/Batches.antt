-- ===== src/Agent/Tick/Batches.antt =====
-- Every batch that the agent ever hands to the reporter, and the latch, in any run.
use zensu_monitoring_agent.Prelude.{
  ◌≤◌, ◌<◌, ◌≡◌, refl, sym, subst, ap, ◌∙◌, Bool, Option, none, some, List, [], ◌∷◌, length, All,
  All-append, inl, inr, Bool-cases, Option-cases, arith,
}
use zensu_monitoring_agent.Prelude.Maps.{Map, get}
use zensu_monitoring_agent.Prelude.Sort.{Distinct}
use zensu_monitoring_agent.Agent.Index.{ServiceTarget}
use zensu_monitoring_agent.Agent.Exposition.{MetricSample}
use zensu_monitoring_agent.Agent.Workload.{ServiceHeartbeat}
use zensu_monitoring_agent.Agent.Source.{MetricSource}
use zensu_monitoring_agent.Metrics.{Metrics}
use zensu_monitoring_agent.Agent.Collect.{
  Config, attach, slugs_of, Gathered, Latch, max_warned_slug_pairs,
}
use zensu_monitoring_agent.Agent.Collect.Claims.{IsGathered, gather-IsGathered}
use zensu_monitoring_agent.Agent.Reporter.{HeartbeatBatch, Reporter, send}
use zensu_monitoring_agent.Agent.Tick.{
  Environment, Agent, Wake, gathered, collect_samples, second_phase, collect, report, after_collect,
  tick, run, new_agent,
}
use zensu_monitoring_agent.Agent.Tick.Keeps.{run-keeps}
use zensu_monitoring_agent.Agent.Tick.Samples.{strip-attach, slugs_of-strip}

-- The batch is not empty, names each slug once, and has the product and the source of the configuration.
pub record IsBatch {F : Type 0} (cfg : Config) (b : HeartbeatBatch F) : Type 0 where
  pub filled : 0 < length b.services
  pub distinct : Distinct (slugs_of b.services)
  pub product_lem : b.product_id ≡ cfg.product_id
  pub source_lem : b.source ≡ cfg.source

slugs-attach :
    {F : Type 0} (samples : Map (List (MetricSample F))) (es : List (ServiceHeartbeat F))
    → slugs_of (attach samples es) ≡ slugs_of es
slugs-attach samples es =
    sym (slugs_of-strip (attach samples es))
    ∙ ap slugs_of (strip-attach samples es)
    ∙ slugs_of-strip es

module _ {F : Type 0} (source : MetricSource F) (cfg : Config) where
  pub record IsSound (a : Agent source) : Type 0 where
    pub batches_lem : All (IsBatch cfg) a.batches
    pub bounded : length a.latch.warned ≤ max_warned_slug_pairs

  gathered-IsGathered :
      (env : Environment F) (latch : Latch)
      → length latch.warned ≤ max_warned_slug_pairs
      → IsGathered env.list_pods (gathered cfg env latch).0
  unfolding get
  gathered-IsGathered env latch h =
      gather-IsGathered env.list_pods env.list_deployments cfg cfg.namespaces _
        (tt, refl, λ k. refl, h)

  collect_samples-keeps :
      (done : Bool) (targets : List ServiceTarget) (a : Agent source)
      → ((collect_samples source cfg done targets a).0.batches ≡ a.batches)
        × ((collect_samples source cfg done targets a).0.latch ≡ a.latch)
  unfolding collect_samples
  collect_samples-keeps done [] a = (refl, refl)
  collect_samples-keeps done (t ∷ targets) a = (refl, refl)

  -- What `Collect` returns has distinct slugs, and the agent after it is sound.
  abbrev Collected : Agent source × Option (List (ServiceHeartbeat F)) → Type 0
  Collected (a, none) = IsSound a
  Collected (a, some services) = IsSound a × Distinct (slugs_of services)

  IsSound-latch :
      (a b : Agent source)
      → b.batches ≡ a.batches
      → length b.latch.warned ≤ max_warned_slug_pairs
      → IsSound a
      → IsSound b
  IsSound-latch a b e w h = record {
    batches_lem = subst (All (IsBatch cfg)) (sym e) h.batches_lem;
    bounded = w;
  }

  second_phase-IsSound :
      (env : Environment F) (g : Gathered F) (a : Agent source)
      → IsGathered env.list_pods g
      → IsSound (record a { latch = g.latch })
      → Collected (
        (second_phase source cfg env g (record a { latch = g.latch })).0,
        some (second_phase source cfg env g (record a { latch = g.latch })).1,
      )
  unfolding second_phase
  second_phase-IsSound env g a (distinct, same, claimed, bounded) h =
      let (batches, latch) =
        collect_samples-keeps env.done_at_read g.targets (record a { latch = g.latch }) in
      (
        IsSound-latch (record a { latch = g.latch }) _ batches
            (subst (λ (l : Latch). length l.warned ≤ max_warned_slug_pairs) (sym latch) bounded) h,
        subst Distinct (sym (slugs-attach _ g.out)) distinct,
      )

  collect-Collected :
      (env : Environment F) (a : Agent source) → IsSound a → Collected (collect source cfg env a)
  unfolding collect
  collect-Collected env a h =
      let g = (gathered cfg env a.latch).0 in
      let good = gathered-IsGathered env a.latch h.bounded in
      let (distinct, same, claimed, bounded) = good in
      let sound = IsSound-latch a (record a { latch = g.latch }) refl bounded h in
      elim (Bool-cases (gathered cfg env a.latch).1) [
        | inl e ↦ rw (collect, e) (second_phase-IsSound env g a good sound)
        | inr e ↦ rw (collect, e) sound
      ]

  module _ (reporter : Reporter) where
    report-IsSound :
        (env : Environment F) (services : List (ServiceHeartbeat F)) (a : Agent source)
        → IsSound a
        → Distinct (slugs_of services)
        → IsSound (report source cfg reporter env services a).0
    unfolding report
    report-IsSound env [] a h d = IsSound-latch a _ refl h.bounded h
    report-IsSound env (e ∷ services) a h d =
        let batch : HeartbeatBatch F = record {
          product_id = cfg.product_id;
          source = cfg.source;
          services = e ∷ services;
        } in
        let good : IsBatch cfg batch = record {
          filled = omega arith;
          distinct = d;
          product_lem = refl;
          source_lem = refl;
        } in
        let grown = All-append (IsBatch cfg) a.batches (batch ∷ []) h.batches_lem (good, tt) in
        elim (Option-cases
          (send env.marshal env.post env.duration env.now reporter batch a.metrics).1) [
            | inl ok ↦ rw (report, ok) (record { batches_lem = grown; bounded = h.bounded })
            | inr (failure, ko) ↦
                rw (report, ko) (record { batches_lem = grown; bounded = h.bounded })
          ]

    after_collect-IsSound :
        (env : Environment F) (x : Agent source × Option (List (ServiceHeartbeat F)))
        → Collected x
        → IsSound (after_collect source cfg reporter env x).0
    unfolding after_collect
    after_collect-IsSound env (a, none) h = h
    after_collect-IsSound env (a, some services) (h, d) = report-IsSound env services a h d

    tick-IsSound :
        (env : Environment F) (a : Agent source)
        → IsSound a
        → IsSound (tick source cfg reporter env a).0
    unfolding tick
    tick-IsSound env a h =
        after_collect-IsSound env (collect source cfg env a) (collect-Collected env a h)

    -- In every run of a new agent, in one shot or in the loop, whatever the cluster lists, the source
    -- answers and the HTTP client does in each of its ticks: every batch that was handed to the reporter has
    -- a service, names each slug once and has the configured product and source, and the latch of the
    -- duplicate-slug warning holds at most 1024 pairs.
    pub run-IsSound :
        (once : Bool) (first : Environment F) (wakes : List (Wake F)) (state : source.State)
        (metrics : Option Metrics)
        → IsSound (run source cfg reporter once first wakes (new_agent source state metrics)).0
    unfolding new_agent
    run-IsSound once first wakes state metrics =
        run-keeps source cfg reporter IsSound tick-IsSound
          (λ a log h. IsSound-latch a _ refl h.bounded h) once first wakes
          (new_agent source state metrics) (record { batches_lem = tt; bounded = omega arith })
