-- ===== src/Agent/Build/Posted.antt =====
-- The samples in the batches that an agent with a built source hands to its reporter.
use zensu_monitoring_agent.Prelude.{
  ◌≡◌, refl, sym, subst, Bool, true, Option, none, some, List, [], ◌∷◌, All, All-append, inl, inr,
  Bool-cases, Option-cases,
}
use zensu_monitoring_agent.Prelude.Maps.{Map, get}
use zensu_monitoring_agent.Prelude.Int.{ℤ}
use zensu_monitoring_agent.Prelude.Float.{Float64, Clock, is_finite}
use zensu_monitoring_agent.Metrics.{Metrics}
use zensu_monitoring_agent.Agent.Index.{ServiceTarget}
use zensu_monitoring_agent.Agent.Exposition.{MetricSample, ExpositionConfig}
use zensu_monitoring_agent.Agent.Workload.{ServiceHeartbeat}
use zensu_monitoring_agent.Agent.Source.{Answer, served, refused, MetricSource, Built}
use zensu_monitoring_agent.Agent.Collect.{Config, attach_one, attach}
use zensu_monitoring_agent.Agent.Reporter.{HeartbeatBatch, Reporter, send}
use zensu_monitoring_agent.Agent.Tick.{
  Environment, Agent, new_agent, Wake, gathered, collect_samples, samples_of_answer, second_phase,
  collect, report, after_collect, tick, run,
}
use zensu_monitoring_agent.Agent.Tick.Plain.{IsPlain, gather-IsPlain}
use zensu_monitoring_agent.Agent.Tick.Keeps.{run-keeps}
use zensu_monitoring_agent.Agent.Build.{World, source_of, state_of}
use zensu_monitoring_agent.Agent.Build.Samples.{
  AreDistinct, AreSamples, AreSamples-empty, IsAnswer, IsFiniteSource,
}
use zensu_monitoring_agent.Agent.Build.Finite.{source_of-IsFiniteSource}

module _ (fl : Float64) where
  open fl use {F}

  abbrev HasSamples : ServiceHeartbeat F → Type 0
  HasSamples e = AreDistinct fl e.metrics

  -- Each sample of each service of the batch is finite and has one of the two keys, and no two samples of a
  -- service have the same key.
  abbrev pub IsFiniteBatch : HeartbeatBatch F → Type 0
  IsFiniteBatch b = All HasSamples b.services

  attach_one-HasSamples :
      (samples : Map (List (MetricSample F))) (e : ServiceHeartbeat F)
      → AreSamples fl samples
      → IsPlain e
      → HasSamples (attach_one samples e)
  unfolding attach_one
  attach_one-HasSamples samples e all plain = elim (Option-cases (get e.slug samples)) [
    | inl h ↦ rw (attach_one, h) (rw plain (tt, tt))
    | inr (ms, h) ↦ rw (attach_one, h, plain) (all e.slug ms h)
  ]

  attach-HasSamples :
      (samples : Map (List (MetricSample F))) (es : List (ServiceHeartbeat F))
      → AreSamples fl samples
      → All IsPlain es
      → All HasSamples (attach samples es)
  unfolding attach
  attach-HasSamples samples [] all plain = tt
  attach-HasSamples samples (e ∷ es) all plain =
      (attach_one-HasSamples samples e all plain.0, attach-HasSamples samples es all plain.1)

  module _ (source : MetricSource F) (finite : IsFiniteSource fl source) (cfg : Config) where
    abbrev Posted : Agent source → Type 0
    Posted a = All IsFiniteBatch a.batches

    answer-AreSamples : (a : Answer F) → IsAnswer fl a → AreSamples fl (samples_of_answer a)
    answer-AreSamples (served out) h = h
    answer-AreSamples (refused e) h = AreSamples-empty fl

    collect_samples-AreSamples :
        (done : Bool) (targets : List ServiceTarget) (a : Agent source)
        → AreSamples fl (collect_samples source cfg done targets a).1
    unfolding collect_samples
    collect_samples-AreSamples done [] a = AreSamples-empty fl
    collect_samples-AreSamples done (t ∷ targets) a =
        answer-AreSamples _ (finite (t ∷ targets) a.source_state)

    collect_samples-batches :
        (done : Bool) (targets : List ServiceTarget) (a : Agent source)
        → (collect_samples source cfg done targets a).0.batches ≡ a.batches
    unfolding collect_samples
    collect_samples-batches done [] a = refl
    collect_samples-batches done (t ∷ targets) a = refl

    -- What `Collect` leaves and returns.
    abbrev Collected : Agent source × Option (List (ServiceHeartbeat F)) → Type 0
    Collected (a, none) = Posted a
    Collected (a, some services) = Posted a × All HasSamples services

    collect-Collected :
        (env : Environment F) (a : Agent source) → Posted a → Collected (collect source cfg env a)
    unfolding collect second_phase
    collect-Collected env a h = elim (Bool-cases (gathered cfg env a.latch).1) [
      | inr failed ↦ rw (collect, failed) h
      | inl listed ↦
          let g = (gathered cfg env a.latch).0 in
          let b = record a { latch = g.latch } in
          let plain = gather-IsPlain env.list_pods cfg env.list_deployments cfg.namespaces _ tt in
          rw (collect, listed)
            (
              subst (All IsFiniteBatch) (sym (collect_samples-batches env.done_at_read g.targets b))
                  h,
              attach-HasSamples _ g.out (collect_samples-AreSamples env.done_at_read g.targets b)
                  plain,
            )
    ]

    module _ (reporter : Reporter) where
      report-Posted :
          (env : Environment F) (services : List (ServiceHeartbeat F)) (a : Agent source)
          → Posted a
          → All HasSamples services
          → Posted (report source cfg reporter env services a).0
      unfolding report
      report-Posted env [] a h good = h
      report-Posted env (e ∷ services) a h good =
          let batch : HeartbeatBatch F = record {
            product_id = cfg.product_id;
            source = cfg.source;
            services = e ∷ services;
          } in
          let grown = All-append IsFiniteBatch a.batches (batch ∷ []) h (good, tt) in
          elim (Option-cases
            (send env.marshal env.post env.duration env.now reporter batch a.metrics).1) [
              | inl ok ↦ rw (report, ok) grown
              | inr (failure, ko) ↦ rw (report, ko) grown
            ]

      after_collect-Posted :
          (env : Environment F) (x : Agent source × Option (List (ServiceHeartbeat F)))
          → Collected x
          → Posted (after_collect source cfg reporter env x).0
      unfolding after_collect
      after_collect-Posted env (a, none) h = h
      after_collect-Posted env (a, some services) (h, good) = report-Posted env services a h good

      tick-Posted :
          (env : Environment F) (a : Agent source)
          → Posted a
          → Posted (tick source cfg reporter env a).0
      unfolding tick
      tick-Posted env a h =
          after_collect-Posted env (collect source cfg env a) (collect-Collected env a h)

-- In every run of a new agent, whichever source `NewMetricSource` built and whatever the cluster, the
-- exposition, the clock and the HTTP client do: each sample in each batch that was handed to the reporter is
-- neither infinite nor not a number, and has one of the two keys that the backend knows, and no two samples
-- of a service in a batch have the same key. It is assumed that a conversion of an integer to float64 is
-- finite.
pub run-IsFiniteBatch :
    {fl : Float64} (ck : Clock fl) (w : World ck)
    → ((n : ℤ) → is_finite fl (fl.of_int n) ≡ true)
    → (exposition : ExpositionConfig) (b : Built) (cfg : Config) (reporter : Reporter)
      (metrics : Option Metrics) (once : Bool) (first : Environment fl.F) (wakes : List (Wake fl.F))
    → All
        (IsFiniteBatch fl)
        (run
          (source_of ck w b)
          cfg
          reporter
          once
          first
          wakes
          (new_agent (source_of ck w b) (state_of ck w exposition b) metrics)).0.batches
unfolding new_agent
run-IsFiniteBatch {fl} ck w whole exposition b cfg reporter metrics once first wakes =
    let source = source_of ck w b in
    let finite = source_of-IsFiniteSource ck w whole b in
    run-keeps source cfg reporter (λ a. All (IsFiniteBatch fl) a.batches)
      (tick-Posted fl source finite cfg reporter) (λ a log h. h) once first wakes
      (new_agent source (state_of ck w exposition b) metrics) tt
