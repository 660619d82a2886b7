-- ===== src/Agent/Tick/Gauges.antt =====
-- What the gauges of the agent show after `Collect`: the samples in the services that it returns.
use zensu_monitoring_agent.Prelude.{
  ◌≡◌, refl, sym, ap, ◌∙◌, Option, some, List, Str, codes, eqb, All, inl, inr, Bool-cases, arith,
}
use zensu_monitoring_agent.Prelude.Maps.{Map, get, put, get-put}
use zensu_monitoring_agent.Prelude.Int.{ℤ, pos}
use zensu_monitoring_agent.Scrape.Resolve.{cpu, memory}
use zensu_monitoring_agent.Agent.Exposition.{MetricSample, metric_key_for}
use zensu_monitoring_agent.Agent.Workload.{ServiceHeartbeat}
use zensu_monitoring_agent.Agent.Source.{MetricSource}
use zensu_monitoring_agent.Metrics.{
  Metrics, set_resource_services_mapped, set_resource_samples, set_resource_source,
}
use zensu_monitoring_agent.Agent.Collect.{Config, Gathered, attach}
use zensu_monitoring_agent.Agent.Counts.{Counts, no_counts, or_zero, count_services, record_counts}
use zensu_monitoring_agent.Agent.Tick.{
  Environment, Agent, gathered, collect_samples, second_phase, collect,
}
use zensu_monitoring_agent.Agent.Tick.Plain.{IsPlain, gather-IsPlain}
use zensu_monitoring_agent.Agent.Tick.Counting.{all_with, with_metrics, count_services_lem}
use zensu_monitoring_agent.Agent.Tick.Loop.{collect_samples-metrics}

-- The gauges of the metrics agree with the services.
pub record Shows {F : Type 0} (services : List (ServiceHeartbeat F)) (m : Metrics) : Type 0 where
  pub mapped_lem : m.resource_services_mapped ≡ pos (with_metrics services)
  pub cpu_lem :
      get (codes "cpu") m.resource_samples ≡ some (pos (all_with (metric_key_for cpu) services))
  pub memory_lem :
      get (codes "memory") m.resource_samples
      ≡ some (pos (all_with (metric_key_for memory) services))

-- The gauges show the counts.
abbrev IsShown : Counts → Option Metrics → Type 0
IsShown c m =
    (m' : Metrics) × (m ≡ some m')
    × (m'.resource_services_mapped ≡ pos c.mapped)
    × (get (codes "cpu") m'.resource_samples
        ≡ some (pos (or_zero (get (metric_key_for cpu) c.per_role))))
    × (get (codes "memory") m'.resource_samples
        ≡ some (pos (or_zero (get (metric_key_for memory) c.per_role))))

record_counts-IsShown :
    (c : Counts) (name : Str) (m : Metrics) → IsShown c (record_counts c name (some m))
unfolding record_counts set_resource_services_mapped set_resource_samples set_resource_source eqb
record_counts-IsShown c name m =
    let y : ℤ = pos (or_zero (get (metric_key_for cpu) c.per_role)) in
    let x : ℤ = pos (or_zero (get (metric_key_for memory) c.per_role)) in
    (
      _,
      refl,
      refl,
      get-put (codes "memory") (codes "cpu") x (put (codes "cpu") y m.resource_samples)
          ∙ get-put (codes "cpu") (codes "cpu") y m.resource_samples,
      get-put (codes "memory") (codes "memory") x (put (codes "cpu") y m.resource_samples),
    )

-- The counts of the services, from none.
counted :
    {F : Type 0} (k : Str) (samples : Map (List (MetricSample F))) (es : List (ServiceHeartbeat F))
    → All IsPlain es
    → ((count_services samples es no_counts).mapped ≡ with_metrics (attach samples es))
      × (or_zero (get k (count_services samples es no_counts).per_role)
          ≡ all_with k (attach samples es))
unfolding get
counted k samples es plain =
    let (mapped, keyed) = count_services_lem k samples es no_counts plain in
    (omega (arith, mapped), omega (arith, keyed))

module _ {F : Type 0} (source : MetricSource F) (cfg : Config) where
  second_phase-Shows :
      (env : Environment F) (g : Gathered F) (a : Agent source) (m : Metrics)
      → All IsPlain g.out
      → a.metrics ≡ some m
      → (m' : Metrics) × ((second_phase source cfg env g a).0.metrics ≡ some m')
        × Shows (second_phase source cfg env g a).1 m'
  unfolding second_phase
  second_phase-Shows env g a m plain there =
      let (a', samples) = collect_samples source cfg env.done_at_read g.targets a in
      let c = count_services samples g.out no_counts in
      let (mapped, cpus) = counted (metric_key_for cpu) samples g.out plain in
      let memories = (counted (metric_key_for memory) samples g.out plain).1 in
      let kept = collect_samples-metrics source cfg env.done_at_read g.targets a ∙ there in
      let (m', is, shown, cpu_shown, memory_shown) =
        record_counts-IsShown c (source.name a'.source_state) m in
      (
        m',
        ap (record_counts c (source.name a'.source_state)) kept ∙ is,
        record {
          mapped_lem = shown ∙ ap pos mapped;
          cpu_lem = cpu_shown ∙ ap (λ x. some (pos x)) cpus;
          memory_lem = memory_shown ∙ ap (λ x. some (pos x)) memories;
        },
      )

  -- If `Collect` succeeds and the agent has metrics, then the gauge of the mapped services is the number of
  -- the services it returns that have samples, and the gauge of each role is the number of samples of that
  -- role's key in all of them.
  pub collect-Shows :
      (env : Environment F) (a : Agent source) (m : Metrics) (services : List (ServiceHeartbeat F))
      → a.metrics ≡ some m
      → (collect source cfg env a).1 ≡ some services
      → (m' : Metrics) × ((collect source cfg env a).0.metrics ≡ some m') × Shows services m'
  unfolding collect
  collect-Shows env a m services there h = elim (Bool-cases (gathered cfg env a.latch).1) [
    | inr failed ↦ absurd (ground (arith, rw (collect, failed) at h))
    | inl listed ↦
        let g = (gathered cfg env a.latch).0 in
        let plain = gather-IsPlain env.list_pods cfg env.list_deployments cfg.namespaces _ tt in
        let (m', is, shows) =
          second_phase-Shows env g (record a { latch = g.latch }) m plain there in
        let same : (second_phase source cfg env g (record a { latch = g.latch })).1 ≡ services =
          cc (rw (collect, listed) at h) in
        rw (collect, listed) (m', is, rw (sym same) shows)
  ]
