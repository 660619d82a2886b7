-- ===== src/Agent/Tick/Loop.antt =====
-- When `Run` ends, and what a successful tick leaves in the agent's metrics.
use zensu_monitoring_agent.Prelude.{
  ℕ, ◌≡◌, ◌≢◌, refl, ◌∙◌, Bool, true, false, not, Option, none, some, is_some, List, [], ◌∷◌, ◌++◌,
  Str, length, map, inl, inr, Bool-cases, Option-cases, arith,
}
use zensu_monitoring_agent.Prelude.Int.{ℤ, pos, leb_ℤ}
use zensu_monitoring_agent.Agent.Index.{ServiceTarget}
use zensu_monitoring_agent.Agent.Workload.{ServiceHeartbeat}
use zensu_monitoring_agent.Agent.Source.{MetricSource}
use zensu_monitoring_agent.Metrics.{
  Metrics, record_heartbeat, set_services_reported, set_resource_services_mapped,
  set_resource_samples, set_resource_source,
}
use zensu_monitoring_agent.Agent.Collect.{Config}
use zensu_monitoring_agent.Agent.Reporter.{HeartbeatBatch, Reporter, attempt, send}
use zensu_monitoring_agent.Agent.Counts.{Counts, record_counts}
use zensu_monitoring_agent.Agent.Tick.{
  Environment, Agent, Wake, ticker, context_done, stopped, looping, bad_interval, gathered,
  collect_samples, second_phase, collect, report, after_collect, tick, tick_once, run_loop, run,
}

module _ {F : Type 0} (source : MetricSource F) (cfg : Config) where
  pub collect_samples-metrics :
      (done : Bool) (targets : List ServiceTarget) (a : Agent source)
      → (collect_samples source cfg done targets a).0.metrics ≡ a.metrics
  unfolding collect_samples
  collect_samples-metrics done [] a = refl
  collect_samples-metrics done (t ∷ targets) a = refl

module _ {F : Type 0} (source : MetricSource F) (cfg : Config) (reporter : Reporter) where
  -- The ticks of these environments, in order.
  abbrev pub ticked : List (Environment F) → Agent source → Agent source
  ticked [] a = a
  ticked (env ∷ envs) a = ticked envs (tick_once source cfg reporter env a)

  run_loop-done :
      (envs : List (Environment F)) (e : Str) (rest : List (Wake F)) (a : Agent source)
      → run_loop source cfg reporter (map ticker envs ++ context_done e ∷ rest) a
        ≡ (ticked envs a, some e)
  unfolding run_loop
  run_loop-done [] e rest a = refl
  run_loop-done (env ∷ envs) e rest a =
      run_loop-done envs e rest (tick_once source cfg reporter env a)

  -- With a positive interval and not in one shot, `Run` ticks once at the start and once for each time that
  -- the ticker fires before the context is done, whether a tick fails or not; when the context is done it
  -- returns the context's error, and ticks no more.
  pub run_stops :
      (first : Environment F) (envs : List (Environment F)) (e : Str) (rest : List (Wake F))
      (a : Agent source)
      → leb_ℤ cfg.interval (pos 0) ≡ false
      → run source cfg reporter false first (map ticker envs ++ context_done e ∷ rest) a
        ≡ (ticked (first ∷ envs) a, stopped e)
  unfolding run
  run_stops first envs e rest a h =
      rw (run, h, run_loop-done envs e rest (tick_once source cfg reporter first a)) refl

  run_loop-waits :
      (envs : List (Environment F)) (a : Agent source)
      → run_loop source cfg reporter (map ticker envs) a ≡ (ticked envs a, none)
  unfolding run_loop
  run_loop-waits [] a = refl
  run_loop-waits (env ∷ envs) a = run_loop-waits envs (tick_once source cfg reporter env a)

  -- Until the context is done it has not returned.
  pub run_waits :
      (first : Environment F) (envs : List (Environment F)) (a : Agent source)
      → leb_ℤ cfg.interval (pos 0) ≡ false
      → run source cfg reporter false first (map ticker envs) a ≡ (ticked (first ∷ envs) a, looping)
  unfolding run
  run_waits first envs a h =
      rw (run, h, run_loop-waits envs (tick_once source cfg reporter first a)) refl

  -- With a positive interval `Run` does not refuse it.
  pub run-interval :
      (once : Bool) (first : Environment F) (wakes : List (Wake F)) (a : Agent source)
      → leb_ℤ cfg.interval (pos 0) ≡ false
      → (run source cfg reporter once first wakes a).1 ≢ bad_interval
  unfolding run
  run-interval true first wakes a h = λ e. absurd (ground (arith, e))
  run-interval false first wakes a h =
      elim (Option-cases
        (run_loop source cfg reporter wakes (tick_once source cfg reporter first a)).1) [
          | inl k ↦ λ e. absurd (ground (arith, rw (run, h, k) at e))
          | inr (x, k) ↦ λ e. absurd (ground (arith, rw (run, h, k) at e))
        ]

  -- Metrics that are there, and report so many services.
  abbrev pub Reports : ℕ → Option Metrics → Type 0
  Reports n m = (m' : Metrics) × (m ≡ some m') × (m'.services_reported ≡ pos n)

  abbrev IsThere : Option Metrics → Type 0
  IsThere m = (m' : Metrics) × (m ≡ some m')

  set_services_reported-Reports :
      (n : ℕ) (m : Option Metrics) → IsThere m → Reports n (set_services_reported (pos n) m)
  unfolding set_services_reported
  set_services_reported-Reports n m (m', e) = rw e (_, refl, refl)

  record_heartbeat-IsThere :
      (b : Bool) (d : ℤ) (now : ℕ) (m : Option Metrics)
      → IsThere m
      → IsThere (record_heartbeat b d now m)
  unfolding record_heartbeat
  record_heartbeat-IsThere true d now m (m', e) = rw e (_, refl)
  record_heartbeat-IsThere false d now m (m', e) = rw e (_, refl)

  record_counts-IsThere :
      (c : Counts) (name : Str) (m : Option Metrics) → IsThere m → IsThere (record_counts c name m)
  unfolding record_counts set_resource_services_mapped set_resource_samples set_resource_source
  record_counts-IsThere c name m (m', e) = rw e (_, refl)

  collect-IsThere :
      (env : Environment F) (a : Agent source)
      → IsThere a.metrics
      → IsThere (collect source cfg env a).0.metrics
  unfolding collect second_phase
  collect-IsThere env a (m, e) = elim (Bool-cases (gathered cfg env a.latch).1) [
    | inr failed ↦ rw (collect, failed) (m, e)
    | inl listed ↦
        let g = (gathered cfg env a.latch).0 in
        rw (collect, listed)
          (record_counts-IsThere _ _ _ (
            m,
            collect_samples-metrics source cfg env.done_at_read g.targets
                  (record a { latch = g.latch })
                ∙ e,
          ))
  ]

  report-Reports :
      (env : Environment F) (services : List (ServiceHeartbeat F)) (a : Agent source)
      → IsThere a.metrics
      → (report source cfg reporter env services a).1 ≡ none
      → Reports (length services) (report source cfg reporter env services a).0.metrics
  unfolding report send
  report-Reports env [] a there h = set_services_reported-Reports 0 a.metrics there
  report-Reports env (e ∷ services) a there h =
      let batch : HeartbeatBatch F = record {
        product_id = cfg.product_id;
        source = cfg.source;
        services = e ∷ services;
      } in
      elim (Option-cases (attempt env.marshal env.post reporter batch)) [
        | inr (failure, ko) ↦ absurd (ground (arith, rw (report, send, ko) at h))
        | inl ok ↦
            rw (report, send, ok)
              (set_services_reported-Reports _ _ (
                record_heartbeat-IsThere
                  (not (is_some (attempt env.marshal env.post reporter batch))) env.duration env.now
                  a.metrics there))
      ]

  after_collect-Reports :
      (env : Environment F) (x : Agent source × Option (List (ServiceHeartbeat F)))
      → IsThere x.0.metrics
      → (after_collect source cfg reporter env x).1 ≡ none
      → (services : List (ServiceHeartbeat F)) × (x.1 ≡ some services)
        × Reports (length services) (after_collect source cfg reporter env x).0.metrics
  unfolding after_collect
  after_collect-Reports env (a, none) there h = absurd (ground (arith, h))
  after_collect-Reports env (a, some services) there h =
      (services, refl, report-Reports env services a there h)

  -- If a tick returns nil and the agent has metrics, then `Collect` succeeded, and the gauge of the services
  -- reported is set to the number of services that it returned, also when that is zero and nothing is
  -- posted.
  pub tick-Reports :
      (env : Environment F) (a : Agent source)
      → IsThere a.metrics
      → (tick source cfg reporter env a).1 ≡ none
      → (services : List (ServiceHeartbeat F)) × ((collect source cfg env a).1 ≡ some services)
        × Reports (length services) (tick source cfg reporter env a).0.metrics
  unfolding tick
  tick-Reports env a there h =
      after_collect-Reports env (collect source cfg env a) (collect-IsThere env a there) h
