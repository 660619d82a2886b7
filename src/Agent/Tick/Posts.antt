-- ===== src/Agent/Tick/Posts.antt =====
-- All that an agent hands to its reporter while it runs, from what the cluster lists at each tick.
use zensu_monitoring_agent.Prelude.{
  ◌≡◌, refl, sym, ap, ◌∙◌, Bool, false, not, ◌&&◌, Option, none, some, is_some, List, [], ◌∷◌, ◌++◌,
  append-nil, append_assoc, Str, map, inl, inr, Bool-cases, Option-cases,
}
use zensu_monitoring_agent.Prelude.Int.{pos, leb_ℤ}
use zensu_monitoring_agent.Metrics.{Metrics}
use zensu_monitoring_agent.Agent.Index.{ServiceTarget}
use zensu_monitoring_agent.Agent.Workload.{ServiceHeartbeat}
use zensu_monitoring_agent.Agent.Source.{MetricSource}
use zensu_monitoring_agent.Agent.Collect.{Config}
use zensu_monitoring_agent.Agent.Collect.Listed.{all_listed}
use zensu_monitoring_agent.Agent.Collect.First.{first_reported}
use zensu_monitoring_agent.Agent.Reporter.{HeartbeatBatch, Reporter, send}
use zensu_monitoring_agent.Agent.Tick.{
  Environment, Agent, new_agent, Wake, ticker, context_done, gathered, collect_samples,
  second_phase, collect, report, after_collect, tick, tick_once, run,
}
use zensu_monitoring_agent.Agent.Tick.Samples.{strip, strip_all, strip-attach}
use zensu_monitoring_agent.Agent.Tick.Loop.{ticked, run_stops}
use zensu_monitoring_agent.Agent.Tick.Outcome.{batch_of}
use zensu_monitoring_agent.Agent.Tick.Reported.{with_samples, asked, collect-first}

-- A batch without the metrics of its services.
abbrev pub strip_batch : {F : Type 0} → HeartbeatBatch F → HeartbeatBatch F
strip_batch b = record b { services = map strip b.services }

-- The batch of what a tick collected, if that is no error and there is a service.
abbrev pub batches_of :
    {F : Type 0} → Config → Option (List (ServiceHeartbeat F)) → List (HeartbeatBatch F)
batches_of cfg none = []
batches_of cfg (some []) = []
batches_of cfg (some (e ∷ services)) = batch_of cfg (e ∷ services) ∷ []

strip-batches_of :
    {F : Type 0} (cfg : Config) (o : Option (List (ServiceHeartbeat F)))
    → map strip_batch (batches_of cfg o) ≡ batches_of cfg (strip_all o)
strip-batches_of cfg none = refl
strip-batches_of cfg (some []) = refl
strip-batches_of cfg (some (e ∷ services)) = refl

map-append : {A B : Type 0} (f : A → B) (xs ys : List A) → map f (xs ++ ys) ≡ map f xs ++ map f ys
map-append f [] ys = refl
map-append f (x ∷ xs) ys = ap (λ zs. f x ∷ zs) (map-append f xs ys)

strip-with_samples :
    {F : Type 0} (o : Option (List (ServiceHeartbeat F))) (source : MetricSource F) (cfg : Config)
    (env : Environment F) (a : Agent source)
    → strip_all (with_samples (asked source cfg env a) o) ≡ strip_all o
strip-with_samples none source cfg env a = refl
strip-with_samples (some es) source cfg env a = ap some (strip-attach (asked source cfg env a) es)

module _ {F : Type 0} (source : MetricSource F) (cfg : Config) (reporter : Reporter) where
  collect_samples-batches :
      (done : Bool) (targets : List ServiceTarget) (a : Agent source)
      → (collect_samples source cfg done targets a).0.batches ≡ a.batches
  unfolding collect_samples
  collect_samples-batches done [] a = refl
  collect_samples-batches done (t ∷ targets) a = refl

  collect-batches :
      (env : Environment F) (a : Agent source) → (collect source cfg env a).0.batches ≡ a.batches
  unfolding collect second_phase
  collect-batches env a = elim (Bool-cases (gathered cfg env a.latch).1) [
    | inr failed ↦ rw (collect, failed) refl
    | inl listed ↦
        let g = (gathered cfg env a.latch).0 in
        rw (collect, listed)
          (collect_samples-batches env.done_at_read g.targets (record a { latch = g.latch }))
  ]

  after_collect-batches :
      (env : Environment F) (x : Agent source × Option (List (ServiceHeartbeat F)))
      → (after_collect source cfg reporter env x).0.batches ≡ x.0.batches ++ batches_of cfg x.1
  unfolding after_collect report
  after_collect-batches env (a, none) = sym (append-nil a.batches)
  after_collect-batches env (a, some []) = sym (append-nil a.batches)
  after_collect-batches env (a, some (e ∷ services)) =
      elim (Option-cases
        (send env.marshal env.post env.duration env.now reporter (batch_of cfg (e ∷ services))
          a.metrics).1) [
            | inl ok ↦ rw (after_collect, report, ok) refl
            | inr (failure, ko) ↦ rw (after_collect, report, ko) refl
          ]

  tick_once-batches :
      (env : Environment F) (a : Agent source)
      → (tick_once source cfg reporter env a).batches
        ≡ a.batches ++ batches_of cfg (collect source cfg env a).1
  unfolding tick_once tick
  tick_once-batches env a =
      let all =
        after_collect-batches env (collect source cfg env a)
        ∙ ap (λ bs. bs ++ batches_of cfg (collect source cfg env a).1) (collect-batches env a) in
      elim (Bool-cases (is_some (tick source cfg reporter env a).1 && not env.done_at_end)) [
        | inl e ↦ rw (tick_once, e) all
        | inr e ↦ rw (tick_once, e) all
      ]

  -- What a tick posts, but for the samples, whatever the agent and its source did before.
  abbrev pub posted : Environment F → List (HeartbeatBatch F)
  posted env = batches_of cfg (
      strip_all (first_reported env.list_pods cfg (all_listed env.list_deployments cfg.namespaces)))

  abbrev pub all_posted : List (Environment F) → List (HeartbeatBatch F)
  all_posted [] = []
  all_posted (env ∷ envs) = posted env ++ all_posted envs

  tick_once-posted :
      (env : Environment F) (a : Agent source)
      → map strip_batch (tick_once source cfg reporter env a).batches
        ≡ map strip_batch a.batches ++ posted env
  tick_once-posted env a =
      ap (map strip_batch) (tick_once-batches env a)
      ∙ map-append strip_batch a.batches _
      ∙ ap (λ bs. map strip_batch a.batches ++ bs)
          (strip-batches_of cfg (collect source cfg env a).1
            ∙ ap (λ o. batches_of cfg (strip_all o)) (collect-first source cfg env a)
            ∙ ap (batches_of cfg) (
                strip-with_samples
                  (first_reported env.list_pods cfg
                    (all_listed env.list_deployments cfg.namespaces))
                  source cfg env a))

  ticked-posted :
      (envs : List (Environment F)) (a : Agent source)
      → map strip_batch (ticked source cfg reporter envs a).batches
        ≡ map strip_batch a.batches ++ all_posted envs
  ticked-posted [] a = sym (append-nil _)
  ticked-posted (env ∷ envs) a =
      ticked-posted envs (tick_once source cfg reporter env a)
      ∙ ap (λ bs. bs ++ all_posted envs) (tick_once-posted env a)
      ∙ append_assoc (map strip_batch a.batches) (posted env) (all_posted envs)

  -- A new agent whose interval is positive and that runs in the loop until its context is done has
  -- handed to its reporter, but for the samples, exactly one batch for each tick at which every
  -- namespace was listed and some annotated Deployment was found, in the order of the ticks: the
  -- services of the first annotated Deployment of each slug at that tick. Neither the source nor what
  -- became of earlier batches makes a difference, nor what would wake it later.
  pub run-posted :
      (state : source.State) (metrics : Option Metrics) (first : Environment F)
      (envs : List (Environment F)) (e : Str) (rest : List (Wake F))
      → leb_ℤ cfg.interval (pos 0) ≡ false
      → map strip_batch
          (run source cfg reporter false first
            (map ticker envs ++ context_done e ∷ rest)
            (new_agent source state metrics)).0.batches
        ≡ all_posted (first ∷ envs)
  unfolding new_agent
  run-posted state metrics first envs e rest good =
      ap (λ x. map strip_batch x.0.batches)
        (run_stops source cfg reporter first envs e rest (new_agent source state metrics) good)
      ∙ ticked-posted (first ∷ envs) (new_agent source state metrics)
