-- ===== src/Agent/Tick.antt =====
-- internal/agent/agent.go: `Agent`, the second phase of `Collect`, `Tick` and `Run`. The metric source is any
-- one; what the cluster lists, what the HTTP client answers and whether the context is done are the
-- environment of each tick. The series of the agent's metrics that a source itself sets are not those set
-- here.
pub mod Samples
pub mod Batches
pub mod Loop
pub mod Outcome
pub mod Warnings
pub mod Reported
pub mod Posts
pub mod Plain
pub mod Keeps
pub mod Counting
pub mod Gauges
mod Tests
use zensu_monitoring_agent.Prelude.{
  ℕ, suc, ◌+◌, ◌≡◌, Bool, true, false, not, ◌&&◌, ◌||◌, Option, none, some, List, [], ◌∷◌, ◌++◌,
  Str, codes, if◌then◌else◌, length, is_some,
}
use zensu_monitoring_agent.Prelude.Maps.{Map, get, put}
use zensu_monitoring_agent.Prelude.Int.{ℤ, pos, leb_ℤ}
use zensu_monitoring_agent.Scrape.Resolve.{cpu, memory}
use zensu_monitoring_agent.Scrape.Decode.{Exchange}
use zensu_monitoring_agent.Metrics.{
  Metrics, set_services_reported, set_resource_services_mapped, set_resource_samples,
  set_resource_source,
}
use zensu_monitoring_agent.Agent.Index.{ServiceTarget}
use zensu_monitoring_agent.Agent.Exposition.{MetricSample, metric_key_for}
use zensu_monitoring_agent.Agent.Workload.{ServiceHeartbeat, Deployment, Pod}
use zensu_monitoring_agent.Agent.Source.{
  SourceError, is_unavailable, Answer, served, refused, MetricSource,
}
use zensu_monitoring_agent.Agent.Collect.{Latch, Listing, Config, Gathered, gather, attach}
use zensu_monitoring_agent.Agent.Reporter.{
  HeartbeatBatch, Reporter, Request, SendError, Marshalled, send,
}
use zensu_monitoring_agent.Agent.Counts.{
  Counts, or_zero, no_counts, count_samples, count_service, count_services, record_counts,
}

pub data TickEvent : Type 0 where
  source_failed : SourceError → TickEvent
  no_workloads : TickEvent
  heartbeat_sent : ℕ → TickEvent
  tick_failed : TickEvent

-- An error of `Tick`: that of a listing, or that of the reporter.
pub data TickError : Type 0 where
  list_failed : TickError
  send_failed : SendError → TickError

-- What the cluster answers, what `json.Marshal` and the HTTP client do, how long the post takes, what the
-- clock reads, and whether the context is done when the source has answered and when the tick has ended.
pub record Environment (F : Type 0) : Type 0 where
  pub list_deployments : Str → Listing (List Deployment)
  pub list_pods : Str → Str → Listing (List Pod)
  pub marshal : HeartbeatBatch F → Marshalled
  pub post : Request → Exchange
  pub duration : ℤ
  pub now : ℕ
  pub done_at_read : Bool
  pub done_at_end : Bool

-- `batches` are those handed to the reporter so far.
pub record Agent {F : Type 0} (source : MetricSource F) : Type 0 where
  pub latch : Latch
  pub source_state : source.State
  pub metrics : Option Metrics
  pub batches : List (HeartbeatBatch F)
  pub log : List TickEvent

-- `New`: a nil source is `noneSource`, which the caller passes.
unfoldable pub new_agent :
    {F : Type 0} (source : MetricSource F) → source.State → Option Metrics → Agent source
new_agent source state metrics = record {
  latch = record { warned = []; overflow = false; log = [] };
  source_state = state;
  metrics = metrics;
  batches = [];
  log = [];
}

-- The samples of an answer; a refusal gives none.
abbrev pub samples_of_answer : {F : Type 0} → Answer F → Map (List (MetricSample F))
samples_of_answer (served out) = out
samples_of_answer (refused e) = []

abbrev pub note_answer : {F : Type 0} → Bool → Answer F → List TickEvent → List TickEvent
note_answer done (served out) log = log
note_answer done (refused e) log =
    if not (is_unavailable e) && not done then log ++ source_failed e ∷ [] else log

abbrev pub gathered : {F : Type 0} → Config → Environment F → Latch → Gathered F × Bool
gathered cfg env latch =
    gather env.list_pods env.list_deployments cfg cfg.namespaces
      (record { claimed = []; out = []; targets = []; latch = latch })

-- What wakes the loop: the ticker, with the environment of its tick, or the context and its error.
pub data Wake (F : Type 0) : Type 0 where
  ticker : Environment F → Wake F
  context_done : Str → Wake F

-- How `Run` stands: it returned what `Tick` did, it refused the interval, it waits, or it returned the
-- context's error.
pub data RunResult : Type 0 where
  ran_once : Option TickError → RunResult
  bad_interval : RunResult
  looping : RunResult
  stopped : Str → RunResult

abbrev pub loop_result : Option Str → RunResult
loop_result none = looping
loop_result (some e) = stopped e

module _ {F : Type 0} (source : MetricSource F) (cfg : Config) where
  unfoldable pub collect_samples :
      Bool → List ServiceTarget → Agent source → Agent source × Map (List (MetricSample F))
  collect_samples done [] a = (a, [])
  collect_samples done (t ∷ targets) a =
      let (state, answer) = source.samples (t ∷ targets) a.source_state in
      (
        record a { source_state = state; log = note_answer done answer a.log },
        samples_of_answer answer,
      )

  -- What follows the first phase.
  unfoldable pub second_phase :
      Environment F → Gathered F → Agent source → Agent source × List (ServiceHeartbeat F)
  second_phase env g a =
      let (a', samples) = collect_samples env.done_at_read g.targets a in
      let counts = count_services samples g.out no_counts in
      (
        record a' { metrics = record_counts counts (source.name a'.source_state) a'.metrics },
        attach samples g.out,
      )

  -- `Collect`; `none` is the error of a listing.
  unfoldable pub collect :
      Environment F → Agent source → Agent source × Option (List (ServiceHeartbeat F))
  collect env a =
      let (g, listed) = gathered cfg env a.latch in
      let (a', services) = second_phase env g (record a { latch = g.latch }) in
      if listed then (a', some services) else (record a { latch = g.latch }, none)

  module _ (reporter : Reporter) where
    -- What `Tick` does with the services; `none` is a nil error.
    unfoldable pub report :
        Environment F → List (ServiceHeartbeat F) → Agent source → Agent source × Option TickError
    report env [] a = (
      record a {
        metrics = set_services_reported (pos 0) a.metrics;
        log = a.log ++ no_workloads ∷ [];
      },
      none,
    )
    report env (e ∷ services) a =
        let batch : HeartbeatBatch F = record {
          product_id = cfg.product_id;
          source = cfg.source;
          services = e ∷ services;
        } in
        let (metrics, err) =
          send env.marshal env.post env.duration env.now reporter batch a.metrics in
        let sent = record a { metrics = metrics; batches = a.batches ++ batch ∷ [] } in
        elim err [
          | some failure ↦ (sent, some (send_failed failure))
          | none ↦ (
            record sent {
              metrics = set_services_reported (pos (length (e ∷ services))) metrics;
              log = a.log ++ heartbeat_sent (length (e ∷ services)) ∷ [];
            },
            none,
          )
        ]

    -- What `Tick` does after `Collect`.
    unfoldable pub after_collect :
        Environment F
        → Agent source × Option (List (ServiceHeartbeat F))
        → Agent source × Option TickError
    after_collect env (a, none) = (a, some list_failed)
    after_collect env (a, some services) = report env services a

    unfoldable pub tick : Environment F → Agent source → Agent source × Option TickError
    tick env a = after_collect env (collect env a)

    unfoldable pub tick_once : Environment F → Agent source → Agent source
    tick_once env a =
        let (a', err) = tick env a in
        if is_some err && not env.done_at_end
        then record a' { log = a'.log ++ tick_failed ∷ [] }
        else a'

    -- The loop of `Run`, as far as it has been woken; `none` while it waits.
    unfoldable pub run_loop : List (Wake F) → Agent source → Agent source × Option Str
    run_loop [] a = (a, none)
    run_loop (context_done e ∷ wakes) a = (a, some e)
    run_loop (ticker env ∷ wakes) a = run_loop wakes (tick_once env a)

    unfoldable pub run :
        Bool → Environment F → List (Wake F) → Agent source → Agent source × RunResult
    run once first wakes a =
        let (ticked, err) = tick first a in
        let (after, end) = run_loop wakes (tick_once first a) in
        if once
        then (ticked, ran_once err)
        else if leb_ℤ cfg.interval (pos 0)
        then (a, bad_interval)
        else (after, loop_result end)
