-- ===== src/Agent/Tick/Tests.antt =====
-- Runs of the agent, and its theorems at a concrete cluster, source and HTTP client.
use zensu_monitoring_agent.Prelude.{
  ℕ, ◌+◌, map, ◌≡◌, refl, false, none, some, List, [], ◌∷◌, ◌++◌, Str, codes, eqb, length,
}
use zensu_monitoring_agent.Prelude.Maps.{get, put}
use zensu_monitoring_agent.Prelude.Int.{pos}
use zensu_monitoring_agent.Prelude.Sample.{Value, num}
use zensu_monitoring_agent.Scrape.Resolve.{cpu}
use zensu_monitoring_agent.Scrape.Decode.{answered}
use zensu_monitoring_agent.Metrics.{
  Metrics, new_metrics, record_heartbeat, set_services_reported, set_resource_services_mapped,
  set_resource_samples, set_resource_source,
}
use zensu_monitoring_agent.Agent.Exposition.{metric_key_for}
use zensu_monitoring_agent.Agent.Workload.{
  Deployment, ServiceHeartbeat, map_deployment, deployment_selector, derive_status,
}
use zensu_monitoring_agent.Agent.Source.{MetricSource, served}
use zensu_monitoring_agent.Agent.Collect.{
  warn_duplicate_slug, Listing, listing, list_error, Config, add_workload, gather_one, gather_all,
  gather, attach_one, attach,
}
use zensu_monitoring_agent.Agent.Reporter.{Reporter, body, request_of, judge, attempt, send}
use zensu_monitoring_agent.Agent.Counts.{
  count_samples, count_service, count_services, record_counts,
}
use zensu_monitoring_agent.Agent.Tick.{
  Environment, Agent, new_agent, ticker, context_done, RunResult, stopped, collect_samples,
  second_phase, collect, report, after_collect, tick, tick_once, run_loop, run,
}
use zensu_monitoring_agent.Agent.Tick.Posts.{strip_batch, all_posted, run-posted}
use zensu_monitoring_agent.Agent.Tick.Batches.{IsSound, run-IsSound}
use zensu_monitoring_agent.Agent.Collect.Warned.{IsOnce, named}
use zensu_monitoring_agent.Agent.Collect.Listed.{all_listed}
use zensu_monitoring_agent.Agent.Collect.First.{first_reported}
use zensu_monitoring_agent.Agent.Tick.Reported.{with_samples, asked, collect-first}
use zensu_monitoring_agent.Agent.Tick.Warnings.{run-IsOnce}
use zensu_monitoring_agent.Agent.Tick.Gauges.{Shows, collect-Shows}

ticks : Unit {0}
unfolding get put eqb map_deployment deployment_selector derive_status warn_duplicate_slug
    add_workload gather_one gather_all gather attach_one attach metric_key_for new_metrics
    record_heartbeat set_services_reported set_resource_services_mapped set_resource_samples
    set_resource_source request_of judge attempt send count_samples count_service count_services
    new_agent record_counts collect_samples second_phase collect report after_collect tick tick_once
    run_loop run
ticks = tt

abbrev list_deployments : Str → Listing (List Deployment)
list_deployments ns = listing (
    record {
      name = codes "a";
      annotations = (codes "zensu.dev/service", codes "shop") ∷ [];
      ready_replicas = pos 1;
      replicas = some (pos 1);
      selector = none;
    }
    ∷ [])

-- A cluster with one service, a server that takes the batch, and a context that is not done.
abbrev up : Environment Value
up = record {
  list_deployments = list_deployments;
  list_pods = λ ns sel. listing [];
  marshal = λ b. body b.product_id;
  post = λ r. answered (record { status_code = 200; status = []; body = []; body_error = none });
  duration = pos 1;
  now = 2;
  done_at_read = false;
  done_at_end = false;
}

-- A cluster that does not list.
abbrev down : Environment Value
down = record up { list_deployments = λ ns. list_error [] }

abbrev config : Config
config = record {
  product_id = codes "p";
  source = codes "k8s-agent";
  namespaces = codes "n" ∷ [];
  interval = pos 60;
  interval_seconds = pos 60;
}

-- A source with a CPU sample for the service.
abbrev source : MetricSource Value
source = record {
  State = ℕ;
  name = λ n. codes "exposition";
  samples = λ targets n. (
    n + 1,
    served ((codes "shop", record { key = metric_key_for cpu; value = num (pos 5) } ∷ []) ∷ []),
  );
}

abbrev reporter : Reporter
reporter = record { base_url = codes "u"; api_key = [] }

abbrev start : Agent source
start = new_agent source 0 (some new_metrics)

-- What a run in the loop leaves, woken once more with a cluster that does not list, and then stopped.
abbrev ran : Agent source × RunResult
ran = run source config reporter false up (ticker down ∷ context_done (codes "canceled") ∷ []) start

loop_run :
    (length ran.0.batches ≡ 1) × (ran.0.source_state ≡ 1) × (ran.1 ≡ stopped (codes "canceled"))
unfolding ticks
loop_run = (refl, refl, refl)

run-IsSound_example : IsSound source config ran.0
unfolding ticks
run-IsSound_example =
    run-IsSound source config reporter false up (ticker down ∷ context_done (codes "canceled") ∷ [])
      0 (some new_metrics)

abbrev reported : ServiceHeartbeat Value
reported = record {
  slug = codes "shop";
  name = codes "a";
  status = codes "up";
  ready_replicas = some (pos 1);
  desired_replicas = some (pos 1);
  restart_count = none;
  interval_seconds = pos 60;
  metrics = record { key = codes "cpu_millicores"; value = num (pos 5) } ∷ [];
}

collect-Shows_example :
    (m : Metrics) × ((collect source config up start).0.metrics ≡ some m) × Shows (reported ∷ []) m
unfolding ticks
collect-Shows_example = collect-Shows source config up start _ (reported ∷ []) refl refl

-- Two namespaces with a workload that claims the same service.
abbrev twice : Config
twice = record config { namespaces = codes "n" ∷ codes "m" ∷ [] }

abbrev ran_twice : Agent source × RunResult
ran_twice = run source twice reporter false up (ticker up ∷ ticker up ∷ []) start

-- Three ticks warn once.
warned_run : named ran_twice.0.latch.log ≡ (codes "shop" ++ 0x1f ∷ codes "m/a") ∷ []
unfolding ticks
warned_run = refl

run-IsOnce_example : IsOnce ran_twice.0.latch
unfolding ticks
run-IsOnce_example =
    run-IsOnce source twice reporter 0 (some new_metrics) false up (ticker up ∷ ticker up ∷ [])

collect-first_example :
    (collect source twice up start).1
    ≡ with_samples
        (asked source twice up start)
        (first_reported up.list_pods twice (all_listed up.list_deployments twice.namespaces))
collect-first_example = collect-first source twice up start

-- Of two namespaces with one slug each the first is reported.
collect_run :
    first_reported up.list_pods twice (all_listed up.list_deployments twice.namespaces)
    ≡ some (record reported { metrics = [] } ∷ [])
unfolding ticks
collect_run = refl

run-posted_example :
    map strip_batch ran.0.batches ≡ all_posted source config reporter (up ∷ down ∷ [])
run-posted_example =
    run-posted source config reporter 0 (some new_metrics) up (down ∷ []) (codes "canceled") [] refl

-- The first of the two ticks posts one batch, and the second none.
posted_run : length (all_posted source config reporter (up ∷ down ∷ [])) ≡ 1
unfolding ticks
posted_run = refl
