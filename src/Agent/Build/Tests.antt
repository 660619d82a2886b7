-- ===== src/Agent/Build/Tests.antt =====
-- A run of the agent on a source that was built, and its theorem there.
use zensu_monitoring_agent.Prelude.Float.{is_finite}
use zensu_monitoring_agent.Prelude.{
  ℕ, List, true, All, length, ◌≡◌, refl, false, none, some, Option, [], ◌∷◌, Str, codes, eqb,
}
use zensu_monitoring_agent.Prelude.Maps.{get, put}
use zensu_monitoring_agent.Prelude.Int.{ℤ, pos}
use zensu_monitoring_agent.Prelude.Sample.{Value, sample, ticks}
use zensu_monitoring_agent.Scrape.Decode.{answered}
use zensu_monitoring_agent.Metrics.{
  Metrics, with_label, with_labels, new_metrics, source_exposition, canonical, set_sources,
  set_resource_source, record_heartbeat, set_services_reported, set_resource_services_mapped,
  set_resource_samples,
}
use zensu_monitoring_agent.Agent.Exposition.{ExpositionConfig}
use zensu_monitoring_agent.Agent.Workload.{
  usage, Deployment, api_unavailable, map_deployment, deployment_selector, derive_status,
}
use zensu_monitoring_agent.Agent.Source.{
  is_unavailable, finish, read_targets, server_samples, none_source, due_for_retry, auto_name,
  use_fallback, switch_over, after_primary, auto_samples, built_auto,
}
use zensu_monitoring_agent.Agent.Collect.{
  warn_duplicate_slug, listing, Config, add_workload, gather_one, gather_all, gather, attach_one,
  attach,
}
use zensu_monitoring_agent.Agent.Reporter.{
  HeartbeatBatch, Reporter, body, request_of, judge, attempt, send,
}
use zensu_monitoring_agent.Agent.Counts.{
  count_samples, count_service, count_services, record_counts,
}
use zensu_monitoring_agent.Agent.Tick.{
  Environment, Agent, new_agent, collect_samples, second_phase, collect, report, after_collect,
  tick, tick_once, run_loop, run,
}
use zensu_monitoring_agent.Agent.Build.{
  World, metrics_server_source, exposition_source, auto_source, source_of, state_of,
}
use zensu_monitoring_agent.Agent.Build.Posted.{IsFiniteBatch, run-IsFiniteBatch}
use zensu_monitoring_agent.Agent.Build.Names.{ShowsNoUnknown, run-ShowsNoUnknown}

building : Unit {0}
unfolding get put eqb with_label with_labels new_metrics canonical set_sources set_resource_source
    record_heartbeat set_services_reported set_resource_services_mapped set_resource_samples
    map_deployment deployment_selector derive_status is_unavailable finish read_targets
    server_samples none_source due_for_retry auto_name use_fallback switch_over after_primary
    auto_samples warn_duplicate_slug add_workload gather_one gather_all gather attach_one attach
    request_of judge attempt send count_samples count_service count_services new_agent record_counts
    collect_samples second_phase collect report after_collect tick tick_once run_loop run
    metrics_server_source exposition_source auto_source source_of state_of
building = tt

-- A cluster without the metrics API, and a server that gives an exposition without a row.
abbrev world : World ticks
world = record {
  reads = λ n namespace selector. api_unavailable;
  scrapes = λ n. record {
    exchange = answered (record { status_code = 200; status = []; body = []; body_error = none });
    at = 0;
  };
  probe = λ n. n;
  stamp = λ n. n;
  parse = λ s. [];
  error_text = λ e. [];
  runtime_limit = 134217728;
}

abbrev exposition : ExpositionConfig
exposition = record {
  url = codes "http://c";
  slug_label = [];
  cpu_metric = [];
  memory_metric = [];
  timeout = pos 0;
  max_bytes = pos 0;
  rater = record { max_tracked = pos 0 };
}

abbrev config : Config
config = record {
  product_id = codes "p";
  source = codes "k8s-agent";
  namespaces = codes "n" ∷ [];
  interval = pos 60;
  interval_seconds = pos 60;
}

abbrev reporter : Reporter
reporter = record { base_url = codes "u"; api_key = [] }

abbrev deployment : Deployment
deployment = record {
  name = codes "a";
  annotations = (codes "zensu.dev/service", codes "shop") ∷ [];
  ready_replicas = pos 1;
  replicas = some (pos 1);
  selector = some (codes "app=a");
}

abbrev up : Environment Value
up = record {
  list_deployments = λ ns. listing (deployment ∷ []);
  list_pods = λ ns sel. listing [];
  marshal = λ b. body b.product_id;
  post = λ r. answered (record { status_code = 200; status = []; body = []; body_error = none });
  duration = pos 1;
  now = 2;
  done_at_read = false;
  done_at_end = false;
}

abbrev ran : Agent (source_of ticks world built_auto)
ran =
    (run (source_of ticks world built_auto) config reporter false up [] (
      new_agent (source_of ticks world built_auto) (state_of ticks world exposition built_auto)
        (some new_metrics))).0

run-ShowsNoUnknown_example : ShowsNoUnknown ran.metrics
run-ShowsNoUnknown_example =
    run-ShowsNoUnknown ticks world exposition built_auto config reporter false up []

abbrev shown : Option Metrics → Str → Option ℤ
shown none name = none
shown (some m) name = get name m.resource_source

-- The cluster has no metrics API, so that after the first tick the gauge shows the exposition.
auto_run : shown ran.metrics source_exposition ≡ some (pos 1)
unfolding building
auto_run = refl

-- A cluster whose metrics API answers every read.
abbrev metered : World ticks
metered = record world { reads = λ n namespace selector. usage (pos 5) (pos 6) }

abbrev ran_metered : Agent (source_of ticks metered built_auto)
ran_metered =
    (run (source_of ticks metered built_auto) config reporter true up [] (
      new_agent (source_of ticks metered built_auto) (state_of ticks metered exposition built_auto)
        none)).0

-- How many samples the first service of each batch has.
abbrev sizes : List (HeartbeatBatch Value) → List ℕ
sizes [] = []
sizes (b ∷ more) = elim b.services [ [] ↦ 0 ∷ sizes more | e ∷ es ↦ length e.metrics ∷ sizes more ]

metered_run : sizes ran_metered.batches ≡ 2 ∷ []
unfolding building
metered_run = refl

whole : (n : ℤ) → is_finite sample (sample.of_int n) ≡ true
unfolding is_finite
whole n = refl

run-IsFiniteBatch_example : All (IsFiniteBatch sample) ran_metered.batches
run-IsFiniteBatch_example =
    run-IsFiniteBatch ticks metered whole exposition built_auto config reporter none true up []
