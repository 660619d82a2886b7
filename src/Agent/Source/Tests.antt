-- ===== src/Agent/Source/Tests.antt =====
-- Runs of the metric sources, and their theorems at concrete sources and readings.
use zensu_monitoring_agent.Prelude.{
  ◌+◌, ◌≡◌, refl, Bool, true, false, not, ◌&&◌, Option, some, List, [], ◌∷◌, Str, codes, eqb, any,
  if◌then◌else◌, arith,
}
use zensu_monitoring_agent.Prelude.Maps.{get, put}
use zensu_monitoring_agent.Prelude.Int.{pos}
use zensu_monitoring_agent.Prelude.Sample.{Value, sample}
use zensu_monitoring_agent.Agent.Index.{ServiceTarget}
use zensu_monitoring_agent.Agent.Exposition.{metric_key_for}
use zensu_monitoring_agent.Agent.Workload.{PodReading, usage, api_unavailable}
use zensu_monitoring_agent.Agent.Source.{
  is_unavailable, served, refused, metrics_api_unavailable, metrics_reads_all_failed, ServerSource,
  finish, read_targets, server_samples, MetricSource, none_source, AutoSource, due_for_retry,
  auto_name, use_fallback, switch_over, after_primary, auto_samples, ParsedUrl, validate_url,
  new_metric_source,
}
use zensu_monitoring_agent.Agent.Source.MetricsServer.{
  misses, selects, answers, usages, server_samples_lem,
}
use zensu_monitoring_agent.Agent.Source.Outages.{
  ServerCall, warnings, outages, call_all, call_all-warnings,
}
use zensu_monitoring_agent.Agent.Source.Auto.{start, call}
use zensu_monitoring_agent.Agent.Source.Runs.{
  Call, asked, source_run, auto_run, auto_run-primary, auto_run-fallback,
}

sources : Unit {0}
unfolding get put eqb metric_key_for is_unavailable finish read_targets server_samples none_source
    due_for_retry auto_name use_fallback switch_over after_primary auto_samples validate_url
    new_metric_source
sources = tt

abbrev targets : List ServiceTarget
targets =
    record { slug = codes "a"; namespace = codes "n"; selector = codes "x"; pod_names = [] }
    ∷ record { slug = codes "b"; namespace = codes "n"; selector = []; pod_names = [] }
    ∷ []

abbrev read : Str → Str → PodReading
read namespace selector =
    if eqb selector (codes "x") then usage (pos 5) (pos 6) else api_unavailable

abbrev server : ServerSource
server = record { warned = true; log = [] }

-- A target without a selector is not read, and an answered read clears the latch.
server_run : (server_samples sample read targets server).0.warned ≡ false
unfolding sources
server_run = refl

server_samples_lem_example : (server_samples sample read targets server).1 ≡ (
    if any (misses sample read) targets
    then refused metrics_api_unavailable
    else if any (selects sample read) targets && not (any (answers sample read) targets)
    then refused metrics_reads_all_failed
    else served (usages sample read targets []))
server_samples_lem_example = server_samples_lem sample read targets server

-- A primary that is there or not, as its state says.
abbrev primary : MetricSource Value
primary = record {
  State = Bool;
  name = λ s. codes "metrics-server";
  samples = λ targets there. (there, if there then served [] else refused metrics_api_unavailable);
}

-- A fallback that serves a sample, or fails like the primary.
abbrev fallback : MetricSource Value
fallback = record {
  State = Bool;
  name = λ s. codes "exposition";
  samples = λ targets there.
      (there, if there then served ((codes "a", []) ∷ []) else refused metrics_api_unavailable);
}

abbrev built : Bool → Bool → AutoSource primary fallback
built first second = record {
  first = first;
  second = second;
  switched = false;
  switched_at = 0;
  log = [];
}

abbrev switched : AutoSource primary fallback
switched = (auto_samples primary fallback 1000 1001 targets (built false true)).0

switched_run : (switched.switched ≡ true) × (switched.switched_at ≡ 1001)
unfolding sources
switched_run = (refl, refl)

abbrev parse : Str → Option ParsedUrl
parse raw = some (record { has_user = false; scheme = codes "http"; hostname = raw })

abbrev calls : List Call
calls =
    record { now = 2000; stamp = 2001; targets = targets }
    ∷ record { now = 3000; stamp = 3001; targets = [] }
    ∷ []

auto_run-primary_example : auto_run primary fallback calls (built true true) ≡ (
  record (built true true) { first = (source_run primary (asked calls) true).0 },
  (source_run primary (asked calls) true).1,
)
auto_run-primary_example =
    auto_run-primary primary fallback calls (built true true) refl (refl, (refl, tt))

auto_run-fallback_example : auto_run primary fallback calls switched ≡ (
  record switched { second = (source_run fallback (asked calls) switched.second).0 },
  (source_run fallback (asked calls) switched.second).1,
)
unfolding sources
auto_run-fallback_example =
    auto_run-fallback primary fallback calls switched
      (call (built false true) 1000 1001 targets (start false true) (omega arith)) refl
      (omega arith, (omega arith, tt))

-- Calls that find no API, and a call that is answered.
abbrev no_api : ServerCall
no_api = record { read = λ namespace selector. api_unavailable; targets = targets }

abbrev up : ServerCall
up = record { read = read; targets = targets }

abbrev nobody : ServerCall
nobody = record { read = read; targets = [] }

abbrev outage_calls : List ServerCall
outage_calls = no_api ∷ no_api ∷ nobody ∷ no_api ∷ up ∷ no_api ∷ []

abbrev new_server : ServerSource
new_server = record { warned = false; log = [] }

-- Two outages, with four calls that find no API.
outages_run : warnings (call_all sample outage_calls new_server).log ≡ 2
unfolding sources
outages_run = refl

call_all-warnings_example :
    warnings (call_all sample outage_calls new_server).log ≡ 0 + outages sample false outage_calls
call_all-warnings_example = call_all-warnings sample outage_calls new_server
