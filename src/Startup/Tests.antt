-- ===== src/Startup/Tests.antt =====
-- Runs of the start-up, and its theorems at a concrete environment.
use zensu_monitoring_agent.Prelude.{
  ℕ, ◌+◌, ◌≡◌, ◌↔◌, ◌⊎◌, refl, Bool, true, false, ◌&&◌, Option, none, some, List, [], ◌∷◌, Str,
  codes, eqb, map, any, if◌then◌else◌, arith,
}
use zensu_monitoring_agent.Prelude.Int.{ℤ, pos, negsuc}
use zensu_monitoring_agent.Prelude.Sample.{Value, ticks}
use zensu_monitoring_agent.Redact.{trim_space, trim, reverse, drop, space_head, space_last}
use zensu_monitoring_agent.Metrics.{new_metrics}
use zensu_monitoring_agent.Agent.Source.{
  source_auto, ParsedUrl, validate_url, MetricSource, served, Built, built_auto, new_metric_source,
}
use zensu_monitoring_agent.Agent.Reporter.{trim_right, new_reporter, validate_api_url, body}
use zensu_monitoring_agent.Agent.Collect.{listing}
use zensu_monitoring_agent.Agent.Tick.{Environment, ticker, context_done}
use zensu_monitoring_agent.Scrape.Decode.{answered}
use zensu_monitoring_agent.Startup.{
  Env, env_or, env_bool, parse_digits, parse_int, env_int64, env_duration, split, trimmed, env_list,
  env_log_level,
}
use zensu_monitoring_agent.Startup.Start.{
  Platform, Started, started, exposition_reachable, required_config, resource_source_config,
  agent_config, assemble, start_with, start, running, finished, finish, run,
}
use zensu_monitoring_agent.Startup.Checks.{AreAccepted, IsConfigured, start-IsConfigured}
use zensu_monitoring_agent.Startup.Modes.{IsKnown, scrapes, is_caveat, start_iff, start-warns}
use zensu_monitoring_agent.Startup.Ends.{run_finishes}
use zensu_monitoring_agent.Startup.Names.{env_list-join}
use zensu_monitoring_agent.Scrape.Series.{itoa}
use zensu_monitoring_agent.Scrape.Decode.{ceiling, read_limit}
use zensu_monitoring_agent.Agent.Exposition.{ExpositionSource, new_exposition_source}
use zensu_monitoring_agent.Startup.Cap.{granted, complaint, scrape_cap}
use zensu_monitoring_agent.Startup.Process.{client_error, exit_status, main, IsGoodShot, main_once}
use zensu_monitoring_agent.Agent.Cluster.{
  items, Made, made, not_made, ClientLibrary, new_in_cluster_lister, lister_error_text,
}
use zensu_monitoring_agent.Metrics.{
  set_services_reported, set_resource_services_mapped, set_resource_samples, set_resource_source,
}
use zensu_monitoring_agent.Agent.Counts.{record_counts}
use zensu_monitoring_agent.Agent.Tick.{
  new_agent, collect_samples, second_phase, collect, report, after_collect, tick, tick_once,
  run_loop,
}
use zensu_monitoring_agent.Agent.Tick.{run as run_agent}
use zensu_monitoring_agent.Agent.Collect.{gather, gather_all, attach}

starting : Unit {0}
unfolding eqb trim_space trim reverse drop space_head space_last new_metrics validate_url
    new_metric_source trim_right new_reporter validate_api_url env_or env_bool parse_digits
    parse_int env_int64 env_duration split trimmed env_list env_log_level exposition_reachable
    required_config resource_source_config agent_config assemble start_with start finish run
starting = tt

processes : Unit {0}
unfolding starting client_error exit_status main new_in_cluster_lister lister_error_text
    set_services_reported set_resource_services_mapped set_resource_samples set_resource_source
    new_agent record_counts collect_samples second_phase collect report after_collect tick tick_once
    run_loop run_agent gather gather_all attach
processes = tt

-- The variables that are set.
abbrev lookup : List (Str × Str) → Env
lookup [] key = []
lookup ((k, v) ∷ vars) key = if eqb k key then v else lookup vars key

abbrev parse_url : Str → Option ParsedUrl
parse_url raw = some (record { has_user = false; scheme = codes "https"; hostname = raw })

abbrev parse_duration : Str → Option ℤ
parse_duration raw = parse_int raw

abbrev platform : Platform
platform = record { parse_url = parse_url; parse_duration = parse_duration; whole_seconds = λ d. d }

abbrev variables : Env
variables = lookup (
    (codes "ZENSU_API_URL", codes "a/")
    ∷ (codes "ZENSU_API_KEY", codes "k")
    ∷ (codes "ZENSU_PRODUCT_ID", codes "p")
    ∷ (codes "ZENSU_MONITORING_AGENT_SCRAPE_URL", codes "s")
    ∷ (codes "ZENSU_MONITORING_AGENT_INTERVAL", codes "-5")
    ∷ (codes "ZENSU_MONITORING_AGENT_NAMESPACES", codes " x,y ")
    ∷ (codes "ZENSU_MONITORING_AGENT_METRICS_ENABLED", codes " Yes")
    ∷ (codes "ZENSU_MONITORING_AGENT_SCRAPE_MAX_BYTES", codes "+70")
    ∷ [])

-- An interval that is not positive is not used, and the numbers are read with their sign.
readers_run :
    (env_duration parse_duration variables (codes "ZENSU_MONITORING_AGENT_INTERVAL") (pos 60)
      ≡ pos 60)
    × (env_int64 variables (codes "ZENSU_MONITORING_AGENT_SCRAPE_MAX_BYTES") (pos 0) ≡ pos 70)
    × (env_bool variables (codes "ZENSU_MONITORING_AGENT_METRICS_ENABLED") false ≡ true)
    × (parse_int (codes "9223372036854775808") ≡ none)
    × (parse_int (codes "-12") ≡ some (negsuc 11))
    × (parse_int (codes "+-1") ≡ none)
    × (env_log_level parse_duration variables ≡ pos 0)
unfolding starting
readers_run = (refl, refl, refl, refl, refl, refl, refl)

abbrev agent : Bool → Started
agent once =
    assemble platform variables once (resource_source_config platform variables (codes "s"))
      built_auto

env_list-join_example :
    env_list variables (codes "ZENSU_MONITORING_AGENT_NAMESPACES") []
    ≡ map trim_space (codes " x" ∷ codes "y " ∷ [])
unfolding starting
env_list-join_example =
    env_list-join variables (codes "ZENSU_MONITORING_AGENT_NAMESPACES") []
      (codes " x" ∷ codes "y " ∷ []) (omega arith) ((refl, (refl, tt)), ((refl, (refl, tt)), tt))
      (refl, (refl, tt)) refl

start-IsConfigured_example : IsConfigured platform variables (agent false)
unfolding starting
start-IsConfigured_example = start-IsConfigured platform variables false none (agent false) refl

abbrev no_error : Option Str
no_error = none

start_iff_example : ((s : Started) × (start platform variables true none ≡ started s)) ↔ (
    (no_error ≡ none)
    × AreAccepted platform (codes "a/") (codes "k") (codes "p") (codes "s")
    × IsKnown source_auto (codes "s"))
unfolding starting
start_iff_example = start_iff platform variables true none

start-warns_example : any is_caveat (agent true).log ≡ true && scrapes (agent true).source
unfolding starting
start-warns_example = start-warns platform variables true none (agent true) refl

-- A source without a sample, for each that is built.
abbrev silent : Built → MetricSource Value
silent b = record { State = ℕ; name = λ n. []; samples = λ targets n. (n + 1, served []) }

abbrev quiet : Environment Value
quiet = record {
  list_deployments = λ ns. listing [];
  list_pods = λ ns sel. listing [];
  marshal = λ b. body b.product_id;
  post = λ r. answered (record { status_code = 500; status = []; body = []; body_error = none });
  duration = pos 1;
  now = 2;
  done_at_read = false;
  done_at_end = false;
}

run_finishes_example :
    (run silent
        (λ b. 0)
        platform
        variables
        false
        none
        quiet
        (ticker quiet ∷ context_done (codes "canceled") ∷ [])
        true
      ≡ finished)
    × (run silent (λ b. 0) platform variables false none quiet (ticker quiet ∷ []) true ≡ running)
unfolding starting
run_finishes_example =
    run_finishes silent (λ b. 0) platform variables none (agent false) quiet (quiet ∷ [])
      (codes "canceled") [] true refl

-- A library that gives no configuration, or both clients.
abbrev library : Made Bool → ClientLibrary Bool
library config = record {
  in_cluster_config = config;
  new_kubernetes = λ cfg.
      made (record { deployments = λ namespace. items []; pods = λ namespace selector. items [] });
  new_metrics_client = λ cfg. made (record { pod_metricses = λ namespace selector. items [] });
}

-- Outside of a cluster it exits with 1; in one without workloads, with 0.
main_run :
    (main silent (λ b. 0) platform (library (not_made [])) variables true quiet [] false ≡ some 1)
    × (main silent (λ b. 0) platform (library (made true)) variables true quiet [] false ≡ some 0)
    × (main silent (λ b. 0) platform (library (made true)) variables false quiet [] false ≡ none)
unfolding processes
main_run = (refl, refl, refl)

main_once_example :
    (IsGoodShot silent (λ b. 0) platform (library (made true)) variables quiet false
      × (main silent (λ b. 0) platform (library (made true)) variables true quiet [] false
          ≡ some 0))
    ⊎ ((¬ IsGoodShot silent (λ b. 0) platform (library (made true)) variables quiet false)
        × (main silent (λ b. 0) platform (library (made true)) variables true quiet [] false
            ≡ some 1))
main_once_example =
    main_once silent (λ b. 0) platform (library (made true)) variables quiet [] false

abbrev max_bytes_key : Str
max_bytes_key = codes "ZENSU_MONITORING_AGENT_SCRAPE_MAX_BYTES"

abbrev capped_at : ℕ → Env
capped_at n = lookup ((max_bytes_key, itoa n []) ∷ [])

-- 20 MiB with a limit of 100 MiB on the memory.
abbrev over_cap : ExpositionSource ticks
over_cap =
    new_exposition_source ticks 104857600
      (resource_source_config platform (capped_at 20971520) (codes "s")).exposition

scrape_cap_example :
    (read_limit 104857600 over_cap.client ≡ granted (ceiling 104857600 over_cap.client) 20971520)
    × (over_cap.log ≡ complaint (ceiling 104857600 over_cap.client) 20971520)
unfolding eqb
scrape_cap_example =
    scrape_cap ticks 104857600 platform (capped_at 20971520) (codes "s") 20971520 refl
