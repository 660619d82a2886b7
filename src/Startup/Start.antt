-- ===== src/Startup/Start.antt =====
-- cmd/zensu-monitoring-agent/main.go: `requiredConfig`, `resourceSourceConfig`, `expositionReachable` and `run`.
-- Of the metric sources that `NewMetricSource` builds, only which one it is matters here: what it does when
-- it is asked for samples is a parameter.
use zensu_monitoring_agent.Prelude.{
  Bool, true, false, not, ◌&&◌, ◌||◌, Option, none, some, List, [], ◌∷◌, ◌++◌, Str, codes, eqb,
  is_empty, if◌then◌else◌,
}
use zensu_monitoring_agent.Prelude.Int.{ℤ, pos}
use zensu_monitoring_agent.Scrape.Decode.{default_timeout}
use zensu_monitoring_agent.Metrics.{Metrics, new_metrics, default_addr}
use zensu_monitoring_agent.Agent.Exposition.{ExpositionConfig, default_slug_label}
use zensu_monitoring_agent.Agent.Source.{
  source_auto, source_metrics_server, source_exposition, source_none, ParsedUrl, UrlError,
  validate_scrape_url, MetricSource, Built, built_none, built_metrics_server, built_exposition,
  built_auto, no_scrape_url, bad_scrape_url, unknown_mode, new_metric_source,
}
use zensu_monitoring_agent.Agent.Collect.{Config}
use zensu_monitoring_agent.Agent.Reporter.{Reporter, new_reporter, validate_api_url}
use zensu_monitoring_agent.Agent.Tick.{
  TickError, Environment, new_agent, Wake, RunResult, ran_once, bad_interval, looping, stopped,
}
use zensu_monitoring_agent.Agent.Tick.{run as run_agent}
use zensu_monitoring_agent.Startup.{Env, env_or, env_bool, env_int64, env_duration, env_list}

-- `url.Parse`, `time.ParseDuration` without its error, and `int32(d.Seconds())`.
pub record Platform : Type 0 where
  pub parse_url : Str → Option ParsedUrl
  pub parse_duration : Str → Option ℤ
  pub whole_seconds : ℤ → ℤ

pub data ConfigError : Type 0 where
  missing_variables : ConfigError
  api_url_refused : UrlError → ConfigError
  scrape_url_refused : UrlError → ConfigError

-- The error of `ValidateScrapeURL`; `none` is a nil error.
abbrev pub scrape_refusal : Option UrlError → Option ConfigError
scrape_refusal none = none
scrape_refusal (some e) = some (scrape_url_refused e)

pub record SourceConfig : Type 0 where
  pub mode : Str
  pub exposition : ExpositionConfig

pub data StartError : Type 0 where
  invalid_configuration : ConfigError → StartError
  no_client : Str → StartError
  source_refused : Built → StartError

pub data StartEvent : Type 0 where
  source_configured : Str → StartEvent
  counters_need_two_scrapes : Str → StartEvent
  endpoint_enabled : Str → StartEvent

-- What `run` has when it calls `Run`; `serve_at` is the address of the goroutine that serves the metrics.
pub record Started : Type 0 where
  pub config : Config
  pub reporter : Reporter
  pub source : Built
  pub metrics : Option Metrics
  pub serve_at : Option Str
  pub log : List StartEvent

pub data StartResult : Type 0 where
  started : Started → StartResult
  not_started : StartError → StartResult

-- Whether `NewMetricSource` built a source.
abbrev pub is_built : Built → Bool
is_built built_none = true
is_built built_metrics_server = true
is_built built_exposition = true
is_built built_auto = true
is_built no_scrape_url = false
is_built (bad_scrape_url e) = false
is_built (unknown_mode mode) = false

-- `Name` of a source that was just built; `autoSource` starts on its primary.
abbrev pub built_name : Built → Str
built_name built_none = source_none
built_name built_metrics_server = source_metrics_server
built_name built_exposition = source_exposition
built_name built_auto = source_metrics_server
built_name no_scrape_url = []
built_name (bad_scrape_url e) = []
built_name (unknown_mode mode) = []

unfoldable pub exposition_reachable : SourceConfig → Bool
exposition_reachable cfg =
    if is_empty cfg.exposition.url
    then false
    else eqb cfg.mode source_exposition || eqb cfg.mode source_auto || is_empty cfg.mode

module _ (p : Platform) where
  unfoldable pub required_config : Str → Str → Str → Str → Option ConfigError
  required_config api_url api_key product_id scrape_url =
      if is_empty api_url || is_empty api_key || is_empty product_id
      then some missing_variables
      else elim (validate_api_url p.parse_url api_url) [
        | some e ↦ some (api_url_refused e)
        | none ↦
            if is_empty scrape_url
            then none
            else scrape_refusal (validate_scrape_url p.parse_url scrape_url)
      ]

  unfoldable pub resource_source_config : Env → Str → SourceConfig
  resource_source_config env scrape_url = record {
    mode = env_or env (codes "ZENSU_MONITORING_AGENT_RESOURCE_SOURCE") source_auto;
    exposition = record {
      url = scrape_url;
      slug_label = env_or env (codes "ZENSU_MONITORING_AGENT_SCRAPE_SLUG_LABEL") default_slug_label;
      cpu_metric = env (codes "ZENSU_MONITORING_AGENT_SCRAPE_CPU_METRIC");
      memory_metric = env (codes "ZENSU_MONITORING_AGENT_SCRAPE_MEMORY_METRIC");
      timeout =
          env_duration p.parse_duration env (codes "ZENSU_MONITORING_AGENT_SCRAPE_TIMEOUT")
            (pos default_timeout);
      max_bytes = env_int64 env (codes "ZENSU_MONITORING_AGENT_SCRAPE_MAX_BYTES") (pos 0);
      rater = record { max_tracked = pos 0 };
    };
  }

  -- The `agent.Config` that `run` builds.
  unfoldable pub agent_config : Env → Config
  agent_config env =
      let interval =
        env_duration p.parse_duration env (codes "ZENSU_MONITORING_AGENT_INTERVAL")
          (pos 60000000000) in
      record {
        product_id = env (codes "ZENSU_PRODUCT_ID");
        source = env_or env (codes "ZENSU_MONITORING_AGENT_SOURCE") (codes "k8s-agent");
        namespaces =
            env_list env (codes "ZENSU_MONITORING_AGENT_NAMESPACES") (codes "default" ∷ []);
        interval = interval;
        interval_seconds = p.whole_seconds interval;
      }

  -- What `run` starts once the source is built.
  unfoldable pub assemble : Env → Bool → SourceConfig → Built → Started
  assemble env once cfg built =
      let enabled =
        env_bool env (codes "ZENSU_MONITORING_AGENT_METRICS_ENABLED") true && not once in
      let addr = env_or env (codes "ZENSU_MONITORING_AGENT_METRICS_ADDR") default_addr in
      let name = built_name built in
      record {
        config = agent_config env;
        reporter = new_reporter (env (codes "ZENSU_API_URL")) (env (codes "ZENSU_API_KEY"));
        source = built;
        metrics = if enabled then some new_metrics else none;
        serve_at = if enabled then some addr else none;
        log =
            source_configured name
              ∷ (if once && exposition_reachable cfg
                  then counters_need_two_scrapes name ∷ []
                  else [])
            ++ (if enabled then endpoint_enabled addr ∷ [] else []);
      }

  -- What follows the required variables: the client, whose error is given, and the source.
  unfoldable pub start_with : Env → Bool → Option Str → SourceConfig → StartResult
  start_with env once (some e) cfg = not_started (no_client e)
  start_with env once none cfg =
      let built = new_metric_source p.parse_url cfg.mode cfg.exposition.url in
      if is_built built
      then started (assemble env once cfg built)
      else not_started (source_refused built)

  -- `run` up to the call of `Run`.
  unfoldable pub start : Env → Bool → Option Str → StartResult
  start env once client_error =
      let scrape_url = env (codes "ZENSU_MONITORING_AGENT_SCRAPE_URL") in
      elim (required_config (env (codes "ZENSU_API_URL")) (env (codes "ZENSU_API_KEY"))
        (env (codes "ZENSU_PRODUCT_ID")) scrape_url) [
          | some e ↦ not_started (invalid_configuration e)
          | none ↦ start_with env once client_error (resource_source_config env scrape_url)
        ]

-- How `run` ends: it refuses to start, it has not returned yet, or it returns the error of `Run`, or nil.
pub data RunEnd : Type 0 where
  refused : StartError → RunEnd
  running : RunEnd
  tick_error : TickError → RunEnd
  interval_error : RunEnd
  finished : RunEnd

abbrev pub unless_done : Bool → RunEnd → RunEnd
unless_done done end = if done then finished else end

-- `err != nil && ctx.Err() == nil`, where `done` says whether the context has an error; it has one if `Run`
-- returned that.
unfoldable pub finish : Bool → RunResult → RunEnd
finish done (ran_once none) = finished
finish done (ran_once (some e)) = unless_done done (tick_error e)
finish done bad_interval = unless_done done interval_error
finish done looping = running
finish done (stopped e) = finished

module _ {F : Type 0} (source_of : Built → MetricSource F)
    (state_of : (b : Built) → (source_of b).State) (p : Platform) where
  abbrev pub run_started : Bool → Environment F → List (Wake F) → Bool → StartResult → RunEnd
  run_started once first wakes done (not_started e) = refused e
  run_started once first wakes done (started s) =
      finish done
        (run_agent (source_of s.source) s.config s.reporter once first wakes
          (new_agent (source_of s.source) (state_of s.source) s.metrics)).1

  unfoldable pub run : Env → Bool → Option Str → Environment F → List (Wake F) → Bool → RunEnd
  run env once client_error first wakes done =
      run_started once first wakes done (start p env once client_error)
