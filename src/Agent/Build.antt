-- ===== src/Agent/Build.antt =====
-- internal/agent/source.go: the sources that `NewMetricSource` builds, with their methods, as they stand in
-- `MetricSource`. What the n-th call of a source meets is given for each n: the answers of the cluster, the
-- answer of the HTTP client with the reading of the clock, and the two readings of `autoSource`.
pub mod Names
pub mod Finite
pub mod Samples
pub mod Posted
mod Tests
use zensu_monitoring_agent.Prelude.{
  ℕ, ◌+◌, ◌≡◌, Bool, true, false, Option, none, some, List, [], ◌∷◌, Str,
}
use zensu_monitoring_agent.Prelude.Maps.{Map}
use zensu_monitoring_agent.Prelude.Float.{Float64, Clock}
use zensu_monitoring_agent.Scrape.Resolve.{candidate_names}
use zensu_monitoring_agent.Scrape.Decode.{Decoded, Exchange, FetchError, Outcome, ok, failed, fetch}
use zensu_monitoring_agent.Agent.Index.{ServiceTarget}
use zensu_monitoring_agent.Agent.Exposition.{
  MetricSample, ExpositionConfig, ExpositionSource, new_exposition_source,
}
use zensu_monitoring_agent.Agent.Exposition.Tick.{samples}
use zensu_monitoring_agent.Agent.Workload.{PodReading}
use zensu_monitoring_agent.Agent.Source.{
  source_metrics_server, source_exposition, SourceError, source_failed, Answer, served, refused,
  ServerSource, server_samples, MetricSource, none_source, AutoSource, auto_name, auto_samples,
  Built, built_none, built_metrics_server, built_exposition, built_auto, no_scrape_url,
  bad_scrape_url, unknown_mode,
}

-- What a scrape meets: the client's answer, and the time at which the counters are rated.
pub record Scrape {fl : Float64} (ck : Clock fl) : Type 0 where
  pub exchange : Exchange
  pub at : ck.Time

-- What each call of each source meets, the parser of the exposition, the text of an error of `Fetch`, and
-- the memory limit of the runtime.
pub record World {fl : Float64} (ck : Clock fl) : Type 0 where
  pub reads : ℕ → Str → Str → PodReading
  pub scrapes : ℕ → Scrape ck
  pub probe : ℕ → ℕ
  pub stamp : ℕ → ℕ
  pub parse : Str → List (Decoded fl.F)
  pub error_text : FetchError → Str
  pub runtime_limit : ℕ

-- `newMetricsServerSource`
abbrev pub new_metrics_server_source : ServerSource
new_metrics_server_source = record { warned = false; log = [] }

-- The results of `expositionSource.Samples`; its errors wrap no `ErrSourceUnavailable`.
abbrev pub answer_of :
    {F : Type 0} → (FetchError → Str) → Outcome (Map (List (MetricSample F))) → Answer F
answer_of text (ok out) = served out
answer_of text (failed e) = refused (source_failed (text e))

module _ {fl : Float64} (ck : Clock fl) (w : World ck) where
  open fl use {F}

  -- A state is followed by the number of the calls so far.
  unfoldable pub metrics_server_source : MetricSource F
  metrics_server_source = record {
    State = ServerSource × ℕ;
    name = λ s. source_metrics_server;
    samples = λ targets (s, n).
        let (after, answer) = server_samples fl (w.reads n) targets s in ((after, n + 1), answer);
  }

  unfoldable pub exposition_source : MetricSource F
  exposition_source = record {
    State = ExpositionSource ck × ℕ;
    name = λ s. source_exposition;
    samples = λ targets (s, n).
        let scrape = w.scrapes n in
        let series =
          fetch fl w.parse w.runtime_limit s.client (candidate_names fl s.resolver)
            scrape.exchange in
        let (after, out) = samples ck scrape.at targets series s in
        ((after, n + 1), answer_of w.error_text out);
  }

  unfoldable pub auto_source : MetricSource F
  auto_source = record {
    State = AutoSource metrics_server_source exposition_source × ℕ;
    name = λ (s, n). auto_name metrics_server_source exposition_source s;
    samples = λ targets (s, n).
        let (after, answer) =
          auto_samples metrics_server_source exposition_source (w.probe n) (w.stamp n) targets s in
        ((after, n + 1), answer);
  }

  -- The source of each result of `NewMetricSource`; an error comes with no source, and `New` takes that for
  -- `noneSource`.
  unfoldable pub source_of : Built → MetricSource F
  source_of built_none = none_source
  source_of built_metrics_server = metrics_server_source
  source_of built_exposition = exposition_source
  source_of built_auto = auto_source
  source_of no_scrape_url = none_source
  source_of (bad_scrape_url e) = none_source
  source_of (unknown_mode mode) = none_source

  -- Its state when it is built.
  unfoldable pub state_of : ExpositionConfig → (b : Built) → (source_of b).State
  unfolding source_of none_source metrics_server_source exposition_source auto_source
  state_of cfg built_none = tt
  state_of cfg built_metrics_server = (new_metrics_server_source, 0)
  state_of cfg built_exposition = (new_exposition_source ck w.runtime_limit cfg, 0)
  state_of cfg built_auto = (
    record {
      first = (new_metrics_server_source, 0);
      second = (new_exposition_source ck w.runtime_limit cfg, 0);
      switched = false;
      switched_at = 0;
      log = [];
    },
    0,
  )
  state_of cfg no_scrape_url = tt
  state_of cfg (bad_scrape_url e) = tt
  state_of cfg (unknown_mode mode) = tt
