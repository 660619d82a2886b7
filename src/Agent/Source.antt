-- ===== src/Agent/Source.antt =====
-- internal/agent/source.go: the metric sources. What a read of pod metrics answers is an argument, and so
-- are the parser of URLs and the two sources between which `autoSource` chooses.
pub mod MetricsServer
pub mod Auto
pub mod Outages
pub mod Runs
pub mod Urls
mod Tests
use zensu_monitoring_agent.Prelude.{
  ℕ, ◌+◌, ◌≡◌, Bool, true, false, not, ◌&&◌, ◌||◌, Option, none, some, List, [], ◌∷◌, ◌++◌, Str,
  codes, eqb, is_empty, if◌then◌else◌, leb, ◌==◌,
}
use zensu_monitoring_agent.Prelude.Maps.{Map, put}
use zensu_monitoring_agent.Prelude.Int.{ℤ}
use zensu_monitoring_agent.Prelude.Float.{Float64}
use zensu_monitoring_agent.Scrape.Resolve.{cpu, memory}
use zensu_monitoring_agent.Agent.Index.{ServiceTarget}
use zensu_monitoring_agent.Agent.Exposition.{MetricSample, metric_key_for}
use zensu_monitoring_agent.Agent.Workload.{PodReading, usage, no_data, api_unavailable, read_error}

abbrev pub source_auto : Str
source_auto = codes "auto"

abbrev pub source_metrics_server : Str
source_metrics_server = codes "metrics-server"

abbrev pub source_exposition : Str
source_exposition = codes "exposition"

abbrev pub source_none : Str
source_none = codes "none"

-- The errors of a source; the first two wrap `ErrSourceUnavailable`.
pub data SourceError : Type 0 where
  metrics_api_unavailable : SourceError
  metrics_reads_all_failed : SourceError
  source_failed : Str → SourceError

-- `errors.Is(err, ErrSourceUnavailable)`
unfoldable pub is_unavailable : SourceError → Bool
is_unavailable metrics_api_unavailable = true
is_unavailable metrics_reads_all_failed = true
is_unavailable (source_failed e) = false

-- The two results of `Samples`: a map, or no map and an error.
pub data Answer (F : Type 0) : Type 0 where
  served : Map (List (MetricSample F)) → Answer F
  refused : SourceError → Answer F

pub data ServerEvent : Type 0 where
  api_not_available : ServerEvent
  read_failed : Str → Str → ServerEvent

-- `metricsServerSource`, with its warnings.
pub record ServerSource : Type 0 where
  pub warned : Bool
  pub log : List ServerEvent

-- The variables of the loop of `Samples`.
pub record Reads (F : Type 0) : Type 0 where
  pub out : Map (List (MetricSample F))
  pub attempted : Bool
  pub answered : Bool

module _ (fl : Float64) (read : Str → Str → PodReading) where
  open fl use {F, of_int}

  abbrev pub two_samples : ℤ → ℤ → List (MetricSample F)
  two_samples c m =
      record { key = metric_key_for cpu; value = of_int c }
      ∷ record { key = metric_key_for memory; value = of_int m }
      ∷ []

  abbrev pub warn_api : ServerSource → ServerSource
  warn_api s =
      if s.warned then s else record { warned = true; log = s.log ++ api_not_available ∷ [] }

  -- What follows the loop.
  unfoldable pub finish : Reads F → ServerSource → ServerSource × Answer F
  finish r s = (
    (if r.answered then record s { warned = false } else s),
    (if r.attempted && not r.answered then refused metrics_reads_all_failed else served r.out),
  )

  unfoldable pub read_targets :
      List ServiceTarget → Reads F → ServerSource → ServerSource × Answer F
  read_targets [] r s = finish r s
  read_targets (t ∷ targets) r s =
      let skipped = read_targets targets r s in
      if is_empty t.selector then skipped else elim (read t.namespace t.selector) [
        | api_unavailable ↦ (warn_api s, refused metrics_api_unavailable)
        | read_error e ↦
            read_targets targets (record r { attempted = true })
              (record s { log = s.log ++ read_failed t.slug e ∷ [] })
        | no_data ↦ read_targets targets (record r { attempted = true; answered = true }) s
        | usage c m ↦
            read_targets targets
              (record {
                out = put t.slug (two_samples c m) r.out;
                attempted = true;
                answered = true;
              })
              s
      ]

  unfoldable pub server_samples : List ServiceTarget → ServerSource → ServerSource × Answer F
  server_samples targets s =
      read_targets targets (record { out = []; attempted = false; answered = false }) s

-- `MetricSource`, as a state with its methods.
pub record MetricSource (F : Type 0) : Type 1 where
  pub State : Type 0
  pub name : State → Str
  pub samples : List ServiceTarget → State → State × Answer F

-- `noneSource`
unfoldable pub none_source : {F : Type 0} → MetricSource F
none_source = record {
  State = Unit;
  name = λ s. source_none;
  samples = λ targets s. (s, served []);
}

-- 5 minutes, in nanoseconds
abbrev pub auto_retry_interval : ℕ
auto_retry_interval = 300000000000

pub data AutoEvent : Type 0 where
  available_again : AutoEvent
  switched_over : AutoEvent

module _ {F : Type 0} (primary fallback : MetricSource F) where
  open primary use {State as PrimaryState}
  open fallback use {State as FallbackState}

  -- `autoSource` with the states of its two sources; `switched_at` is in nanoseconds since 1970.
  pub record AutoSource : Type 0 where
    pub first : PrimaryState
    pub second : FallbackState
    pub switched : Bool
    pub switched_at : ℕ
    pub log : List AutoEvent

  -- `now - last >= interval`, with the subtraction on the other side
  unfoldable pub due_for_retry : ℕ → AutoSource → Bool
  due_for_retry now s = s.switched_at == 0 || leb (s.switched_at + auto_retry_interval) now

  unfoldable pub auto_name : AutoSource → Str
  auto_name s = if s.switched then fallback.name s.second else primary.name s.first

  unfoldable pub use_fallback : List ServiceTarget → AutoSource → AutoSource × Answer F
  use_fallback targets s =
      let (second, answer) = fallback.samples targets s.second in
      (record s { second = second }, answer)

  -- What follows an unavailable answer of the primary; `stamp` is the clock's second reading.
  unfoldable pub switch_over : ℕ → List ServiceTarget → AutoSource → AutoSource × Answer F
  switch_over stamp targets s = use_fallback targets (record s {
    switched = true;
    switched_at = stamp;
    log = if s.switched then s.log else s.log ++ switched_over ∷ [];
  })

  unfoldable pub after_primary :
      ℕ → List ServiceTarget → AutoSource → Answer F → AutoSource × Answer F
  after_primary stamp targets s (served out) = (
    (if s.switched then record s { switched = false; log = s.log ++ available_again ∷ [] } else s),
    served out,
  )
  after_primary stamp targets s (refused e) =
      if is_unavailable e then switch_over stamp targets s else (s, refused e)

  -- `now` and `stamp` are the two readings of the clock.
  unfoldable pub auto_samples : ℕ → ℕ → List ServiceTarget → AutoSource → AutoSource × Answer F
  auto_samples now stamp targets s =
      let (first, answer) = primary.samples targets s.first in
      let asked = after_primary stamp targets (record s { first = first }) answer in
      if s.switched && not (due_for_retry now s) then use_fallback targets s else asked

-- What the code reads of a parsed URL: whether it has a user, its scheme and its host name.
pub record ParsedUrl : Type 0 where
  pub has_user : Bool
  pub scheme : Str
  pub hostname : Str

pub data UrlError : Type 0 where
  not_a_url has_credentials needs_scheme needs_host : UrlError

-- Which source `NewMetricSource` builds, or why it builds none.
pub data Built : Type 0 where
  built_none built_metrics_server built_exposition built_auto : Built
  no_scrape_url : Built
  bad_scrape_url : UrlError → Built
  unknown_mode : Str → Built

module _ (parse : Str → Option ParsedUrl) where
  -- `none` is a nil error.
  unfoldable pub validate_url : Str → Option UrlError
  validate_url raw = elim (parse raw) [
    | none ↦ some not_a_url
    | some u ↦
        if u.has_user
        then some has_credentials
        else if not (eqb u.scheme (codes "http")) && not (eqb u.scheme (codes "https"))
        then some needs_scheme
        else if is_empty u.hostname
        then some needs_host
        else none
  ]

  -- `ValidateScrapeURL`: what it adds to the text of an error is the same for all.
  abbrev pub validate_scrape_url : Str → Option UrlError
  validate_scrape_url raw = validate_url raw

  abbrev pub checked : Str → Built → Built
  checked url built = elim (validate_scrape_url url) [ none ↦ built | some e ↦ bad_scrape_url e ]

  unfoldable pub new_metric_source : Str → Str → Built
  new_metric_source mode url =
      if eqb mode source_none
      then built_none
      else if eqb mode source_metrics_server
      then built_metrics_server
      else if eqb mode source_exposition
      then (if is_empty url then no_scrape_url else checked url built_exposition)
      else if eqb mode source_auto || is_empty mode
      then (if is_empty url then built_metrics_server else checked url built_auto)
      else unknown_mode mode
