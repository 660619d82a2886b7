-- ===== src/Scrape/Decode.antt =====
-- internal/scrape/scrape.go: `Client`, `Fetch` and `decode`. The parser of the exposition format is a
-- parameter, and so is the answer of the HTTP client.
pub mod Budget
pub mod Limit
pub mod Fetched
mod Tests
use zensu_monitoring_agent.Prelude.{
  ℕ, suc, ◌+◌, ◌-◌, ◌/◌, ◌≡◌, Bool, true, false, not, ◌&&◌, ◌||◌, Option, none, some, List, [], ◌∷◌,
  ◌++◌, Str, codes, if◌then◌else◌, length, ltb, leb,
}
use zensu_monitoring_agent.Prelude.Maps.{Map, put}
use zensu_monitoring_agent.Prelude.Int.{ℤ, pos, negsuc}
use zensu_monitoring_agent.Prelude.Float.{Float64, is_finite}
use zensu_monitoring_agent.Redact.{
  take, truncate, sanitize, for_log, TransportError, transport_reason, snippet_bytes,
  status_phrase_bytes,
}
use zensu_monitoring_agent.Scrape.Series.{Kind, unsupported, gauge, counter, Series}
use zensu_monitoring_agent.Scrape.BaseNames.{normalize_name}
use zensu_monitoring_agent.Scrape.Labels.{is_set}

abbrev pub default_max_bytes : ℕ
default_max_bytes = 8388608

abbrev pub expansion_factor : ℕ
expansion_factor = 10

abbrev pub max_configurable_bytes : ℕ
max_configurable_bytes = 16777216

abbrev pub max_samples : ℕ
max_samples = 50000

-- 10 seconds
abbrev pub default_timeout : ℕ
default_timeout = 10000000000

-- `dto.MetricType`: the types that the code names, and the others.
pub data MetricType : Type 0 where
  gauge_type untyped_type counter_type other_type : MetricType

-- What the code reads of a `dto.Metric`: the labels in order, and the value of each part that is set.
pub record Metric (F : Type 0) : Type 0 where
  pub labels : List (Str × Str)
  pub gauge_value : Option F
  pub untyped_value : Option F
  pub counter_value : Option F

pub record MetricFamily (F : Type 0) : Type 0 where
  pub name : Str
  pub metric_type : MetricType
  pub metrics : List (Metric F)

-- One result of `Decode`; the end of the list is `io.EOF`.
pub data Decoded (F : Type 0) : Type 0 where
  family : MetricFamily F → Decoded F
  parse_error : Str → Decoded F

pub data FetchError : Type 0 where
  build_failed : Str → FetchError
  request_failed : Str → FetchError
  bad_status : ℕ → Str → Str → FetchError
  read_failed : Str → FetchError
  body_too_large : FetchError
  decode_failed : Str → FetchError
  too_many_samples : FetchError

pub data Outcome (A : Type 0) : Type 0 where
  ok : A → Outcome A
  failed : FetchError → Outcome A

unfoldable pub kind_of : MetricType → Kind
kind_of gauge_type = gauge
kind_of untyped_type = gauge
kind_of counter_type = counter
kind_of other_type = unsupported

unfoldable pub kind_string : Kind → Str
kind_string gauge = codes "gauge"
kind_string counter = codes "counter"
kind_string unsupported = codes "unsupported"

abbrev pub is_unsupported : Kind → Bool
is_unsupported unsupported = true
is_unsupported gauge = false
is_unsupported counter = false

abbrev pub value_of : {F : Type 0} → Metric F → MetricType → Option F
value_of m gauge_type = m.gauge_value
value_of m untyped_type = m.untyped_value
value_of m counter_type = m.counter_value
value_of m other_type = none

unfoldable pub set_labels : List (Str × Str) → Map Str → Map Str
set_labels [] labels = labels
set_labels ((k, v) ∷ pairs) labels = set_labels pairs (put k v labels)

module _ (fl : Float64) where
  open fl use {F}

  unfoldable pub scalar_of : Metric F → MetricType → Option F
  scalar_of m t = elim (value_of m t) [
    | none ↦ none
    | some v ↦ if not (is_finite fl v) then none else some v
  ]

  unfoldable pub series_of : MetricFamily F → Metric F → F → Series F
  series_of mf m value = record {
    name = mf.name;
    labels = set_labels m.labels [];
    value = value;
    kind = kind_of mf.metric_type;
  }

  -- The loop over the metrics of a family, from the rows already there.
  unfoldable pub rows_of :
      MetricFamily F → ℕ → List (Metric F) → List (Series F) → Option (List (Series F))
  rows_of mf budget [] out = some out
  rows_of mf budget (m ∷ ms) out = elim (scalar_of m mf.metric_type) [
    | none ↦ rows_of mf budget ms out
    | some value ↦
        let rest = rows_of mf budget ms (out ++ series_of mf m value ∷ []) in
        if leb budget (length out) then none else rest
  ]

  -- A false second result is `none`.
  unfoldable pub series_from_family : MetricFamily F → ℕ → Option (List (Series F))
  series_from_family mf budget =
      if is_unsupported (kind_of mf.metric_type) then some [] else rows_of mf budget mf.metrics []

  -- `!(len(keep) > 0 && !keep[NormalizeName(mf.GetName())])`
  unfoldable pub admits : Map Bool → MetricFamily F → Bool
  admits keep mf = not (ltb 0 (length keep) && not (is_set (normalize_name mf.name) keep))

  -- `out` never holds more than `max_samples` rows, so the difference is the source's.
  unfoldable pub decode_from :
      Map Bool → List (Decoded F) → List (Series F) → Outcome (List (Series F))
  decode_from keep [] out = ok out
  decode_from keep (parse_error text ∷ more) out = failed (decode_failed (for_log text))
  decode_from keep (family mf ∷ more) out =
      let skipped = decode_from keep more out in
      if not (admits keep mf)
      then skipped
      else elim (series_from_family mf (max_samples - length out)) [
        | none ↦ failed too_many_samples
        | some rows ↦ decode_from keep more (out ++ rows)
      ]

  unfoldable pub decode : Map Bool → List (Decoded F) → Outcome (List (Series F))
  decode keep families = decode_from keep families []

pub record Client : Type 0 where
  pub url : Str
  pub timeout : ℤ
  pub max_bytes : ℤ
  pub mem_limit : ℤ

abbrev pub positive_or : ℤ → ℕ → ℕ
positive_or (pos n) default = if ltb 0 n then n else default
positive_or (negsuc n) default = default

-- The timeout is in nanoseconds.
unfoldable pub new_client : Str → ℤ → Client
new_client url timeout = record {
  url = url;
  timeout = pos (positive_or timeout default_timeout);
  max_bytes = pos default_max_bytes;
  mem_limit = pos 0;
}

-- `runtime_limit` is what `debug.SetMemoryLimit(-1)` reports: the limit in force, never negative.
unfoldable pub ceiling : ℕ → Client → ℕ
ceiling runtime_limit c =
    let derived = positive_or c.mem_limit runtime_limit / expansion_factor in
    if ltb derived default_max_bytes
    then default_max_bytes
    else if ltb max_configurable_bytes derived
    then max_configurable_bytes
    else derived

unfoldable pub read_limit : ℕ → Client → ℕ
read_limit runtime_limit c = elim c.max_bytes [
  | negsuc n ↦ default_max_bytes
  | pos n ↦ if leb n 0 || ltb (ceiling runtime_limit c) n then default_max_bytes else n
]

unfoldable pub effective_max_bytes : ℕ → Client → ℕ
effective_max_bytes = read_limit

-- A body is its bytes, and the error that reading past them meets in place of the end.
pub record Response : Type 0 where
  pub status_code : ℕ
  pub status : Str
  pub body : Str
  pub body_error : Option Str

-- What `http.NewRequestWithContext` and `client.Do` may answer.
pub data Exchange : Type 0 where
  not_built : TransportError → Exchange
  not_sent : TransportError → Exchange
  answered : Response → Exchange

-- The error of `io.ReadAll` over a reader limited to `n` bytes: met if the body ends before.
unfoldable pub read_error : ℕ → Response → Option Str
read_error n r = if ltb (length r.body) n then r.body_error else none

module _ (fl : Float64) (parse : Str → List (Decoded fl.F)) where
  open fl use {F}

  unfoldable pub read_series : ℕ → Map Bool → Response → Outcome (List (Series F))
  read_series limit keep r =
      if leb 300 r.status_code
      then failed (
          bad_status r.status_code (sanitize (truncate r.status status_phrase_bytes))
            (sanitize (take snippet_bytes r.body)))
      else elim (read_error (limit + 1) r) [
        | some text ↦ failed (read_failed (for_log text))
        | none ↦
            let body = take (limit + 1) r.body in
            if ltb limit (length body) then failed body_too_large else decode fl keep (parse body)
      ]

  unfoldable pub fetch : ℕ → Client → Map Bool → Exchange → Outcome (List (Series F))
  fetch runtime_limit c keep (not_built e) = failed (build_failed (for_log (transport_reason e)))
  fetch runtime_limit c keep (not_sent e) = failed (request_failed (for_log (transport_reason e)))
  fetch runtime_limit c keep (answered r) = read_series (read_limit runtime_limit c) keep r
