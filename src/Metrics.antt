-- ===== src/Metrics.antt =====
-- internal/metrics/metrics.go: the agent's own metrics. A counter holds how often it was incremented, a
-- gauge the integer it was last set to, a histogram the durations it observed in nanoseconds. The
-- registry of prometheus/client_golang and the HTTP server are not here.
pub mod Calls
pub mod History
pub mod Sources
mod Tests
use zensu_monitoring_agent.Prelude.{
  ℕ, ◌+◌, ◌≡◌, Bool, true, false, not, Option, none, some, List, [], ◌∷◌, ◌++◌, Str, codes, eqb,
  if◌then◌else◌, any,
}
use zensu_monitoring_agent.Prelude.Maps.{Map, get, put, has}
use zensu_monitoring_agent.Prelude.Int.{ℤ, pos}

abbrev pub default_addr : Str
default_addr = codes ":2112"

abbrev pub resource_roles : List Str
resource_roles = codes "cpu" ∷ codes "memory" ∷ []

abbrev pub source_metrics_server : Str
source_metrics_server = codes "metrics-server"

abbrev pub source_exposition : Str
source_exposition = codes "exposition"

abbrev pub source_none : Str
source_none = codes "none"

abbrev pub source_unknown : Str
source_unknown = codes "unknown"

abbrev pub resource_sources : List Str
resource_sources = source_metrics_server ∷ source_exposition ∷ source_none ∷ source_unknown ∷ []

pub record Metrics : Type 0 where
  pub heartbeats : Map ℕ
  pub last_success : ℕ
  pub post_durations : List ℤ
  pub services_reported : ℤ
  pub scrapes : Map ℕ
  pub scrape_durations : List ℤ
  pub resource_services_mapped : ℤ
  pub roles_withheld : Map ℤ
  pub resource_samples : Map ℤ
  pub resource_source : Map ℤ

abbrev pub success_label : Str
success_label = codes "success"

abbrev pub error_label : Str
error_label = codes "error"

-- `WithLabelValues(k)` makes the series, at `zero`, if it is not there.
unfoldable pub with_label {ℓ} : {V : Type ℓ} → V → Str → Map V → Map V
with_label zero k m = if has k m then m else put k zero m

unfoldable pub with_labels {ℓ} : {V : Type ℓ} → V → List Str → Map V → Map V
with_labels zero [] m = m
with_labels zero (k ∷ ks) m = with_labels zero ks (with_label zero k m)

-- `New` and `NewWithRegistry`
unfoldable pub new_metrics : Metrics
new_metrics = record {
  heartbeats = with_labels 0 (success_label ∷ error_label ∷ []) [];
  last_success = 0;
  post_durations = [];
  services_reported = pos 0;
  scrapes = with_labels 0 (success_label ∷ error_label ∷ []) [];
  scrape_durations = [];
  resource_services_mapped = pos 0;
  roles_withheld = with_labels (pos 0) resource_roles [];
  resource_samples = with_labels (pos 0) resource_roles [];
  resource_source = with_labels (pos 0) resource_sources [];
}

abbrev pub or_zero : Option ℕ → ℕ
or_zero none = 0
or_zero (some n) = n

-- `WithLabelValues(k).Inc()`
unfoldable pub inc : Str → Map ℕ → Map ℕ
inc k m = put k (or_zero (get k m) + 1) m

-- Each method does nothing for a nil receiver, `none`. `now` is what `SetToCurrentTime` reads.
unfoldable pub record_heartbeat : Bool → ℤ → ℕ → Option Metrics → Option Metrics
record_heartbeat success d now none = none
record_heartbeat true d now (some m) = some (record m {
  heartbeats = inc success_label m.heartbeats;
  last_success = now;
  post_durations = m.post_durations ++ d ∷ [];
})
record_heartbeat false d now (some m) = some (record m {
  heartbeats = inc error_label m.heartbeats;
  post_durations = m.post_durations ++ d ∷ [];
})

unfoldable pub set_services_reported : ℤ → Option Metrics → Option Metrics
set_services_reported n none = none
set_services_reported n (some m) = some (record m { services_reported = n })

unfoldable pub record_scrape : Bool → ℤ → Option Metrics → Option Metrics
record_scrape success d none = none
record_scrape success d (some m) = some (record m {
  scrapes = inc (if success then success_label else error_label) m.scrapes;
  scrape_durations = m.scrape_durations ++ d ∷ [];
})

unfoldable pub set_resource_services_mapped : ℤ → Option Metrics → Option Metrics
set_resource_services_mapped n none = none
set_resource_services_mapped n (some m) = some (record m { resource_services_mapped = n })

unfoldable pub set_resource_samples : Str → ℤ → Option Metrics → Option Metrics
set_resource_samples role n none = none
set_resource_samples role n (some m) =
    some (record m { resource_samples = put role n m.resource_samples })

-- The name under which `SetResourceSource` records a source.
unfoldable pub canonical : Str → Str
canonical active = if not (any (λ s. eqb s active) resource_sources) then source_unknown else active

-- Its loop.
unfoldable pub set_sources : Str → List Str → Map ℤ → Map ℤ
set_sources active [] m = m
set_sources active (source ∷ sources) m =
    set_sources active sources (put source (if eqb source active then pos 1 else pos 0) m)

unfoldable pub set_resource_source : Str → Option Metrics → Option Metrics
set_resource_source active none = none
set_resource_source active (some m) = some (record m {
  resource_source = set_sources (canonical active) resource_sources m.resource_source;
})

unfoldable pub set_roles_withheld : Str → ℤ → Option Metrics → Option Metrics
set_roles_withheld role n none = none
set_roles_withheld role n (some m) =
    some (record m { roles_withheld = put role n m.roles_withheld })

-- What ends `Serve`: the context, after which the server is shut down, or the listener.
pub data ServeEnd : Type 0 where
  cancelled : Str → ServeEnd
  listener_failed : Str → ServeEnd

-- `Serve` returns an error, or nil (`none`) for a nil receiver.
unfoldable pub serve : Option Metrics → ServeEnd → Option Str
serve none e = none
serve (some m) (cancelled e) = some e
serve (some m) (listener_failed e) = some e
