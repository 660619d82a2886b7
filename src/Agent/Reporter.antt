-- ===== src/Agent/Reporter.antt =====
-- internal/agent/reporter.go: `Reporter`. `json.Marshal` and the HTTP client are parameters. The metrics of
-- the reporter are those of the agent, and are passed in and out.
pub mod Delivery
mod Tests
use zensu_monitoring_agent.Prelude.{
  ℕ, ◌≡◌, Bool, true, false, Option, none, some, List, [], ◌∷◌, ◌++◌, Str, codes, if◌then◌else◌,
  leb, ◌==◌, is_some, not,
}
use zensu_monitoring_agent.Prelude.Int.{ℤ}
use zensu_monitoring_agent.Redact.{
  take, for_log, transport_reason, reverse, snippet_bytes, TransportError, url_error, other_error,
}
use zensu_monitoring_agent.Scrape.Decode.{Exchange, not_built, not_sent, answered}
use zensu_monitoring_agent.Agent.Workload.{ServiceHeartbeat}
use zensu_monitoring_agent.Agent.Source.{ParsedUrl, UrlError, validate_url}
use zensu_monitoring_agent.Metrics.{Metrics, record_heartbeat}

pub record HeartbeatBatch (F : Type 0) : Type 0 where
  pub product_id : Str
  pub source : Str
  pub services : List (ServiceHeartbeat F)

pub record Reporter : Type 0 where
  pub base_url : Str
  pub api_key : Str

-- `ValidateAPIURL`; `none` is a nil error.
unfoldable pub validate_api_url : (Str → Option ParsedUrl) → Str → Option UrlError
validate_api_url parse raw = validate_url parse raw

-- `strings.TrimRight(s, "/")`: a slash goes if all that follows it has gone.
unfoldable pub trim_right : Str → Str
trim_right [] = []
trim_right (c ∷ s) = elim (trim_right s) [
  | [] ↦ if c == b'/' then [] else c ∷ []
  | d ∷ t ↦ c ∷ d ∷ t
]

unfoldable pub new_reporter : Str → Str → Reporter
new_reporter base_url api_key = record { base_url = trim_right base_url; api_key = api_key }

-- What is posted: the URL, the two headers and the body.
pub record Request : Type 0 where
  pub url : Str
  pub content_type : Str
  pub api_key : Str
  pub body : Str

pub data SendError : Type 0 where
  marshal_failed : Str → SendError
  request_not_built : TransportError → SendError
  heartbeat_failed : Str → SendError
  rejected : ℕ → Str → SendError

-- A body, or the error of `json.Marshal`.
pub data Marshalled : Type 0 where
  body : Str → Marshalled
  unmarshallable : Str → Marshalled

unfoldable pub request_of : Reporter → Str → Request
request_of r text = record {
  url = r.base_url ++ codes "/api/runtime/heartbeat";
  content_type = codes "application/json";
  api_key = r.api_key;
  body = text;
}

-- What `Send` makes of the client's answer; `none` is a nil error.
unfoldable pub judge : Exchange → Option SendError
judge (not_built e) = some (request_not_built e)
judge (not_sent e) = some (heartbeat_failed (for_log (transport_reason e)))
judge (answered r) =
    if leb 300 r.status_code
    then some (rejected r.status_code (for_log (take snippet_bytes r.body)))
    else none

module _ {F : Type 0} (marshal : HeartbeatBatch F → Marshalled) (post : Request → Exchange) where
  unfoldable pub attempt : Reporter → HeartbeatBatch F → Option SendError
  attempt r batch = elim (marshal batch) [
    | unmarshallable e ↦ some (marshal_failed e)
    | body text ↦ judge (post (request_of r text))
  ]

  -- `Send`, with the deferred `RecordHeartbeat`: `d` is the time since the start.
  unfoldable pub send :
      ℤ → ℕ → Reporter → HeartbeatBatch F → Option Metrics → Option Metrics × Option SendError
  send d now r batch m =
      let err = attempt r batch in (record_heartbeat (not (is_some err)) d now m, err)
