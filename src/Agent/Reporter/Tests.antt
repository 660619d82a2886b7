-- ===== src/Agent/Reporter/Tests.antt =====
-- Runs of the reporter, and its theorems at a concrete answer.
use zensu_monitoring_agent.Prelude.{◌≡◌, ◌⊎◌, refl, true, false, none, some, [], codes}
use zensu_monitoring_agent.Prelude.Int.{pos}
use zensu_monitoring_agent.Prelude.Sample.{Value}
use zensu_monitoring_agent.Redact.{
  take, truncate, sanitize, for_log, trim, trim_space, space_head, space_last, reverse, drop,
  printable,
}
use zensu_monitoring_agent.Scrape.Decode.{Exchange, answered}
use zensu_monitoring_agent.Metrics.{record_heartbeat}
use zensu_monitoring_agent.Agent.Reporter.{
  HeartbeatBatch, trim_right, new_reporter, Request, SendError, rejected, Marshalled, body,
  request_of, judge, attempt, send,
}
use zensu_monitoring_agent.Agent.Reporter.Delivery.{IsDelivered, send_lem}

reporter : Unit {0}
unfolding take drop truncate reverse trim trim_space space_head space_last printable sanitize
    for_log trim_right new_reporter request_of judge attempt send
reporter = tt

abbrev batch : HeartbeatBatch Value
batch = record { product_id = codes "p"; source = codes "k8s-agent"; services = [] }

abbrev marshal : HeartbeatBatch Value → Marshalled
marshal b = body b.product_id

-- A server that turns every request away.
abbrev post : Request → Exchange
post r =
    answered (record { status_code = 401; status = []; body = codes "no\n"; body_error = none })

send_run :
    (send marshal post (pos 1) 2 (new_reporter (codes "u//") []) batch none).1
    ≡ some (rejected 401 (codes "no"))
unfolding reporter
send_run = refl

send_lem_example :
    let r = new_reporter (codes "u//") [] in
    (IsDelivered marshal post r batch
      × (send marshal post (pos 1) 2 r batch none ≡ (record_heartbeat true (pos 1) 2 none, none)))
    ⊎ ((¬ IsDelivered marshal post r batch)
        × ((e : SendError) × (send marshal post (pos 1) 2 r batch none
              ≡ (record_heartbeat false (pos 1) 2 none, some e))))
send_lem_example = send_lem marshal post (pos 1) 2 (new_reporter (codes "u//") []) batch none
