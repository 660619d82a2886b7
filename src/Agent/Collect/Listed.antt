-- ===== src/Agent/Collect/Listed.antt =====
-- Which of the listed Deployments internal/agent/agent.go is to report, by what stands before each of them.
use zensu_monitoring_agent.Prelude.{
  not, ◌&&◌, Option, none, some, List, [], ◌∷◌, ◌++◌, Str, eqb, is_empty, if◌then◌else◌, any, map,
}
use zensu_monitoring_agent.Prelude.Maps.{get}
use zensu_monitoring_agent.Prelude.Int.{pos}
use zensu_monitoring_agent.Scrape.Series.{or_empty}
use zensu_monitoring_agent.Agent.Workload.{
  annotation_service, ServiceHeartbeat, Deployment, or_zero, derive_status,
}
use zensu_monitoring_agent.Agent.Collect.{Listing, listing, list_error}

-- A Deployment with its namespace.
abbrev pub Listed : Type 0
Listed = Str × Deployment

abbrev pub slug_of : Listed → Str
slug_of (ns, d) = or_empty (get annotation_service d.annotations)

-- The annotated Deployments whose slug no Deployment before has, be it in an earlier namespace.
abbrev pub first_of : List Listed → List Listed → List Listed
first_of before [] = []
first_of before (w ∷ ws) =
    if not (is_empty (slug_of w)) && not (any (λ v. eqb (slug_of v) (slug_of w)) before)
    then w ∷ first_of (w ∷ before) ws
    else first_of (w ∷ before) ws

abbrev pub and_then : Str → List Deployment → Option (List Listed) → Option (List Listed)
and_then ns deps none = none
and_then ns deps (some ws) = some (map (λ d. (ns, d)) deps ++ ws)

-- All that the namespaces list, in order, if none of the listings fails.
abbrev pub all_listed : (Str → Listing (List Deployment)) → List Str → Option (List Listed)
all_listed list_deployments [] = some []
all_listed list_deployments (ns ∷ more) = elim (list_deployments ns) [
  | list_error e ↦ none
  | listing deps ↦ and_then ns deps (all_listed list_deployments more)
]

-- What is reported of a Deployment before its pods are listed.
abbrev pub service_of : {F : Type 0} → Deployment → ServiceHeartbeat F
service_of d = record {
  slug = or_empty (get annotation_service d.annotations);
  name = d.name;
  status = derive_status d.ready_replicas (or_zero d.replicas);
  ready_replicas = some d.ready_replicas;
  desired_replicas = some (or_zero d.replicas);
  restart_count = none;
  interval_seconds = pos 0;
  metrics = [];
}
