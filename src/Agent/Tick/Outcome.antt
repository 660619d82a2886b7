-- ===== src/Agent/Tick/Outcome.antt =====
-- When a tick returns nil.
use zensu_monitoring_agent.Prelude.{
  ◌≡◌, ◌↔◌, ◌⊎◌, refl, Option, none, some, List, [], ◌∷◌, inl, inr, Option-cases, arith,
}
use zensu_monitoring_agent.Agent.Workload.{ServiceHeartbeat}
use zensu_monitoring_agent.Agent.Source.{MetricSource}
use zensu_monitoring_agent.Agent.Collect.{Config}
use zensu_monitoring_agent.Agent.Reporter.{HeartbeatBatch, Reporter, attempt, send}
use zensu_monitoring_agent.Agent.Reporter.Delivery.{IsDelivered, attempt_iff}
use zensu_monitoring_agent.Agent.Tick.{Environment, Agent, collect, report, after_collect, tick}

abbrev pub batch_of : {F : Type 0} → Config → List (ServiceHeartbeat F) → HeartbeatBatch F
batch_of cfg services = record {
  product_id = cfg.product_id;
  source = cfg.source;
  services = services;
}

module _ {F : Type 0} (source : MetricSource F) (cfg : Config) (reporter : Reporter)
    (env : Environment F) where
  -- There is nothing to post, or it was delivered.
  abbrev pub IsReported : List (ServiceHeartbeat F) → Type 0
  IsReported services =
      (services ≡ []) ⊎ IsDelivered env.marshal env.post reporter (batch_of cfg services)

  report_iff :
      (services : List (ServiceHeartbeat F)) (a : Agent source)
      → ((report source cfg reporter env services a).1 ≡ none) ↔ IsReported services
  unfolding report send
  report_iff [] a = (λ h. inl refl, λ h. refl)
  report_iff (e ∷ services) a =
      let batch = batch_of cfg (e ∷ services) in
      let sent = attempt_iff env.marshal env.post reporter batch in
      elim (Option-cases (attempt env.marshal env.post reporter batch)) [
        | inl ok ↦ (λ h. inr (sent.0 ok), λ h. rw (report, send, ok) refl)
        | inr (failure, ko) ↦ (
          (λ h. absurd (ground (arith, rw (report, send, ko) at h))),
          λ h. elim h [
            | inl empty ↦ absurd (ground (arith, empty))
            | inr delivered ↦ absurd (ground (arith, ko, sent.1 delivered))
          ],
        )
      ]

  -- `Collect` succeeds, and what it returns is reported.
  abbrev pub Succeeds : Agent source → Type 0
  Succeeds a =
      (services : List (ServiceHeartbeat F)) × ((collect source cfg env a).1 ≡ some services)
      × IsReported services

  after_collect_iff :
      (x : Agent source × Option (List (ServiceHeartbeat F)))
      → ((after_collect source cfg reporter env x).1 ≡ none)
        ↔ ((services : List (ServiceHeartbeat F)) × (x.1 ≡ some services) × IsReported services)
  unfolding after_collect
  after_collect_iff (a, none) =
      ((λ h. absurd (ground (arith, h))), λ (services, h, ok). absurd (ground (arith, h)))
  after_collect_iff (a, some services) = (
    (λ h. (services, refl, (report_iff services a).0 h)),
    λ (found, h, ok). let same : services ≡ found = cc in (report_iff services a).1 (rw same ok),
  )

  pub tick_iff : (a : Agent source) → ((tick source cfg reporter env a).1 ≡ none) ↔ Succeeds a
  unfolding tick
  tick_iff a = after_collect_iff (collect source cfg env a)
