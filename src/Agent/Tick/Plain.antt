-- ===== src/Agent/Tick/Plain.antt =====
-- The services that the first phase of `Collect` leaves have no metrics yet.
use zensu_monitoring_agent.Prelude.{
  ◌≡◌, some, List, [], ◌∷◌, Str, is_empty, All, All-append, inl, inr, Bool-cases, Option-cases,
  arith,
}
use zensu_monitoring_agent.Prelude.Maps.{get}
use zensu_monitoring_agent.Prelude.Int.{pos, ltb_ℤ}
use zensu_monitoring_agent.Agent.Workload.{ServiceHeartbeat, Deployment, Pod, map_deployment}
use zensu_monitoring_agent.Metrics.{}
use zensu_monitoring_agent.Agent.Collect.{
  Config, Listing, listing, list_error, Gathered, filled, restarted, timed, add_workload,
  gather_one, gather_all, gather,
}
use zensu_monitoring_agent.Agent.Collect.Claims.{Listing-cases}
use zensu_monitoring_agent.Agent.Tick.{}

module _ {F : Type 0} where
  abbrev pub IsPlain : ServiceHeartbeat F → Type 0
  IsPlain e = e.metrics ≡ []

  restarted-IsPlain :
      (pods : Listing (List Pod)) (e : ServiceHeartbeat F) → IsPlain e → IsPlain (restarted pods e)
  restarted-IsPlain (listing pods) e h = h
  restarted-IsPlain (list_error text) e h = h

  timed-IsPlain : (cfg : Config) (e : ServiceHeartbeat F) → IsPlain e → IsPlain (timed cfg e)
  timed-IsPlain cfg e h = elim (Bool-cases (ltb_ℤ (pos 0) cfg.interval)) [
    | inl b ↦ rw b h
    | inr b ↦ rw b h
  ]

  filled-IsPlain :
      (cfg : Config) (sel : Str) (pods : Listing (List Pod)) (e : ServiceHeartbeat F)
      → IsPlain e
      → IsPlain (filled cfg sel pods e)
  filled-IsPlain cfg sel pods e h = elim (Bool-cases (is_empty sel)) [
    | inl b ↦ rw b (timed-IsPlain cfg e h)
    | inr b ↦ rw b (restarted-IsPlain pods (timed cfg e) (timed-IsPlain cfg e h))
  ]

  map_deployment-IsPlain :
      (d : Deployment) (e : ServiceHeartbeat F) → map_deployment d ≡ some e → IsPlain e
  unfolding map_deployment
  map_deployment-IsPlain d e h = ground (arith, h)

  module _ (list_pods : Str → Str → Listing (List Pod)) (cfg : Config) where
    gather_one-IsPlain :
        (ns : Str) (d : Deployment) (g : Gathered F)
        → All IsPlain g.out
        → All IsPlain (gather_one list_pods cfg ns d g).out
    unfolding gather_one add_workload
    gather_one-IsPlain ns d g h = elim (Option-cases (map_deployment {F = F} d)) [
      | inl e ↦ rw (gather_one, e) h
      | inr (entry, e) ↦ elim (Option-cases (get entry.slug g.claimed)) [
        | inr (owner, taken) ↦ rw (gather_one, e, taken) h
        | inl free ↦
            rw (gather_one, e, free)
              (All-append IsPlain g.out _ h
                (filled-IsPlain cfg _ _ entry (map_deployment-IsPlain d entry e), tt))
      ]
    ]

    gather_all-IsPlain :
        (ns : Str) (deps : List Deployment) (g : Gathered F)
        → All IsPlain g.out
        → All IsPlain (gather_all list_pods cfg ns deps g).out
    unfolding gather_all
    gather_all-IsPlain ns [] g h = h
    gather_all-IsPlain ns (d ∷ deps) g h =
        gather_all-IsPlain ns deps (gather_one list_pods cfg ns d g) (gather_one-IsPlain ns d g h)

    pub gather-IsPlain :
        (list_deployments : Str → Listing (List Deployment)) (namespaces : List Str)
        (g : Gathered F)
        → All IsPlain g.out
        → All IsPlain (gather list_pods list_deployments cfg namespaces g).0.out
    unfolding gather
    gather-IsPlain list_deployments [] g h = h
    gather-IsPlain list_deployments (ns ∷ more) g h = elim (Listing-cases (list_deployments ns)) [
      | inr (e, failed) ↦ rw (gather, failed) h
      | inl (deps, listed) ↦
          rw (gather, listed)
            (gather-IsPlain list_deployments more (gather_all list_pods cfg ns deps g)
              (gather_all-IsPlain ns deps g h))
    ]
