-- ===== src/Agent/Tick/Samples.antt =====
-- What the samples of a source change in the services that `Collect` returns: their metrics only.
use zensu_monitoring_agent.Prelude.{
  ◌≡◌, refl, ap, Option, none, some, List, [], ◌∷◌, map, inl, inr, Option-cases,
}
use zensu_monitoring_agent.Prelude.Maps.{Map, get}
use zensu_monitoring_agent.Agent.Exposition.{MetricSample}
use zensu_monitoring_agent.Agent.Workload.{ServiceHeartbeat}
use zensu_monitoring_agent.Agent.Collect.{attach_one, attach, slugs_of}

-- A service without its metrics.
abbrev pub strip : {F : Type 0} → ServiceHeartbeat F → ServiceHeartbeat F
strip e = record e { metrics = [] }

abbrev pub strip_all :
    {F : Type 0} → Option (List (ServiceHeartbeat F)) → Option (List (ServiceHeartbeat F))
strip_all none = none
strip_all (some es) = some (map strip es)

strip-attach_one :
    {F : Type 0} (samples : Map (List (MetricSample F))) (e : ServiceHeartbeat F)
    → strip (attach_one samples e) ≡ strip e
unfolding attach_one
strip-attach_one samples e = elim (Option-cases (get e.slug samples)) [
  | inl h ↦ rw (attach_one, h) refl
  | inr (ms, h) ↦ rw (attach_one, h) refl
]

pub strip-attach :
    {F : Type 0} (samples : Map (List (MetricSample F))) (es : List (ServiceHeartbeat F))
    → map strip (attach samples es) ≡ map strip es
unfolding attach
strip-attach samples [] = refl
strip-attach samples (e ∷ es) = rw (strip-attach_one samples e, strip-attach samples es) refl

pub slugs_of-strip :
    {F : Type 0} (es : List (ServiceHeartbeat F)) → slugs_of (map strip es) ≡ slugs_of es
slugs_of-strip [] = refl
slugs_of-strip (e ∷ es) = ap (λ s. e.slug ∷ s) (slugs_of-strip es)
