-- ===== src/Agent/Tick/Counting.antt =====
-- What `Collect` counts for the agent's metrics: the samples of the services that it returns.
use zensu_monitoring_agent.Prelude.{
  ℕ, ◌+◌, ◌≡◌, refl, ap, Option, none, some, List, [], ◌∷◌, ◌++◌, Str, eqb, eqb_iff, if◌then◌else◌,
  All, inl, inr, Bool-cases, Option-cases, arith,
}
use zensu_monitoring_agent.Prelude.Maps.{Map, get, put, get-put}
use zensu_monitoring_agent.Agent.Exposition.{MetricSample, or_nil}
use zensu_monitoring_agent.Agent.Workload.{ServiceHeartbeat}
use zensu_monitoring_agent.Metrics.{}
use zensu_monitoring_agent.Agent.Collect.{attach_one, attach}
use zensu_monitoring_agent.Agent.Counts.{
  Counts, or_zero, count_samples, count_service, count_services,
}
use zensu_monitoring_agent.Agent.Tick.Plain.{IsPlain}

or_zero-put :
    (j k : Str) (m : Map ℕ)
    → or_zero (get k (put j (or_zero (get j m) + 1) m))
      ≡ or_zero (get k m) + (if eqb j k then 1 else 0)
or_zero-put j k m = elim (Bool-cases (eqb j k)) [
  | inl e ↦
      rw (get-put j k (or_zero (get j m) + 1) m, e)
        (ap (λ x. or_zero (get x m) + 1) ((eqb_iff j k).0 e))
  | inr e ↦ rw (get-put j k (or_zero (get j m) + 1) m, e) (omega arith)
]

module _ {F : Type 0} where
  -- How many of the samples have a key.
  abbrev pub samples_with : Str → List (MetricSample F) → ℕ
  samples_with k [] = 0
  samples_with k (m ∷ ms) = (if eqb m.key k then 1 else 0) + samples_with k ms

  abbrev pub all_with : Str → List (ServiceHeartbeat F) → ℕ
  all_with k [] = 0
  all_with k (e ∷ es) = samples_with k e.metrics + all_with k es

  abbrev pub has_metrics : List (MetricSample F) → ℕ
  has_metrics [] = 0
  has_metrics (m ∷ ms) = 1

  -- How many of the services have metrics.
  abbrev pub with_metrics : List (ServiceHeartbeat F) → ℕ
  with_metrics [] = 0
  with_metrics (e ∷ es) = has_metrics e.metrics + with_metrics es

  count_samples_lem :
      (k : Str) (ms : List (MetricSample F)) (per_role : Map ℕ)
      → or_zero (get k (count_samples ms per_role)) ≡ or_zero (get k per_role) + samples_with k ms
  unfolding count_samples
  count_samples_lem k [] per_role = omega arith
  count_samples_lem k (m ∷ ms) per_role =
      let step = put m.key (or_zero (get m.key per_role) + 1) per_role in
      omega (arith, count_samples_lem k ms step, or_zero-put m.key k per_role)

  count_service_lem :
      (k : Str) (ms : Option (List (MetricSample F))) (c : Counts)
      → ((count_service ms c).mapped ≡ c.mapped + has_metrics (or_nil ms))
        × (or_zero (get k (count_service ms c).per_role)
            ≡ or_zero (get k c.per_role) + samples_with k (or_nil ms))
  unfolding count_service
  count_service_lem k none c = (omega arith, omega arith)
  count_service_lem k (some []) c = (omega arith, omega arith)
  count_service_lem k (some (m ∷ ms)) c = (refl, count_samples_lem k (m ∷ ms) c.per_role)

  attach_one-metrics :
      (samples : Map (List (MetricSample F))) (e : ServiceHeartbeat F)
      → IsPlain e
      → (attach_one samples e).metrics ≡ or_nil (get e.slug samples)
  unfolding attach_one
  attach_one-metrics samples e h = elim (Option-cases (get e.slug samples)) [
    | inl absent ↦ rw (attach_one, absent) h
    | inr (ms, there) ↦ rw (attach_one, there) (ap (λ x. x ++ ms) h)
  ]

  pub count_services_lem :
      (k : Str) (samples : Map (List (MetricSample F))) (es : List (ServiceHeartbeat F))
      (c : Counts)
      → All IsPlain es
      → ((count_services samples es c).mapped ≡ c.mapped + with_metrics (attach samples es))
        × (or_zero (get k (count_services samples es c).per_role)
            ≡ or_zero (get k c.per_role) + all_with k (attach samples es))
  unfolding count_services attach
  count_services_lem k samples [] c h = (omega arith, omega arith)
  count_services_lem k samples (e ∷ es) c h =
      let (mapped, keyed) = count_service_lem k (get e.slug samples) c in
      let (later, keyed_later) =
        count_services_lem k samples es (count_service (get e.slug samples) c) h.1 in
      let same = attach_one-metrics samples e h.0 in
      (
        omega (arith, mapped, later, ap has_metrics same),
        omega (arith, keyed, keyed_later, ap (samples_with k) same),
      )
