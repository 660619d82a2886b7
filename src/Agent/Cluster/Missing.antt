-- ===== src/Agent/Cluster/Missing.antt =====
-- What `autoSource` makes of a cluster through `clientsetLister`.
use zensu_monitoring_agent.Prelude.{
  ℕ, ◌≡◌, ◌⊎◌, refl, ◌∙◌, Bool, true, false, not, ◌&&◌, ◌||◌, none, some, List, [], ◌∷◌, is_empty,
  any, any_congr, inl, inr, Bool-cases, Option-cases,
}
use zensu_monitoring_agent.Prelude.Maps.{Map}
use zensu_monitoring_agent.Prelude.Float.{Float64}
use zensu_monitoring_agent.Agent.Exposition.{MetricSample}
use zensu_monitoring_agent.Agent.Index.{ServiceTarget}
use zensu_monitoring_agent.Agent.Workload.{pod_metrics_for_selector}
use zensu_monitoring_agent.Agent.Source.{
  SourceError, metrics_api_unavailable, metrics_reads_all_failed, is_unavailable, Answer, served,
  refused, ServerSource, server_samples, MetricSource, AutoSource, due_for_retry, auto_samples,
  after_primary, switch_over, use_fallback,
}
use zensu_monitoring_agent.Agent.Source.MetricsServer.{is_missing, is_answer, server_samples_lem}
use zensu_monitoring_agent.Agent.Cluster.{
  ApiError, ListAnswer, items, list_refused, ClientsetLister, is_metrics_api_missing, classify,
  read_pod_metrics, metered_by,
}

-- The target has a selector, and there is no metrics client, or its list was refused as not found.
abbrev pub has_no_api : ClientsetLister → ServiceTarget → Bool
has_no_api l t = not (is_empty t.selector) && elim l.metrics [
  | none ↦ true
  | some m ↦ elim (m.pod_metricses t.namespace t.selector) [
    | items xs ↦ false
    | list_refused e ↦ e.is_not_found
  ]
]

-- The target has a selector, and its list was answered, be it with no item.
abbrev pub is_listed : ClientsetLister → ServiceTarget → Bool
is_listed l t = not (is_empty t.selector) && elim l.metrics [
  | none ↦ false
  | some m ↦ elim (m.pod_metricses t.namespace t.selector) [
    | items xs ↦ true
    | list_refused e ↦ false
  ]
]

abbrev pub has_selector : ServiceTarget → Bool
has_selector t = not (is_empty t.selector)

ListAnswer-cases :
    {A : Type 0} (a : ListAnswer A)
    → ((a ≡ items []) ⊎ ((x : A) × (xs : List A) × (a ≡ items (x ∷ xs))))
      ⊎ ((e : ApiError) × (a ≡ list_refused e))
ListAnswer-cases (items []) = inl (inl refl)
ListAnswer-cases (items (x ∷ xs)) = inl (inr (x, xs, refl))
ListAnswer-cases (list_refused e) = inr (e, refl)

-- How a target is read by the lister.
read_lem :
    (l : ClientsetLister) (t : ServiceTarget)
    → ((not (is_empty t.selector) && is_missing (read_pod_metrics l t.namespace t.selector))
        ≡ has_no_api l t)
      × ((not (is_empty t.selector) && is_answer (read_pod_metrics l t.namespace t.selector))
          ≡ is_listed l t)
unfolding read_pod_metrics pod_metrics_for_selector classify is_metrics_api_missing
read_lem l t = elim (Option-cases l.metrics) [
  | inl h ↦ rw h (refl, refl)
  | inr (m, h) ↦ elim (ListAnswer-cases (m.pod_metricses t.namespace t.selector)) [
    | inl (inl e) ↦ rw (h, e) (refl, refl)
    | inl (inr (x, xs, e)) ↦ rw (h, e) (refl, refl)
    | inr (err, e) ↦ elim (Bool-cases err.is_not_found) [
      | inl gone ↦ rw (h, e, gone) (refl, refl)
      | inr there ↦ rw (h, e, there) (refl, refl)
    ]
  ]
]

-- An answer tells that the source cannot serve, or serves.
abbrev IsTold : {F : Type 0} → Bool → Answer F → Type 0
IsTold true a = (e : SourceError) × (a ≡ refused e) × (is_unavailable e ≡ true)
IsTold {F} false a = (out : Map (List (MetricSample F))) × (a ≡ served out)

-- No target's API is there, or there is a target to read and no read is answered.
abbrev pub cannot_serve : ClientsetLister → List ServiceTarget → Bool
cannot_serve l targets =
    any (has_no_api l) targets || (any has_selector targets && not (any (is_listed l) targets))

module _ (fl : Float64) (l : ClientsetLister) where
  answer_lem :
      (targets : List ServiceTarget) (s : ServerSource)
      → IsTold (cannot_serve l targets) (server_samples fl (read_pod_metrics l) targets s).1
  unfolding is_unavailable
  answer_lem targets s =
      let missed = any_congr (λ t. (read_lem l t).0) targets in
      let listed = any_congr (λ t. (read_lem l t).1) targets in
      let told = server_samples_lem fl (read_pod_metrics l) targets s in
      elim (Bool-cases (any (has_no_api l) targets)) [
        | inl gone ↦ rw gone (metrics_api_unavailable, rw (missed ∙ gone) at told, refl)
        | inr there ↦
            elim (Bool-cases (any has_selector targets && not (any (is_listed l) targets))) [
              | inl failed ↦
                  rw (there, failed)
                    (metrics_reads_all_failed, rw (missed ∙ there, listed, failed) at told, refl)
              | inr some_are ↦
                  rw (there, some_are) (_, rw (missed ∙ there, listed, some_are) at told)
            ]
      ]

  module _ (scraper : MetricSource fl.F) where
    -- A call of the source of auto mode that asks metrics-server leaves it on the exposition exactly if
    -- some workload with a selector finds no metrics API, or there is one to read and no list of pod
    -- metrics is answered; an empty list is an answer. Whatever the source was on before, and whatever the
    -- exposition answers then.
    pub auto_samples-switched :
        (targets : List ServiceTarget) (s : AutoSource (metered_by fl l) scraper) (now stamp : ℕ)
        → (s.switched && not (due_for_retry (metered_by fl l) scraper now s)) ≡ false
        → (auto_samples (metered_by fl l) scraper now stamp targets s).0.switched
          ≡ cannot_serve l targets
    unfolding auto_samples after_primary switch_over use_fallback
    auto_samples-switched targets s now stamp asked =
        let told = answer_lem targets s.first in
        elim (Bool-cases (cannot_serve l targets)) [
          | inl yes_then ↦
              let (e, answer, gone) = rw yes_then at told in
              rw (auto_samples, asked, answer, after_primary, gone, yes_then) refl
          | inr serves ↦
              let (out, answer) = rw serves at told in
              elim (Bool-cases s.switched) [
                | inl on ↦ rw (auto_samples, asked, answer, after_primary, on, serves) refl
                | inr off ↦ rw (auto_samples, asked, answer, after_primary, off, serves) refl
              ]
        ]
