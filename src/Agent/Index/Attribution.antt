-- ===== src/Agent/Index/Attribution.antt =====
-- To which service `resolve` attributes a row, and why.
use zensu_monitoring_agent.Prelude.{
  ◌≡◌, ◌↔◌, ◌≢◌, sym, ap, subst, ◌∙◌, true, false, Option, none, some, List, [], Str, is_empty,
  empty-eq-nil, All, arith, Bool-cases, Option-cases, inl, inr,
}
use zensu_monitoring_agent.Prelude.Maps.{get}
use zensu_monitoring_agent.Scrape.Series.{Series, or_empty}
use zensu_monitoring_agent.Scrape.Labels.{pod_key, pod_label, namespace_label, is_set}
use zensu_monitoring_agent.Agent.Index.{ServiceTarget, new_slug_index, non_empty, resolve}
use zensu_monitoring_agent.Agent.Index.Pods.{owners, Slugs, owners_iff}
use zensu_monitoring_agent.Agent.Index.Justified.{Claims, Owns, Lists, new_slug_index-IsJustified}

non_empty-eq-some :
    (o : Option Str) (slug : Str)
    → non_empty o ≡ some slug
    → (o ≡ some slug) × (is_empty slug ≡ false)
unfolding non_empty
non_empty-eq-some none slug e = cc
non_empty-eq-some (some s) slug e = elim (Bool-cases (is_empty s)) [
  | inl nil ↦ cc (rw nil at e)
  | inr full ↦
      let same : s ≡ slug = cc (rw full at e) in (ap some same, ap is_empty (sym same) ∙ full)
]

no_namespace : (ns pod : Str) → pod_key ns pod ≡ none → is_empty pod ≡ false → is_empty ns ≡ true
unfolding pod_key
no_namespace ns pod e h = ground arith

-- Why a row may be attributed to `slug`: its slug label says so and the service is tracked; or it
-- has no such label, and names a pod that a target with this slug lists, by the same key if the row
-- names a namespace.
pub data Attributed {F : Type 0} (targets : List ServiceTarget) (row : Series F)
    (slug_label slug : Str) : Type 0 where
  by_label :
      or_empty (get slug_label row.labels) ≡ slug
      → Claims targets slug
      → Attributed targets row slug_label slug
  by_key :
      (key : Str)
      → or_empty (get slug_label row.labels) ≡ []
      → pod_key (namespace_label row.labels) (pod_label row.labels) ≡ some key
      → Owns targets key slug
      → Attributed targets row slug_label slug
  by_name :
      or_empty (get slug_label row.labels) ≡ []
      → namespace_label row.labels ≡ []
      → Lists targets (pod_label row.labels) slug
      → Attributed targets row slug_label slug

-- Whatever `resolve` returns is a tracked service that the row belongs to, and never empty.
pub resolve-Attributed :
    {F : Type 0} (targets : List ServiceTarget) (row : Series F) (slug_label slug : Str)
    → resolve (new_slug_index targets) row slug_label ≡ some slug
    → Attributed targets row slug_label slug × (is_empty slug ≡ false)
unfolding resolve
resolve-Attributed targets row slug_label slug e =
    let idx = new_slug_index targets in
    let label = or_empty (get slug_label row.labels) in
    let pod = pod_label row.labels in
    let just = new_slug_index-IsJustified targets in
    elim (Bool-cases (is_empty label)) [
      | inr named ↦ elim (Bool-cases (is_set label idx.known)) [
        | inl tracked ↦
            let same : label ≡ slug = cc (rw (named, tracked, resolve) at e) in
            (
              by_label same (subst (Claims targets) same (just.known label tracked)),
              ap is_empty (sym same) ∙ named,
            )
        | inr unknown ↦ cc (rw (named, unknown, resolve) at e)
      ]
      | inl bare ↦ elim (Bool-cases (is_empty pod)) [
        | inl no_pod ↦ cc (rw (bare, no_pod, resolve) at e)
        | inr has_pod ↦ elim (Option-cases (pod_key (namespace_label row.labels) pod)) [
          | inr (key, keyed) ↦
              let (found, full) =
                non_empty-eq-some (get key idx.by_namespaced_pod) slug
                  (rw (bare, has_pod, keyed, resolve) at e) in
              (by_key key (empty-eq-nil label bare) keyed (just.namespaced key slug found), full)
          | inl no_key ↦
              let (found, full) =
                non_empty-eq-some (get pod idx.by_pod) slug
                  (rw (bare, has_pod, no_key, resolve) at e) in
              (
                by_name (empty-eq-nil label bare)
                    (empty-eq-nil (namespace_label row.labels)
                      (no_namespace (namespace_label row.labels) pod no_key has_pod))
                    (just.named pod slug found full),
                full,
              )
        ]
      ]
    ]

non_empty_of_some :
    (o : Option Str) (slug : Str) → o ≡ some slug → is_empty slug ≡ false → non_empty o ≡ some slug
unfolding non_empty
non_empty_of_some none slug e h = cc
non_empty_of_some (some s) slug e h = let same : s ≡ slug = cc in rw (ap is_empty same ∙ h) e

-- A row that names a pod, no namespace and no slug label is attributed to `slug` exactly when some
-- tracked service lists that pod name and every service that lists it has that slug.
pub resolve_by_name_iff :
    {F : Type 0} (targets : List ServiceTarget) (row : Series F) (slug_label slug : Str)
    → Slugs (owners (pod_label row.labels) targets)
    → is_empty slug ≡ false
    → is_empty (or_empty (get slug_label row.labels)) ≡ true
    → is_empty (namespace_label row.labels) ≡ true
    → is_empty (pod_label row.labels) ≡ false
    → (resolve (new_slug_index targets) row slug_label ≡ some slug) ↔ (
        (owners (pod_label row.labels) targets ≢ [])
        × All (λ s. s ≡ slug) (owners (pod_label row.labels) targets))
unfolding resolve pod_key
resolve_by_name_iff targets row slug_label slug slugs full bare no_ns has_pod =
    let pod = pod_label row.labels in
    let (to, from) = owners_iff pod slug targets slugs full in
    let entry = get pod (new_slug_index targets).by_pod in
    rw (bare, has_pod, no_ns, resolve, pod_key)
      (
        (λ e. to (non_empty-eq-some entry slug e).0),
        (λ q. non_empty_of_some entry slug (from q) full),
      )
