-- ===== src/Agent/Index.antt =====
-- `ServiceTarget` of internal/agent/source.go and `slugIndex` of internal/agent/exposition.go.
pub mod Pods
pub mod Attribution
pub mod Justified
mod Tests
use zensu_monitoring_agent.Prelude.{
  ◌≡◌, Bool, true, false, not, Option, none, some, List, [], ◌∷◌, Str, eqb, is_empty, if◌then◌else◌,
}
use zensu_monitoring_agent.Prelude.Maps.{Map, get, put}
use zensu_monitoring_agent.Scrape.Series.{Series, or_empty}
use zensu_monitoring_agent.Scrape.Labels.{pod_key, pod_label, namespace_label, is_set}

pub record ServiceTarget : Type 0 where
  pub slug : Str
  pub namespace : Str
  pub selector : Str
  pub pod_names : List Str

pub record SlugIndex : Type 0 where
  pub known : Map Bool
  pub by_namespaced_pod : Map Str
  pub by_pod : Map Str

-- The first statement of the inner loop.
unfoldable pub add_namespaced : ServiceTarget → Str → Map Str → Map Str
add_namespaced t name m = elim (pod_key t.namespace name) [ some key ↦ put key t.slug m | none ↦ m ]

-- The rest of it: a pod name of two services is kept with the empty slug.
unfoldable pub add_by_pod : ServiceTarget → Str → Map Str → Map Str
add_by_pod t name m = elim (get name m) [
  | some existing ↦ if not (eqb existing t.slug) then put name [] m else put name t.slug m
  | none ↦ put name t.slug m
]

unfoldable pub add_pods : ServiceTarget → List Str → SlugIndex → SlugIndex
add_pods t [] idx = idx
add_pods t (name ∷ names) idx = add_pods t names (record idx {
  by_namespaced_pod = add_namespaced t name idx.by_namespaced_pod;
  by_pod = add_by_pod t name idx.by_pod;
})

unfoldable pub add_targets : List ServiceTarget → SlugIndex → SlugIndex
add_targets [] idx = idx
add_targets (t ∷ targets) idx =
    add_targets targets (add_pods t t.pod_names (record idx { known = put t.slug true idx.known }))

unfoldable pub new_slug_index : List ServiceTarget → SlugIndex
new_slug_index targets =
    add_targets targets (record { known = []; by_namespaced_pod = []; by_pod = [] })

-- `slug, found && slug != ""`
unfoldable pub non_empty : Option Str → Option Str
non_empty none = none
non_empty (some slug) = if is_empty slug then none else some slug

-- A false second result is `none`.
unfoldable pub resolve : {F : Type 0} → SlugIndex → Series F → Str → Option Str
resolve idx row slug_label =
    let slug = or_empty (get slug_label row.labels) in
    if not (is_empty slug)
    then (if is_set slug idx.known then some slug else none)
    else let pod = pod_label row.labels in
      if is_empty pod then none else elim (pod_key (namespace_label row.labels) pod) [
        | some key ↦ non_empty (get key idx.by_namespaced_pod)
        | none ↦ non_empty (get pod idx.by_pod)
      ]
