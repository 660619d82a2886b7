-- ===== src/Agent/Index/Tests.antt =====
-- Runs of the slug index, and its theorems at concrete targets and rows.
use zensu_monitoring_agent.Prelude.{
  ◌≡◌, ◌↔◌, ◌≢◌, refl, false, some, none, List, [], ◌∷◌, Str, codes, eqb, is_empty, All,
}
use zensu_monitoring_agent.Prelude.Maps.{Map, get, put}
use zensu_monitoring_agent.Prelude.Int.{pos}
use zensu_monitoring_agent.Prelude.Sample.{Value, num}
use zensu_monitoring_agent.Scrape.Series.{Series, gauge}
use zensu_monitoring_agent.Scrape.Labels.{pod_key, first_label, pod_label, namespace_label, is_set}
use zensu_monitoring_agent.Agent.Index.{
  ServiceTarget, add_namespaced, add_by_pod, add_pods, add_targets, new_slug_index, non_empty,
  resolve,
}
use zensu_monitoring_agent.Agent.Index.Pods.{owners}
use zensu_monitoring_agent.Agent.Index.Attribution.{
  Attributed, resolve-Attributed, resolve_by_name_iff,
}

index : Unit {0}
unfolding get put eqb pod_key first_label pod_label namespace_label is_set add_namespaced add_by_pod
    add_pods add_targets new_slug_index non_empty resolve
index = tt

abbrev target : Str → Str → List Str → ServiceTarget
target slug namespace pods = record {
  slug = slug;
  namespace = namespace;
  selector = codes "app";
  pod_names = pods;
}

abbrev targets : List ServiceTarget
targets =
    target (codes "shop") (codes "eu") (codes "web-0" ∷ codes "web-1" ∷ [])
    ∷ target (codes "blog") (codes "us") (codes "web-1" ∷ [])
    ∷ []

abbrev row : Map Str → Series Value
row labels = record { name = codes "cpu"; labels = labels; value = num (pos 1); kind = gauge }

abbrev slug_label : Str
slug_label = codes "zensu_service"

resolve_run :
    (resolve (new_slug_index targets) (row ((codes "pod", codes "web-1") ∷ [])) slug_label ≡ none)
    × (resolve
          (new_slug_index targets)
          (row ((codes "pod", codes "web-1") ∷ (codes "namespace", codes "us") ∷ []))
          slug_label
        ≡ some (codes "blog"))
    × (resolve
          (new_slug_index targets)
          (row ((slug_label, codes "shop") ∷ (codes "pod", codes "web-1") ∷ []))
          slug_label
        ≡ some (codes "shop"))
    × (resolve (new_slug_index targets) (row ((slug_label, codes "mail") ∷ [])) slug_label ≡ none)
unfolding index
resolve_run = (refl, refl, refl, refl)

abbrev web_0 : Series Value
web_0 = row ((codes "pod", codes "web-0") ∷ [])

resolve-Attributed_example :
    Attributed targets web_0 slug_label (codes "shop") × (is_empty (codes "shop") ≡ false)
unfolding index
resolve-Attributed_example = resolve-Attributed targets web_0 slug_label (codes "shop") refl

resolve_by_name_iff_example :
    (resolve (new_slug_index targets) web_0 slug_label ≡ some (codes "shop")) ↔ (
      (owners (pod_label web_0.labels) targets ≢ [])
      × All (λ s. s ≡ codes "shop") (owners (pod_label web_0.labels) targets))
unfolding index
resolve_by_name_iff_example =
    resolve_by_name_iff targets web_0 slug_label (codes "shop") (refl, tt) refl refl refl refl
