-- ===== src/Agent/Cluster/Tests.antt =====
-- Runs of the clients' lister, and of auto mode over it.
use zensu_monitoring_agent.Prelude.{
  ◌≡◌, refl, Bool, true, false, none, some, List, [], ◌∷◌, Str, codes, eqb, if◌then◌else◌,
}
use zensu_monitoring_agent.Prelude.Sample.{sample}
use zensu_monitoring_agent.Agent.Index.{ServiceTarget}
use zensu_monitoring_agent.Agent.Workload.{
  Usage, no_data, api_unavailable, read_error, pod_metrics_for_selector, sum_pod_metrics,
}
use zensu_monitoring_agent.Agent.Collect.{list_error}
use zensu_monitoring_agent.Agent.Source.{AutoSource, due_for_retry, none_source, auto_samples}
use zensu_monitoring_agent.Agent.Cluster.{
  ApiError, ListAnswer, items, list_refused, ClientsetLister, list_deployments,
  is_metrics_api_missing, classify, read_pod_metrics, new_clientset_lister, metered_by, not_made,
  made, lister_error_text, no_lister, in_cluster_config_failed, kubernetes_client_failed,
  new_in_cluster_lister,
}
use zensu_monitoring_agent.Agent.Cluster.Missing.{cannot_serve, auto_samples-switched}

clients : Unit {0}
unfolding eqb pod_metrics_for_selector sum_pod_metrics list_deployments is_metrics_api_missing
    classify read_pod_metrics new_clientset_lister lister_error_text new_in_cluster_lister
    due_for_retry none_source
clients = tt

abbrev gone : ApiError
gone = record { text = codes "gone"; is_not_found = true }

abbrev denied : ApiError
denied = record { text = codes "denied"; is_not_found = false }

-- A selector that is denied, one that matches nothing yet, and else no API.
abbrev answer : Str → ListAnswer (List Usage)
answer selector =
    if eqb selector (codes "x")
    then list_refused denied
    else if eqb selector (codes "y")
    then items []
    else list_refused gone

abbrev cluster : ClientsetLister
cluster =
    new_clientset_lister
      (record {
        deployments = λ namespace. list_refused denied;
        pods = λ namespace selector. items [];
      })
      (some (record { pod_metricses = λ namespace selector. answer selector }))

cluster_run :
    (list_deployments cluster (codes "n") ≡ list_error (codes "denied"))
    × (read_pod_metrics cluster (codes "n") (codes "x") ≡ read_error (codes "denied"))
    × (read_pod_metrics cluster (codes "n") (codes "y") ≡ no_data)
    × (read_pod_metrics cluster (codes "n") (codes "z") ≡ api_unavailable)
    × (read_pod_metrics (record cluster { metrics = none }) (codes "n") (codes "x")
        ≡ api_unavailable)
unfolding clients
cluster_run = (refl, refl, refl, refl, refl)

-- A constructor that fails ends the construction.
new_lister_run :
    (new_in_cluster_lister (record {
      in_cluster_config = not_made (codes "outside");
      new_kubernetes = λ (cfg : Bool). made cluster.client;
      new_metrics_client = λ cfg. not_made [];
    })
      ≡ no_lister (in_cluster_config_failed (codes "outside")))
    × (new_in_cluster_lister (record {
      in_cluster_config = made true;
      new_kubernetes = λ (cfg : Bool). not_made (codes "no");
      new_metrics_client = λ cfg. not_made [];
    })
        ≡ no_lister (kubernetes_client_failed (codes "no")))
    × (lister_error_text (kubernetes_client_failed (codes "no")) ≡ codes "kubernetes client: no")
unfolding clients
new_lister_run = (refl, refl, refl)

abbrev target : Str → ServiceTarget
target selector = record {
  slug = codes "a";
  namespace = codes "n";
  selector = selector;
  pod_names = [];
}

abbrev auto : AutoSource (metered_by sample cluster) none_source
unfolding none_source
auto = record {
  first = record { warned = false; log = [] };
  second = tt;
  switched = false;
  switched_at = 0;
  log = [];
}

-- All that is asked is denied: the source cannot serve, but it can as soon as one list is answered.
cannot_serve_run :
    (cannot_serve cluster (target (codes "x") ∷ []) ≡ true)
    × (cannot_serve cluster (target (codes "x") ∷ target (codes "y") ∷ []) ≡ false)
    × (cannot_serve cluster (target (codes "y") ∷ target (codes "z") ∷ []) ≡ true)
    × (cannot_serve cluster (target [] ∷ []) ≡ false)
unfolding clients
cannot_serve_run = (refl, refl, refl, refl)

auto_samples-switched_example :
    (auto_samples
      (metered_by sample cluster)
      none_source
      5
      6
      (target (codes "x") ∷ [])
      auto).0.switched
    ≡ cannot_serve cluster (target (codes "x") ∷ [])
unfolding auto
auto_samples-switched_example =
    auto_samples-switched sample cluster none_source (target (codes "x") ∷ []) auto 5 6 refl
