-- ===== src/Agent/Cluster.antt =====
-- internal/agent/k8s.go: `clientsetLister` and its constructors. What the two Kubernetes clients answer at one
-- moment, and what the constructors of client-go give, are arguments.
pub mod Missing
mod Tests
use zensu_monitoring_agent.Prelude.{
  ℕ, ◌≡◌, Bool, true, false, Option, none, some, List, Str, codes, ◌++◌, if◌then◌else◌,
}
use zensu_monitoring_agent.Prelude.Float.{Float64}
use zensu_monitoring_agent.Agent.Workload.{
  Deployment, Pod, Usage, PodMetricsList, no_client, not_found, list_failed, listed, PodReading,
  pod_metrics_for_selector,
}
use zensu_monitoring_agent.Agent.Collect.{Listing, listing, list_error}
use zensu_monitoring_agent.Agent.Tick.{Environment}
use zensu_monitoring_agent.Agent.Source.{
  ServerSource, server_samples, MetricSource, source_metrics_server,
}

-- An error of a client: its text, and what `apierrors.IsNotFound` says of it.
pub record ApiError : Type 0 where
  pub text : Str
  pub is_not_found : Bool

-- The results of a `List` request.
pub data ListAnswer (A : Type 0) : Type 0 where
  items : List A → ListAnswer A
  list_refused : ApiError → ListAnswer A

-- `kubernetes.Interface`, as far as it is called: by namespace, and by namespace and selector.
pub record KubernetesClient : Type 0 where
  pub deployments : Str → ListAnswer Deployment
  pub pods : Str → Str → ListAnswer Pod

-- `metricsclient.Interface`, as far as it is called.
pub record MetricsClient : Type 0 where
  pub pod_metricses : Str → Str → ListAnswer (List Usage)

-- A nil metrics client is `none`.
pub record ClientsetLister : Type 0 where
  pub client : KubernetesClient
  pub metrics : Option MetricsClient

-- `list.Items`, or the error.
abbrev pub items_of : {A : Type 0} → ListAnswer A → Listing (List A)
items_of (items xs) = listing xs
items_of (list_refused e) = list_error e.text

unfoldable pub list_deployments : ClientsetLister → Str → Listing (List Deployment)
list_deployments l namespace = items_of (l.client.deployments namespace)

unfoldable pub list_pods : ClientsetLister → Str → Str → Listing (List Pod)
list_pods l namespace selector = items_of (l.client.pods namespace selector)

unfoldable pub is_metrics_api_missing : ApiError → Bool
is_metrics_api_missing e = e.is_not_found

-- How `PodMetricsForSelector` classifies the answer of the metrics client.
unfoldable pub classify : ListAnswer (List Usage) → PodMetricsList
classify (items xs) = listed xs
classify (list_refused e) = if is_metrics_api_missing e then not_found else list_failed e.text

abbrev pub metrics_list : Option MetricsClient → Str → Str → PodMetricsList
metrics_list none namespace selector = no_client
metrics_list (some m) namespace selector = classify (m.pod_metricses namespace selector)

-- `PodMetricsForSelector`
unfoldable pub read_pod_metrics : ClientsetLister → Str → Str → PodReading
read_pod_metrics l namespace selector =
    pod_metrics_for_selector (metrics_list l.metrics namespace selector)

unfoldable pub new_clientset_lister : KubernetesClient → Option MetricsClient → ClientsetLister
new_clientset_lister client metrics = record { client = client; metrics = metrics }

-- The results of a constructor of client-go.
pub data Made (A : Type 0) : Type 0 where
  made : A → Made A
  not_made : Str → Made A

-- `rest.InClusterConfig` and the two `NewForConfig`; a `Rest` is what `*rest.Config` is to this code.
pub record ClientLibrary (Rest : Type 0) : Type 0 where
  pub in_cluster_config : Made Rest
  pub new_kubernetes : Rest → Made KubernetesClient
  pub new_metrics_client : Rest → Made MetricsClient

pub data ListerError : Type 0 where
  in_cluster_config_failed : Str → ListerError
  kubernetes_client_failed : Str → ListerError
  metrics_client_failed : Str → ListerError

-- The text of the error, with that of the error it wraps.
unfoldable pub lister_error_text : ListerError → Str
lister_error_text (in_cluster_config_failed e) = codes "in-cluster config: " ++ e
lister_error_text (kubernetes_client_failed e) = codes "kubernetes client: " ++ e
lister_error_text (metrics_client_failed e) = codes "metrics client: " ++ e

pub data NewLister : Type 0 where
  lister : ClientsetLister → NewLister
  no_lister : ListerError → NewLister

module _ {Rest : Type 0} (lib : ClientLibrary Rest) where
  -- `NewInClusterLister`
  unfoldable pub new_in_cluster_lister : NewLister
  new_in_cluster_lister = elim lib.in_cluster_config [
    | not_made e ↦ no_lister (in_cluster_config_failed e)
    | made cfg ↦ elim (lib.new_kubernetes cfg) [
      | not_made e ↦ no_lister (kubernetes_client_failed e)
      | made client ↦ elim (lib.new_metrics_client cfg) [
        | not_made e ↦ no_lister (metrics_client_failed e)
        | made metrics ↦ lister (record { client = client; metrics = some metrics })
      ]
    ]
  ]

-- `metricsServerSource` with its `reader`, while the clients answer so.
abbrev pub metered_by : (fl : Float64) → ClientsetLister → MetricSource fl.F
metered_by fl l = record {
  State = ServerSource;
  name = λ s. source_metrics_server;
  samples = server_samples fl (read_pod_metrics l);
}
