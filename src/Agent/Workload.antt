-- ===== src/Agent/Workload.antt =====
-- internal/agent/k8s.go and internal/agent/types.go: Deployments and Pods to heartbeats. The answers of
-- the Kubernetes clients are arguments.
pub mod Status
pub mod Restarts
mod Tests
use zensu_monitoring_agent.Prelude.{
  ℕ, ◌≡◌, Bool, true, false, ◌||◌, Option, none, some, List, [], ◌∷◌, Str, codes, is_empty,
  if◌then◌else◌,
}
use zensu_monitoring_agent.Prelude.Maps.{Map, get}
use zensu_monitoring_agent.Prelude.Int.{ℤ, pos, ◌+ℤ◌, leb_ℤ, wrap}
use zensu_monitoring_agent.Scrape.Series.{or_empty}
use zensu_monitoring_agent.Agent.Exposition.{MetricSample}

abbrev pub status_up : Str
status_up = codes "up"

abbrev pub status_degraded : Str
status_degraded = codes "degraded"

abbrev pub status_down : Str
status_down = codes "down"

abbrev pub annotation_service : Str
annotation_service = codes "zensu.dev/service"

unfoldable pub derive_status : ℤ → ℤ → Str
derive_status ready desired =
    if leb_ℤ desired (pos 0) || leb_ℤ ready (pos 0)
    then status_down
    else if leb_ℤ desired ready
    then status_up
    else status_degraded

pub record ServiceHeartbeat (F : Type 0) : Type 0 where
  pub slug : Str
  pub name : Str
  pub status : Str
  pub ready_replicas : Option ℤ
  pub desired_replicas : Option ℤ
  pub restart_count : Option ℤ
  pub interval_seconds : ℤ
  pub metrics : List (MetricSample F)

-- What the code reads of an `appsv1.Deployment`: the selector is what `LabelSelectorAsSelector` gives,
-- `none` for an absent or broken one, and the empty string for one that is `Empty()`.
pub record Deployment : Type 0 where
  pub name : Str
  pub annotations : Map Str
  pub ready_replicas : ℤ
  pub replicas : Option ℤ
  pub selector : Option Str

-- A `corev1.Pod`: its name, and the restart count of each container.
pub record Pod : Type 0 where
  pub name : Str
  pub restart_counts : List ℤ

abbrev pub or_zero : Option ℤ → ℤ
or_zero none = pos 0
or_zero (some n) = n

-- A false second result is `none`.
unfoldable pub map_deployment : {F : Type 0} → Deployment → Option (ServiceHeartbeat F)
map_deployment d =
    let slug = or_empty (get annotation_service d.annotations) in
    let desired = or_zero d.replicas in
    if is_empty slug
    then none
    else some (record {
      slug = slug;
      name = d.name;
      status = derive_status d.ready_replicas desired;
      ready_replicas = some d.ready_replicas;
      desired_replicas = some desired;
      restart_count = none;
      interval_seconds = pos 0;
      metrics = [];
    })

unfoldable pub deployment_selector : Deployment → Str
deployment_selector d = or_empty d.selector

unfoldable pub pod_names : List Pod → List Str
pod_names [] = []
pod_names (p ∷ pods) = p.name ∷ pod_names pods

-- `total += x`, for an integer of `w` bits, over a list.
unfoldable pub add_all : ℕ → List ℤ → ℤ → ℤ
add_all w [] total = total
add_all w (x ∷ xs) total = add_all w xs (wrap w (total +ℤ x))

unfoldable pub sum_from : List Pod → ℤ → ℤ
sum_from [] total = total
sum_from (p ∷ pods) total = sum_from pods (add_all 32 p.restart_counts total)

unfoldable pub sum_restarts : List Pod → ℤ
sum_restarts pods = sum_from pods (pos 0)

-- The usage of a container: `MilliValue()` of its CPU and `Value()` of its memory.
pub record Usage : Type 0 where
  pub cpu_milli : ℤ
  pub memory_bytes : ℤ

-- The containers of one `PodMetrics`.
unfoldable pub sum_containers : List Usage → ℤ × ℤ → ℤ × ℤ
sum_containers [] total = total
sum_containers (u ∷ usages) (cpu, mem) =
    sum_containers usages (wrap 64 (cpu +ℤ u.cpu_milli), wrap 64 (mem +ℤ u.memory_bytes))

unfoldable pub sum_pods : List (List Usage) → ℤ × ℤ → ℤ × ℤ
sum_pods [] total = total
sum_pods (usages ∷ items) total = sum_pods items (sum_containers usages total)

unfoldable pub sum_pod_metrics : List (List Usage) → ℤ × ℤ
sum_pod_metrics items = sum_pods items (pos 0, pos 0)

-- What the metrics client answers: there may be none, and a list may fail, for a missing API or else.
pub data PodMetricsList : Type 0 where
  no_client : PodMetricsList
  not_found : PodMetricsList
  list_failed : Str → PodMetricsList
  listed : List (List Usage) → PodMetricsList

-- The results of `PodMetricsForSelector`: values that are available, none, or one of two errors.
pub data PodReading : Type 0 where
  usage : ℤ → ℤ → PodReading
  no_data : PodReading
  api_unavailable : PodReading
  read_error : Str → PodReading

unfoldable pub pod_metrics_for_selector : PodMetricsList → PodReading
pod_metrics_for_selector no_client = api_unavailable
pod_metrics_for_selector not_found = api_unavailable
pod_metrics_for_selector (list_failed e) = read_error e
pod_metrics_for_selector (listed []) = no_data
pod_metrics_for_selector (listed (p ∷ items)) =
    let (cpu, mem) = sum_pod_metrics (p ∷ items) in usage cpu mem
