-- ===== src/Agent/Collect.antt =====
-- internal/agent/agent.go: `Collect` and `warnDuplicateSlug`. What the cluster lists in this tick is an
-- argument, and so are the samples that the source gave.
pub mod Claims
pub mod Warned
pub mod Listed
pub mod First
mod Tests
use zensu_monitoring_agent.Prelude.{
  ℕ, ◌≡◌, Bool, true, false, not, Option, none, some, List, [], ◌∷◌, ◌++◌, Str, is_empty,
  if◌then◌else◌, length, leb, ltb,
}
use zensu_monitoring_agent.Prelude.Maps.{Map, get, put, has}
use zensu_monitoring_agent.Prelude.Int.{ℤ, pos, ltb_ℤ}
use zensu_monitoring_agent.Agent.Index.{ServiceTarget}
use zensu_monitoring_agent.Agent.Exposition.{MetricSample}
use zensu_monitoring_agent.Agent.Workload.{
  ServiceHeartbeat, Deployment, Pod, map_deployment, deployment_selector, pod_names, sum_restarts,
}

abbrev pub max_warned_slug_pairs : ℕ
max_warned_slug_pairs = 1024

pub data Warning : Type 0 where
  too_many_pairs : Warning
  claimed_twice : Str → Str → Str → Warning
  list_pods_failed : Str → Str → Warning

-- The latch of the duplicate-slug warning, and the log.
pub record Latch : Type 0 where
  pub warned : Map Bool
  pub overflow : Bool
  pub log : List Warning

unfoldable pub warn_duplicate_slug : Str → Str → Str → Latch → Latch
warn_duplicate_slug slug reported shadowed l =
    let key = slug ++ 0x1f ∷ shadowed in
    if has key l.warned
    then l
    else if leb max_warned_slug_pairs (length l.warned)
    then record l {
      overflow = true;
      log = if l.overflow then l.log else l.log ++ too_many_pairs ∷ [];
    }
    else record l {
      warned = put key true l.warned;
      log = l.log ++ claimed_twice slug reported shadowed ∷ [];
    }

-- A result of a Kubernetes client: a value or an error.
pub data Listing (A : Type 0) : Type 0 where
  listing : A → Listing A
  list_error : Str → Listing A

-- `interval_seconds` is `int32(cfg.Interval.Seconds())`.
pub record Config : Type 0 where
  pub product_id : Str
  pub source : Str
  pub namespaces : List Str
  pub interval : ℤ
  pub interval_seconds : ℤ

-- The variables of `Collect`, and the latch.
pub record Gathered (F : Type 0) : Type 0 where
  pub claimed : Map Str
  pub out : List (ServiceHeartbeat F)
  pub targets : List ServiceTarget
  pub latch : Latch

-- `ns + "/" + d.Name`
abbrev pub workload : Str → Deployment → Str
workload ns d = ns ++ b'/' ∷ d.name

abbrev pub timed : {F : Type 0} → Config → ServiceHeartbeat F → ServiceHeartbeat F
timed cfg e =
    if ltb_ℤ (pos 0) cfg.interval then record e { interval_seconds = cfg.interval_seconds } else e

abbrev pub note_pods : Deployment → Listing (List Pod) → Latch → Latch
note_pods d (listing pods) l = l
note_pods d (list_error e) l = record l { log = l.log ++ list_pods_failed d.name e ∷ [] }

abbrev pub restarted : {F : Type 0} → Listing (List Pod) → ServiceHeartbeat F → ServiceHeartbeat F
restarted (listing pods) e = record e { restart_count = some (sum_restarts pods) }
restarted (list_error _) e = e

abbrev pub names_of : Listing (List Pod) → List Str
names_of (listing pods) = pod_names pods
names_of (list_error e) = []

-- The entry of a workload with this selector, and the latch after its pods are listed.
abbrev pub filled :
    {F : Type 0} → Config → Str → Listing (List Pod) → ServiceHeartbeat F → ServiceHeartbeat F
filled cfg sel pods entry =
    if is_empty sel then timed cfg entry else restarted pods (timed cfg entry)

abbrev pub noted : Str → Deployment → Listing (List Pod) → Latch → Latch
noted sel d pods l = if is_empty sel then l else note_pods d pods l

module _ {F : Type 0} (list_pods : Str → Str → Listing (List Pod)) where
  -- What the loop does for a slug that is not claimed yet.
  unfoldable pub add_workload :
      Config → Str → Deployment → ServiceHeartbeat F → Gathered F → Gathered F
  add_workload cfg ns d entry g =
      let sel = deployment_selector d in
      let pods = list_pods ns sel in
      record {
        claimed = put entry.slug (workload ns d) g.claimed;
        out = g.out ++ filled cfg sel pods entry ∷ [];
        targets =
            g.targets
            ++ record {
              slug = entry.slug;
              namespace = ns;
              selector = sel;
              pod_names = if is_empty sel then [] else names_of pods;
            }
              ∷ [];
        latch = noted sel d pods g.latch;
      }

  unfoldable pub gather_one : Config → Str → Deployment → Gathered F → Gathered F
  gather_one cfg ns d g = elim (map_deployment {F = F} d) [
    | none ↦ g
    | some entry ↦ elim (get entry.slug g.claimed) [
      | some owner ↦ record g {
        latch = warn_duplicate_slug entry.slug owner (workload ns d) g.latch;
      }
      | none ↦ add_workload cfg ns d entry g
    ]
  ]

  unfoldable pub gather_all : Config → Str → List Deployment → Gathered F → Gathered F
  gather_all cfg ns [] g = g
  gather_all cfg ns (d ∷ deps) g = gather_all cfg ns deps (gather_one cfg ns d g)

  -- The loop over the namespaces; a second result of false is the error of `ListDeployments`.
  unfoldable pub gather :
      (Str → Listing (List Deployment)) → Config → List Str → Gathered F → Gathered F × Bool
  gather list_deployments cfg [] g = (g, true)
  gather list_deployments cfg (ns ∷ more) g = elim (list_deployments ns) [
    | list_error e ↦ (g, false)
    | listing deps ↦ gather list_deployments cfg more (gather_all cfg ns deps g)
  ]

abbrev pub slugs_of : {F : Type 0} → List (ServiceHeartbeat F) → List Str
slugs_of [] = []
slugs_of (e ∷ es) = e.slug ∷ slugs_of es

abbrev pub target_slugs : List ServiceTarget → List Str
target_slugs [] = []
target_slugs (t ∷ ts) = t.slug ∷ target_slugs ts

-- The second phase, for one entry: the samples of its slug are appended, if there are any.
unfoldable pub attach_one :
    {F : Type 0} → Map (List (MetricSample F)) → ServiceHeartbeat F → ServiceHeartbeat F
attach_one samples e = elim (get e.slug samples) [
  | none ↦ e
  | some ms ↦ record e { metrics = e.metrics ++ ms }
]

unfoldable pub attach :
    {F : Type 0}
    → Map (List (MetricSample F))
    → List (ServiceHeartbeat F)
    → List (ServiceHeartbeat F)
attach samples [] = []
attach samples (e ∷ es) = attach_one samples e ∷ attach samples es
