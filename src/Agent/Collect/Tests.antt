-- ===== src/Agent/Collect/Tests.antt =====
-- Runs of the collection, and its theorem at a concrete cluster.
use zensu_monitoring_agent.Prelude.{◌≡◌, refl, false, none, some, List, [], ◌∷◌, Str, codes, eqb}
use zensu_monitoring_agent.Prelude.Maps.{get, put}
use zensu_monitoring_agent.Prelude.Int.{pos}
use zensu_monitoring_agent.Prelude.Sample.{Value}
use zensu_monitoring_agent.Agent.Workload.{
  Deployment, Pod, map_deployment, deployment_selector, derive_status,
}
use zensu_monitoring_agent.Agent.Collect.{
  claimed_twice, warn_duplicate_slug, Listing, listing, Config, Gathered, add_workload, gather_one,
  gather_all, gather, slugs_of,
}

gathering : Unit {0}
unfolding get put eqb map_deployment deployment_selector derive_status warn_duplicate_slug
    add_workload gather_one gather_all gather
gathering = tt

abbrev deployment : Str → Str → Deployment
deployment name slug = record {
  name = name;
  annotations = (codes "zensu.dev/service", slug) ∷ [];
  ready_replicas = pos 1;
  replicas = some (pos 1);
  selector = none;
}

abbrev list_deployments : Str → Listing (List Deployment)
list_deployments ns = listing (
    deployment (codes "a") (codes "shop")
    ∷ deployment (codes "b") (codes "shop")
    ∷ deployment (codes "c") []
    ∷ [])

abbrev list_pods : Str → Str → Listing (List Pod)
list_pods ns sel = listing []

abbrev config : Config
config = record {
  product_id = codes "p";
  source = codes "k8s-agent";
  namespaces = codes "n" ∷ [];
  interval = pos 0;
  interval_seconds = pos 0;
}

abbrev nothing : Gathered Value
nothing = record {
  claimed = [];
  out = [];
  targets = [];
  latch = record { warned = []; overflow = false; log = [] };
}

abbrev gathered : Gathered Value
gathered = (gather list_pods list_deployments config (codes "n" ∷ []) nothing).0

-- Of two workloads with one slug the first is reported, and the second is named once.
gather_run :
    (slugs_of gathered.out ≡ codes "shop" ∷ [])
    × (gathered.latch.log ≡ claimed_twice (codes "shop") (codes "n/a") (codes "n/b") ∷ [])
unfolding gathering
gather_run = (refl, refl)
