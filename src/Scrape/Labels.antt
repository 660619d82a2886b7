-- ===== src/Scrape/Labels.antt =====
-- The labels of internal/scrape/resolve.go by which a row is attributed, and sets of names.
use zensu_monitoring_agent.Prelude.{
  Bool, false, not, ◌||◌, Option, none, some, List, [], ◌∷◌, ◌++◌, Str, codes, is_empty,
  if◌then◌else◌,
}
use zensu_monitoring_agent.Prelude.Maps.{Map, get, keys}
use zensu_monitoring_agent.Prelude.Sort.{sort}
use zensu_monitoring_agent.Scrape.Series.{or_empty}

abbrev pub pod_label_names : List Str
pod_label_names = codes "pod" ∷ codes "k8s_pod_name" ∷ []

abbrev pub namespace_label_names : List Str
namespace_label_names = codes "namespace" ∷ codes "k8s_namespace_name" ∷ []

abbrev pub container_label_names : List Str
container_label_names = codes "container" ∷ codes "k8s_container_name" ∷ []

abbrev pub pause_container : Str
pause_container = codes "POD"

unfoldable pub first_label : Map Str → List Str → Str
first_label labels [] = []
first_label labels (n ∷ names) =
    let v = or_empty (get n labels) in if not (is_empty v) then v else first_label labels names

unfoldable pub container_label : Map Str → Str
container_label labels = first_label labels container_label_names

unfoldable pub pod_label : Map Str → Str
pod_label labels = first_label labels pod_label_names

unfoldable pub namespace_label : Map Str → Str
namespace_label labels = first_label labels namespace_label_names

-- `PodKey`; a false `ok` is `none`
unfoldable pub pod_key : Str → Str → Option Str
pod_key namespace pod =
    if is_empty namespace || is_empty pod then none else some (namespace ++ 0x1f ∷ pod)

-- `m[key]` of a `map[string]bool`
abbrev pub flag : Option Bool → Bool
flag none = false
flag (some b) = b

unfoldable pub is_set : Str → Map Bool → Bool
is_set k m = flag (get k m)

unfoldable pub sorted_keys : Map Bool → List Str
sorted_keys set = sort (keys set)
