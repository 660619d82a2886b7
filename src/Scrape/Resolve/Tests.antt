-- ===== src/Scrape/Resolve/Tests.antt =====
-- Runs of the resolver, and its theorems at concrete inputs.
use zensu_monitoring_agent.Prelude.{
  ℕ, ◌+◌, ◌≤◌, length, ◌≡◌, refl, some, List, [], ◌∷◌, ◌++◌, Str, codes, eqb, Memᴰ, filter,
}
use zensu_monitoring_agent.Prelude.Maps.{Map, get, put}
use zensu_monitoring_agent.Prelude.Sort.{sort}
use zensu_monitoring_agent.Prelude.Int.{pos}
use zensu_monitoring_agent.Prelude.Sample.{Value, num, sample}
use zensu_monitoring_agent.Scrape.Series.{Series, gauge}
use zensu_monitoring_agent.Scrape.Resolve.Rounds.{Rounds, normalize_name-Rounds}
use zensu_monitoring_agent.Scrape.Resolve.{
  Candidate, Resolver, pod_ref, is_pause_row, is_container_row, is_superseded_rollup, mark_row,
  mark_rows, keep_row, keep_rows, summable, matches, find_winner, collect, match_family,
  cpu_candidates, memory_candidates, candidates, candidate_of, select_from, select, keep_names,
  candidate_names,
}
use zensu_monitoring_agent.Scrape.BaseNames.{
  trim_suffix, strip, normalize_loop, normalize_name, unit_suffixes,
}
use zensu_monitoring_agent.Scrape.Labels.{
  first_label, container_label, pod_label, namespace_label, pod_key, is_set, sorted_keys,
}
use zensu_monitoring_agent.Scrape.Resolve.Names.{Suffixed, normalize_name_lem}
use zensu_monitoring_agent.Scrape.Resolve.Covers.{keeps}
use zensu_monitoring_agent.Scrape.Resolve.Rows.{summable-eq-filter}
use zensu_monitoring_agent.Scrape.Resolve.Family.{IsFamily, match_family-IsFamily}

resolve : Unit {0}
unfolding get put eqb sort trim_suffix strip normalize_loop normalize_name first_label
    container_label pod_label namespace_label pod_key is_set sorted_keys pod_ref is_pause_row
    is_container_row is_superseded_rollup mark_row mark_rows keep_row keep_rows summable matches
    find_winner collect match_family cpu_candidates memory_candidates candidates select_from select
    keep_names candidate_names
resolve = tt

abbrev row : Str → Map Str → ℕ → Series Value
row name labels v = record { name = name; labels = labels; value = num (pos v); kind = gauge }

abbrev usage : Str
usage = codes "container_cpu_usage"

abbrev web_total : Series Value
web_total = row usage ((codes "namespace", codes "shop") ∷ (codes "pod", codes "web") ∷ []) 9

abbrev web_main : Series Value
web_main =
    row usage
      ((codes "k8s_namespace_name", codes "shop")
        ∷ (codes "pod", codes "web")
        ∷ (codes "container", codes "main")
        ∷ [])
      8

abbrev web_pause : Series Value
web_pause =
    row usage
      ((codes "namespace", codes "shop")
        ∷ (codes "pod", codes "web")
        ∷ (codes "container", codes "POD")
        ∷ [])
      1

abbrev bare_total : Series Value
bare_total = row usage ((codes "pod", codes "web") ∷ []) 9

abbrev lone_total : Series Value
lone_total = row usage ((codes "pod", codes "db") ∷ []) 4

abbrev rows : List (Series Value)
rows = web_total ∷ web_main ∷ web_pause ∷ bare_total ∷ lone_total ∷ []

normalize_run :
    (normalize_name (codes "container_cpu_usage_seconds_total") ≡ usage)
    × (normalize_name (codes "_total_bytes") ≡ codes "_total")
unfolding resolve
normalize_run = (refl, refl)

summable_run : summable rows ≡ (web_main ∷ lone_total ∷ [], 3, codes "web" ∷ [])
unfolding resolve
summable_run = refl

abbrev seconds_total : Series Value
seconds_total = row (codes "container_cpu_usage_seconds_total") [] 77

abbrev usage_candidate : Candidate Value
usage_candidate = candidate_of sample usage 1000

-- The candidate's own spelling wins, although the other family stands first.
own_run : match_family usage_candidate (seconds_total ∷ web_main ∷ []) ≡ some (web_main ∷ [], gauge)
unfolding resolve
own_run = refl

normalize_name_lem_example :
    Suffixed (normalize_name usage) usage
    × ((b suffix : Str) → Memᴰ suffix unit_suffixes → normalize_name usage ≡ b ++ suffix → b ≡ [])
normalize_name_lem_example = normalize_name_lem usage

summable-eq-filter_example : (summable rows).0 ≡ filter (keeps rows) rows
summable-eq-filter_example = summable-eq-filter rows

match_family-IsFamily_example :
    IsFamily usage_candidate (seconds_total ∷ web_main ∷ []) (web_main ∷ []) gauge
match_family-IsFamily_example =
    match_family-IsFamily usage_candidate (seconds_total ∷ web_main ∷ []) (web_main ∷ []) gauge
      own_run

abbrev plain : Resolver
plain = record { cpu_override = []; memory_override = [] }

-- A name from which both suffixes come off in the first round.
abbrev usage_total : Str
usage_total = codes "container_cpu_usage_seconds_total"

normalize_name-Rounds_example :
    ((k : ℕ) × Rounds (normalize_name usage_total) k usage_total × (k ≤ length usage_total + 1))
    × ((out : Str) (j : ℕ) → Rounds out j usage_total → out ≡ normalize_name usage_total)
normalize_name-Rounds_example = normalize_name-Rounds usage_total
