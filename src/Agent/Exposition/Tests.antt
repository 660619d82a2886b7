-- ===== src/Agent/Exposition/Tests.antt =====
-- Runs of the exposition source, and its theorems at a concrete selection.
use zensu_monitoring_agent.Prelude.{
  arith, ◌≡◌, refl, ℕ, List, false, [], ◌∷◌, ◌++◌, Str, codes, eqb,
}
use zensu_monitoring_agent.Prelude.Maps.{Map, get, put}
use zensu_monitoring_agent.Prelude.Sort.{sort, insert, str_ltb}
use zensu_monitoring_agent.Prelude.Int.{pos}
use zensu_monitoring_agent.Prelude.Float.{is_finite}
use zensu_monitoring_agent.Prelude.Sample.{Value, num, sample, ticks}
use zensu_monitoring_agent.Scrape.Series.{
  Series, counter, gauge, fingerprint, write_len_prefixed, write_labels, itoa, digits,
}
use zensu_monitoring_agent.Scrape.Resolve.{
  cpu, memory, Selection, pod_ref, is_pause_row, is_container_row, is_superseded_rollup, mark_row,
  mark_rows, keep_row, keep_rows, summable, matches, find_winner, collect, match_family,
  cpu_candidates, memory_candidates, candidates, select_from, select, rateable,
}
use zensu_monitoring_agent.Scrape.BaseNames.{trim_suffix, strip, normalize_loop, normalize_name}
use zensu_monitoring_agent.Scrape.Labels.{
  container_label, is_set, sorted_keys, pod_key, first_label, pod_label, namespace_label,
}
use zensu_monitoring_agent.Scrape.Rate.{
  new_rater, apply_options, refused_series, tracked, ceiling_of, carry, admit_established,
  admit_one, admit_new, admitted, rate_of, rate_all, observe,
}
use zensu_monitoring_agent.Scrape.Decode.{new_client, read_limit, ceiling, effective_max_bytes}
use zensu_monitoring_agent.Agent.Index.{
  ServiceTarget, SlugIndex, resolve, non_empty, new_slug_index, add_targets, add_pods,
  add_namespaced, add_by_pod,
}
use zensu_monitoring_agent.Agent.Exposition.{
  ExpositionSource, new_exposition_source, configured_client, set_roles_withheld, role_withheld,
  counters_of, join, role_state, set_role, emit, reading, total_of, sum_reading, sum_row, sum_rows,
  emit_sample, emit_samples, metric_key_for,
}
use zensu_monitoring_agent.Agent.Exposition.Tick.{
  warn_role_unresolved, rate_counters, reduce_all, select_role, map_series, report_withheld,
  note_dropped, note_ambiguous, reduce,
}
use zensu_monitoring_agent.Agent.Exposition.Mapped.{rates, role_samples, map_series-service}
use zensu_monitoring_agent.Agent.Exposition.Twice.{role_due, map_series-due}
use zensu_monitoring_agent.Agent.Exposition.Service.{samples_of}

source : Unit {0}
unfolding get put eqb sort insert str_ltb is_finite fingerprint write_len_prefixed write_labels itoa
    digits rateable is_set sorted_keys pod_key first_label pod_label namespace_label new_rater
    apply_options new_client read_limit ceiling effective_max_bytes resolve non_empty new_slug_index
    add_targets add_pods add_namespaced add_by_pod new_exposition_source configured_client join
    role_state set_role emit reading total_of sum_reading sum_row sum_rows emit_sample emit_samples
    metric_key_for report_withheld note_dropped note_ambiguous reduce
source = tt

scrapes : Unit {0}
unfolding source trim_suffix strip normalize_loop normalize_name container_label pod_ref
    is_pause_row is_container_row is_superseded_rollup mark_row mark_rows keep_row keep_rows
    summable matches find_winner collect match_family cpu_candidates memory_candidates candidates
    select_from select refused_series tracked ceiling_of carry admit_established admit_one admit_new
    admitted rate_of rate_all observe counters_of warn_role_unresolved rate_counters reduce_all
    select_role map_series
scrapes = tt

abbrev fresh : ExpositionSource ticks
fresh = new_exposition_source ticks 0 (record {
  url = codes "http://c";
  slug_label = [];
  cpu_metric = [];
  memory_metric = [];
  timeout = pos 0;
  max_bytes = pos 0;
  rater = record { max_tracked = pos 0 };
})

abbrev index : SlugIndex
index = new_slug_index (
    record {
      slug = codes "shop";
      namespace = codes "eu";
      selector = codes "app";
      pod_names = codes "a" ∷ codes "b" ∷ [];
    }
    ∷ [])

abbrev row : Str → Series Value
row pod = record {
  name = codes "t";
  labels = (codes "pod", pod) ∷ [];
  value = num (pos 900);
  kind = counter;
}

abbrev selection : Selection Value
selection = record {
  candidate = record { name = codes "t"; scale = num (pos 1000); exact = false };
  role = cpu;
  kind = counter;
  series = row (codes "a") ∷ row (codes "b") ∷ [];
  excluded = 0;
  ambiguous = [];
}

abbrev both_rates : Map Value
both_rates = (codes "1:t3:pod1:a", num (pos 2)) ∷ (codes "1:t3:pod1:b", num (pos 3)) ∷ []

abbrev one_rate : Map Value
one_rate = (codes "1:t3:pod1:a", num (pos 2)) ∷ []

-- Two pods that rate are summed; if one of them does not, the service has no sample and is named.
reduce_run :
    ((reduce ticks selection both_rates index false (fresh, [])).1
      ≡ (codes "shop", record { key = codes "cpu_millicores"; value = num (pos 5000) } ∷ []) ∷ [])
    × ((reduce ticks selection one_rate index false (fresh, [])).1 ≡ [])
    × ((reduce ticks selection one_rate index false (fresh, [])).0.log
        ≡ set_roles_withheld cpu 1 ∷ role_withheld cpu (codes "shop" ∷ []) ∷ [])
unfolding source
reduce_run = (refl, refl, refl)

-- A counter of CPU for each of two pods, and a gauge of memory for one of them.
abbrev scrape : ℕ → List (Series Value)
scrape cpu_seconds =
    record (row (codes "a")) {
      name = codes "container_cpu_usage_seconds_total";
      value = num (pos cpu_seconds);
    }
    ∷ record (row (codes "b")) {
      name = codes "container_cpu_usage_seconds_total";
      value = num (pos 100);
    }
    ∷ record (row (codes "a")) {
      name = codes "container_memory_working_set_bytes";
      value = num (pos 7);
      kind = gauge;
    }
    ∷ []

abbrev shop : List ServiceTarget
shop =
    record {
      slug = codes "shop";
      namespace = codes "eu";
      selector = codes "app";
      pod_names = codes "a" ∷ codes "b" ∷ [];
    }
    ∷ []

abbrev scraped : ExpositionSource ticks
scraped = (map_series ticks 10 shop (scrape 40) fresh).0

-- The first scrape has memory only, and the second the rate of CPU too.
map_series_run :
    ((map_series ticks 10 shop (scrape 40) fresh).1
      ≡ (codes "shop", record { key = codes "memory_bytes"; value = num (pos 7) } ∷ []) ∷ [])
    × ((map_series ticks 20 shop (scrape 60) scraped).1
        ≡ (
          codes "shop",
          record { key = codes "cpu_millicores"; value = num (pos 2000) }
              ∷ record { key = codes "memory_bytes"; value = num (pos 7) }
              ∷ [],
        )
          ∷ [])
unfolding scrapes
map_series_run = (refl, refl)

abbrev second_rates : Map Value
second_rates = rates ticks 20 shop (scrape 60) scraped (codes "shop")

map_series-service_example :
    samples_of (codes "shop") (map_series ticks 20 shop (scrape 60) scraped).1
    ≡ role_samples ticks second_rates
        (new_slug_index shop)
        (codes "shop")
        scraped.slug_label
        (select sample scraped.resolver cpu (scrape 60))
      ++ role_samples ticks second_rates
          (new_slug_index shop)
          (codes "shop")
          scraped.slug_label
          (select sample scraped.resolver memory (scrape 60))
map_series-service_example = map_series-service ticks 20 shop (scrape 60) scraped (codes "shop")

-- In the second scrape the CPU of both pods is rated, and the memory is read.
map_series-due_example :
    samples_of
      (codes "shop")
      (map_series ticks 20 shop (scrape 60) (map_series ticks 10 shop (scrape 40) fresh).0).1
    ≡ role_due ticks 10 20 shop shop
        (scrape 40)
        (scrape 60)
        fresh
        (codes "shop")
        (select sample fresh.resolver cpu (scrape 60))
      ++ role_due ticks 10 20 shop shop
          (scrape 40)
          (scrape 60)
          fresh
          (codes "shop")
          (select sample fresh.resolver memory (scrape 60))
unfolding scrapes
map_series-due_example =
    map_series-due ticks 10 20 shop shop (scrape 40) (scrape 60) fresh (codes "shop") refl
      (omega arith) (omega arith) ((refl, tt), (tt, tt)) ((refl, tt), (tt, tt))
