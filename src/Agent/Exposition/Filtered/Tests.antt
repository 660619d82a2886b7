-- ===== src/Agent/Exposition/Filtered/Tests.antt =====
-- A scrape of the exposition source from its families, decoded with the names to keep.
use zensu_monitoring_agent.Prelude.{ℕ, ◌≡◌, none, some, List, [], ◌∷◌, Str, codes, map, arith}
use zensu_monitoring_agent.Prelude.Int.{pos}
use zensu_monitoring_agent.Prelude.Float.{is_finite}
use zensu_monitoring_agent.Prelude.Sample.{Value, num, sample, ticks}
use zensu_monitoring_agent.Scrape.Series.{Series}
use zensu_monitoring_agent.Scrape.Resolve.{candidate_names}
use zensu_monitoring_agent.Scrape.Decode.{
  MetricType, gauge_type, other_type, Metric, MetricFamily, family, ok, kind_of, scalar_of, admits,
  decode,
}
use zensu_monitoring_agent.Agent.Index.{ServiceTarget}
use zensu_monitoring_agent.Agent.Exposition.{ExpositionSource, new_exposition_source}
use zensu_monitoring_agent.Agent.Exposition.Service.{samples_of}
use zensu_monitoring_agent.Agent.Exposition.Tick.{map_series}
use zensu_monitoring_agent.Agent.Exposition.Filtered.{unfiltered, decode-unfiltered}

abbrev source : ExpositionSource ticks
source = new_exposition_source ticks 0 (record {
  url = codes "http://c";
  slug_label = [];
  cpu_metric = [];
  memory_metric = [];
  timeout = pos 0;
  max_bytes = pos 0;
  rater = record { max_tracked = pos 0 };
})

abbrev metric : ℕ → Metric Value
metric n = record {
  labels = (codes "zensu_service", codes "shop") ∷ [];
  gauge_value = some (num (pos n));
  untyped_value = none;
  counter_value = none;
}

abbrev named : Str → MetricType → MetricFamily Value
named name type = record { name = name; metric_type = type; metrics = metric 7 ∷ [] }

-- A family of the source, one of a type that has no rows, and one that no candidate names.
abbrev families : List (MetricFamily Value)
families =
    named (codes "container_memory_working_set_bytes") gauge_type
    ∷ named (codes "latency") other_type
    ∷ named (codes "up") gauge_type
    ∷ []

abbrev shop : List ServiceTarget
shop =
    record { slug = codes "shop"; namespace = codes "eu"; selector = codes "app"; pod_names = [] }
    ∷ []

decode-unfiltered_example :
    (rows : List (Series Value)) × (decode sample
        (candidate_names sample source.resolver)
        (map family families)
      ≡ ok rows)
    × ((g : Str)
        → samples_of g (map_series ticks 3 shop rows source).1
          ≡ unfiltered ticks 3 shop source families g)
unfolding kind_of scalar_of admits is_finite
decode-unfiltered_example = decode-unfiltered ticks 3 shop source families (omega arith)
