-- ===== src/Scrape/Decode/Tests.antt =====
-- Runs of the decoder and the fetch, and their theorems at a concrete client and body.
use zensu_monitoring_agent.Prelude.{
  ◌+◌, ◌*◌, ◌^◌, ◌≤◌, ◌<◌, ◌≡◌, ◌↔◌, refl, Bool, true, false, none, some, List, [], ◌∷◌, Str, codes,
  eqb, length, leb, map,
}
use zensu_monitoring_agent.Prelude.Maps.{Map, get, put}
use zensu_monitoring_agent.Prelude.Int.{pos}
use zensu_monitoring_agent.Prelude.Float.{is_finite}
use zensu_monitoring_agent.Prelude.Sample.{Value, nan, num, sample}
use zensu_monitoring_agent.Redact.{take, truncate, sanitize, for_log}
use zensu_monitoring_agent.Scrape.Series.{Series}
use zensu_monitoring_agent.Scrape.BaseNames.{normalize_name, normalize_loop, strip, trim_suffix}
use zensu_monitoring_agent.Scrape.Labels.{is_set}
use zensu_monitoring_agent.Scrape.Decode.{
  Metric, MetricFamily, gauge_type, counter_type, Decoded, family, ok, kind_of, default_max_bytes,
  max_configurable_bytes, expansion_factor, max_samples, positive_or, scalar_of, series_of, rows_of,
  series_from_family, set_labels, admits, decode_from, decode, Client, new_client, ceiling,
  read_limit, effective_max_bytes, Response, answered, read_error, read_series, fetch,
}
use zensu_monitoring_agent.Scrape.Decode.Budget.{admitted_rows, all_or_error, decode-all_or_error}
use zensu_monitoring_agent.Scrape.Decode.Limit.{read_limit_bounds}
use zensu_monitoring_agent.Scrape.Decode.Fetched.{IsBounded, fetch_ok_iff, fetch-IsBounded}

decoder : Unit {0}
unfolding get put eqb is_finite take truncate sanitize for_log normalize_name normalize_loop strip
    trim_suffix is_set kind_of scalar_of series_of rows_of series_from_family set_labels admits
    decode_from decode new_client ceiling read_limit effective_max_bytes read_error read_series
    fetch
decoder = tt

abbrev metric : Value → Metric Value
metric v = record {
  labels = (codes "pod", codes "web-0") ∷ [];
  gauge_value = some v;
  untyped_value = none;
  counter_value = none;
}

-- Of the values of the first family one is not a number; the second has no value of its type.
abbrev families : List (MetricFamily Value)
families =
    record {
      name = codes "mem_bytes";
      metric_type = gauge_type;
      metrics = metric (num (pos 7)) ∷ metric nan ∷ [];
    }
    ∷ record { name = codes "cpu"; metric_type = counter_type; metrics = metric (num (pos 1)) ∷ [] }
    ∷ []

abbrev parse : Str → List (Decoded Value)
parse s = map family families

abbrev client : Client
client = record { url = codes "u"; timeout = pos 0; max_bytes = pos 12000000; mem_limit = pos 0 }

abbrev response : Response
response = record {
  status_code = 200;
  status = codes "200 OK";
  body = codes "mem";
  body_error = none;
}

abbrev keep : Map Bool
keep = put (codes "mem") true []

abbrev row : Series Value
row =
    series_of sample (record { name = codes "mem_bytes"; metric_type = gauge_type; metrics = [] })
      (metric (num (pos 7))) (num (pos 7))

fetch_run : fetch sample parse 134217728 client keep (answered response) ≡ ok (row ∷ [])
unfolding decoder
fetch_run = refl

read_limit_run : read_limit 134217728 client ≡ 12000000
unfolding decoder
read_limit_run = refl

decode-all_or_error_example :
    decode sample keep (map family families)
    ≡ all_or_error sample (admitted_rows sample keep families)
decode-all_or_error_example = decode-all_or_error sample keep families

read_limit_bounds_example :
    (1 ≤ read_limit 134217728 client)
    × (read_limit 134217728 client ≤ max_configurable_bytes)
    × (read_limit 134217728 client ≤ ceiling 134217728 client)
    × (read_limit 134217728 client + 1 < 2 ^ 63)
    × (default_max_bytes < read_limit 134217728 client
        → expansion_factor * read_limit 134217728 client ≤ positive_or client.mem_limit 134217728)
read_limit_bounds_example = read_limit_bounds 134217728 client

fetch_ok_iff_example :
    (fetch sample parse 134217728 client keep (answered response) ≡ ok (row ∷ [])) ↔ (
      (leb 300 response.status_code ≡ false)
      × (length response.body ≤ read_limit 134217728 client)
      × (response.body_error ≡ none)
      × (decode sample keep (parse response.body) ≡ ok (row ∷ [])))
fetch_ok_iff_example = fetch_ok_iff sample parse 134217728 client keep response (row ∷ [])

fetch-IsBounded_example : IsBounded sample max_samples (row ∷ [])
fetch-IsBounded_example =
    fetch-IsBounded sample parse 134217728 client keep (answered response) (row ∷ []) fetch_run
