-- ===== src/Scrape/Decode/Budget.antt =====
-- `decode` against a reference: all rows of all admitted families, or an error.
use zensu_monitoring_agent.Prelude.{
  ℕ, ◌-◌, ◌≤◌, ◌≡◌, ap, ◌∙◌, Bool, Option, none, some, List, [], ◌∷◌, ◌++◌, append_assoc,
  append-nil, if◌then◌else◌, length, length-append, leb, inl, inr, Bool-cases, Option-cases, map,
  arith,
}
use zensu_monitoring_agent.Prelude.Maps.{Map}
use zensu_monitoring_agent.Prelude.Float.{Float64}
use zensu_monitoring_agent.Scrape.Series.{Series}
use zensu_monitoring_agent.Scrape.Decode.{
  Metric, MetricFamily, family, Outcome, ok, failed, too_many_samples, kind_of, is_unsupported,
  max_samples, scalar_of, series_of, rows_of, series_from_family, admits, decode_from, decode,
}

module _ (fl : Float64) where
  open fl use {F}

  abbrev pub add_row : MetricFamily F → Metric F → Option F → List (Series F) → List (Series F)
  add_row mf m none rows = rows
  add_row mf m (some v) rows = series_of fl mf m v ∷ rows

  abbrev pub scalar_rows : MetricFamily F → List (Metric F) → List (Series F)
  scalar_rows mf [] = []
  scalar_rows mf (m ∷ ms) = add_row mf m (scalar_of fl m mf.metric_type) (scalar_rows mf ms)

  -- Every row that a family has.
  abbrev pub family_rows : MetricFamily F → List (Series F)
  family_rows mf = if is_unsupported (kind_of mf.metric_type) then [] else scalar_rows mf mf.metrics

  -- Every row of every admitted family, in order.
  abbrev pub admitted_rows : Map Bool → List (MetricFamily F) → List (Series F)
  admitted_rows keep [] = []
  admitted_rows keep (mf ∷ more) =
      if admits fl keep mf
      then family_rows mf ++ admitted_rows keep more
      else admitted_rows keep more

  abbrev within : ℕ → List (Series F) → Option (List (Series F))
  within budget rows = if leb (length rows) budget then some rows else none

  rows_of_lem :
      (mf : MetricFamily F) (budget : ℕ) (ms : List (Metric F)) (out : List (Series F))
      → length out ≤ budget
      → rows_of fl mf budget ms out ≡ within budget (out ++ scalar_rows mf ms)
  unfolding rows_of
  rows_of_lem mf budget [] out h = rw (append-nil out) (ground arith)
  rows_of_lem mf budget (m ∷ ms) out h = elim (Option-cases (scalar_of fl m mf.metric_type)) [
    | inl e ↦ rw (e, rows_of) (rows_of_lem mf budget ms out h)
    | inr (v, e) ↦
        rw (e, rows_of)
          elim (Bool-cases (leb budget (length out))) [
            | inl full ↦ ground (arith, length-append out (series_of fl mf m v ∷ scalar_rows mf ms))
            | inr room ↦ rw room (
                rows_of_lem mf budget ms (out ++ series_of fl mf m v ∷ [])
                  (ground (arith, length-append out (series_of fl mf m v ∷ [])))
                ∙ ap (within budget)
                    (append_assoc out (series_of fl mf m v ∷ []) (scalar_rows mf ms)))
          ]
  ]

  series_from_family_lem :
      (mf : MetricFamily F) (budget : ℕ)
      → series_from_family fl mf budget ≡ within budget (family_rows mf)
  unfolding series_from_family
  series_from_family_lem mf budget = elim (Bool-cases (is_unsupported (kind_of mf.metric_type))) [
    | inl e ↦ rw (e, series_from_family) (ground arith)
    | inr e ↦ rw (e, series_from_family) (rows_of_lem mf budget mf.metrics [] (omega arith))
  ]

  -- All of the rows, or the error that there are too many.
  abbrev pub all_or_error : List (Series F) → Outcome (List (Series F))
  all_or_error rows = if leb (length rows) max_samples then ok rows else failed too_many_samples

  decode_from_lem :
      (keep : Map Bool) (families : List (MetricFamily F)) (out : List (Series F))
      → length out ≤ max_samples
      → decode_from fl keep (map family families) out
        ≡ all_or_error (out ++ admitted_rows keep families)
  unfolding decode_from
  decode_from_lem keep [] out h = rw (append-nil out) (ground arith)
  decode_from_lem keep (mf ∷ more) out h = elim (Bool-cases (admits fl keep mf)) [
    | inr e ↦ rw (e, decode_from) (decode_from_lem keep more out h)
    | inl e ↦
        rw (e, decode_from, series_from_family_lem mf (max_samples - length out))
          elim (Bool-cases (leb (length (family_rows mf)) (max_samples - length out))) [
            | inl fits ↦ rw fits (
                decode_from_lem keep more (out ++ family_rows mf)
                  (ground (arith, length-append out (family_rows mf)))
                ∙ ap all_or_error (append_assoc out (family_rows mf) (admitted_rows keep more)))
            | inr over ↦ rw over (
                ground (
                  arith,
                  length-append out (family_rows mf ++ admitted_rows keep more),
                  length-append (family_rows mf) (admitted_rows keep more),
                ))
          ]
  ]

  -- Decoding an exposition that parses gives every row of every family that the set of names admits, in
  -- order, if those are at most 50000; if they are more it gives the error that there are too many, and
  -- no row. It never gives a part of the rows.
  pub decode-all_or_error :
      (keep : Map Bool) (families : List (MetricFamily F))
      → decode fl keep (map family families) ≡ all_or_error (admitted_rows keep families)
  unfolding decode
  decode-all_or_error keep families = decode_from_lem keep families [] (omega arith)
