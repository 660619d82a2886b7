-- ===== src/Agent/Exposition/Filtered.antt =====
-- What the names that `Fetch` is told to keep change in the samples of a scrape.
mod Tests
use zensu_monitoring_agent.Prelude.{
  codes, is_empty, Memᴰ, ℕ, ◌≤◌, ◌≡◌, refl, sym, ap, ap₂, ◌∙◌, Bool, true, false, not, ◌&&◌, Option,
  none, some, List, [], ◌∷◌, ◌++◌, map, Str, filter, length, length-filter-le, ltb, leb,
  if◌then◌else◌, Bool-cases, Option-cases, inl, inr, arith,
}
use mathlib.Core.List.Memᴰ
use zensu_monitoring_agent.Prelude.Maps.{Map, get}
use zensu_monitoring_agent.Prelude.Int.{pos}
use zensu_monitoring_agent.Prelude.Float.{Float64, Clock}
use zensu_monitoring_agent.Scrape.Series.{Series}
use zensu_monitoring_agent.Scrape.Resolve.{
  Role, cpu, memory, Candidate, Resolver, candidate_of, cpu_candidates, candidates, Selection,
  candidate_names, select,
}
use zensu_monitoring_agent.Scrape.BaseNames.{normalize_name}
use zensu_monitoring_agent.Scrape.Labels.{is_set}
use zensu_monitoring_agent.Scrape.Resolve.Select.{select-filter, keeps_role}
use zensu_monitoring_agent.Scrape.Rate.{observe}
use zensu_monitoring_agent.Scrape.Decode.{
  Metric, MetricFamily, family, Outcome, ok, kind_of, is_unsupported, scalar_of, series_of, admits,
  max_samples, decode,
}
use zensu_monitoring_agent.Scrape.Decode.Budget.{
  scalar_rows, family_rows, admitted_rows, all_or_error, decode-all_or_error,
}
use zensu_monitoring_agent.Agent.Index.{ServiceTarget, new_slug_index}
use zensu_monitoring_agent.Agent.Exposition.{MetricSample, ExpositionSource, counters_of}
use zensu_monitoring_agent.Agent.Exposition.Tick.{map_series}
use zensu_monitoring_agent.Agent.Exposition.Service.{samples_of}
use zensu_monitoring_agent.Agent.Exposition.Mapped.{
  chosen, selected, rates, role_samples, map_series-service,
}

filter-append :
    {A : Type 0} (p : A → Bool) (xs ys : List A) → filter p (xs ++ ys) ≡ filter p xs ++ filter p ys
filter-append p [] ys = refl
filter-append p (x ∷ xs) ys = elim (Bool-cases (p x)) [
  | inl e ↦ rw e (ap (λ zs. x ∷ zs) (filter-append p xs ys))
  | inr e ↦ rw e (filter-append p xs ys)
]

module _ (fl : Float64) (keep : Map Bool) where
  open fl use {F}

  -- The name of the row is to be kept.
  abbrev is_kept : Series F → Bool
  is_kept r = is_set (normalize_name r.name) keep

  abbrev all_if : Bool → List (Series F) → List (Series F)
  all_if b rows = if b then rows else []

  -- The rows of a family have its name.
  filter-scalar_rows :
      (mf : MetricFamily F) (ms : List (Metric F))
      → filter is_kept (scalar_rows fl mf ms)
        ≡ all_if (is_set (normalize_name mf.name) keep) (scalar_rows fl mf ms)
  unfolding series_of
  filter-scalar_rows mf [] = ground arith
  filter-scalar_rows mf (m ∷ ms) = elim (Option-cases (scalar_of fl m mf.metric_type)) [
    | inl e ↦ rw e (filter-scalar_rows mf ms)
    | inr (v, e) ↦ elim (Bool-cases (is_set (normalize_name mf.name) keep)) [
      | inl named ↦
          rw (e, named)
            (ap (λ rows. series_of fl mf m v ∷ rows) (rw named at (filter-scalar_rows mf ms)))
      | inr other ↦ rw (e, other) (rw other at (filter-scalar_rows mf ms))
    ]
  ]

  filter-family_rows :
      (mf : MetricFamily F)
      → filter is_kept (family_rows fl mf)
        ≡ all_if (is_set (normalize_name mf.name) keep) (family_rows fl mf)
  filter-family_rows mf = elim (Bool-cases (is_unsupported (kind_of mf.metric_type))) [
    | inl e ↦ rw e (ground arith)
    | inr e ↦ rw e (filter-scalar_rows mf mf.metrics)
  ]

  -- What a set of names that is not empty admits.
  admitted-filter :
      (families : List (MetricFamily F))
      → ltb 0 (length keep) ≡ true
      → admitted_rows fl keep families ≡ filter is_kept (admitted_rows fl [] families)
  unfolding admits
  admitted-filter [] h = refl
  admitted-filter (mf ∷ families) h =
      let later = admitted-filter families h in
      let here = filter-append is_kept (family_rows fl mf) (admitted_rows fl [] families) in
      elim (Bool-cases (is_set (normalize_name mf.name) keep)) [
        | inl named ↦
            rw (admitted_rows, admits, h, named)
              (ap₂ ◌++◌ (sym (rw named at (filter-family_rows mf))) later ∙ sym here)
        | inr other ↦
            rw (admitted_rows, admits, h, other)
              (later
                ∙ ap (λ rows. rows ++ filter is_kept (admitted_rows fl [] families))
                    (sym (rw other at (filter-family_rows mf)))
                ∙ sym here)
      ]

is_set-some : (k : Str) (m : Map Bool) → is_set k m ≡ true → ltb 0 (length m) ≡ true
unfolding is_set get
is_set-some k [] h = cc
is_set-some k (e ∷ m) h = ground arith

-- A source has names to keep.
candidate_names-some : (fl : Float64) (r : Resolver) → ltb 0 (length (candidate_names fl r)) ≡ true
unfolding candidates cpu_candidates
candidate_names-some fl r = elim (Bool-cases (is_empty r.cpu_override)) [
  | inl unset ↦ is_set-some _ _ (
      keeps_role fl r cpu {c = candidate_of fl (codes "k8s_pod_cpu_usage") 1000}
        (rw (candidates, unset) (Memᴰ.head refl)))
  | inr set ↦ is_set-some _ _ (
      keeps_role fl r cpu
        {c = record { name = r.cpu_override; scale = fl.of_int (pos 1000); exact = true }}
        (rw (candidates, set) (Memᴰ.head refl)))
]

module _ {fl : Float64} (ck : Clock fl) (at : ck.Time) (targets : List ServiceTarget)
    (s : ExpositionSource ck) (series : List (Series fl.F)) where
  -- The rows whose names `Fetch` keeps for the source.
  abbrev pub kept_rows : List (Series fl.F)
  kept_rows = filter (λ r. is_set (normalize_name r.name) (candidate_names fl s.resolver)) series

  selected-kept : selected ck s kept_rows ≡ selected ck s series
  selected-kept =
      ap₂ (λ x y. chosen ck x ++ chosen ck y) (select-filter fl s.resolver cpu series)
        (select-filter fl s.resolver memory series)

  rates-kept : (g : Str) → rates ck at targets kept_rows s g ≡ rates ck at targets series s g
  rates-kept g = ap (λ x. (observe ck at (counters_of x) s.rater).1) selected-kept

  -- Each service has the same samples from a scrape of which only the rows were kept whose names the source's
  -- candidates have as from the whole scrape.
  pub map_series-filter :
      (g : Str)
      → samples_of g (map_series ck at targets kept_rows s).1
        ≡ samples_of g (map_series ck at targets series s).1
  map_series-filter g =
      let index = new_slug_index targets in
      map_series-service ck at targets kept_rows s g
      ∙ ap
          (λ x.
            role_samples ck x index g s.slug_label (select fl s.resolver cpu kept_rows)
            ++ role_samples ck x index g s.slug_label (select fl s.resolver memory kept_rows))
          (rates-kept g)
      ∙ ap₂
          (λ x y.
            role_samples ck (rates ck at targets series s g) index g s.slug_label x
            ++ role_samples ck (rates ck at targets series s g) index g s.slug_label y)
          (select-filter fl s.resolver cpu series) (select-filter fl s.resolver memory series)
      ∙ sym (map_series-service ck at targets series s g)

module _ {fl : Float64} (ck : Clock fl) (at : ck.Time) (targets : List ServiceTarget)
    (s : ExpositionSource ck) (families : List (MetricFamily fl.F)) where
  -- Every row of the exposition.
  abbrev pub every_row : List (Series fl.F)
  every_row = admitted_rows fl [] families

  -- What a scrape would give a service that decoded everything.
  abbrev pub unfiltered : Str → List (MetricSample fl.F)
  unfiltered g = samples_of g (map_series ck at targets every_row s).1

  -- Decoding an exposition with the names that the source's candidates have gives some rows, if it has at most
  -- 50000 rows in all, and each service has the same samples from these as from all the rows of the exposition:
  -- which families are skipped cannot be told from the samples.
  pub decode-unfiltered :
      length every_row ≤ max_samples
      → (rows : List (Series fl.F)) × (decode fl
            (candidate_names fl s.resolver)
            (map family families)
          ≡ ok rows)
        × ((g : Str) → samples_of g (map_series ck at targets rows s).1 ≡ unfiltered g)
  decode-unfiltered fits =
      let keep = candidate_names fl s.resolver in
      let rows = kept_rows ck at targets s every_row in
      let few : leb (length rows) max_samples ≡ true =
        ground (arith, length-filter-le (is_kept fl keep) every_row, fits) in
      (
        rows,
        decode-all_or_error fl keep families
            ∙ ap (all_or_error fl)
                (admitted-filter fl keep families (candidate_names-some fl s.resolver))
            ∙ rw few refl,
        map_series-filter ck at targets s every_row,
      )
