-- ===== src/Agent/Exposition/Mapped.antt =====
-- A whole scrape in `mapSeries` of internal/agent/exposition.go: the samples of one service.
use zensu_monitoring_agent.Prelude.{
  ◌≡◌, refl, sym, ap, ◌∙◌, Bool, true, false, Option, none, some, List, [], ◌∷◌, ◌++◌, append-nil,
  append_assoc, Str, any, inl, inr, Bool-cases, Option-cases, arith,
}
use zensu_monitoring_agent.Prelude.Maps.{Map, get}
use zensu_monitoring_agent.Prelude.Float.{Float64, Clock}
use zensu_monitoring_agent.Scrape.Series.{Series}
use zensu_monitoring_agent.Scrape.Resolve.{Role, cpu, memory, Selection, rateable, select}
use zensu_monitoring_agent.Scrape.Rate.{observe, rate_all, refused_series}
use zensu_monitoring_agent.Agent.Index.{ServiceTarget, SlugIndex, new_slug_index}
use zensu_monitoring_agent.Agent.Exposition.{MetricSample, ExpositionSource, counters_of}
use zensu_monitoring_agent.Agent.Exposition.Tick.{
  empty_selections, rate_counters, reduce, reduce_all, select_role, map_series,
}
use zensu_monitoring_agent.Agent.Exposition.Service.{samples_of, service_samples, reduce-service}
use zensu_monitoring_agent.Agent.Exposition.Core.{
  core-select_role, core-reduce, config-rate_counters,
}

module _ {fl : Float64} (ck : Clock fl) where
  open fl use {F}

  abbrev pub chosen : Option (Selection F) → List (Selection F)
  chosen none = []
  chosen (some sel) = sel ∷ []

  pub select_role-eq :
      (role : Role) (override : Str) (series : List (Series F))
      (acc : List (Selection F) × ExpositionSource ck)
      → (select_role ck role override series acc).0
        ≡ acc.0 ++ chosen (select fl acc.1.resolver role series)
  unfolding select_role
  select_role-eq role override series (sels, s) =
      elim (Option-cases (select fl s.resolver role series)) [
        | inl e ↦ rw (select_role, e) (sym (append-nil sels))
        | inr (sel, e) ↦ rw (select_role, e) refl
      ]

  -- The selections of a scrape: that of CPU, then that of memory, where there is one.
  abbrev pub selected : ExpositionSource ck → List (Series F) → List (Selection F)
  selected s series =
      chosen (select fl s.resolver cpu series) ++ chosen (select fl s.resolver memory series)

  pub selected-eq :
      (series : List (Series F)) (s : ExpositionSource ck)
      → (select_role ck memory s.resolver.memory_override series
          (select_role ck cpu s.resolver.cpu_override series ([], s))).0
        ≡ selected s series
  selected-eq series s =
      let one = select_role ck cpu s.resolver.cpu_override series ([], s) in
      select_role-eq memory s.resolver.memory_override series one
      ∙ ap (λ x. x ++ chosen (select fl one.1.resolver memory series))
          (select_role-eq cpu s.resolver.cpu_override series ([], s))
      ∙ ap (λ r. chosen (select fl s.resolver cpu series) ++ chosen (select fl r memory series))
          (ap (λ c. c.1) (core-select_role ck cpu s.resolver.cpu_override series ([], s)))

  counters_of-none : (sels : List (Selection F)) → any rateable sels ≡ false → counters_of sels ≡ []
  unfolding counters_of
  counters_of-none [] h = refl
  counters_of-none (sel ∷ sels) h = elim (Bool-cases (rateable sel)) [
    | inl e ↦ absurd (ground (arith, e, h))
    | inr e ↦ rw e (counters_of-none sels (rw e at h))
  ]

  -- The rates of a scrape are those of the rater that the source has.
  rate_counters-observe :
      (at : ck.Time) (sels : List (Selection F)) (s : ExpositionSource ck)
      → (rate_counters ck at sels s).1 ≡ (observe ck at (counters_of sels) s.rater).1
  unfolding rate_counters observe rate_all
  rate_counters-observe at sels s = elim (Bool-cases (any rateable sels)) [
    | inr none_is ↦ rw (rate_counters, none_is, counters_of-none sels none_is) refl
    | inl some_is ↦
        elim (Bool-cases (refused_series ck (observe ck at (counters_of sels) s.rater).0)) [
          | inl e ↦ rw (rate_counters, some_is, e) refl
          | inr e ↦ rw (rate_counters, some_is, e) refl
        ]
  ]

  module _ (rated : Map F) (index : SlugIndex) (g : Str) where
    abbrev all_samples : Str → List (Selection F) → List (MetricSample F)
    all_samples label [] = []
    all_samples label (sel ∷ sels) =
        service_samples ck index label sel rated g ++ all_samples label sels

    reduce_all-service :
        (first : Bool) (sels : List (Selection F))
        (acc : ExpositionSource ck × Map (List (MetricSample F)))
        → samples_of g (reduce_all ck sels rated index first acc).1
          ≡ samples_of g acc.1 ++ all_samples acc.0.slug_label sels
    unfolding reduce_all
    reduce_all-service first [] (s, out) = sym (append-nil (samples_of g out))
    reduce_all-service first (sel ∷ sels) (s, out) =
        let label = ap (λ c. c.2) (core-reduce ck sel rated index first (s, out)) in
        let later = reduce_all-service first sels (reduce ck sel rated index first (s, out)) in
        later
        ∙ ap (λ l. samples_of g (reduce ck sel rated index first (s, out)).1 ++ all_samples l sels)
            label
        ∙ ap (λ x. x ++ all_samples s.slug_label sels)
            (reduce-service ck index sel rated first s out g)
        ∙ append_assoc (samples_of g out) _ _

    -- What the selection of a role, if there is one, gives the service.
    abbrev pub role_samples : Str → Option (Selection F) → List (MetricSample F)
    role_samples label none = []
    role_samples label (some sel) = service_samples ck index label sel rated g

    all_samples-chosen :
        (label : Str) (a b : Option (Selection F))
        → all_samples label (chosen a ++ chosen b) ≡ role_samples label a ++ role_samples label b
    all_samples-chosen label none none = refl
    all_samples-chosen label none (some y) = append-nil _
    all_samples-chosen label (some x) none = refl
    all_samples-chosen label (some x) (some y) =
        ap (λ m. role_samples label (some x) ++ m) (append-nil _)

    all_samples-nil :
        (label : Str) (sels : List (Selection F))
        → empty_selections sels ≡ true
        → all_samples label sels ≡ []
    all_samples-nil label [] h = refl
    all_samples-nil label (sel ∷ sels) h = absurd (ground (arith, h))

  -- What a scrape leaves to `reduce`: the selections, from the resolver that the source has.
  module _ (at : ck.Time) (targets : List ServiceTarget) (series : List (Series F))
      (s : ExpositionSource ck) (g : Str) where
    abbrev pub rates : Map F
    rates = (observe ck at (counters_of (selected s series)) s.rater).1

    -- For each service, the samples of a scrape are what the selection of CPU gives it, followed by what the
    -- selection of memory gives it, with the rates of the counters of both selections; what the source
    -- warned of before makes no difference.
    pub map_series-service :
        samples_of g (map_series ck at targets series s).1
        ≡ role_samples rates
            (new_slug_index targets)
            g
            s.slug_label
            (select fl s.resolver cpu series)
          ++ role_samples rates
              (new_slug_index targets)
              g
              s.slug_label
              (select fl s.resolver memory series)
    unfolding map_series get
    map_series-service =
        let index = new_slug_index targets in
        let one = select_role ck cpu s.resolver.cpu_override series ([], s) in
        let two = select_role ck memory s.resolver.memory_override series one in
        let core1 = core-select_role ck cpu s.resolver.cpu_override series ([], s) in
        let core2 = core-select_role ck memory s.resolver.memory_override series one ∙ core1 in
        let sels : two.0 ≡ selected s series =
          select_role-eq memory s.resolver.memory_override series one
          ∙ ap (λ x. x ++ chosen (select fl one.1.resolver memory series))
              (select_role-eq cpu s.resolver.cpu_override series ([], s))
          ∙ ap (λ r. chosen (select fl s.resolver cpu series) ++ chosen (select fl r memory series))
              (ap (λ c. c.1) core1) in
        let start = record two.1 { unmatched_warned = false } in
        let rated = (rate_counters ck at two.0 start).1 in
        let rates_same : rated ≡ rates =
          rate_counters-observe at two.0 start
          ∙ ap (λ x. (observe ck at (counters_of x) two.1.rater).1) sels
          ∙ ap (λ r. (observe ck at (counters_of (selected s series)) r).1) (ap (λ c. c.0) core2) in
        let label = ap (λ c. c.1) (config-rate_counters ck at two.0 start) ∙ ap (λ c. c.2) core2 in
        let pair =
          all_samples-chosen rates index g s.slug_label (select fl s.resolver cpu series)
            (select fl s.resolver memory series) in
        elim (Bool-cases (empty_selections two.0)) [
          | inl none_is ↦
              rw (map_series, none_is)
                (sym (
                    all_samples-nil rates index g s.slug_label (selected s series)
                      (rw sels at none_is))
                  ∙ pair)
          | inr some_is ↦
              rw (map_series, some_is)
                (reduce_all-service rated index g _ two.0 ((rate_counters ck at two.0 start).0, [])
                  ∙ ap (λ l. all_samples rated index g l two.0) label
                  ∙ ap (λ x. all_samples x index g s.slug_label two.0) rates_same
                  ∙ ap (λ x. all_samples rates index g s.slug_label x) sels
                  ∙ pair)
        ]
