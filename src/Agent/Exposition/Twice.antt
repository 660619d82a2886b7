-- ===== src/Agent/Exposition/Twice.antt =====
-- Two scrapes in a row of the exposition source of internal/agent/exposition.go, and the rates of the second.
use zensu_monitoring_agent.Prelude.{
  ◌≤◌, ◌≡◌, ◌⊎◌, inl, inr, refl, sym, subst, ap, ◌∙◌, ◌++◌, Option, none, some, Bool-cases, arith,
  if◌then◌else◌, true, false, List, [], ◌∷◌, Str, any, length, Memᴰ,
}
use mathlib.Core.List.Memᴰ
use zensu_monitoring_agent.Prelude.Maps.{Map, get}
use zensu_monitoring_agent.Prelude.Sort.{Distinct}
use zensu_monitoring_agent.Prelude.Float.{Float64, Clock}
use zensu_monitoring_agent.Scrape.Series.{Series, fingerprint}
use zensu_monitoring_agent.Scrape.Resolve.{cpu, memory, Selection, rateable, select}
use zensu_monitoring_agent.Scrape.Rate.{ceiling_of, observe}
use zensu_monitoring_agent.Scrape.Rate.Rates.{fingerprints}
use zensu_monitoring_agent.Scrape.Rate.Exact.{predecessor, due, observe-due}
use zensu_monitoring_agent.Agent.Index.{ServiceTarget, new_slug_index}
use zensu_monitoring_agent.Agent.Exposition.{MetricSample, ExpositionSource, counters_of, reading}
use zensu_monitoring_agent.Agent.Exposition.Tick.{empty_selections, select_role, map_series}
use zensu_monitoring_agent.Agent.Exposition.Core.{
  config, config-rate_counters, core-select_role, core-reduce_all, rate_counters-rater,
}
use zensu_monitoring_agent.Agent.Exposition.Mapped.{
  chosen, selected, selected-eq, rates, role_samples, map_series-service,
}
use zensu_monitoring_agent.Agent.Exposition.Service.{samples_of}
use zensu_monitoring_agent.Agent.Exposition.Valued.{valued, AreWorth, service_samples-eq-valued}

module _ {fl : Float64} (ck : Clock fl) where
  open fl use {F}

  some-not_empty :
      (sels : List (Selection F)) → any rateable sels ≡ true → empty_selections sels ≡ false
  some-not_empty [] h = cc
  some-not_empty (sel ∷ sels) h = refl

  -- The counters of a scrape.
  abbrev pub counters : ExpositionSource ck → List (Series F) → List (Series F)
  counters s series = counters_of (selected ck s series)

  -- A scrape with a counter to rate leaves a Rater that has observed its counters.
  map_series-rater :
      (at : ck.Time) (targets : List ServiceTarget) (series : List (Series F))
      (s : ExpositionSource ck)
      → any rateable (selected ck s series) ≡ true
      → (map_series ck at targets series s).0.rater ≡ (observe ck at (counters s series) s.rater).0
  unfolding map_series
  map_series-rater at targets series s some_is =
      let one = select_role ck cpu s.resolver.cpu_override series ([], s) in
      let two = select_role ck memory s.resolver.memory_override series one in
      let same = selected-eq ck series s in
      let core =
        core-select_role ck memory s.resolver.memory_override series one
        ∙ core-select_role ck cpu s.resolver.cpu_override series ([], s) in
      let start = record two.1 { unmatched_warned = false } in
      let rateable_two : any rateable two.0 ≡ true = ap (any rateable) same ∙ some_is in
      rw (map_series, some-not_empty two.0 rateable_two)
        (ap (λ c. c.0) (core-reduce_all ck two.0 _ (new_slug_index targets) _ _)
          ∙ rate_counters-rater ck at two.0 start rateable_two
          ∙ ap (λ x. (observe ck at (counters_of x) two.1.rater).0) same
          ∙ ap (λ r. (observe ck at (counters s series) r).0) (ap (λ c. c.0) core))

  -- A scrape leaves the configuration alone.
  config-map_series :
      (at : ck.Time) (targets : List ServiceTarget) (series : List (Series F))
      (s : ExpositionSource ck)
      → config ck (map_series ck at targets series s).0 ≡ config ck s
  unfolding map_series
  config-map_series at targets series s =
      let one = select_role ck cpu s.resolver.cpu_override series ([], s) in
      let two = select_role ck memory s.resolver.memory_override series one in
      let start = record two.1 { unmatched_warned = false } in
      let kept : config ck two.1 ≡ config ck s =
        ap (λ c. (c.1, c.2))
          (core-select_role ck memory s.resolver.memory_override series one
            ∙ core-select_role ck cpu s.resolver.cpu_override series ([], s)) in
      elim (Bool-cases (empty_selections two.0)) [
        | inl none_is ↦ rw (map_series, none_is) kept
        | inr some_is ↦
            rw (map_series, some_is)
              (ap (λ c. (c.1, c.2)) (core-reduce_all ck two.0 _ (new_slug_index targets) _ _)
                ∙ config-rate_counters ck at two.0 start
                ∙ kept)
      ]

  -- The rows of a selection that can be rated are among the counters.
  mem-counters_of :
      (sels : List (Selection F)) (sel : Selection F) (row : Series F)
      → Memᴰ sel sels
      → rateable sel ≡ true
      → Memᴰ row sel.series
      → Memᴰ row (counters_of sels)
  unfolding counters_of
  mem-counters_of [] sel row here is m = elim here [ ]
  mem-counters_of (a ∷ sels) sel row (Memᴰ.head same) is m =
      rw (ap rateable (sym same) ∙ is)
        (Memᴰ.append_left (counters_of sels) (subst (λ x. Memᴰ row x.series) same m))
  mem-counters_of (a ∷ sels) sel row (Memᴰ.tail later) is m =
      let rest = mem-counters_of sels sel row later is m in
      elim (Bool-cases (rateable a)) [
        | inl e ↦ rw e (Memᴰ.append_right a.series rest)
        | inr e ↦ rw e rest
      ]

  mem-chosen :
      (o : Option (Selection F)) (sel : Selection F) → o ≡ some sel → Memᴰ sel (chosen ck o)
  mem-chosen none sel e = absurd (ground (arith, e))
  mem-chosen (some a) sel e = Memᴰ.head cc

  chosen-counters :
      (a b : Option (Selection F)) (sel : Selection F) (row : Series F)
      → (a ≡ some sel) ⊎ (b ≡ some sel)
      → rateable sel ≡ true
      → Memᴰ row sel.series
      → Memᴰ row (counters_of (chosen ck a ++ chosen ck b))
  chosen-counters a b sel row is rated m =
      mem-counters_of (chosen ck a ++ chosen ck b) sel row
        (elim is [
          | inl e ↦ Memᴰ.append_left (chosen ck b) (mem-chosen a sel e)
          | inr e ↦ Memᴰ.append_right (chosen ck a) (mem-chosen b sel e)
        ])
        rated m

  module _ (at at' : ck.Time) (targets targets' : List ServiceTarget)
      (series series' : List (Series F)) (s : ExpositionSource ck) where
    -- The source after the first scrape.
    abbrev scraped : ExpositionSource ck
    scraped = (map_series ck at targets series s).0

    -- What a row of the second scrape is worth: as a counter, what it is due after its predecessor in the first;
    -- else its own value.
    abbrev pub worth : Selection F → Series F → Option F
    worth sel row =
        if rateable sel
        then due ck at at' row (predecessor (fingerprint row) (counters s series))
        else some row.value

    -- What the family of a role gives a service in the second scrape, and nothing without a family.
    abbrev pub role_due : Str → Option (Selection F) → List (MetricSample F)
    role_due g none = []
    role_due g (some sel) = valued ck (new_slug_index targets') s.slug_label g (worth sel) sel

    role_samples-due :
        (g : Str) (o : Option (Selection F)) (rated : Map F)
        → ((sel : Selection F)
            → o ≡ some sel
            → AreWorth ck (new_slug_index targets') s.slug_label g (worth sel) sel rated sel.series)
        → role_samples ck rated (new_slug_index targets') g s.slug_label o ≡ role_due g o
    role_samples-due g none rated h = refl
    role_samples-due g (some sel) rated h =
        service_samples-eq-valued ck (new_slug_index targets') s.slug_label g (worth sel) sel rated
          (h sel refl)

    -- The rates of the second scrape.
    abbrev second_rates : Str → Map F
    second_rates g = rates ck at' targets' series' scraped g

    rates-due :
        (row : Series F) (g : Str)
        → any rateable (selected ck s series) ≡ true
        → length (counters s series) ≤ ceiling_of ck s.rater
        → length (counters s series') ≤ ceiling_of ck s.rater
        → Distinct (fingerprints (counters s series))
        → Distinct (fingerprints (counters s series'))
        → Memᴰ row (counters s series')
        → get (fingerprint row) (second_rates g)
          ≡ due ck at at' row (predecessor (fingerprint row) (counters s series))
    rates-due row g some_is fits fits' d d' m =
        ap
          (λ c.
            get (fingerprint row)
              (observe ck at'
                (counters_of (
                  chosen ck (select fl c.0 cpu series')
                  ++ chosen ck (select fl c.0 memory series')))
                scraped.rater).1)
          (config-map_series at targets series s)
        ∙ ap (λ r. get (fingerprint row) (observe ck at' (counters s series') r).1)
            (map_series-rater at targets series s some_is)
        ∙ observe-due ck at at' (counters s series) (counters s series') s.rater row fits fits' d d'
            m

    -- Of two scrapes in a row whose counters are within the ceiling, with distinct fingerprints in each, and
    -- of which the first has a counter to rate: the samples of each service in the second are what its rows of
    -- the CPU family give, followed by what its rows of the memory family give, where a row of a counter
    -- counts with the difference to the row of the first scrape with its fingerprint over the seconds between,
    -- and has no value if there is none, if the clock did not advance or if the counter fell, and a row of a
    -- gauge counts with its value. A family gives one sample, the sum of the service's rows times the scale,
    -- if the service has a row, each of them has a value and the product is finite, and none otherwise; none
    -- for a counter that cannot be rated. Whatever the source met before makes no difference.
    pub map_series-due :
        (g : Str)
        → any rateable (selected ck s series) ≡ true
        → length (counters s series) ≤ ceiling_of ck s.rater
        → length (counters s series') ≤ ceiling_of ck s.rater
        → Distinct (fingerprints (counters s series))
        → Distinct (fingerprints (counters s series'))
        → samples_of g (map_series ck at' targets' series' (map_series ck at targets series s).0).1
          ≡ role_due g (select fl s.resolver cpu series')
            ++ role_due g (select fl s.resolver memory series')
    unfolding reading
    map_series-due g some_is fits fits' d d' =
        let cpu_is = select fl s.resolver cpu series' in
        let memory_is = select fl s.resolver memory series' in
        let index = new_slug_index targets' in
        let worth_it : (sel : Selection F)
            → (cpu_is ≡ some sel) ⊎ (memory_is ≡ some sel)
            → (row : Series F) → Memᴰ row sel.series
            → reading sel (second_rates g) row ≡ worth sel row =
          λ sel is row m. elim (Bool-cases (rateable sel)) [
            | inr no_rate ↦ rw (reading, no_rate) refl
            | inl rated ↦
                rw (reading, rated)
                  (rates-due row g some_is fits fits' d d'
                    (chosen-counters cpu_is memory_is sel row is rated m))
          ] in
        map_series-service ck at' targets' series' scraped g
        ∙ ap
            (λ c.
              role_samples ck (second_rates g) index g c.1 (select fl c.0 cpu series')
              ++ role_samples ck (second_rates g) index g c.1 (select fl c.0 memory series'))
            (config-map_series at targets series s)
        ∙ ap (λ x. x ++ role_samples ck (second_rates g) index g s.slug_label memory_is)
            (role_samples-due g cpu_is (second_rates g) (λ sel e. worth_it sel (inl e)))
        ∙ ap (λ x. role_due g cpu_is ++ x)
            (role_samples-due g memory_is (second_rates g) (λ sel e. worth_it sel (inr e)))
