-- ===== src/Agent/Exposition/Core.antt =====
-- What the methods of `expositionSource` in internal/agent/exposition.go leave alone while they warn.
use zensu_monitoring_agent.Prelude.{
  ◌≡◌, refl, ◌∙◌, Bool, true, not, ◌&&◌, ◌||◌, List, [], ◌∷◌, Str, any, length, ltb, ◌==◌, inl, inr,
  Bool-cases, Option-cases,
}
use zensu_monitoring_agent.Prelude.Maps.{Map}
use zensu_monitoring_agent.Prelude.Float.{Float64, Clock}
use zensu_monitoring_agent.Scrape.Series.{Series}
use zensu_monitoring_agent.Scrape.Resolve.{Role, cpu, memory, Selection, rateable, Resolver, select}
use zensu_monitoring_agent.Scrape.Labels.{sorted_keys}
use zensu_monitoring_agent.Scrape.Rate.{Rater, observe, refused_series}
use zensu_monitoring_agent.Agent.Index.{SlugIndex}
use zensu_monitoring_agent.Agent.Exposition.{
  MetricSample, RoleState, ExpositionSource, Sums, Event, join, role_state, set_role, emit,
  counters_of,
}
use zensu_monitoring_agent.Agent.Exposition.Tick.{
  is_counter, same_report, warn_role_unresolved, rate_counters, report_withheld, note_dropped,
  note_ambiguous, reduce, reduce_all, select_role,
}

module _ {fl : Float64} (ck : Clock fl) where
  open fl use {F}

  -- What the latches and the log are not.
  abbrev pub core : ExpositionSource ck → Rater ck × Resolver × Str
  core s = (s.rater, s.resolver, s.slug_label)

  pub core-set_role :
      (role : Role) (r : RoleState) (s : ExpositionSource ck) → core (set_role role r s) ≡ core s
  unfolding set_role
  core-set_role cpu r s = refl
  core-set_role memory r s = refl

  pub core-emit : (e : Event) (s : ExpositionSource ck) → core (emit e s) ≡ core s
  unfolding emit
  core-emit e s = refl

  pub core-note_dropped :
      (sel : Selection F) (sums : Sums F) (s : ExpositionSource ck)
      → core (note_dropped ck sel sums s) ≡ core s
  unfolding note_dropped
  core-note_dropped sel sums s =
      elim (Bool-cases (sums.dropped == 0 || ltb 0 (length sums.contributed))) [
        | inl e ↦ rw (note_dropped, e) (core-set_role _ _ _)
        | inr e ↦ rw (note_dropped, e) (core-set_role _ _ _)
      ]

  pub core-note_ambiguous :
      (sel : Selection F) (s : ExpositionSource ck) → core (note_ambiguous ck sel s) ≡ core s
  unfolding note_ambiguous
  core-note_ambiguous sel s = elim (Bool-cases (length sel.ambiguous == 0)) [
    | inl e ↦ rw (note_ambiguous, e) (core-set_role _ _ _)
    | inr e ↦ rw (note_ambiguous, e) (core-set_role _ _ _)
  ]

  pub core-report_withheld :
      (role : Role) (incomplete : Map Bool) (first : Bool) (s : ExpositionSource ck)
      → core (report_withheld ck role incomplete first s) ≡ core s
  unfolding report_withheld
  core-report_withheld role incomplete first s =
      let slugs = sorted_keys incomplete in
      let emitted = core-emit _ s in
      elim (Bool-cases (length slugs == 0)) [
        | inl e ↦ rw (report_withheld, e) (core-set_role _ _ _ ∙ emitted)
        | inr e ↦ elim (Bool-cases first) [
          | inl f ↦ rw (report_withheld, e, f) emitted
          | inr f ↦ elim (Bool-cases (same_report (role_state role s).withheld (join slugs))) [
            | inl g ↦ rw (report_withheld, e, f, g) emitted
            | inr g ↦ rw (report_withheld, e, f, g) (core-emit _ _ ∙ core-set_role _ _ _ ∙ emitted)
          ]
        ]
      ]

  pub core-reduce :
      (sel : Selection F) (rated : Map F) (index : SlugIndex) (first : Bool)
      (acc : ExpositionSource ck × Map (List (MetricSample F)))
      → core (reduce ck sel rated index first acc).0 ≡ core acc.0
  unfolding reduce
  core-reduce sel rated index first (s, out) =
      elim (Bool-cases (is_counter sel.kind && not (rateable sel))) [
        | inl e ↦ rw (reduce, e) (core-set_role _ _ _)
        | inr e ↦
            rw (reduce, e)
              (core-report_withheld _ _ _ _
                ∙ core-note_ambiguous _ _
                ∙ core-note_dropped _ _ _
                ∙ core-set_role _ _ _)
      ]

  pub core-warn_role_unresolved :
      (role : Role) (override : Str) (s : ExpositionSource ck)
      → core (warn_role_unresolved ck role override s) ≡ core s
  unfolding warn_role_unresolved
  core-warn_role_unresolved role override s = elim (Bool-cases (role_state role s).unresolved) [
    | inl e ↦ rw (warn_role_unresolved, e) refl
    | inr e ↦ rw (warn_role_unresolved, e) (core-emit _ _ ∙ core-set_role _ _ _)
  ]

  pub core-select_role :
      (role : Role) (override : Str) (series : List (Series F))
      (acc : List (Selection F) × ExpositionSource ck)
      → core (select_role ck role override series acc).1 ≡ core acc.1
  unfolding select_role
  core-select_role role override series (sels, s) =
      elim (Option-cases (select fl s.resolver role series)) [
        | inl e ↦ rw (select_role, e) (core-warn_role_unresolved _ _ _)
        | inr (sel, e) ↦ rw (select_role, e) (core-set_role _ _ _)
      ]

  pub core-reduce_all :
      (sels : List (Selection F)) (rated : Map F) (index : SlugIndex) (first : Bool)
      (acc : ExpositionSource ck × Map (List (MetricSample F)))
      → core (reduce_all ck sels rated index first acc).0 ≡ core acc.0
  unfolding reduce_all
  core-reduce_all [] rated index first acc = refl
  core-reduce_all (sel ∷ sels) rated index first acc =
      core-reduce_all sels rated index first (reduce ck sel rated index first acc)
      ∙ core-reduce sel rated index first acc

  -- What a source is configured with: how it picks the families, and by which label it finds a service.
  abbrev pub config : ExpositionSource ck → Resolver × Str
  config s = (s.resolver, s.slug_label)

  pub config-rate_counters :
      (at : ck.Time) (sels : List (Selection F)) (s : ExpositionSource ck)
      → config (rate_counters ck at sels s).0 ≡ config s
  unfolding rate_counters
  config-rate_counters at sels s = elim (Bool-cases (any rateable sels)) [
    | inr none_is ↦ rw (rate_counters, none_is) refl
    | inl some_is ↦
        elim (Bool-cases (refused_series ck (observe ck at (counters_of sels) s.rater).0)) [
          | inl e ↦ rw (rate_counters, some_is, e) refl
          | inr e ↦ rw (rate_counters, some_is, e) refl
        ]
  ]

  -- With a counter to rate, the Rater has observed the counters.
  pub rate_counters-rater :
      (at : ck.Time) (sels : List (Selection F)) (s : ExpositionSource ck)
      → any rateable sels ≡ true
      → (rate_counters ck at sels s).0.rater ≡ (observe ck at (counters_of sels) s.rater).0
  unfolding rate_counters
  rate_counters-rater at sels s some_is =
      elim (Bool-cases (refused_series ck (observe ck at (counters_of sels) s.rater).0)) [
        | inl e ↦ rw (rate_counters, some_is, e) refl
        | inr e ↦ rw (rate_counters, some_is, e) refl
      ]
