-- ===== src/Agent/Exposition/Tick.antt =====
-- `expositionSource` of internal/agent/exposition.go: the methods that change the source.
use zensu_monitoring_agent.Prelude.{
  Bool, true, false, not, ◌&&◌, ◌||◌, Option, none, some, List, [], ◌∷◌, ◌++◌, Str, eqb, is_empty,
  if◌then◌else◌, length, ltb, ◌==◌, any,
}
use zensu_monitoring_agent.Prelude.Maps.{Map, keys}
use zensu_monitoring_agent.Prelude.Float.{Float64, Clock}
use zensu_monitoring_agent.Scrape.Series.{Kind, counter, Series}
use zensu_monitoring_agent.Scrape.Resolve.{Role, cpu, memory, Selection, rateable, select}
use zensu_monitoring_agent.Scrape.Labels.{sorted_keys}
use zensu_monitoring_agent.Scrape.Rate.{observe, refused_series, tracked}
use zensu_monitoring_agent.Scrape.Decode.{Outcome, ok, failed}
use zensu_monitoring_agent.Agent.Index.{ServiceTarget, SlugIndex, new_slug_index}
use zensu_monitoring_agent.Agent.Exposition.{
  MetricSample, recorded_scrape, override_unmatched, role_unresolved, nothing_matched, rater_full,
  not_rateable, every_row_dropped, total_ambiguous, set_roles_withheld, role_withheld,
  ExpositionSource, Sums, join, warn_unless, role_state, set_role, emit, counters_of, sum_rows,
  no_sums, emit_samples,
}

abbrev pub same_report : Option Str → Str → Bool
same_report none signature = false
same_report (some previous) signature = eqb previous signature

abbrev pub is_counter : Kind → Bool
is_counter k = elim k [ counter ↦ true | _ ↦ false ]

abbrev pub empty_selections : {F : Type 0} → List (Selection F) → Bool
empty_selections [] = true
empty_selections (sel ∷ more) = false

module _ {fl : Float64} (ck : Clock fl) where
  open fl use {F}
  open ck use {Time}

  unfoldable pub warn_role_unresolved : Role → Str → ExpositionSource ck → ExpositionSource ck
  warn_role_unresolved role override s =
      let r = role_state role s in
      if r.unresolved
      then s
      else emit
          (if not (is_empty override)
            then override_unmatched role override
            else role_unresolved role)
          (set_role role (record r { unresolved = true }) s)

  unfoldable pub rate_counters :
      Time → List (Selection F) → ExpositionSource ck → ExpositionSource ck × Map F
  rate_counters at selections s =
      let (rater, rated) = observe ck at (counters_of selections) s.rater in
      if not (any rateable selections)
      then (s, [])
      else if refused_series ck rater
      then (
        record s {
          rater = rater;
          rater_full_warned = true;
          log = warn_unless s.rater_full_warned rater_full s.log;
        },
        rated,
      )
      else (record s { rater = rater; rater_full_warned = false }, rated)

  unfoldable pub report_withheld :
      Role → Map Bool → Bool → ExpositionSource ck → ExpositionSource ck
  report_withheld role incomplete first_observation s =
      let slugs = sorted_keys incomplete in
      let s' = emit (set_roles_withheld role (length slugs)) s in
      let r = role_state role s in
      if length slugs == 0
      then set_role role (record r { withheld = none }) s'
      else if first_observation
      then s'
      else if same_report r.withheld (join slugs)
      then s'
      else emit (role_withheld role slugs)
          (set_role role (record r { withheld = some (join slugs) }) s')

  -- The two `switch` statements on the latches for dropped rows and ambiguous totals.
  unfoldable pub note_dropped : Selection F → Sums F → ExpositionSource ck → ExpositionSource ck
  note_dropped sel sums s =
      let r = role_state sel.role s in
      if sums.dropped == 0 || ltb 0 (length sums.contributed)
      then set_role sel.role (record r { all_dropped = false }) s
      else set_role sel.role (record r { all_dropped = true })
          (record s {
            log = warn_unless r.all_dropped (every_row_dropped sel.role sums.dropped) s.log;
          })

  unfoldable pub note_ambiguous : Selection F → ExpositionSource ck → ExpositionSource ck
  note_ambiguous sel s =
      let r = role_state sel.role s in
      if length sel.ambiguous == 0
      then set_role sel.role (record r { ambiguous = false }) s
      else set_role sel.role (record r { ambiguous = true })
          (record s {
            log = warn_unless r.ambiguous (total_ambiguous sel.role sel.ambiguous) s.log;
          })

  unfoldable pub reduce :
      Selection F
      → Map F
      → SlugIndex
      → Bool
      → ExpositionSource ck × Map (List (MetricSample F))
      → ExpositionSource ck × Map (List (MetricSample F))
  reduce sel rated index first_observation (s, out) =
      let r = role_state sel.role s in
      let sums = sum_rows fl index s.slug_label sel rated sel.series (no_sums fl) in
      let s1 = note_dropped sel sums (set_role sel.role (record r { unrateable = false }) s) in
      let s2 = report_withheld sel.role sums.incomplete first_observation (note_ambiguous sel s1) in
      let (samples, log) = emit_samples fl sel sums (keys sums.contributed) (out, s2.log) in
      if is_counter sel.kind && not (rateable sel)
      then (
        set_role sel.role (record r { unrateable = true })
            (record s { log = warn_unless r.unrateable (not_rateable sel.role) s.log }),
        out,
      )
      else (record s2 { log = log }, samples)

  unfoldable pub reduce_all :
      List (Selection F)
      → Map F
      → SlugIndex
      → Bool
      → ExpositionSource ck × Map (List (MetricSample F))
      → ExpositionSource ck × Map (List (MetricSample F))
  reduce_all [] rated index first_observation acc = acc
  reduce_all (sel ∷ more) rated index first_observation acc =
      reduce_all more rated index first_observation (reduce sel rated index first_observation acc)

  -- A role and its override: the selections so far, and the state.
  unfoldable pub select_role :
      Role
      → Str
      → List (Series F)
      → List (Selection F) × ExpositionSource ck
      → List (Selection F) × ExpositionSource ck
  select_role role override series (selections, s) = elim (select fl s.resolver role series) [
    | none ↦ (selections, warn_role_unresolved role override s)
    | some sel ↦ (
      selections ++ sel ∷ [],
      set_role role (record (role_state role s) { unresolved = false }) s,
    )
  ]

  unfoldable pub map_series :
      Time
      → List ServiceTarget
      → List (Series F)
      → ExpositionSource ck
      → ExpositionSource ck × Map (List (MetricSample F))
  map_series at targets series s =
      let (selections, s1) =
        select_role memory s.resolver.memory_override series
          (select_role cpu s.resolver.cpu_override series ([], s)) in
      let (s2, rated) = rate_counters at selections (record s1 { unmatched_warned = false }) in
      if empty_selections selections
      then (
        record s1 {
          unmatched_warned = true;
          log = warn_unless s1.unmatched_warned (nothing_matched (length series)) s1.log;
        },
        [],
      )
      else reduce_all selections rated (new_slug_index targets) (tracked ck s1.rater == 0) (s2, [])

  -- The outcome of the fetch is an argument; a `nil` map is the empty one.
  unfoldable pub samples :
      Time
      → List ServiceTarget
      → Outcome (List (Series F))
      → ExpositionSource ck
      → ExpositionSource ck × Outcome (Map (List (MetricSample F)))
  samples at targets (failed e) s = (emit (recorded_scrape false) s, failed e)
  samples at targets (ok series) s =
      let (s', out) = map_series at targets series (emit (recorded_scrape true) s) in (s', ok out)
