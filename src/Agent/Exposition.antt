-- ===== src/Agent/Exposition.antt =====
-- `expositionSource` of internal/agent/exposition.go: one scrape turned into samples per service. Its
-- latches, the log lines and the calls of the agent's own metrics are part of the state.
pub mod Tick
pub mod Totals
pub mod Service
pub mod Core
pub mod Mapped
pub mod Twice
pub mod Valued
pub mod Filtered
pub mod Withheld
mod Tests
use zensu_monitoring_agent.Prelude.{
  ℕ, suc, ◌+◌, ◌≡◌, Bool, true, false, not, ◌&&◌, ◌||◌, Option, none, some, List, [], ◌∷◌, ◌++◌,
  Str, codes, eqb, is_empty, if◌then◌else◌, length, ltb, ◌==◌, any,
}
use zensu_monitoring_agent.Prelude.Maps.{Map, get, put, keys}
use zensu_monitoring_agent.Prelude.Int.{ℤ, pos, negsuc}
use zensu_monitoring_agent.Prelude.Float.{Float64, Clock, is_finite}
use zensu_monitoring_agent.Scrape.Series.{Kind, counter, Series, fingerprint}
use zensu_monitoring_agent.Scrape.Resolve.{
  Role, cpu, memory, Candidate, Selection, rateable, Resolver, select,
}
use zensu_monitoring_agent.Scrape.Labels.{is_set, sorted_keys}
use zensu_monitoring_agent.Scrape.Rate.{
  Rater, RaterOptions, new_rater, observe, refused_series, tracked,
}
use zensu_monitoring_agent.Scrape.Decode.{
  Client, new_client, effective_max_bytes, FetchError, Outcome, ok, failed,
}
use zensu_monitoring_agent.Agent.Index.{ServiceTarget, SlugIndex, new_slug_index, resolve}

abbrev pub default_slug_label : Str
default_slug_label = codes "zensu_service"

pub record MetricSample (F : Type 0) : Type 0 where
  pub key : Str
  pub value : F

unfoldable pub metric_key_for : Role → Str
metric_key_for memory = codes "memory_bytes"
metric_key_for cpu = codes "cpu_millicores"

-- The warnings of the source, and its calls of the agent's own metrics.
pub data Event : Type 0 where
  recorded_scrape : Bool → Event
  cap_refused : ℕ → ℕ → Event
  override_unmatched : Role → Str → Event
  role_unresolved : Role → Event
  nothing_matched : ℕ → Event
  rater_full : Event
  not_rateable : Role → Event
  every_row_dropped : Role → ℕ → Event
  total_ambiguous : Role → List Str → Event
  set_roles_withheld : Role → ℕ → Event
  role_withheld : Role → List Str → Event
  not_finite : Str → Str → Event

-- The latches of one role.
pub record RoleState : Type 0 where
  pub unresolved : Bool
  pub unrateable : Bool
  pub ambiguous : Bool
  pub all_dropped : Bool
  pub withheld : Option Str

pub record ExpositionConfig : Type 0 where
  pub url : Str
  pub slug_label : Str
  pub cpu_metric : Str
  pub memory_metric : Str
  pub timeout : ℤ
  pub max_bytes : ℤ
  pub rater : RaterOptions

pub record ExpositionSource {fl : Float64} (ck : Clock fl) : Type 0 where
  pub client : Client
  pub rater : Rater ck
  pub resolver : Resolver
  pub slug_label : Str
  pub unmatched_warned : Bool
  pub cpu_state : RoleState
  pub memory_state : RoleState
  pub rater_full_warned : Bool
  pub log : List Event

-- The variables of `reduce`.
pub record Sums (F : Type 0) : Type 0 where
  pub totals : Map F
  pub contributed : Map Bool
  pub incomplete : Map Bool
  pub dropped : ℕ

abbrev pub or_nil {ℓ} : {A : Type ℓ} → Option (List A) → List A
or_nil none = []
or_nil (some xs) = xs

-- `strings.Join(slugs, ",")`
unfoldable pub join : List Str → Str
join [] = []
join (s ∷ []) = s
join (s ∷ t ∷ more) = s ++ b',' ∷ join (t ∷ more)

abbrev pub no_latch : RoleState
no_latch = record {
  unresolved = false;
  unrateable = false;
  ambiguous = false;
  all_dropped = false;
  withheld = none;
}

-- `CompareAndSwap(false, true)` in front of a warning: the log after it.
abbrev pub warn_unless : Bool → Event → List Event → List Event
warn_unless true e log = log
warn_unless false e log = log ++ e ∷ []

module _ {fl : Float64} {ck : Clock fl} where
  unfoldable pub role_state : Role → ExpositionSource ck → RoleState
  role_state memory s = s.memory_state
  role_state cpu s = s.cpu_state

  unfoldable pub set_role : Role → RoleState → ExpositionSource ck → ExpositionSource ck
  set_role memory r s = record s { memory_state = r }
  set_role cpu r s = record s { cpu_state = r }

  unfoldable pub emit : Event → ExpositionSource ck → ExpositionSource ck
  emit e s = record s { log = s.log ++ e ∷ [] }

module _ {fl : Float64} (ck : Clock fl) where
  unfoldable pub configured_client : ℕ → ExpositionConfig → Client × List Event
  configured_client runtime_limit cfg =
      let client = new_client cfg.url cfg.timeout in
      elim cfg.max_bytes [
        | negsuc n ↦ (client, [])
        | pos n ↦
            let capped = record client { max_bytes = pos n } in
            let effective = effective_max_bytes runtime_limit capped in
            if not (ltb 0 n)
            then (client, [])
            else (capped, if effective == n then [] else cap_refused n effective ∷ [])
      ]

  unfoldable pub new_exposition_source : ℕ → ExpositionConfig → ExpositionSource ck
  new_exposition_source runtime_limit cfg =
      let (client, log) = configured_client runtime_limit cfg in
      record {
        client = client;
        rater = new_rater ck (cfg.rater ∷ []);
        resolver = record { cpu_override = cfg.cpu_metric; memory_override = cfg.memory_metric };
        slug_label = if is_empty cfg.slug_label then default_slug_label else cfg.slug_label;
        unmatched_warned = false;
        cpu_state = no_latch;
        memory_state = no_latch;
        rater_full_warned = false;
        log = log;
      }

module _ {F : Type 0} where
  unfoldable pub counters_of : List (Selection F) → List (Series F)
  counters_of [] = []
  counters_of (sel ∷ more) =
      if rateable sel then sel.series ++ counters_of more else counters_of more

  -- The value of a row: its rate, for a counter; `none` is a false `ok`.
  unfoldable pub reading : Selection F → Map F → Series F → Option F
  reading sel rated row = if rateable sel then get (fingerprint row) rated else some row.value

  abbrev pub append_sample :
      Str → MetricSample F → Map (List (MetricSample F)) → Map (List (MetricSample F))
  append_sample slug m out = put slug (or_nil (get slug out) ++ m ∷ []) out

module _ (fl : Float64) where
  open fl use {F, of_int, add, mul}

  -- `totals[slug]` is 0 for a missing key.
  unfoldable pub total_of : Str → Map F → F
  total_of slug totals = elim (get slug totals) [ none ↦ of_int (pos 0) | some v ↦ v ]

  unfoldable pub sum_reading : Str → Option F → Sums F → Sums F
  sum_reading slug none acc = record acc { incomplete = put slug true acc.incomplete }
  sum_reading slug (some v) acc = record acc {
    totals = put slug (add (total_of slug acc.totals) v) acc.totals;
    contributed = put slug true acc.contributed;
  }

  -- One round of the loop over the rows.
  unfoldable pub sum_row : SlugIndex → Str → Selection F → Map F → Series F → Sums F → Sums F
  sum_row index slug_label sel rated row acc = elim (resolve index row slug_label) [
    | none ↦ record acc { dropped = acc.dropped + 1 }
    | some slug ↦ sum_reading slug (reading sel rated row) acc
  ]

  unfoldable pub sum_rows :
      SlugIndex → Str → Selection F → Map F → List (Series F) → Sums F → Sums F
  sum_rows index slug_label sel rated [] acc = acc
  sum_rows index slug_label sel rated (row ∷ rows) acc =
      sum_rows index slug_label sel rated rows (sum_row index slug_label sel rated row acc)

  abbrev pub no_sums : Sums F
  no_sums = record { totals = []; contributed = []; incomplete = []; dropped = 0 }

  -- One round of the last loop: the samples and the log.
  unfoldable pub emit_sample :
      Selection F
      → Sums F
      → Str
      → Map (List (MetricSample F)) × List Event
      → Map (List (MetricSample F)) × List Event
  emit_sample sel sums slug (out, log) =
      let value = mul (total_of slug sums.totals) sel.candidate.scale in
      if is_set slug sums.incomplete
      then (out, log)
      else if not (is_finite fl value)
      then (out, log ++ not_finite slug (metric_key_for sel.role) ∷ [])
      else (append_sample slug (record { key = metric_key_for sel.role; value = value }) out, log)

  unfoldable pub emit_samples :
      Selection F
      → Sums F
      → List Str
      → Map (List (MetricSample F)) × List Event
      → Map (List (MetricSample F)) × List Event
  emit_samples sel sums [] acc = acc
  emit_samples sel sums (slug ∷ slugs) acc =
      emit_samples sel sums slugs (emit_sample sel sums slug acc)
