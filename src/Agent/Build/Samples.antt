-- ===== src/Agent/Build/Samples.antt =====
-- What is asked of a sample that is posted, and the samples of metrics-server and of an exposition.
use zensu_monitoring_agent.Prelude.{
  ◌≡◌, ◌⊎◌, refl, sym, true, not, ◌&&◌, some, List, [], ◌∷◌, ◌++◌, Str, codes, eqb, is_empty, All,
  map, inl, inr, Bool-cases, Option-cases, arith,
}
use zensu_monitoring_agent.Prelude.Maps.{Map, get, put, get-put}
use zensu_monitoring_agent.Prelude.Sort.{Distinct}
use zensu_monitoring_agent.Prelude.Int.{ℤ}
use zensu_monitoring_agent.Prelude.Float.{Float64, Clock, is_finite}
use zensu_monitoring_agent.Scrape.Series.{Series}
use zensu_monitoring_agent.Scrape.Resolve.{
  Role, cpu, memory, Candidate, Selection, rateable, Resolver, match_family, candidates,
  select_from, select,
}
use zensu_monitoring_agent.Scrape.Decode.{FetchError, Outcome, ok, failed}
use zensu_monitoring_agent.Agent.Index.{ServiceTarget, SlugIndex, new_slug_index}
use zensu_monitoring_agent.Agent.Exposition.{MetricSample, metric_key_for, ExpositionSource}
use zensu_monitoring_agent.Agent.Exposition.Tick.{is_counter, map_series, samples}
use zensu_monitoring_agent.Agent.Exposition.Totals.{has_reading, lacks_reading}
use zensu_monitoring_agent.Agent.Exposition.Service.{finite_sample, service_samples}
use zensu_monitoring_agent.Agent.Exposition.Mapped.{rates, role_samples, map_series-service}
use zensu_monitoring_agent.Agent.Workload.{PodReading}
use zensu_monitoring_agent.Agent.Source.{
  Answer, served, refused, ServerSource, Reads, two_samples, finish, read_targets, MetricSource,
}
use zensu_monitoring_agent.Agent.Source.MetricsServer.{PodReading-cases}
use zensu_monitoring_agent.Agent.Build.{answer_of}

module _ (fl : Float64) where
  open fl use {F, of_int, mul}

  -- A finite value under one of the two keys that the backend knows.
  abbrev pub IsSample : MetricSample F → Type 0
  IsSample m =
      (is_finite fl m.value ≡ true)
      × ((m.key ≡ codes "cpu_millicores") ⊎ (m.key ≡ codes "memory_bytes"))

  -- Such samples, at most one for each key.
  abbrev pub AreDistinct : List (MetricSample F) → Type 0
  AreDistinct ms = All IsSample ms × Distinct (map (λ m. m.key) ms)

  abbrev pub AreSamples : Map (List (MetricSample F)) → Type 0
  AreSamples out = (k : Str) (ms : List (MetricSample F)) → get k out ≡ some ms → AreDistinct ms

  abbrev pub IsAnswer : Answer F → Type 0
  IsAnswer (served out) = AreSamples out
  IsAnswer (refused e) = Unit

  -- Whatever state it is in and whatever it is asked.
  abbrev pub IsFiniteSource : MetricSource F → Type 0
  IsFiniteSource source =
      (targets : List ServiceTarget) (s : source.State) → IsAnswer (source.samples targets s).1

  key-cases :
      (role : Role)
      → (metric_key_for role ≡ codes "cpu_millicores")
        ⊎ (metric_key_for role ≡ codes "memory_bytes")
  unfolding metric_key_for
  key-cases cpu = inl refl
  key-cases memory = inr refl

  pub AreSamples-empty : AreSamples []
  unfolding get
  AreSamples-empty k ms h = absurd (ground (arith, h))

  AreSamples-put :
      (slug : Str) (ms : List (MetricSample F)) (out : Map (List (MetricSample F)))
      → AreDistinct ms
      → AreSamples out
      → AreSamples (put slug ms out)
  AreSamples-put slug ms out h all k found e = elim (Bool-cases (eqb slug k)) [
    | inl same ↦ let is : ms ≡ found = cc (rw (get-put slug k ms out, same) at e) in rw (sym is) h
    | inr other ↦ all k found (rw (get-put slug k ms out, other) at e)
  ]

  cpu-memory : Distinct (metric_key_for cpu ∷ metric_key_for memory ∷ [])
  unfolding metric_key_for eqb
  cpu-memory = ((refl, tt), (tt, tt))

  module _ (whole : (n : ℤ) → is_finite fl (of_int n) ≡ true) (read : Str → Str → PodReading) where
    two_samples-AreDistinct : (c m : ℤ) → AreDistinct (two_samples fl read c m)
    two_samples-AreDistinct c m =
        (((whole c, key-cases cpu), ((whole m, key-cases memory), tt)), cpu-memory)

    finish-IsAnswer :
        (r : Reads F) (s : ServerSource) → AreSamples r.out → IsAnswer (finish fl read r s).1
    unfolding finish
    finish-IsAnswer r s h = elim (Bool-cases (r.attempted && not r.answered)) [
      | inl e ↦ rw (finish, e) tt
      | inr e ↦ rw (finish, e) h
    ]

    pub read_targets-IsAnswer :
        (targets : List ServiceTarget) (r : Reads F) (s : ServerSource)
        → AreSamples r.out
        → IsAnswer (read_targets fl read targets r s).1
    unfolding read_targets
    read_targets-IsAnswer [] r s h = finish-IsAnswer r s h
    read_targets-IsAnswer (t ∷ targets) r s h = elim (Bool-cases (is_empty t.selector)) [
      | inl unset ↦ rw (read_targets, unset) (read_targets-IsAnswer targets r s h)
      | inr set ↦ elim (PodReading-cases (read t.namespace t.selector)) [
        | inl e ↦ rw (read_targets, set, e) tt
        | inr (inl e) ↦ rw (read_targets, set, e) (read_targets-IsAnswer targets _ s h)
        | inr (inr (inl (text, e))) ↦
            rw (read_targets, set, e) (read_targets-IsAnswer targets _ _ h)
        | inr (inr (inr (c, m, e))) ↦
            rw (read_targets, set, e)
              (read_targets-IsAnswer targets _ s (
                AreSamples-put t.slug (two_samples fl read c m) r.out (two_samples-AreDistinct c m)
                  h))
      ]
    ]

  -- No sample, or one of the role.
  abbrev IsOfRole : Role → List (MetricSample F) → Type 0
  IsOfRole role ms =
      (ms ≡ [])
      ⊎ ((v : F) × (is_finite fl v ≡ true)
          × (ms ≡ record { key = metric_key_for role; value = v } ∷ []))

  finite_sample-IsOfRole : (sel : Selection F) (v : F) → IsOfRole sel.role (finite_sample fl sel v)
  finite_sample-IsOfRole sel v = elim (Bool-cases (is_finite fl v)) [
    | inl e ↦ inr (v, e, rw e refl)
    | inr e ↦ inl (rw e refl)
  ]

  both-AreDistinct :
      (ms ns : List (MetricSample F))
      → IsOfRole cpu ms
      → IsOfRole memory ns
      → AreDistinct (ms ++ ns)
  both-AreDistinct ms ns (inl a) (inl b) = rw (a, b) (tt, tt)
  both-AreDistinct ms ns (inl a) (inr (w, g, b)) = rw (a, b) (((g, key-cases memory), tt), (tt, tt))
  both-AreDistinct ms ns (inr (v, f, a)) (inl b) = rw (a, b) (((f, key-cases cpu), tt), (tt, tt))
  both-AreDistinct ms ns (inr (v, f, a)) (inr (w, g, b)) =
      rw (a, b) (((f, key-cases cpu), ((g, key-cases memory), tt)), cpu-memory)

  select_from-role :
      (role : Role) (cs : List (Candidate F)) (all : List (Series F)) (sel : Selection F)
      → select_from fl role cs all ≡ some sel
      → sel.role ≡ role
  unfolding select_from
  select_from-role role [] all sel e = cc
  select_from-role role (c ∷ cs) all sel e = elim (Option-cases (match_family c all)) [
    | inl h ↦ select_from-role role cs all sel (rw (select_from, h) at e)
    | inr (found, h) ↦ cc (rw (select_from, h) at e)
  ]

module _ {fl : Float64} (ck : Clock fl) where
  open fl use {F, mul, of_int}

  service_samples-IsOfRole :
      (index : SlugIndex) (label : Str) (sel : Selection F) (rated : Map F) (g : Str)
      → IsOfRole fl sel.role (service_samples ck index label sel rated g)
  service_samples-IsOfRole index label sel rated g =
      elim (Bool-cases (is_counter sel.kind && not (rateable sel))) [
        | inl e ↦ inl (rw e refl)
        | inr e ↦
            elim (Bool-cases (
              has_reading fl index label sel rated g sel.series
              && not (lacks_reading fl index label sel rated g sel.series))) [
                | inl f ↦ rw (e, f) (finite_sample-IsOfRole fl sel _)
                | inr f ↦ inl (rw (e, f) refl)
              ]
      ]

  role_samples-IsOfRole :
      (index : SlugIndex) (label : Str) (rated : Map F) (g : Str) (r : Resolver) (role : Role)
      (all : List (Series F))
      → IsOfRole fl role (role_samples ck rated index g label (select fl r role all))
  unfolding select
  role_samples-IsOfRole index label rated g r role all =
      elim (Option-cases (select fl r role all)) [
        | inl e ↦ inl (rw e refl)
        | inr (sel, e) ↦
            rw (e, sym (select_from-role fl role (candidates fl r role) all sel e))
              (service_samples-IsOfRole index label sel rated g)
      ]

  map_series-AreSamples :
      (at : ck.Time) (targets : List ServiceTarget) (series : List (Series F))
      (s : ExpositionSource ck)
      → AreSamples fl (map_series ck at targets series s).1
  map_series-AreSamples at targets series s g ms e =
      let index = new_slug_index targets in
      let rated = rates ck at targets series s g in
      let is = rw e at (map_series-service ck at targets series s g) in
      rw is (
        both-AreDistinct fl _ _
          (role_samples-IsOfRole index s.slug_label rated g s.resolver cpu series)
          (role_samples-IsOfRole index s.slug_label rated g s.resolver memory series))

  pub samples-IsAnswer :
      (at : ck.Time) (targets : List ServiceTarget) (text : FetchError → Str)
      (o : Outcome (List (Series F))) (s : ExpositionSource ck)
      → IsAnswer fl (answer_of text (samples ck at targets o s).1)
  unfolding samples
  samples-IsAnswer at targets text (failed e) s = tt
  samples-IsAnswer at targets text (ok series) s = map_series-AreSamples at targets series _
