-- ===== src/Agent/Source/MetricsServer.antt =====
-- What `metricsServerSource.Samples` answers, by the readings of its targets.
use zensu_monitoring_agent.Prelude.{
  ◌≡◌, refl, Bool, true, false, not, ◌&&◌, ◌||◌, ◌⊎◌, ◌++◌, List, [], ◌∷◌, Str, is_empty, any,
  if◌then◌else◌, inl, inr, Bool-cases, arith,
}
use zensu_monitoring_agent.Prelude.Maps.{Map, put}
use zensu_monitoring_agent.Prelude.Int.{ℤ}
use zensu_monitoring_agent.Prelude.Float.{Float64}
use zensu_monitoring_agent.Agent.Index.{ServiceTarget}
use zensu_monitoring_agent.Agent.Exposition.{MetricSample}
use zensu_monitoring_agent.Agent.Workload.{PodReading, usage, no_data, api_unavailable, read_error}
use zensu_monitoring_agent.Agent.Source.{
  Answer, served, refused, metrics_api_unavailable, metrics_reads_all_failed, ServerSource, Reads,
  read_failed, two_samples, finish, read_targets, server_samples,
}

abbrev pub is_missing : PodReading → Bool
is_missing api_unavailable = true
is_missing (usage c m) = false
is_missing no_data = false
is_missing (read_error e) = false

abbrev pub is_answer : PodReading → Bool
is_answer api_unavailable = false
is_answer (usage c m) = true
is_answer no_data = true
is_answer (read_error e) = false

pub PodReading-cases :
    (p : PodReading)
    → (p ≡ api_unavailable)
      ⊎ (p ≡ no_data)
      ⊎ ((e : Str) × (p ≡ read_error e))
      ⊎ ((c : ℤ) × (m : ℤ) × (p ≡ usage c m))
PodReading-cases api_unavailable = inl refl
PodReading-cases no_data = inr (inl refl)
PodReading-cases (read_error e) = inr (inr (inl (e, refl)))
PodReading-cases (usage c m) = inr (inr (inr (c, m, refl)))

module _ (fl : Float64) (read : Str → Str → PodReading) where
  open fl use {F}

  -- The target has a selector, and its read finds no API; and its read is answered.
  abbrev pub misses : ServiceTarget → Bool
  misses t = not (is_empty t.selector) && is_missing (read t.namespace t.selector)

  abbrev pub answers : ServiceTarget → Bool
  answers t = not (is_empty t.selector) && is_answer (read t.namespace t.selector)

  abbrev pub selects : ServiceTarget → Bool
  selects t = not (is_empty t.selector)

  abbrev add_usage :
      ServiceTarget → PodReading → Map (List (MetricSample F)) → Map (List (MetricSample F))
  add_usage t (usage c m) out = put t.slug (two_samples fl read c m) out
  add_usage t no_data out = out
  add_usage t api_unavailable out = out
  add_usage t (read_error e) out = out

  -- The samples of all targets with a selector whose reads have values.
  abbrev pub usages : List ServiceTarget → Map (List (MetricSample F)) → Map (List (MetricSample F))
  usages [] out = out
  usages (t ∷ targets) out =
      usages targets
        (if is_empty t.selector then out else add_usage t (read t.namespace t.selector) out)

  abbrev answer_of : List ServiceTarget → Reads F → Answer F
  answer_of targets r =
      if any misses targets
      then refused metrics_api_unavailable
      else if (r.attempted || any selects targets) && not (r.answered || any answers targets)
      then refused metrics_reads_all_failed
      else served (usages targets r.out)

  read_targets_lem :
      (targets : List ServiceTarget) (r : Reads F) (s : ServerSource)
      → (read_targets fl read targets r s).1 ≡ answer_of targets r
  unfolding read_targets finish
  read_targets_lem [] r s = ground arith
  read_targets_lem (t ∷ targets) r s = elim (Bool-cases (is_empty t.selector)) [
    | inl none_set ↦ rw (read_targets, none_set) (read_targets_lem targets r s)
    | inr set ↦ elim (PodReading-cases (read t.namespace t.selector)) [
      | inl e ↦ rw (read_targets, set, e) refl
      | inr (inl e) ↦
          rw (read_targets, set, e)
            (ground
              (arith, read_targets_lem targets (record r { attempted = true; answered = true }) s))
      | inr (inr (inl (text, e))) ↦
          rw (read_targets, set, e)
            (ground (
              arith,
              read_targets_lem targets (record r { attempted = true })
                  (record s { log = s.log ++ read_failed t.slug text ∷ [] }),
            ))
      | inr (inr (inr (c, m, e))) ↦
          rw (read_targets, set, e)
            (ground (
              arith,
              read_targets_lem targets
                  (record {
                    out = put t.slug (two_samples fl read c m) r.out;
                    attempted = true;
                    answered = true;
                  })
                  s,
            ))
    ]
  ]

  -- The source answers that there is no API exactly when some target with a selector finds none; else
  -- that all reads failed if there is such a target and no read was answered; else the samples of all
  -- targets whose reads have values. Its own state does not matter.
  pub server_samples_lem :
      (targets : List ServiceTarget) (s : ServerSource)
      → (server_samples fl read targets s).1 ≡ (
          if any misses targets
          then refused metrics_api_unavailable
          else if any selects targets && not (any answers targets)
          then refused metrics_reads_all_failed
          else served (usages targets []))
  unfolding server_samples
  server_samples_lem targets s = read_targets_lem targets _ s
