-- ===== src/Agent/Build/Finite.antt =====
-- What the sources that `NewMetricSource` builds answer.
use zensu_monitoring_agent.Prelude.{ℕ, ◌≡◌, true, not, ◌&&◌, List, inl, inr, Bool-cases}
use zensu_monitoring_agent.Prelude.Int.{ℤ}
use zensu_monitoring_agent.Prelude.Float.{Float64, Clock, is_finite}
use zensu_monitoring_agent.Agent.Index.{ServiceTarget}
use zensu_monitoring_agent.Agent.Exposition.{}
use zensu_monitoring_agent.Agent.Exposition.Tick.{}
use zensu_monitoring_agent.Agent.Source.{
  is_unavailable, Answer, served, refused, server_samples, MetricSource, none_source, AutoSource,
  due_for_retry, use_fallback, switch_over, after_primary, auto_samples, Built, built_none,
  built_metrics_server, built_exposition, built_auto, no_scrape_url, bad_scrape_url, unknown_mode,
}
use zensu_monitoring_agent.Agent.Build.{
  World, metrics_server_source, exposition_source, auto_source, source_of,
}
use zensu_monitoring_agent.Agent.Build.Samples.{
  IsAnswer, IsFiniteSource, AreSamples-empty, read_targets-IsAnswer, samples-IsAnswer,
}

module _ (fl : Float64) (primary fallback : MetricSource fl.F) (first : IsFiniteSource fl primary)
    (second : IsFiniteSource fl fallback) where
  after_primary-IsAnswer :
      (stamp : ℕ) (targets : List ServiceTarget) (s : AutoSource primary fallback) (a : Answer fl.F)
      → IsAnswer fl a
      → IsAnswer fl (after_primary primary fallback stamp targets s a).1
  unfolding after_primary switch_over use_fallback
  after_primary-IsAnswer stamp targets s (served out) h = h
  after_primary-IsAnswer stamp targets s (refused e) h = elim (Bool-cases (is_unavailable e)) [
    | inl gone ↦ rw (after_primary, gone) (second targets s.second)
    | inr other ↦ rw (after_primary, other) tt
  ]

  auto_samples-IsAnswer :
      (now stamp : ℕ) (targets : List ServiceTarget) (s : AutoSource primary fallback)
      → IsAnswer fl (auto_samples primary fallback now stamp targets s).1
  unfolding auto_samples use_fallback
  auto_samples-IsAnswer now stamp targets s =
      elim (Bool-cases (s.switched && not (due_for_retry primary fallback now s))) [
        | inl idle ↦ rw (auto_samples, idle) (second targets s.second)
        | inr asked ↦
            rw (auto_samples, asked)
              (after_primary-IsAnswer stamp targets _ _ (first targets s.first))
      ]

module _ {fl : Float64} (ck : Clock fl) (w : World ck)
    (whole : (n : ℤ) → is_finite fl (fl.of_int n) ≡ true) where
  server-IsFiniteSource : IsFiniteSource fl (metrics_server_source ck w)
  unfolding metrics_server_source server_samples
  server-IsFiniteSource targets (s, n) =
      read_targets-IsAnswer fl whole (w.reads n) targets _ s (AreSamples-empty fl)

  exposition-IsFiniteSource : IsFiniteSource fl (exposition_source ck w)
  unfolding exposition_source
  exposition-IsFiniteSource targets (s, n) =
      samples-IsAnswer ck (w.scrapes n).at targets w.error_text _ s

  auto-IsFiniteSource : IsFiniteSource fl (auto_source ck w)
  unfolding auto_source
  auto-IsFiniteSource targets (s, n) =
      auto_samples-IsAnswer fl (metrics_server_source ck w) (exposition_source ck w)
        server-IsFiniteSource exposition-IsFiniteSource (w.probe n) (w.stamp n) targets s

  none-IsFiniteSource : IsFiniteSource fl none_source
  unfolding none_source
  none-IsFiniteSource targets s = AreSamples-empty fl

  -- Every source that `NewMetricSource` builds answers with finite values under the two known keys.
  pub source_of-IsFiniteSource : (b : Built) → IsFiniteSource fl (source_of ck w b)
  unfolding source_of
  source_of-IsFiniteSource built_none = none-IsFiniteSource
  source_of-IsFiniteSource built_metrics_server = server-IsFiniteSource
  source_of-IsFiniteSource built_exposition = exposition-IsFiniteSource
  source_of-IsFiniteSource built_auto = auto-IsFiniteSource
  source_of-IsFiniteSource no_scrape_url = none-IsFiniteSource
  source_of-IsFiniteSource (bad_scrape_url e) = none-IsFiniteSource
  source_of-IsFiniteSource (unknown_mode mode) = none-IsFiniteSource
