-- ===== src/Startup/Cap.antt =====
-- From the environment to the cap on the body of a scrape: cmd/zensu-monitoring-agent/main.go,
-- `newExpositionSource` of internal/agent/exposition.go and `readLimit` of internal/scrape/scrape.go.
use zensu_monitoring_agent.Prelude.{
  ℕ, ◌≡◌, ◌&&◌, List, [], ◌∷◌, Str, codes, if◌then◌else◌, ltb, leb, inl, inr, Bool-cases, arith,
}
use zensu_monitoring_agent.Prelude.Int.{pos}
use zensu_monitoring_agent.Prelude.Float.{Float64, Clock}
use zensu_monitoring_agent.Scrape.Series.{itoa}
use zensu_monitoring_agent.Scrape.Decode.{
  default_max_bytes, new_client, ceiling, read_limit, effective_max_bytes,
}
use zensu_monitoring_agent.Scrape.Decode.Limit.{ceiling_bounds}
use zensu_monitoring_agent.Agent.Exposition.{
  Event, cap_refused, ExpositionConfig, configured_client, new_exposition_source,
}
use zensu_monitoring_agent.Startup.{Env}
use zensu_monitoring_agent.Startup.Numbers.{int64_bound, env_int64-itoa}
use zensu_monitoring_agent.Startup.Start.{Platform, resource_source_config}

-- The cap that a number asks for, and the warning that it is refused, under a ceiling.
abbrev pub granted : ℕ → ℕ → ℕ
granted top n = if ltb 0 n && leb n top then n else default_max_bytes

abbrev pub complaint : ℕ → ℕ → List Event
complaint top n =
    if ltb top n && ltb n int64_bound then cap_refused n default_max_bytes ∷ [] else []

module _ {fl : Float64} (ck : Clock fl) (limit : ℕ) where
  -- What is configured is granted or refused.
  configured_client-granted :
      (cfg : ExpositionConfig) (n : ℕ)
      → cfg.max_bytes ≡ (if ltb 0 n && ltb n int64_bound then pos n else pos 0)
      → let made = configured_client ck limit cfg in
        let top = ceiling limit made.0 in
        (read_limit limit made.0 ≡ granted top n) × (made.1 ≡ complaint top n)
  unfolding configured_client new_client read_limit effective_max_bytes ceiling
  configured_client-granted cfg n h =
      let (low, high, fits) = ceiling_bounds limit (new_client cfg.url cfg.timeout) in
      elim (Bool-cases (ltb 0 n && ltb n int64_bound)) [
        | inr out ↦ rw (configured_client, rw out at h) (ground arith)
        | inl good ↦ rw (configured_client, rw good at h) (ground arith)
      ]

  -- If the variable of the cap is set to the decimal digits of a number, then the source that is built from
  -- the environment reads that many bytes of a body if the number is positive and at most the ceiling, and
  -- else as many as by default; and it warns that the cap is refused exactly if the number is above the
  -- ceiling, but below 2 ^ 63.
  pub scrape_cap :
      (p : Platform) (env : Env) (url : Str) (n : ℕ)
      → env (codes "ZENSU_MONITORING_AGENT_SCRAPE_MAX_BYTES") ≡ itoa n []
      → let built = new_exposition_source ck limit (resource_source_config p env url).exposition in
        let top = ceiling limit built.client in
        (read_limit limit built.client ≡ granted top n) × (built.log ≡ complaint top n)
  unfolding resource_source_config new_exposition_source
  scrape_cap p env url n h =
      configured_client-granted (resource_source_config p env url).exposition n
        (env_int64-itoa env (codes "ZENSU_MONITORING_AGENT_SCRAPE_MAX_BYTES") (pos 0) n h)
