-- ===== src/Startup/Settings.antt =====
-- What the readers of the environment give, and what a started agent is configured with.
use zensu_monitoring_agent.Prelude.{
  ◌<◌, ◌≡◌, refl, Bool, true, false, Option, none, some, List, [], ◌∷◌, Str, codes, is_empty,
  length, All, inl, inr, Bool-cases, Option-cases, arith,
}
use zensu_monitoring_agent.Prelude.Int.{ℤ, pos, ltb_ℤ}
use zensu_monitoring_agent.Redact.{trim_space}
use zensu_monitoring_agent.Agent.Source.{Built, new_metric_source}
use zensu_monitoring_agent.Startup.{
  Env, env_or, positive_or, env_duration, split, trimmed, or_default, env_list,
}
use zensu_monitoring_agent.Startup.Start.{
  Platform, SourceConfig, ConfigError, Started, started, is_built, required_config,
  resource_source_config, assemble, start_with, start,
}

abbrev pub IsPositive : ℤ → Type 0
IsPositive d = ltb_ℤ (pos 0) d ≡ true

abbrev pub IsNamed : Str → Type 0
IsNamed s = is_empty s ≡ false

pub env_or-IsNamed : (env : Env) (key def : Str) → IsNamed def → IsNamed (env_or env key def)
unfolding env_or
env_or-IsNamed env key def h = elim (Bool-cases (is_empty (env key))) [
  | inl e ↦ rw (env_or, e) h
  | inr e ↦ rw (env_or, e) e
]

positive_or-IsPositive : (def : ℤ) (v : Option ℤ) → IsPositive def → IsPositive (positive_or def v)
positive_or-IsPositive def none h = h
positive_or-IsPositive def (some v) h = elim (Bool-cases (ltb_ℤ (pos 0) v)) [
  | inl e ↦ rw e e
  | inr e ↦ rw e h
]

pub env_duration-IsPositive :
    (parse : Str → Option ℤ) (env : Env) (key : Str) (def : ℤ)
    → IsPositive def
    → IsPositive (env_duration parse env key def)
unfolding env_duration
env_duration-IsPositive parse env key def h = elim (Bool-cases (is_empty (env key))) [
  | inl e ↦ rw (env_duration, e) h
  | inr e ↦ rw (env_duration, e) (positive_or-IsPositive def (parse (env key)) h)
]

trimmed-All : (ps : List Str) → All IsNamed (trimmed ps)
unfolding trimmed
trimmed-All [] = tt
trimmed-All (p ∷ ps) = elim (Bool-cases (is_empty (trim_space p))) [
  | inl e ↦ rw (trimmed, e) (trimmed-All ps)
  | inr e ↦ rw (trimmed, e) (e, trimmed-All ps)
]

-- There are names, and none is empty.
abbrev pub AreNames : List Str → Type 0
AreNames names = (0 < length names) × All IsNamed names

or_default-AreNames :
    (def out : List Str) → AreNames def → All IsNamed out → AreNames (or_default def out)
or_default-AreNames def [] h k = h
or_default-AreNames def (p ∷ ps) h k = (omega arith, k)

pub env_list-AreNames :
    (env : Env) (key : Str) (def : List Str) → AreNames def → AreNames (env_list env key def)
unfolding env_list
env_list-AreNames env key def h = elim (Bool-cases (is_empty (env key))) [
  | inl e ↦ rw (env_list, e) h
  | inr e ↦ rw (env_list, e) (or_default-AreNames def _ h (trimmed-All (split b',' (env key))))
]

module _ (p : Platform) (env : Env) where
  abbrev pub variable_refusal : Option ConfigError
  variable_refusal =
      required_config p (env (codes "ZENSU_API_URL")) (env (codes "ZENSU_API_KEY"))
        (env (codes "ZENSU_PRODUCT_ID")) (env (codes "ZENSU_MONITORING_AGENT_SCRAPE_URL"))

  abbrev pub source_config : SourceConfig
  source_config = resource_source_config p env (env (codes "ZENSU_MONITORING_AGENT_SCRAPE_URL"))

  abbrev pub built : Built
  built = new_metric_source p.parse_url source_config.mode source_config.exposition.url

  start_with-cases :
      (once : Bool) (client_error : Option Str) (s : Started)
      → start_with p env once client_error source_config ≡ started s
      → (client_error ≡ none)
        × (is_built built ≡ true)
        × (assemble p env once source_config built ≡ s)
  unfolding start_with
  start_with-cases once (some e) s h = absurd (ground (arith, h))
  start_with-cases once none s h = elim (Bool-cases (is_built built)) [
    | inl good ↦ (refl, good, cc (rw (start_with, good) at h))
    | inr bad ↦ absurd (ground (arith, rw (start_with, bad) at h))
  ]

  -- What it takes to start, and what is started then.
  pub start-cases :
      (once : Bool) (client_error : Option Str) (s : Started)
      → start p env once client_error ≡ started s
      → (variable_refusal ≡ none)
        × (client_error ≡ none)
        × (is_built built ≡ true)
        × (assemble p env once source_config built ≡ s)
  unfolding start
  start-cases once client_error s h = elim (Option-cases variable_refusal) [
    | inl e ↦
        let (client, good, same) = start_with-cases once client_error s (rw (start, e) at h) in
        (e, client, good, same)
    | inr (r, e) ↦ absurd (ground (arith, rw (start, e) at h))
  ]

  -- The converse: with no refusal `run` starts the agent.
  pub start_lem :
      (once : Bool)
      → variable_refusal ≡ none
      → is_built built ≡ true
      → start p env once none ≡ started (assemble p env once source_config built)
  unfolding start start_with
  start_lem once e good = rw (start, e, start_with, good) refl
