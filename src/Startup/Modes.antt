-- ===== src/Startup/Modes.antt =====
-- For which modes `run` starts an agent, and when it warns that counters need two scrapes.
use zensu_monitoring_agent.Prelude.{
  ◌≡◌, ◌↔◌, ◌⊎◌, refl, subst, ap, ◌∙◌, Bool, true, false, ◌&&◌, Option, none, [], ◌∷◌, ◌++◌, Str,
  codes, eqb, eqb_iff, is_empty, if◌then◌else◌, any, inl, inr, Bool-cases, arith,
}
use zensu_monitoring_agent.Agent.Source.{
  source_auto, source_metrics_server, source_exposition, source_none, ParsedUrl, validate_url,
  Built, built_none, built_metrics_server, built_exposition, built_auto, no_scrape_url,
  bad_scrape_url, unknown_mode, checked, new_metric_source,
}
use zensu_monitoring_agent.Startup.{Env, env_or}
use zensu_monitoring_agent.Startup.Start.{
  Platform, SourceConfig, StartEvent, source_configured, counters_need_two_scrapes,
  endpoint_enabled, Started, started, is_built, exposition_reachable, resource_source_config,
  assemble, start,
}
use zensu_monitoring_agent.Startup.Settings.{
  IsNamed, source_config, built, start-cases, start_lem, env_or-IsNamed,
}
use zensu_monitoring_agent.Startup.Checks.{AreAccepted, required_config_iff}

-- A mode that `NewMetricSource` knows, with a URL if it has to have one.
abbrev pub IsKnown : Str → Str → Type 0
IsKnown mode url =
    (mode ≡ source_none)
    ⊎ ((mode ≡ source_metrics_server)
        ⊎ (((mode ≡ source_exposition) × IsNamed url) ⊎ (mode ≡ source_auto)))

-- Whether a source scrapes, or can come to.
abbrev pub scrapes : Built → Bool
scrapes built_none = false
scrapes built_metrics_server = false
scrapes built_exposition = true
scrapes built_auto = true
scrapes no_scrape_url = false
scrapes (bad_scrape_url e) = false
scrapes (unknown_mode mode) = false

abbrev pub is_caveat : StartEvent → Bool
is_caveat (source_configured name) = false
is_caveat (counters_need_two_scrapes name) = true
is_caveat (endpoint_enabled addr) = false

any-is_caveat :
    (reachable enabled : Bool) (name addr : Str)
    → any is_caveat (
        source_configured name ∷ (if reachable then counters_need_two_scrapes name ∷ [] else [])
        ++ (if enabled then endpoint_enabled addr ∷ [] else []))
      ≡ reachable
any-is_caveat true enabled name addr = refl
any-is_caveat false true name addr = refl
any-is_caveat false false name addr = refl

module _ (parse : Str → Option ParsedUrl) (mode url : Str) where
  valid_of :
      (is_empty url ≡ true) ⊎ (validate_url parse url ≡ none)
      → IsNamed url
      → validate_url parse url ≡ none
  valid_of (inl unset) named = absurd (ground (arith, unset, named))
  valid_of (inr valid) named = valid

  checked-built :
      (b : Built)
      → is_built b ≡ true
      → validate_url parse url ≡ none
      → is_built (checked parse url b) ≡ true
  checked-built b h valid = rw (is_built, valid) h

  -- Which modes build a source.
  is_built-IsKnown :
      IsNamed mode → is_built (new_metric_source parse mode url) ≡ true → IsKnown mode url
  unfolding new_metric_source
  is_built-IsKnown named h = elim (Bool-cases (eqb mode source_none)) [
    | inl e ↦ inl ((eqb_iff mode source_none).0 e)
    | inr a ↦ elim (Bool-cases (eqb mode source_metrics_server)) [
      | inl e ↦ inr (inl ((eqb_iff mode source_metrics_server).0 e))
      | inr b ↦ elim (Bool-cases (eqb mode source_exposition)) [
        | inl e ↦ inr (inr (inl ((eqb_iff mode source_exposition).0 e, ground (arith, a, b, e, h))))
        | inr c ↦ elim (Bool-cases (eqb mode source_auto)) [
          | inl e ↦ inr (inr (inr ((eqb_iff mode source_auto).0 e)))
          | inr d ↦ absurd (ground (arith, a, b, c, d, named, h))
        ]
      ]
    ]
  ]

  IsKnown-built :
      (is_empty url ≡ true) ⊎ (validate_url parse url ≡ none)
      → IsKnown mode url
      → is_built (new_metric_source parse mode url) ≡ true
  unfolding new_metric_source eqb
  IsKnown-built ok known = elim known [
    | inl e ↦ rw e refl
    | inr (inl e) ↦ rw e refl
    | inr (inr (inl (e, named))) ↦
        rw (e, named) (checked-built built_exposition refl (valid_of ok named))
    | inr (inr (inr e)) ↦ elim (Bool-cases (is_empty url)) [
      | inl unset ↦ rw (e, unset) refl
      | inr set ↦ rw (e, set) (checked-built built_auto refl (valid_of ok set))
    ]
  ]

  -- Whether a source was built that scrapes, and whether `run` takes one to be reachable, are the same.
  reachable_lem :
      (cfg : SourceConfig)
      → cfg.mode ≡ mode
      → cfg.exposition.url ≡ url
      → (is_empty url ≡ true) ⊎ (validate_url parse url ≡ none)
      → IsKnown mode url
      → exposition_reachable cfg ≡ scrapes (new_metric_source parse mode url)
  unfolding exposition_reachable new_metric_source eqb
  reachable_lem cfg m u ok known = elim (Bool-cases (is_empty url)) [
    | inl unset ↦ elim known [
      | inl e ↦ rw (exposition_reachable, u, unset, e) refl
      | inr (inl e) ↦ rw (exposition_reachable, u, unset, e) refl
      | inr (inr (inl (e, named))) ↦ absurd (ground (arith, unset, named))
      | inr (inr (inr e)) ↦ rw (exposition_reachable, u, unset, e) refl
    ]
    | inr set ↦
        let valid = valid_of ok set in
        elim known [
          | inl e ↦ rw (exposition_reachable, u, set, m, e) refl
          | inr (inl e) ↦ rw (exposition_reachable, u, set, m, e) refl
          | inr (inr (inl (e, named))) ↦
              rw (exposition_reachable, u, set, m, e, scrapes, valid) refl
          | inr (inr (inr e)) ↦ rw (exposition_reachable, u, set, m, e, scrapes, valid) refl
        ]
  ]

module _ (p : Platform) (env : Env) (once : Bool) where
  -- `run` gets as far as calling `Run` exactly if it gets a client, the three required variables are set, the
  -- API URL is accepted and so is the scrape URL if it is set, and the mode is one of the four known ones,
  -- an unset one counting as auto, with a scrape URL if it is exposition.
  pub start_iff :
      (client_error : Option Str)
      → ((s : Started) × (start p env once client_error ≡ started s)) ↔ (
          (client_error ≡ none)
          × AreAccepted p
              (env (codes "ZENSU_API_URL"))
              (env (codes "ZENSU_API_KEY"))
              (env (codes "ZENSU_PRODUCT_ID"))
              (env (codes "ZENSU_MONITORING_AGENT_SCRAPE_URL"))
          × IsKnown
              (env_or env (codes "ZENSU_MONITORING_AGENT_RESOURCE_SOURCE") source_auto)
              (env (codes "ZENSU_MONITORING_AGENT_SCRAPE_URL")))
  unfolding resource_source_config
  start_iff client_error = (
    λ (s, h).
        let (accepted, client, good, same) = start-cases p env once client_error s h in
        (
          client,
          (required_config_iff p _ _ _ _).0 accepted,
          is_built-IsKnown p.parse_url _ _ (env_or-IsNamed env _ source_auto refl) good,
        ),
    λ (client, accepted, known).
        let good = IsKnown-built p.parse_url _ _ accepted.4 known in
        (
          assemble p env once (source_config p env) (built p env),
          ap (start p env once) client
              ∙ start_lem p env once ((required_config_iff p _ _ _ _).1 accepted) good,
        ),
  )

  -- If `run` gets as far as calling `Run`, then it has warned that counters need two scrapes in one process
  -- exactly if it runs in one shot and the source it built scrapes or can come to scrape: in exposition mode,
  -- and in auto mode with a scrape URL.
  pub start-warns :
      (client_error : Option Str) (s : Started)
      → start p env once client_error ≡ started s
      → any is_caveat s.log ≡ once && scrapes s.source
  unfolding resource_source_config assemble
  start-warns client_error s h =
      let (accepted, client, good, same) = start-cases p env once client_error s h in
      let fit = ((required_config_iff p _ _ _ _).0 accepted).4 in
      let known = is_built-IsKnown p.parse_url _ _ (env_or-IsNamed env _ source_auto refl) good in
      let reach = reachable_lem p.parse_url _ _ (source_config p env) refl refl fit known in
      subst (λ (x : Started). any is_caveat x.log ≡ once && scrapes x.source) same
        (any-is_caveat _ _ _ _ ∙ ap (λ b. once && b) reach)
