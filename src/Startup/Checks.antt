-- ===== src/Startup/Checks.antt =====
-- When `run` starts an agent, and what every started agent is configured with.
use zensu_monitoring_agent.Prelude.{
  ◌≡◌, ◌↔◌, ◌⊎◌, refl, subst, Bool, true, false, ◌||◌, Option, none, some, [], ◌∷◌, Str, codes,
  is_empty, inl, inr, Bool-cases, Option-cases, arith,
}
use zensu_monitoring_agent.Prelude.Int.{pos}
use zensu_monitoring_agent.Agent.Source.{UrlError, validate_url}
use zensu_monitoring_agent.Agent.Source.Urls.{IsScrapable, valid-IsScrapable}
use zensu_monitoring_agent.Agent.Reporter.{new_reporter, validate_api_url}
use zensu_monitoring_agent.Startup.{Env}
use zensu_monitoring_agent.Startup.Start.{
  Platform, Started, started, is_built, scrape_refusal, required_config, agent_config, assemble,
  start,
}
use zensu_monitoring_agent.Startup.Settings.{
  IsPositive, IsNamed, AreNames, env_or-IsNamed, env_duration-IsPositive, env_list-AreNames,
  start-cases,
}

module _ (p : Platform) where
  -- The four variables pass `requiredConfig`.
  abbrev pub AreAccepted : Str → Str → Str → Str → Type 0
  AreAccepted api_url api_key product_id scrape_url =
      IsNamed api_url
      × IsNamed api_key
      × IsNamed product_id
      × (validate_url p.parse_url api_url ≡ none)
      × ((is_empty scrape_url ≡ true) ⊎ (validate_url p.parse_url scrape_url ≡ none))

  scrape_refusal-none : (e : Option UrlError) → scrape_refusal e ≡ none → e ≡ none
  scrape_refusal-none none h = refl
  scrape_refusal-none (some e) h = absurd (ground (arith, h))

  missing-none :
      (a k i : Str)
      → IsNamed a
      → IsNamed k
      → IsNamed i
      → is_empty a || is_empty k || is_empty i ≡ false
  missing-none a k i named key product = ground (arith, named, key, product)

  -- Which variables `requiredConfig` accepts.
  pub required_config_iff :
      (a k i s : Str) → (required_config p a k i s ≡ none) ↔ AreAccepted a k i s
  unfolding required_config validate_api_url
  required_config_iff a k i s = (
    λ h. elim (Bool-cases (is_empty a || is_empty k || is_empty i)) [
      | inl e ↦ absurd (ground (arith, rw (required_config, e) at h))
      | inr e ↦ elim (Option-cases (validate_url p.parse_url a)) [
        | inr (bad, v) ↦ absurd (ground (arith, rw (required_config, e, validate_api_url, v) at h))
        | inl v ↦
            let h' = rw (required_config, e, validate_api_url, v) at h in
            (
              ground (arith, e),
              ground (arith, e),
              ground (arith, e),
              v,
              elim (Bool-cases (is_empty s)) [
                | inl unset ↦ inl unset
                | inr set ↦ inr (scrape_refusal-none _ (rw set at h'))
              ],
            )
      ]
    ],
    λ (named, key, product, v, scrape).
        let e = missing-none a k i named key product in
        elim scrape [
          | inl unset ↦ rw (required_config, e, validate_api_url, v, unset) refl
          | inr valid ↦ elim (Bool-cases (is_empty s)) [
            | inl unset ↦ rw (required_config, e, validate_api_url, v, unset) refl
            | inr set ↦ rw (required_config, e, validate_api_url, v, set, valid) refl
          ]
        ],
  )

  -- What every started agent is configured with, whatever the environment.
  pub record IsConfigured (env : Env) (s : Started) : Type 0 where
    pub product_lem : IsNamed s.config.product_id
    pub source_lem : IsNamed s.config.source
    pub namespaces_lem : AreNames s.config.namespaces
    pub interval_lem : IsPositive s.config.interval
    pub key_lem : IsNamed s.reporter.api_key
    pub url_lem : IsScrapable p.parse_url (env (codes "ZENSU_API_URL"))
    pub built_lem : is_built s.source ≡ true

  -- If `run` gets as far as calling `Run`, in either mode, then the product and the source are not empty,
  -- there is a namespace and no namespace is empty, the interval is positive, the API key is not empty, the
  -- API URL parses and has a scheme http or https, a host and no user, and a metric source was built.
  pub start-IsConfigured :
      (env : Env) (once : Bool) (client_error : Option Str) (s : Started)
      → start p env once client_error ≡ started s
      → IsConfigured env s
  unfolding assemble agent_config new_reporter
  start-IsConfigured env once client_error s h =
      let (accepted, client, good, same) = start-cases p env once client_error s h in
      let (url, key, product, valid, scrape) = (required_config_iff _ _ _ _).0 accepted in
      subst (IsConfigured env) same (record {
        product_lem = product;
        source_lem = env_or-IsNamed env _ (codes "k8s-agent") refl;
        namespaces_lem = env_list-AreNames env _ (codes "default" ∷ []) (omega arith, (refl, tt));
        interval_lem = env_duration-IsPositive p.parse_duration env _ (pos 60000000000) refl;
        key_lem = key;
        url_lem = valid-IsScrapable p.parse_url _ valid;
        built_lem = good;
      })
