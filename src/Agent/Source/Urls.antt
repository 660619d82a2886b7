-- ===== src/Agent/Source/Urls.antt =====
-- Which URLs pass `validateURL`, and the URLs of the sources that scrape.
use zensu_monitoring_agent.Prelude.{
  ◌≡◌, ◌⊎◌, false, Option, none, some, Str, codes, eqb, eqb_iff, is_empty, inl, inr, Bool-cases,
  Option-cases, arith,
}
use zensu_monitoring_agent.Agent.Source.{
  ParsedUrl, validate_url, built_exposition, built_auto, new_metric_source,
}

-- The URL parses, names no user, has one of the two schemes, and has a host.
abbrev pub IsScrapable : (Str → Option ParsedUrl) → Str → Type 0
IsScrapable parse url =
    (u : ParsedUrl) × (parse url ≡ some u)
    × (u.has_user ≡ false)
    × ((u.scheme ≡ codes "http") ⊎ (u.scheme ≡ codes "https"))
    × (is_empty u.hostname ≡ false)

module _ (parse : Str → Option ParsedUrl) where
  pub valid-IsScrapable : (url : Str) → validate_url parse url ≡ none → IsScrapable parse url
  unfolding validate_url
  valid-IsScrapable url h = elim (Option-cases (parse url)) [
    | inl e ↦ absurd (ground (arith, rw (validate_url, e) at h))
    | inr (u, e) ↦
        let k = rw (validate_url, e) at h in
        (
          u,
          e,
          ground (arith, k),
          elim (Bool-cases (eqb u.scheme (codes "http"))) [
            | inl plain ↦ inl ((eqb_iff u.scheme (codes "http")).0 plain)
            | inr other ↦ inr ((eqb_iff u.scheme (codes "https")).0 (ground (arith, k)))
          ],
          ground (arith, k),
        )
  ]

  -- If `NewMetricSource` builds a source that scrapes, for whatever mode, then the scrape URL is not empty,
  -- parses, names no user, has the scheme http or https, and has a host.
  pub built-IsScrapable :
      (mode url : Str)
      → (new_metric_source parse mode url ≡ built_exposition)
        ⊎ (new_metric_source parse mode url ≡ built_auto)
      → (is_empty url ≡ false) × IsScrapable parse url
  unfolding new_metric_source
  built-IsScrapable mode url h = elim (Option-cases (validate_url parse url)) [
    | inl valid ↦ (ground (arith, h), valid-IsScrapable url valid)
    | inr (e, bad) ↦ absurd (ground (arith, bad, h))
  ]
