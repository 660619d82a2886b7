-- ===== src/Scrape/Rate/Exact.antt =====
-- The rates of a scrape that follows another, both within the ceiling, for every row.
use zensu_monitoring_agent.Prelude.{
  ◌≤◌, ◌≡◌, refl, sym, ap, ◌∙◌, ◌||◌, Option, none, some, List, [], ◌∷◌, Str, eqb, eqb_iff, length,
  arith, Memᴰ, Bool-cases, Option-cases, inl, inr, if◌then◌else◌,
}
use mathlib.Core.List.Memᴰ
use zensu_monitoring_agent.Prelude.Maps.{Map, get, has}
use zensu_monitoring_agent.Prelude.Sort.{Distinct}
use zensu_monitoring_agent.Prelude.Int.{pos}
use zensu_monitoring_agent.Prelude.Float.{Float64, Clock}
use zensu_monitoring_agent.Scrape.Series.{Series, fingerprint}
use zensu_monitoring_agent.Scrape.Rate.{Observation, Rater, ceiling_of, rate_of, observe}
use zensu_monitoring_agent.Scrape.Rate.Table.{Scraped}
use zensu_monitoring_agent.Scrape.Rate.Bounds.{tracked-observe-le, observe_prunes}
use zensu_monitoring_agent.Scrape.Rate.Rates.{fingerprints, observe_twice, rate-observe}
use zensu_monitoring_agent.Scrape.Rate.Fits.{observe_fits}

-- The row of a scrape with this fingerprint, if there is one.
abbrev pub predecessor : {F : Type 0} → Str → List (Series F) → Option (Series F)
predecessor k [] = none
predecessor k (s ∷ series) = if eqb (fingerprint s) k then some s else predecessor k series

predecessor-some :
    {F : Type 0} (k : Str) (series : List (Series F)) (s : Series F)
    → predecessor k series ≡ some s
    → Memᴰ s series × (fingerprint s ≡ k)
predecessor-some k [] s e = cc
predecessor-some k (t ∷ series) s e = elim (Bool-cases (eqb (fingerprint t) k)) [
  | inl same ↦
      let is : t ≡ s = cc (rw same at e) in
      (Memᴰ.head (sym is), ap fingerprint (sym is) ∙ (eqb_iff (fingerprint t) k).0 same)
  | inr other ↦ let (m, named) = predecessor-some k series s (rw other at e) in (Memᴰ.tail m, named)
]

predecessor-none :
    {F : Type 0} (k : Str) (series : List (Series F))
    → predecessor k series ≡ none
    → ¬ Scraped k series
predecessor-none k [] e (t, m, named) = elim m [ ]
predecessor-none k (s ∷ series) e (t, m, named) = elim (Bool-cases (eqb (fingerprint s) k)) [
  | inl same ↦ absurd (ground (arith, rw same at e))
  | inr other ↦ elim (Memᴰ.cases_cons m) [
    | inl here ↦ cc (other, (eqb_iff (fingerprint s) k).1 (ap fingerprint (sym here) ∙ named))
    | inr later ↦ predecessor-none k series (rw other at e) (t, later, named)
  ]
]

module _ {fl : Float64} (ck : Clock fl) where
  open fl use {F, of_int, sub, div, lt, le}
  open ck use {Time, seconds_since}

  rate_of_new :
      (prev next : Map (Observation ck)) (at : Time) (s : Series F)
      → get (fingerprint s) prev ≡ none
      → rate_of ck prev at next s ≡ none
  unfolding rate_of
  rate_of_new prev next at s e = elim (Bool-cases (has (fingerprint s) next)) [
    | inl there ↦ rw (rate_of, there, e) refl
    | inr absent ↦ rw (rate_of, absent) refl
  ]

  -- What a row is due after its predecessor.
  abbrev pub due : Time → Time → Series F → Option (Series F) → Option F
  due at at' s' none = none
  due at at' s' (some s) =
      if le (seconds_since at' at) (of_int (pos 0)) || lt s'.value s.value
      then none
      else some (div (sub s'.value s.value) (seconds_since at' at))

  -- Of two scrapes in a row of at most as many rows as the ceiling, with distinct fingerprints in each, each
  -- row of the second gets the difference to the row of the first with its fingerprint over the seconds
  -- between, and nothing if there is none, if the clock did not advance, or if the counter fell; whatever was
  -- scraped before the two makes no difference.
  pub observe-due :
      (at at' : Time) (series series' : List (Series F)) (r : Rater ck) (s' : Series F)
      → length series ≤ ceiling_of ck r
      → length series' ≤ ceiling_of ck r
      → Distinct (fingerprints series)
      → Distinct (fingerprints series')
      → Memᴰ s' series'
      → get (fingerprint s') (observe ck at' series' (observe ck at series r).0).1
        ≡ due at at' s' (predecessor (fingerprint s') series)
  observe-due at at' series series' r s' fits fits' d d' m' =
      let r' = (observe ck at series r).0 in
      let room : length series' ≤ ceiling_of ck r' =
        rw (tracked-observe-le ck at series r).1 fits' in
      elim (Option-cases (predecessor (fingerprint s') series)) [
        | inr (s, e) ↦
            let (m, same) = predecessor-some (fingerprint s') series s e in
            rw e (
              observe_twice ck at at' series series' r s s' d d' m m' same
                (observe_fits ck at series r fits) (observe_fits ck at' series' r' room))
        | inl e ↦ elim (Option-cases (get (fingerprint s') r'.prev)) [
          | inl fresh ↦ rw e (
              rate-observe ck at' series' r' s' d' m'
              ∙ rate_of_new r'.prev (observe ck at' series' r').0.prev at' s' fresh)
          | inr (o, known) ↦ absurd (
              predecessor-none (fingerprint s') series e
                (observe_prunes ck at series r (fingerprint s') (rw known refl)))
        ]
      ]
