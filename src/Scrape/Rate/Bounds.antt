-- ===== src/Scrape/Rate/Bounds.antt =====
-- What `Observe` keeps from one scrape to the next.
use zensu_monitoring_agent.Prelude.{
  ℕ, ◌≤◌, ◌≡◌, ◌↔◌, refl, true, false, List, [], Str, Memᴰ, Bool-cases, inl, inr,
}
use zensu_monitoring_agent.Prelude.Maps.{Map, get, has}
use zensu_monitoring_agent.Prelude.Float.{Float64, Clock}
use zensu_monitoring_agent.Scrape.Series.{Series, fingerprint}
use zensu_monitoring_agent.Scrape.Rate.{
  Observation, Rater, refused_series, tracked, ceiling_of, observe, admitted, admit_established,
}
use zensu_monitoring_agent.Scrape.Rate.Table.{Scraped, first-keys, first_complete, admitted-le}
use zensu_monitoring_agent.Scrape.Rate.Admission.{
  second-keys, second_old, second_full, second_complete, second_refuses,
}

module _ {fl : Float64} (ck : Clock fl) (at : ck.Time) (series : List (Series fl.F))
    (r : Rater ck) where
  abbrev after : Rater ck
  after = (observe ck at series r).0

  -- Whatever the peer sends, the Rater holds at most as many series as its ceiling, and the ceiling
  -- stays as it is.
  pub tracked-observe-le :
      (tracked ck after ≤ ceiling_of ck r) × (ceiling_of ck after ≡ ceiling_of ck r)
  unfolding observe tracked ceiling_of
  tracked-observe-le = (admitted-le r.prev at (ceiling_of ck r) series, refl)

  abbrev c : ℕ
  c = ceiling_of ck r

  -- The table after the first pass.
  abbrev early : Map (Observation ck)
  early = admit_established ck r.prev at c series []

  early-keys : (k : Str) → has k early ≡ true → (has k r.prev ≡ true) × Scraped k series
  unfolding get
  early-keys k h = elim (first-keys r.prev at c k series [] h) [
    | inl nothing ↦ cc
    | inr found ↦ found
  ]

  -- State is kept only for fingerprints of this scrape.
  pub observe_prunes : (k : Str) → has k after.prev ≡ true → Scraped k series
  unfolding observe admitted
  observe_prunes k h = elim (second-keys r.prev at c k series (early, false) h) [
    | inr found ↦ found
    | inl old ↦ (early-keys k old).1
  ]

  -- `RefusedSeries` is false exactly when every series of the scrape is tracked.
  pub refused_iff :
      (refused_series ck after ≡ false)
      ↔ ((s : Series fl.F) → Memᴰ s series → has (fingerprint s) after.prev ≡ true)
  unfolding refused_series observe admitted
  refused_iff = (
    λ h s m. second_complete r.prev at c series (early, false) h m,
    λ all. elim (Bool-cases (admitted ck r.prev at c series).1) [
      | inr fine ↦ fine
      | inl no_room ↦
          let (s, m, missing, full) =
            second_refuses r.prev at c series (early, false) no_room refl in
          cc (all s m)
    ],
  )

  -- A new series is tracked only if every series of the scrape that was tracked before still is.
  pub observe_precedence :
      (s t : Series fl.F)
      → Memᴰ s series
      → has (fingerprint s) r.prev ≡ true
      → has (fingerprint s) after.prev ≡ false
      → has (fingerprint t) after.prev ≡ true
      → has (fingerprint t) r.prev ≡ true
  unfolding observe admitted
  observe_precedence s t m known lost kept = elim (first_complete r.prev at c series [] m known) [
    | inl stayed ↦ cc (second_old r.prev at c (fingerprint s) series (early, false) stayed)
    | inr full ↦
        (early-keys (fingerprint t)
          (rw (second_full r.prev at c series (early, false) full) at kept)).0
  ]
