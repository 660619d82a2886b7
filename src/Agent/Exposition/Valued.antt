-- ===== src/Agent/Exposition/Valued.antt =====
-- The samples that a selection gives a service, from what each of its rows is worth.
use zensu_monitoring_agent.Prelude.{
  ◌≡◌, refl, Bool, not, ◌&&◌, Option, none, some, is_some, List, [], ◌∷◌, Str, if◌then◌else◌, any,
  Memᴰ,
}
use zensu_monitoring_agent.Prelude.Maps.{Map}
use zensu_monitoring_agent.Prelude.Float.{Float64, Clock}
use zensu_monitoring_agent.Prelude.Int.{pos}
use zensu_monitoring_agent.Scrape.Series.{Series}
use zensu_monitoring_agent.Scrape.Resolve.{Selection, rateable}
use zensu_monitoring_agent.Agent.Index.{SlugIndex, resolve}
use zensu_monitoring_agent.Agent.Exposition.{MetricSample, reading}
use zensu_monitoring_agent.Agent.Exposition.Totals.{is_slug, has_reading, lacks_reading, sum_of}
use zensu_monitoring_agent.Agent.Exposition.Tick.{is_counter}
use zensu_monitoring_agent.Agent.Exposition.Service.{finite_sample, service_samples}

module _ {fl : Float64} (ck : Clock fl) (index : SlugIndex) (slug_label : Str) (g : Str)
    (worth : Series fl.F → Option fl.F) where
  open fl use {F, add, mul, of_int}

  abbrev pub is_own : Series F → Bool
  is_own row = is_slug g (resolve index row slug_label)

  abbrev pub all_worth : List (Series F) → F → F
  all_worth [] acc = acc
  all_worth (row ∷ rows) acc =
      all_worth rows
        (if is_own row then elim (worth row) [ none ↦ acc | some v ↦ add acc v ] else acc)

  -- One sample, if the service has a row in the selection and each row of it is worth something: their sum
  -- times the scale, if that is finite. A counter that cannot be rated gives none.
  abbrev pub valued : Selection F → List (MetricSample F)
  valued sel =
      if is_counter sel.kind && not (rateable sel)
      then []
      else if any (λ row. is_own row && is_some (worth row)) sel.series
          && not (any (λ row. is_own row && not (is_some (worth row))) sel.series)
      then finite_sample fl sel (mul (all_worth sel.series (of_int (pos 0))) sel.candidate.scale)
      else []

  module _ (sel : Selection F) (rated : Map F) where
    -- The rates give every row what it is worth.
    abbrev pub AreWorth : List (Series F) → Type 0
    AreWorth rows = (row : Series F) → Memᴰ row rows → reading sel rated row ≡ worth row

    has-worth :
        (rows : List (Series F))
        → AreWorth rows
        → has_reading fl index slug_label sel rated g rows
          ≡ any (λ row. is_own row && is_some (worth row)) rows
    has-worth [] h = refl
    has-worth (row ∷ rows) h =
        rw (h row (Memᴰ.head refl), has-worth rows (λ r m. h r (Memᴰ.tail m))) refl

    lacks-worth :
        (rows : List (Series F))
        → AreWorth rows
        → lacks_reading fl index slug_label sel rated g rows
          ≡ any (λ row. is_own row && not (is_some (worth row))) rows
    lacks-worth [] h = refl
    lacks-worth (row ∷ rows) h =
        rw (h row (Memᴰ.head refl), lacks-worth rows (λ r m. h r (Memᴰ.tail m))) refl

    sum-worth :
        (rows : List (Series F)) (acc : F)
        → AreWorth rows
        → sum_of fl index slug_label sel rated g rows acc ≡ all_worth rows acc
    sum-worth [] acc h = refl
    sum-worth (row ∷ rows) acc h =
        rw (h row (Memᴰ.head refl)) (sum-worth rows _ (λ r m. h r (Memᴰ.tail m)))

  pub service_samples-eq-valued :
      (sel : Selection F) (rated : Map F)
      → AreWorth sel rated sel.series
      → service_samples ck index slug_label sel rated g ≡ valued sel
  service_samples-eq-valued sel rated h =
      rw
        (
          has-worth sel rated sel.series h,
          lacks-worth sel rated sel.series h,
          sum-worth sel rated sel.series (of_int (pos 0)) h,
        )
        refl
