-- ===== src/Scrape/Rate/Rates.antt =====
-- The rates that `Observe` returns.
use zensu_monitoring_agent.Prelude.{
  ◌≡◌, refl, sym, ap, ◌∙◌, true, false, ◌||◌, Option, none, some, List, [], ◌∷◌, Str, eqb, eqb_iff,
  eqb_refl, if◌then◌else◌, arith, Memᴰ, All, All_at, Option-cases, inl, inr,
}
use mathlib.Core.List.Memᴰ
use zensu_monitoring_agent.Prelude.Maps.{Map, get, has, get-put}
use zensu_monitoring_agent.Prelude.Sort.{Distinct}
use zensu_monitoring_agent.Prelude.Int.{pos}
use zensu_monitoring_agent.Prelude.Float.{Float64, Clock}
use zensu_monitoring_agent.Scrape.Series.{Series, fingerprint}
use zensu_monitoring_agent.Scrape.Rate.{
  Observation, Rater, seen, admitted, rate_of, store_rate, rate_all, refused_series, ceiling_of,
  observe,
}
use zensu_monitoring_agent.Scrape.Rate.Bounds.{refused_iff}
use zensu_monitoring_agent.Scrape.Rate.Readings.{admitted-Readings}

abbrev pub fingerprints : {F : Type 0} → List (Series F) → List Str
fingerprints [] = []
fingerprints (s ∷ series) = fingerprint s ∷ fingerprints series

mem-fingerprints :
    {F : Type 0} {s : Series F} (series : List (Series F))
    → Memᴰ s series
    → Memᴰ (fingerprint s) (fingerprints series)
mem-fingerprints [] m = elim m [ ]
mem-fingerprints (t ∷ series) m = elim (Memᴰ.cases_cons m) [
  | inl here ↦ Memᴰ.head (ap fingerprint here)
  | inr later ↦ Memᴰ.tail (mem-fingerprints series later)
]

-- Of series with distinct fingerprints, a fingerprint names one.
same_series :
    {F : Type 0} (series : List (Series F))
    → Distinct (fingerprints series)
    → {s t : Series F} → Memᴰ s series
    → Memᴰ t series
    → fingerprint s ≡ fingerprint t
    → s ≡ t
same_series [] d m n e = elim m [ ]
same_series (r ∷ series) d {s} {t} m n e = elim (Memᴰ.cases_cons m) [
  | inl here ↦ elim (Memᴰ.cases_cons n) [
    | inl too ↦ here ∙ sym too
    | inr later ↦ cc (
      All_at (λ k. eqb (fingerprint r) k ≡ false) _ d.0 (mem-fingerprints series later),
      (eqb_iff (fingerprint r) (fingerprint t)).1 (ap fingerprint (sym here) ∙ e),
    )
  ]
  | inr later ↦ elim (Memᴰ.cases_cons n) [
    | inl too ↦ cc (
      All_at (λ k. eqb (fingerprint r) k ≡ false) _ d.0 (mem-fingerprints series later),
      (eqb_iff (fingerprint r) (fingerprint s)).1 (ap fingerprint (sym too) ∙ sym e),
    )
    | inr too ↦ same_series series d.1 later too e
  ]
]

module _ {fl : Float64} {ck : Clock fl} (prev : Map (Observation ck)) (at : ck.Time) where
  store_other :
      (o : Option fl.F) (j k : Str) (out : Map fl.F)
      → eqb j k ≡ false
      → get k (store_rate ck prev at o j out) ≡ get k out
  store_other none j k out h = refl
  store_other (some v) j k out h = get-put j k v out ∙ rw h

  store_self :
      (o : Option fl.F) (k : Str) (out : Map fl.F)
      → get k out ≡ none
      → get k (store_rate ck prev at o k out) ≡ o
  store_self none k out h = h
  store_self (some v) k out h = get-put k k v out ∙ rw (eqb_refl k)

  store_free :
      (o : Option fl.F) (j : Str) (ks : List Str) (out : Map fl.F)
      → All (λ k. eqb j k ≡ false) ks
      → All (λ k. get k out ≡ none) ks
      → All (λ k. get k (store_rate ck prev at o j out) ≡ none) ks
  store_free o j [] out h free = tt
  store_free o j (k ∷ ks) out h free =
      (store_other o j k out h.0 ∙ free.0, store_free o j ks out h.1 free.1)

  -- The third loop leaves other keys alone.
  rate_all_other :
      (next : Map (Observation ck)) (k : Str) (series : List (Series fl.F)) (out : Map fl.F)
      → All (λ j. eqb j k ≡ false) (fingerprints series)
      → get k (rate_all ck prev at next series out) ≡ get k out
  unfolding rate_all
  rate_all_other next k [] out h = refl
  rate_all_other next k (s ∷ series) out h =
      rate_all_other next k series _ h.1
      ∙ store_other (rate_of ck prev at next s) (fingerprint s) k out h.0

  apart : (k : Str) (ks : List Str) → All (λ j. eqb k j ≡ false) ks → All (λ j. eqb j k ≡ false) ks
  apart k [] h = tt
  apart k (j ∷ ks) h = (ground (arith, eqb_iff k j, eqb_iff j k, h.0), apart k ks h.1)

  -- Of series with distinct fingerprints, each gets its own rate or none.
  rate_all-rate_of :
      (next : Map (Observation ck)) (series : List (Series fl.F)) (out : Map fl.F) {s : Series fl.F}
      → Distinct (fingerprints series)
      → Memᴰ s series
      → All (λ k. get k out ≡ none) (fingerprints series)
      → get (fingerprint s) (rate_all ck prev at next series out) ≡ rate_of ck prev at next s
  unfolding rate_all
  rate_all-rate_of next [] out d m free = elim m [ ]
  rate_all-rate_of next (t ∷ series) out {s} d m free = elim (Memᴰ.cases_cons m) [
    | inl here ↦ rw here (
        rate_all_other next (fingerprint t) series _ (apart (fingerprint t) _ d.0)
        ∙ store_self (rate_of ck prev at next t) (fingerprint t) out free.0)
    | inr later ↦
        rate_all-rate_of next series _ d.1 later
          (store_free (rate_of ck prev at next t) (fingerprint t) _ out d.0 free.1)
  ]

no_rates : (F : Type 0) (ks : List Str) → All (λ k. get {V = F} k [] ≡ none) ks
unfolding get
no_rates F [] = tt
no_rates F (k ∷ ks) = (refl, no_rates F ks)

module _ {fl : Float64} (ck : Clock fl) where
  open fl use {F, of_int, sub, div, lt, le}
  open ck use {Time, seconds_since}

  -- The entry of a tracked series after a scrape.
  get-observe :
      (at : Time) (series : List (Series F)) (r : Rater ck) (s : Series F)
      → Distinct (fingerprints series)
      → Memᴰ s series
      → has (fingerprint s) (observe ck at series r).0.prev ≡ true
      → get (fingerprint s) (observe ck at series r).0.prev ≡ some (seen ck at s)
  unfolding observe
  get-observe at series r s d m h =
      elim (Option-cases (get (fingerprint s) (admitted ck r.prev at (ceiling_of ck r) series).0)) [
        | inl missing ↦ cc
        | inr (o, found) ↦
            let (t, n, named, reading) =
              admitted-Readings r.prev at (ceiling_of ck r) series (fingerprint s) o found in
            found ∙ ap some (reading ∙ ap (seen ck at) (same_series series d n m named))
      ]

  -- What `rate_of` gives to a tracked series with a predecessor.
  rate_of_seen :
      (prev next : Map (Observation ck)) (at : Time) (s : Series F) (o : Observation ck)
      → has (fingerprint s) next ≡ true
      → get (fingerprint s) prev ≡ some o
      → rate_of ck prev at next s ≡ (
          if le (seconds_since at o.at) (of_int (pos 0)) || lt s.value o.value
          then none
          else some (div (sub s.value o.value) (seconds_since at o.at)))
  unfolding rate_of
  rate_of_seen prev next at s o there found = rw (there, found, rate_of)

  pub rate-observe :
      (at : Time) (series : List (Series F)) (r : Rater ck) (s : Series F)
      → Distinct (fingerprints series)
      → Memᴰ s series
      → get (fingerprint s) (observe ck at series r).1
        ≡ rate_of ck r.prev at (observe ck at series r).0.prev s
  unfolding observe
  rate-observe at series r s d m =
      rate_all-rate_of r.prev at (admitted ck r.prev at (ceiling_of ck r) series).0 series [] d m
        (no_rates F (fingerprints series))

  -- Two scrapes in a row that refuse nothing: a series of the second that the first had too, with
  -- distinct fingerprints in each, gets the difference of the two values over the seconds between,
  -- and gets nothing if the clock did not advance or the counter fell.
  pub observe_twice :
      (at at' : Time) (series series' : List (Series F)) (r : Rater ck) (s s' : Series F)
      → Distinct (fingerprints series)
      → Distinct (fingerprints series')
      → Memᴰ s series
      → Memᴰ s' series'
      → fingerprint s ≡ fingerprint s'
      → refused_series ck (observe ck at series r).0 ≡ false
      → refused_series ck (observe ck at' series' (observe ck at series r).0).0 ≡ false
      → get (fingerprint s') (observe ck at' series' (observe ck at series r).0).1 ≡ (
          if le (seconds_since at' at) (of_int (pos 0)) || lt s'.value s.value
          then none
          else some (div (sub s'.value s.value) (seconds_since at' at)))
  observe_twice at at' series series' r s s' d d' m m' e none_lost none_lost' =
      let r' = (observe ck at series r).0 in
      let before = get-observe at series r s d m ((refused_iff ck at series r).0 none_lost s m) in
      rate-observe at' series' r' s' d' m'
      ∙ rate_of_seen r'.prev (observe ck at' series' r').0.prev at' s' (seen ck at s)
          ((refused_iff ck at' series' r').0 none_lost' s' m')
          (ap (λ k. get k r'.prev) (sym e) ∙ before)
