-- ===== src/Scrape/Rate/Readings.antt =====
-- What `Observe` keeps of a scrape: readings of its series, taken now.
use zensu_monitoring_agent.Prelude.{
  ℕ, ◌≡◌, refl, sym, ◌∙◌, Bool, false, some, List, [], ◌∷◌, Str, eqb, eqb_iff, leb, length, arith,
  Memᴰ, Bool-cases, inl, inr,
}
use zensu_monitoring_agent.Prelude.Maps.{Map, get, put, has, get-put}
use zensu_monitoring_agent.Prelude.Float.{Float64, Clock}
use zensu_monitoring_agent.Scrape.Series.{Series, fingerprint}
use zensu_monitoring_agent.Scrape.Rate.{
  Observation, seen, carry, admit_established, admit_one, admit_new, admitted,
}

module _ {fl : Float64} {ck : Clock fl} (prev : Map (Observation ck)) (at : ck.Time) where
  abbrev Rows : Type 0
  Rows = List (Series fl.F)

  -- The entry for a key is a reading, taken now, of a series of the scrape with that fingerprint.
  abbrev IsReading : Rows → Str → Observation ck → Type 0
  IsReading series k o =
      (s : Series fl.F) × Memᴰ s series × (fingerprint s ≡ k) × (o ≡ seen ck at s)

  abbrev Readings : Rows → Map (Observation ck) → Type 0
  Readings series m = (k : Str) (o : Observation ck) → get k m ≡ some o → IsReading series k o

  Readings-put :
      (series : Rows) (s : Series fl.F) (m : Map (Observation ck))
      → Memᴰ s series
      → Readings series m
      → Readings series (put (fingerprint s) (seen ck at s) m)
  Readings-put series s m h all k o e = elim (Bool-cases (eqb (fingerprint s) k)) [
    | inl same ↦ (
      s,
      h,
      (eqb_iff (fingerprint s) k).0 same,
      ground (arith, get-put (fingerprint s) k (seen ck at s) m),
    )
    | inr other ↦ all k o (sym (get-put (fingerprint s) k (seen ck at s) m ∙ (rw other)) ∙ e)
  ]

  module _ (ceiling : ℕ) where
    carry-Readings :
        (series : Rows) (s : Series fl.F) (m : Map (Observation ck))
        → Memᴰ s series
        → Readings series m
        → Readings series (carry ck prev at ceiling s m)
    unfolding carry
    carry-Readings series s m h all = elim (Bool-cases (has (fingerprint s) prev)) [
      | inl known ↦ rw known (Readings-put series s m h all)
      | inr unknown ↦ rw unknown all
    ]

    one-Readings :
        (series : Rows) (s : Series fl.F) (m : Map (Observation ck)) (b : Bool)
        → Memᴰ s series
        → Readings series m
        → Readings series (admit_one ck prev at ceiling s (m, b)).0
    unfolding admit_one
    one-Readings series s m b h all = elim (Bool-cases (has (fingerprint s) m)) [
      | inl there ↦ rw there all
      | inr missing ↦ elim (Bool-cases (leb ceiling (length m))) [
        | inl full ↦ rw (missing, full) all
        | inr room ↦ rw (missing, room) (Readings-put series s m h all)
      ]
    ]

    established-Readings :
        (series rest : Rows) (m : Map (Observation ck))
        → ((s : Series fl.F) → Memᴰ s rest → Memᴰ s series)
        → Readings series m
        → Readings series (admit_established ck prev at ceiling rest m)
    unfolding admit_established
    established-Readings series [] m sub all = all
    established-Readings series (s ∷ rest) m sub all = elim (Bool-cases (leb ceiling (length m))) [
      | inl full ↦ rw full all
      | inr room ↦ rw room (
          established-Readings series rest (carry ck prev at ceiling s m)
            (λ t n. sub t (Memᴰ.tail n)) (carry-Readings series s m (sub s (Memᴰ.head refl)) all))
    ]

    new-Readings :
        (series rest : Rows) (st : Map (Observation ck) × Bool)
        → ((s : Series fl.F) → Memᴰ s rest → Memᴰ s series)
        → Readings series st.0
        → Readings series (admit_new ck prev at ceiling rest st).0
    unfolding admit_new
    new-Readings series [] st sub all = all
    new-Readings series (s ∷ rest) (m, b) sub all =
        new-Readings series rest (admit_one ck prev at ceiling s (m, b))
          (λ t n. sub t (Memᴰ.tail n)) (one-Readings series s m b (sub s (Memᴰ.head refl)) all)

    pub admitted-Readings : (series : Rows) → Readings series (admitted ck prev at ceiling series).0
    unfolding admitted get
    admitted-Readings series =
        new-Readings series series (admit_established ck prev at ceiling series [], false)
          (λ s m. m) (established-Readings series series [] (λ s m. m) (λ k o e. cc))
