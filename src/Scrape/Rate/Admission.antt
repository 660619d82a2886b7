-- ===== src/Scrape/Rate/Admission.antt =====
-- The second pass of `Observe`: new series fill what is left of the table.
use zensu_monitoring_agent.Prelude.{
  ℕ, ◌≤◌, ◌≡◌, refl, ◌∙◌, Bool, true, false, List, [], ◌∷◌, Str, eqb_iff, eqb_refl, length, arith,
  Memᴰ, Bool-cases, inl, inr, ◌⊎◌,
}
use mathlib.Core.List.Memᴰ
use zensu_monitoring_agent.Prelude.Maps.{Map, has}
use zensu_monitoring_agent.Prelude.Float.{Float64, Clock}
use zensu_monitoring_agent.Scrape.Series.{Series, fingerprint}
use zensu_monitoring_agent.Scrape.Rate.{Observation, seen, admit_one, admit_new, admitted}
use zensu_monitoring_agent.Scrape.Rate.Table.{Scraped, has-put}

module _ {fl : Float64} {ck : Clock fl} (prev : Map (Observation ck)) (at : ck.Time)
    (ceiling : ℕ) where
  abbrev pub Rows : Type 0
  Rows = List (Series fl.F)

  abbrev pub State : Type 0
  State = Map (Observation ck) × Bool

  abbrev pub one : Series fl.F → State → State
  one = admit_one ck prev at ceiling

  abbrev pub second : Rows → State → State
  second = admit_new ck prev at ceiling

  one-keys :
      (k : Str) (s : Series fl.F) (st : State)
      → has k (one s st).0 ≡ true
      → (has k st.0 ≡ true) ⊎ (fingerprint s ≡ k)
  unfolding admit_one
  one-keys k s (next, b) h =
      ground (arith, has-put (fingerprint s) k (seen ck at s) next, eqb_iff (fingerprint s) k)

  one_old : (k : Str) (s : Series fl.F) (st : State) → has k st.0 ≡ true → has k (one s st).0 ≡ true
  unfolding admit_one
  one_old k s (next, b) h = ground (arith, has-put (fingerprint s) k (seen ck at s) next)

  one_self :
      (s : Series fl.F) (st : State)
      → (one s st).1 ≡ false
      → has (fingerprint s) (one s st).0 ≡ true
  unfolding admit_one
  one_self s (next, b) h =
      ground (
        arith,
        has-put (fingerprint s) (fingerprint s) (seen ck at s) next,
        eqb_refl (fingerprint s),
      )

  one_refused : (s : Series fl.F) (st : State) → st.1 ≡ true → (one s st).1 ≡ true
  unfolding admit_one
  one_refused s (next, b) h = ground arith

  one_full : (s : Series fl.F) (st : State) → ceiling ≤ length st.0 → (one s st).0 ≡ st.0
  unfolding admit_one
  one_full s (next, b) h = ground arith

  pub second-keys :
      (k : Str) (series : Rows) (st : State)
      → has k (second series st).0 ≡ true
      → (has k st.0 ≡ true) ⊎ Scraped k series
  unfolding admit_new
  second-keys k [] st h = inl h
  second-keys k (s ∷ series) st h = elim (second-keys k series (one s st) h) [
    | inl early ↦ elim (one-keys k s st early) [
      | inl old ↦ inl old
      | inr same ↦ inr (s, Memᴰ.head refl, same)
    ]
    | inr (t, m, e) ↦ inr (t, Memᴰ.tail m, e)
  ]

  pub second_old :
      (k : Str) (series : Rows) (st : State) → has k st.0 ≡ true → has k (second series st).0 ≡ true
  unfolding admit_new
  second_old k [] st h = h
  second_old k (s ∷ series) st h = second_old k series (one s st) (one_old k s st h)

  second_refused : (series : Rows) (st : State) → st.1 ≡ true → (second series st).1 ≡ true
  unfolding admit_new
  second_refused [] st h = h
  second_refused (s ∷ series) st h = second_refused series (one s st) (one_refused s st h)

  pub second_full :
      (series : Rows) (st : State) → ceiling ≤ length st.0 → (second series st).0 ≡ st.0
  unfolding admit_new
  second_full [] st h = refl
  second_full (s ∷ series) st h =
      let same = one_full s st h in second_full series (one s st) (rw same h) ∙ same

  -- If nothing was refused, every series of the scrape is in the table.
  pub second_complete :
      (series : Rows) (st : State)
      → (second series st).1 ≡ false
      → {s : Series fl.F} → Memᴰ s series
      → has (fingerprint s) (second series st).0 ≡ true
  unfolding admit_new
  second_complete [] st h m = elim m [ ]
  second_complete (t ∷ series) st h {s} m = elim (Memᴰ.cases_cons m) [
    | inr later ↦ second_complete series (one t st) h later
    | inl here ↦ elim (Bool-cases (one t st).1) [
      | inl no_room ↦ cc (second_refused series (one t st) no_room)
      | inr admitted ↦
          rw here (second_old (fingerprint t) series (one t st) (one_self t st admitted))
    ]
  ]

  -- A series is refused only by a full table, and is not in it.
  one_refuses :
      (s : Series fl.F) (st : State)
      → (one s st).1 ≡ true
      → st.1 ≡ false
      → (ceiling ≤ length st.0) × (has (fingerprint s) st.0 ≡ false)
  unfolding admit_one
  one_refuses s (next, b) h k = ground arith

  pub second_refuses :
      (series : Rows) (st : State)
      → (second series st).1 ≡ true
      → st.1 ≡ false
      → (s : Series fl.F) × Memᴰ s series
        × (has (fingerprint s) (second series st).0 ≡ false)
        × (ceiling ≤ length (second series st).0)
  unfolding admit_new
  second_refuses [] st h k = cc
  second_refuses (s ∷ series) st h k = elim (Bool-cases (one s st).1) [
    | inr admitted ↦
        let (t, m, out, full) = second_refuses series (one s st) h admitted in
        (t, Memᴰ.tail m, out, full)
    | inl no_room ↦
        let (full, missing) = one_refuses s st no_room k in
        let same = second_full (s ∷ series) st full in
        (s, Memᴰ.head refl, rw same missing, rw same full)
  ]
