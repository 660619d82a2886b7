-- ===== src/Scrape/Rate/Table.antt =====
-- The table that `Observe` builds in two passes: its size, its keys, and which series come first.
use zensu_monitoring_agent.Prelude.{
  ℕ, ◌≤◌, ◌<◌, ◌≡◌, refl, ap, Bool, true, false, ◌||◌, List, [], ◌∷◌, Str, eqb, eqb_iff, eqb_refl,
  length, leb, arith, Memᴰ, Bool-cases, inl, inr, ◌⊎◌,
}
use mathlib.Core.List.Memᴰ
use zensu_monitoring_agent.Prelude.Maps.{Map, put, has, get-put, length-put}
use zensu_monitoring_agent.Prelude.Float.{Float64, Clock}
use zensu_monitoring_agent.Scrape.Series.{Series, fingerprint}
use zensu_monitoring_agent.Scrape.Rate.{
  Observation, seen, carry, admit_established, admit_one, admit_new, admitted,
}

pub has-put {ℓ} :
    {V : Type ℓ} (k j : Str) (v : V) (m : Map V) → has j (put k v m) ≡ (eqb k j || has j m)
has-put k j v m = ground (arith, get-put k j v m)

-- A key that some series of the list has.
abbrev pub Scraped : {F : Type 0} → Str → List (Series F) → Type 0
Scraped {F} k series = (s : Series F) × Memᴰ s series × (fingerprint s ≡ k)

pub Scraped-tail :
    {F : Type 0} {k : Str} {s : Series F} {series : List (Series F)}
    → Scraped k series
    → Scraped k (s ∷ series)
Scraped-tail (t, m, e) = (t, Memᴰ.tail m, e)

module _ {fl : Float64} {ck : Clock fl} (prev : Map (Observation ck)) (at : ck.Time)
    (ceiling : ℕ) where
  abbrev pub Table : Type 0
  Table = Map (Observation ck)

  abbrev pub Rows : Type 0
  Rows = List (Series fl.F)

  abbrev pub State : Type 0
  State = Table × Bool

  -- The two loops, on what is left of the series.
  abbrev pub first : Rows → Table → Table
  first = admit_established ck prev at ceiling

  abbrev pub second : Rows → State → State
  second = admit_new ck prev at ceiling

  carry-le :
      (s : Series fl.F) (next : Table)
      → length next < ceiling
      → length (carry ck prev at ceiling s next) ≤ ceiling
  unfolding carry
  carry-le s next h = ground (arith, length-put (fingerprint s) (seen ck at s) next)

  first-le :
      (series : Rows) (next : Table) → length next ≤ ceiling → length (first series next) ≤ ceiling
  unfolding admit_established
  first-le [] next h = h
  first-le (s ∷ series) next h =
      ground (arith, carry-le s next, first-le series (carry ck prev at ceiling s next))

  admit_one-le :
      (s : Series fl.F) (st : State)
      → length st.0 ≤ ceiling
      → length (admit_one ck prev at ceiling s st).0 ≤ ceiling
  unfolding admit_one
  admit_one-le s (next, b) h = ground (arith, length-put (fingerprint s) (seen ck at s) next)

  second-le :
      (series : Rows) (st : State) → length st.0 ≤ ceiling → length (second series st).0 ≤ ceiling
  unfolding admit_new
  second-le [] st h = h
  second-le (s ∷ series) st h =
      second-le series (admit_one ck prev at ceiling s st) (admit_one-le s st h)

  pub admitted-le : (series : Rows) → length (admitted ck prev at ceiling series).0 ≤ ceiling
  unfolding admitted
  admitted-le series = second-le series (first series [], false) (first-le series [] (omega arith))

  carry-keys :
      (k : Str) (s : Series fl.F) (next : Table)
      → has k (carry ck prev at ceiling s next) ≡ true
      → (has k next ≡ true) ⊎ ((has k prev ≡ true) × (fingerprint s ≡ k))
  unfolding carry
  carry-keys k s next h = ground (
    arith,
    has-put (fingerprint s) k (seen ck at s) next,
    eqb_iff (fingerprint s) k,
    ap (λ j. has j prev) {x = fingerprint s} {y = k},
  )

  carry_old :
      (k : Str) (s : Series fl.F) (next : Table)
      → has k next ≡ true
      → has k (carry ck prev at ceiling s next) ≡ true
  unfolding carry
  carry_old k s next h = ground (arith, has-put (fingerprint s) k (seen ck at s) next)

  pub carry_self :
      (s : Series fl.F) (next : Table)
      → has (fingerprint s) prev ≡ true
      → has (fingerprint s) (carry ck prev at ceiling s next) ≡ true
  unfolding carry
  carry_self s next h =
      ground (
        arith,
        has-put (fingerprint s) (fingerprint s) (seen ck at s) next,
        eqb_refl (fingerprint s),
      )

  -- What the first loop adds has a predecessor and is in the scrape.
  pub first-keys :
      (k : Str) (series : Rows) (next : Table)
      → has k (first series next) ≡ true
      → (has k next ≡ true) ⊎ ((has k prev ≡ true) × Scraped k series)
  unfolding admit_established
  first-keys k [] next h = inl h
  first-keys k (s ∷ series) next h = elim (Bool-cases (leb ceiling (length next))) [
    | inl full ↦ inl (rw (full, admit_established) at h)
    | inr room ↦
        elim (first-keys k series (carry ck prev at ceiling s next)
          (rw (room, admit_established) at h)) [
            | inl carried ↦ elim (carry-keys k s next carried) [
              | inl old ↦ inl old
              | inr (known, same) ↦ inr (known, (s, Memᴰ.head refl, same))
            ]
            | inr (known, later) ↦ inr (known, Scraped-tail later)
          ]
  ]

  pub first_old :
      (k : Str) (series : Rows) (next : Table)
      → has k next ≡ true
      → has k (first series next) ≡ true
  unfolding admit_established
  first_old k [] next h = h
  first_old k (s ∷ series) next h =
      ground (arith, first_old k series (carry ck prev at ceiling s next), carry_old k s next)

  -- A series with a predecessor is in the table after the first loop, unless the table is full.
  pub first_complete :
      (series : Rows) (next : Table) {s : Series fl.F}
      → Memᴰ s series
      → has (fingerprint s) prev ≡ true
      → (has (fingerprint s) (first series next) ≡ true) ⊎ (ceiling ≤ length (first series next))
  unfolding admit_established
  first_complete [] next m h = elim m [ ]
  first_complete (t ∷ series) next {s} m h = elim (Bool-cases (leb ceiling (length next))) [
    | inl full ↦ rw full (inr (ground arith))
    | inr room ↦ rw room (elim (Memᴰ.cases_cons m) [
      | inl here ↦ inl (
          first_old (fingerprint s) series (carry ck prev at ceiling t next)
            (rw here (carry_self t next (rw here at h))))
      | inr later ↦ first_complete series (carry ck prev at ceiling t next) later h
    ])
  ]
