-- ===== src/Scrape/Rate/Fits.antt =====
-- What `Observe` refuses of a scrape that fits in its table.
use zensu_monitoring_agent.Prelude.{
  ℕ, ◌+◌, ◌≤◌, ◌≡◌, refl, subst, Bool, false, List, [], ◌∷◌, Str, length, leb, arith, Bool-cases,
  inl, inr, if◌then◌else◌,
}
use zensu_monitoring_agent.Prelude.Maps.{Map, put, has, length-put}
use zensu_monitoring_agent.Prelude.Float.{Float64, Clock}
use zensu_monitoring_agent.Scrape.Series.{Series, fingerprint}
use zensu_monitoring_agent.Scrape.Rate.{
  Observation, seen, Rater, refused_series, ceiling_of, carry, admit_established, admit_one,
  admit_new, admitted, observe,
}
use zensu_monitoring_agent.Scrape.Rate.Table.{has-put, first_old, carry_self}

module _ {fl : Float64} {ck : Clock fl} where
  -- How many of the series are not in the table.
  abbrev missing : Map (Observation ck) → List (Series fl.F) → ℕ
  missing table [] = 0
  missing table (s ∷ series) = (if has (fingerprint s) table then 0 else 1) + missing table series

  missing-le :
      (table : Map (Observation ck)) (series : List (Series fl.F))
      → missing table series ≤ length series
  missing-le table [] = omega arith
  missing-le table (s ∷ series) = ground (arith, missing-le table series)

  missing-put :
      (k : Str) (o : Observation ck) (table : Map (Observation ck)) (series : List (Series fl.F))
      → missing (put k o table) series ≤ missing table series
  missing-put k o table [] = omega arith
  missing-put k o table (s ∷ series) =
      ground (arith, missing-put k o table series, has-put k (fingerprint s) o table)

  module _ (prev : Map (Observation ck)) (at : ck.Time) (ceiling : ℕ) where
    abbrev first : List (Series fl.F) → Map (Observation ck) → Map (Observation ck)
    first = admit_established ck prev at ceiling

    abbrev second : List (Series fl.F) → Map (Observation ck) × Bool → Map (Observation ck) × Bool
    second = admit_new ck prev at ceiling

    -- A row that is carried takes a place, and then it is not missing.
    carry-missing :
        (s : Series fl.F) (series : List (Series fl.F)) (next : Map (Observation ck))
        → length (carry ck prev at ceiling s next)
            + (if has (fingerprint s) (first series (carry ck prev at ceiling s next))
                then 0
                else 1)
          ≤ length next + 1
    unfolding carry
    carry-missing s series next = elim (Bool-cases (has (fingerprint s) prev)) [
      | inl known ↦
          let kept =
            first_old prev at ceiling (fingerprint s) series (carry ck prev at ceiling s next)
              (carry_self prev at ceiling s next known) in
          rw kept (carry_grows s next)
      | inr unknown ↦ carry_same s series next unknown
    ]
      where
        carry_grows :
            (s : Series fl.F) (next : Map (Observation ck))
            → length (carry ck prev at ceiling s next) + 0 ≤ length next + 1
        carry_grows s next = ground (arith, length-put (fingerprint s) (seen ck at s) next)

        carry_same :
            (s : Series fl.F) (series : List (Series fl.F)) (next : Map (Observation ck))
            → has (fingerprint s) prev ≡ false
            → length (carry ck prev at ceiling s next)
                + (if has (fingerprint s) (first series (carry ck prev at ceiling s next))
                    then 0
                    else 1)
              ≤ length next + 1
        carry_same s series next unknown = rw (unknown, carry) (ground arith)

    -- What the first loop leaves in the table, and what it leaves out.
    first-missing :
        (series : List (Series fl.F)) (next : Map (Observation ck))
        → length (first series next) + missing (first series next) series
          ≤ length next + length series
    unfolding admit_established
    first-missing [] next = omega arith
    first-missing (s ∷ series) next =
        let Bounded = λ (x : Map (Observation ck)).
          length x + missing x (s ∷ series) ≤ length next + length (s ∷ series) in
        elim (Bool-cases (leb ceiling (length next))) [
          | inl full ↦
              subst Bounded {x = next} (rw full refl) (omega (arith, missing-le next (s ∷ series)))
          | inr room ↦
              subst Bounded {x = first series (carry ck prev at ceiling s next)} (rw room refl) (
                omega (
                  arith,
                  carry-missing s series next,
                  first-missing series (carry ck prev at ceiling s next),
                ))
        ]

    second_fits :
        (series : List (Series fl.F)) (next : Map (Observation ck)) (b : Bool)
        → length next + missing next series ≤ ceiling
        → (second series (next, b)).1 ≡ b
    unfolding admit_new admit_one
    second_fits [] next b h = refl
    second_fits (s ∷ series) next b h = elim (Bool-cases (has (fingerprint s) next)) [
      | inl there ↦
          rw (admit_new, admit_one, there)
            (second_fits series next b (omega (arith, rw there at h)))
      | inr absent ↦ elim (Bool-cases (leb ceiling (length next))) [
        | inl full ↦ absurd (ground (arith, rw absent at h, full))
        | inr room ↦
            rw (admit_new, admit_one, absent, room)
              (second_fits series (put (fingerprint s) (seen ck at s) next) b (
                omega (
                  arith,
                  rw absent at h,
                  missing-put (fingerprint s) (seen ck at s) next series,
                  rw absent at (length-put (fingerprint s) (seen ck at s) next),
                )))
      ]
    ]

-- A scrape of at most as many rows as the ceiling is tracked whole, whatever the Rater held before: it refuses
-- no series of it.
pub observe_fits :
    {fl : Float64} (ck : Clock fl) (at : ck.Time) (series : List (Series fl.F)) (r : Rater ck)
    → length series ≤ ceiling_of ck r
    → refused_series ck (observe ck at series r).0 ≡ false
unfolding refused_series observe admitted
observe_fits ck at series r h =
    let c = ceiling_of ck r in
    second_fits r.prev at c series (admit_established ck r.prev at c series []) false
      (omega (arith, first-missing r.prev at c series []))
