-- ===== src/Scrape/Rate.antt =====
-- internal/scrape/rate.go: the `Rater`. The reading of the clock is an argument of `observe`.
pub mod Table
pub mod Bounds
pub mod Fits
pub mod Exact
pub mod Rates
pub mod Readings
pub mod Admission
mod Tests
use zensu_monitoring_agent.Prelude.{
  ℕ, ◌≡◌, Bool, true, false, not, ◌||◌, Option, none, some, List, [], ◌∷◌, Str, if◌then◌else◌,
  length, leb, ltb,
}
use zensu_monitoring_agent.Prelude.Maps.{Map, get, put, has}
use zensu_monitoring_agent.Prelude.Int.{ℤ, pos, negsuc}
use zensu_monitoring_agent.Prelude.Float.{Float64, Clock}
use zensu_monitoring_agent.Scrape.Series.{Series, fingerprint}

pub record Observation {fl : Float64} (ck : Clock fl) : Type 0 where
  pub value : fl.F
  pub at : ck.Time

abbrev pub max_tracked_series : ℕ
max_tracked_series = 20000

-- A `max_tracked` of 0 is unset.
pub record Rater {fl : Float64} (ck : Clock fl) : Type 0 where
  pub max_tracked : ℕ
  pub prev : Map (Observation ck)
  pub refused : Bool

pub record RaterOptions : Type 0 where
  pub max_tracked : ℤ

-- `if o.MaxTracked > 0 { r.maxTracked = o.MaxTracked }`, for each of the options
unfoldable pub apply_options : List RaterOptions → ℕ → ℕ
apply_options [] n = n
apply_options (o ∷ opts) n =
    apply_options opts (elim o.max_tracked [ pos m ↦ if ltb 0 m then m else n | negsuc m ↦ n ])

module _ {fl : Float64} (ck : Clock fl) where
  open fl use {F, of_int, sub, div, lt, le}
  open ck use {Time, seconds_since}

  unfoldable pub new_rater : List RaterOptions → Rater ck
  new_rater opts = record { max_tracked = apply_options opts 0; prev = []; refused = false }

  unfoldable pub refused_series : Rater ck → Bool
  refused_series r = r.refused

  unfoldable pub tracked : Rater ck → ℕ
  tracked r = length r.prev

  unfoldable pub ceiling_of : Rater ck → ℕ
  ceiling_of r = if leb r.max_tracked 0 then max_tracked_series else r.max_tracked

  -- `observation{value: s.Value, at: at}`
  abbrev pub seen : Time → Series F → Observation ck
  seen at s = record { value = s.value; at = at }

  module _ (prev : Map (Observation ck)) (at : Time) (ceiling : ℕ) where
    -- One round of the first loop: a series that has a predecessor is admitted.
    unfoldable pub carry : Series F → Map (Observation ck) → Map (Observation ck)
    carry s next =
        if not (has (fingerprint s) prev) then next else put (fingerprint s) (seen at s) next

    -- The first loop, up to the ceiling.
    unfoldable pub admit_established : List (Series F) → Map (Observation ck) → Map (Observation ck)
    admit_established [] next = next
    admit_established (s ∷ series) next =
        if leb ceiling (length next) then next else admit_established series (carry s next)

    -- One round of the second loop, over the table and `r.refused`.
    unfoldable pub admit_one : Series F → Map (Observation ck) × Bool → Map (Observation ck) × Bool
    admit_one s (next, refused) =
        if has (fingerprint s) next
        then (next, refused)
        else if leb ceiling (length next)
        then (next, true)
        else (put (fingerprint s) (seen at s) next, refused)

    unfoldable pub admit_new :
        List (Series F) → Map (Observation ck) × Bool → Map (Observation ck) × Bool
    admit_new [] state = state
    admit_new (s ∷ series) state = admit_new series (admit_one s state)

    unfoldable pub admitted : List (Series F) → Map (Observation ck) × Bool
    admitted series = admit_new series (admit_established series [], false)

  module _ (prev : Map (Observation ck)) (at : Time) where
    -- The value that the third loop gives to a series, if it has one.
    unfoldable pub rate_of : Map (Observation ck) → Series F → Option F
    rate_of next s =
        if not (has (fingerprint s) next) then none else elim (get (fingerprint s) prev) [
          | none ↦ none
          | some o ↦
              let elapsed = seconds_since at o.at in
              if le elapsed (of_int (pos 0)) || lt s.value o.value
              then none
              else some (div (sub s.value o.value) elapsed)
        ]

    abbrev pub store_rate : Option F → Str → Map F → Map F
    store_rate none k out = out
    store_rate (some v) k out = put k v out

    -- The third loop.
    unfoldable pub rate_all : Map (Observation ck) → List (Series F) → Map F → Map F
    rate_all next [] out = out
    rate_all next (s ∷ series) out =
        rate_all next series (store_rate (rate_of next s) (fingerprint s) out)

  unfoldable pub observe : Time → List (Series F) → Rater ck → Rater ck × Map F
  observe at series r =
      let (next, refused) = admitted r.prev at (ceiling_of r) series in
      (record r { prev = next; refused = refused }, rate_all r.prev at next series [])
