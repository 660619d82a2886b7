-- ===== src/Scrape/Rate/Tests.antt =====
-- Runs of the `Rater`, and its theorems at concrete scrapes.
use zensu_monitoring_agent.Prelude.{
  arith, ℕ, ◌≤◌, ◌≡◌, refl, true, false, [], ◌∷◌, Str, codes, eqb, Memᴰ,
}
use zensu_monitoring_agent.Prelude.Maps.{get, put, has}
use zensu_monitoring_agent.Prelude.Sort.{sort}
use zensu_monitoring_agent.Prelude.Int.{pos}
use zensu_monitoring_agent.Prelude.Sample.{Value, num, ticks}
use zensu_monitoring_agent.Scrape.Series.{
  Series, counter, digits, itoa, write_len_prefixed, write_labels, fingerprint,
}
use zensu_monitoring_agent.Scrape.Rate.{
  Rater, apply_options, new_rater, refused_series, tracked, ceiling_of, carry, admit_established,
  admit_one, admit_new, admitted, rate_of, rate_all, observe,
}
use zensu_monitoring_agent.Scrape.Rate.Exact.{predecessor, due, observe-due}
use zensu_monitoring_agent.Scrape.Rate.Bounds.{tracked-observe-le, observe_precedence}

rater : Unit {0}
unfolding fingerprint write_len_prefixed write_labels itoa digits sort get put eqb apply_options
    new_rater refused_series tracked ceiling_of carry admit_established admit_one admit_new admitted
    rate_of rate_all observe
rater = tt

abbrev row : Str → ℕ → Series Value
row name v = record { name = name; labels = []; value = num (pos v); kind = counter }

abbrev small : Rater ticks
small = record { max_tracked = 1; prev = []; refused = false }

abbrev a_row : ℕ → Series Value
a_row = row (codes "a")

abbrev b_row : ℕ → Series Value
b_row = row (codes "b")

-- The second scrape rates a; b is refused, and a keeps its place although it comes last.
precedence_run :
    ((observe ticks 10 (b_row 5 ∷ a_row 130 ∷ []) (observe ticks 0 (a_row 100 ∷ []) small).0).1
      ≡ (codes "1:a", num (pos 3)) ∷ [])
    × (refused_series ticks
          (observe ticks 10 (b_row 5 ∷ a_row 130 ∷ []) (observe ticks 0 (a_row 100 ∷ []) small).0).0
        ≡ true)
unfolding rater
precedence_run = (refl, refl)

-- A counter that fell, and a clock that stood still, give no rate.
withheld_run :
    ((observe ticks 10 (a_row 99 ∷ []) (observe ticks 0 (a_row 100 ∷ []) small).0).1 ≡ [])
    × ((observe ticks 0 (a_row 101 ∷ []) (observe ticks 0 (a_row 100 ∷ []) small).0).1 ≡ [])
unfolding rater
withheld_run = (refl, refl)

abbrev once : Rater ticks
once = (observe ticks 0 (a_row 100 ∷ []) small).0

tracked-observe-le_example :
    (tracked ticks (observe ticks 10 (b_row 5 ∷ a_row 130 ∷ []) once).0 ≤ ceiling_of ticks once)
    × (ceiling_of ticks (observe ticks 10 (b_row 5 ∷ a_row 130 ∷ []) once).0
        ≡ ceiling_of ticks once)
tracked-observe-le_example = tracked-observe-le ticks 10 (b_row 5 ∷ a_row 130 ∷ []) once

-- Two tracked series, and a table that now holds one.
abbrev both : Rater ticks
both = record (observe ticks 0 (a_row 1 ∷ b_row 1 ∷ []) (new_rater ticks [])).0 { max_tracked = 1 }

observe_precedence_example : has (fingerprint (a_row 2)) both.prev ≡ true
unfolding rater
observe_precedence_example =
    observe_precedence ticks 5 (a_row 2 ∷ b_row 2 ∷ row (codes "c") 2 ∷ []) both (b_row 2) (a_row 2)
      (Memᴰ.tail (Memᴰ.head refl)) refl refl refl

observe-due_example :
    get (fingerprint (a_row 130)) (observe ticks 10 (a_row 130 ∷ []) once).1
    ≡ due ticks 0 10 (a_row 130) (predecessor (codes "1:a") (a_row 100 ∷ []))
unfolding rater
observe-due_example =
    observe-due ticks 0 10 (a_row 100 ∷ []) (a_row 130 ∷ []) small (a_row 130) (omega arith)
      (omega arith) (tt, tt) (tt, tt) (Memᴰ.head refl)
