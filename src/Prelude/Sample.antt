-- ===== src/Prelude/Sample.antt =====
-- Integers and one value that is not a number, in the place of float64, and a clock of whole seconds:
-- an instance of the interface on which the tests run.
use Prim.Native.Nat.{ℕ, ◌+◌, ◌*◌, ◌/◌}
use mathlib.Core.Bool.{Bool, true, false}
use zensu_monitoring_agent.Prelude.Int.{ℤ, pos, pos_part, neg_part, sub_ℕ, leb_ℤ, ltb_ℤ}
use zensu_monitoring_agent.Prelude.Float.{Float64, Clock}

pub data Value : Type 0 where
  nan : Value
  num : ℤ → Value

abbrev pub lift : (ℤ → ℤ → ℤ) → Value → Value → Value
lift f (num a) (num b) = num (f a b)
lift f (num a) nan = nan
lift f nan b = nan

abbrev pub test : (ℤ → ℤ → Bool) → Value → Value → Bool
test f (num a) (num b) = f a b
test f (num a) nan = false
test f nan b = false

abbrev pub is_nan : Value → Bool
is_nan nan = true
is_nan (num a) = false

abbrev pub divide : Value → Value → Value
divide (num (pos a)) (num (pos b)) = num (pos (a / b))
divide a b = nan

abbrev pub sample : Float64
sample = record {
  F = Value;
  of_int = num;
  add = lift (λ a b. sub_ℕ (pos_part a + pos_part b) (neg_part a + neg_part b));
  sub = lift (λ a b. sub_ℕ (pos_part a + neg_part b) (neg_part a + pos_part b));
  mul = lift (λ a b.
      sub_ℕ (pos_part a * pos_part b + neg_part a * neg_part b)
        (pos_part a * neg_part b + neg_part a * pos_part b));
  div = divide;
  lt = test ltb_ℤ;
  le = test leb_ℤ;
  is_nan = is_nan;
  is_inf = λ v. false;
}

abbrev pub ticks : Clock sample
ticks = record { Time = ℕ; seconds_since = λ a b. num (sub_ℕ a b) }
