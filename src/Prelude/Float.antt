-- ===== src/Prelude/Float.antt =====
-- Go's float64 is not among the types here: the operations that the program applies to one are
-- collected as an interface, and every definition that computes with values takes it.
use zensu_monitoring_agent.Prelude.Int.{ℤ}
use mathlib.Core.Bool.{Bool, not, ◌||◌}

pub record Float64 : Type 1 where
  pub F : Type 0
  pub of_int : ℤ → F
  pub add : F → F → F
  pub sub : F → F → F
  pub mul : F → F → F
  pub div : F → F → F
  -- `a < b` and `a <= b`
  pub lt : F → F → Bool
  pub le : F → F → Bool
  -- `math.IsNaN(v)`, `math.IsInf(v, 0)`
  pub is_nan : F → Bool
  pub is_inf : F → Bool

-- `IsFinite` of internal/scrape/scrape.go
unfoldable pub is_finite : (fl : Float64) → fl.F → Bool
is_finite fl v = not (fl.is_nan v || fl.is_inf v)

-- A clock: its readings, and `a.Sub(b).Seconds()` of two of them.
pub record Clock (fl : Float64) : Type 1 where
  pub Time : Type 0
  pub seconds_since : Time → Time → fl.F
