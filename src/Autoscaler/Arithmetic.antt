-- ===== src/Autoscaler/Arithmetic.antt =====
-- The float64 operations that the autoscaler uses.
use kahuna_k8s_operator.Common.{ℕ, Bool}
use kahuna_k8s_operator.Common.Int.{ℤ}

-- `ceil` is `int32(math.Ceil(x))`, `round` is `int64(math.Round(x))` of a measurement, which is
-- not negative.
pub record Float : Type 1 where
  pub F : Type 0
  pub of_int : ℕ → F
  pub add : F → F → F
  pub sub : F → F → F
  pub mul : F → F → F
  pub div : F → F → F
  pub abs : F → F
  pub max : F → F → F
  pub less : F → F → Bool
  pub ceil : F → ℤ
  pub round : F → ℕ
