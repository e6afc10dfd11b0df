-- ===== src/Cost.antt =====
-- The cost mapper (apps/worker/cost-mapper). float64 is a type `C` with the operations of the record
-- `Floats`, of which no law is used.
pub mod Canonical
pub mod Catalog
pub mod Mapper
pub mod Drift
pub mod Worker
mod Tests
use openllm_metrics.Prelude.{Bool, Text, trim_space, to_lower}
use openllm_metrics.Prelude.Int.{ℤ}

-- `of_int64` and `to_int64` are the conversions, `round` is math.Round and `at_most` is <=.
pub record Floats (C : Type 0) : Type 0 where
  pub of_int64 : ℤ → C
  pub to_int64 : C → ℤ
  pub add : C → C → C
  pub mul : C → C → C
  pub div : C → C → C
  pub round : C → C
  pub at_most : C → C → Bool
  pub is_nan : C → Bool
  pub is_inf : C → Bool

unfoldable pub canonical : Text → Text
canonical s = to_lower (trim_space s)
