-- ===== src/Metrics.antt =====
-- The metrics endpoint (apps/api/metrics-endpoint/internal). float64 is a type `C` with the
-- operations of the record `Floats`, of which no law is used but where a theorem names it.
pub mod Projection
pub mod Aggregator
pub mod Forbidden
pub mod Verdict
pub mod Accepted
pub mod Series
pub mod Fingerprint
pub mod Exposition
pub mod Consumer
pub mod Stream
pub mod Server
pub mod Config
mod Tests
use openllm_metrics.Prelude.{Bool, Text}
use openllm_metrics.Prelude.Int.{ℤ}

-- `of_number` reads the text of a JSON number, `format_float` writes with %g, `cents` divides by
-- 100.0 and `format_int` is strconv.FormatInt in base 10.
pub record Floats (C : Type 0) : Type 0 where
  pub nought : C
  pub unit : C
  pub add : C → C → C
  pub cents : C → C
  pub is_positive : C → Bool
  pub equal : C → C → Bool
  pub of_number : Text → C
  pub to_int64 : C → ℤ
  pub of_int64 : ℤ → C
  pub format_float : C → Text
  pub format_int : ℤ → Text
