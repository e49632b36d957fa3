-- ===== src/Metrics/Round.antt =====
-- metrics/metrics.go: round1. The multiplication and the division of float64 and math.Round are parameters.
use llm_server_manager.Base.{Float64, float_of}

pub record FloatOps : Type 0 where
  pub times : Float64 → Float64 → Float64
  pub divide : Float64 → Float64 → Float64
  pub round : Float64 → Float64

unfoldable pub round1 : FloatOps → Float64 → Float64
round1 ops v = ops.divide (ops.round (ops.times v (float_of 10))) (float_of 10)
