-- ===== src/Base/Float.antt =====
-- IEEE 754 binary64 values as Go's float64 compares them. Every finite value is a whole multiple of
-- 2^-1074, and `finite z` is the value z * 2^-1074; -0 is a value of its own that compares as 0.
use Prim.Native.Nat.{ℕ, ◌*◌, ◌^◌}
use mathlib.Core.Bool.{Bool, true, false}
use llm_server_manager.Base.Int.{ℤ, pos, ltb_ℤ}

pub data Float64 : Type 0 where
  nan neg_inf pos_inf neg_zero : Float64
  finite : ℤ → Float64

-- The constant n.0 of the source.
abbrev pub float_of : ℕ → Float64
float_of n = finite (pos (n * 2 ^ 1074))

-- a < b on float64: false where either side is NaN.
unfoldable pub ltb_float : Float64 → Float64 → Bool
ltb_float nan b = false
ltb_float neg_inf nan = false
ltb_float neg_inf neg_inf = false
ltb_float neg_inf _ = true
ltb_float pos_inf b = false
ltb_float neg_zero nan = false
ltb_float neg_zero neg_inf = false
ltb_float neg_zero pos_inf = true
ltb_float neg_zero neg_zero = false
ltb_float neg_zero (finite b) = ltb_ℤ (pos 0) b
ltb_float (finite a) nan = false
ltb_float (finite a) neg_inf = false
ltb_float (finite a) pos_inf = true
ltb_float (finite a) neg_zero = ltb_ℤ a (pos 0)
ltb_float (finite a) (finite b) = ltb_ℤ a b

abbrev pub is_nan : Float64 → Bool
is_nan nan = true
is_nan _ = false
