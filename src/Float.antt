-- ===== src/Float.antt =====
-- float64, as far as the bridge compares it. Every finite one is a multiple of 2^-1074, so that it
-- is a whole number in this unit; -0 is 0.
use eebus_ha_bridge.Prelude.{ℕ, ◌*◌, ◌^◌, ℤ, pos, Bool, true, false, ltb_ℤ}

pub data Float : Type 0 where
  nan positive_infinity negative_infinity : Float
  finite_float : ℤ → Float

-- A whole number as a float64, where it has at most 53 bits.
abbrev pub float_of : ℕ → Float
float_of n = finite_float (pos (n * 2 ^ 1074))

-- math.IsNaN, and math.IsInf with sign 0
unfoldable pub is_nan : Float → Bool
is_nan nan = true
is_nan _ = false

unfoldable pub is_inf : Float → Bool
is_inf positive_infinity = true
is_inf negative_infinity = true
is_inf _ = false

-- `a < b`
unfoldable pub ltb_float : Float → Float → Bool
ltb_float nan b = false
ltb_float a nan = false
ltb_float negative_infinity negative_infinity = false
ltb_float negative_infinity b = true
ltb_float a negative_infinity = false
ltb_float positive_infinity b = false
ltb_float a positive_infinity = true
ltb_float (finite_float a) (finite_float b) = ltb_ℤ a b
