-- ===== src/Catalog/Number.antt =====
-- internal/catalog/schema.go: numbers of schemas and of values. `int` has 64 bits.
use atlas_c.Base.{
  String, Bool, true, false, ◌&&◌, Option, none, some, if◌then◌else◌, Result, err, pass,
}
use atlas_c.Base.Int.{ℤ, pos, ltb_ℤ}
use atlas_c.Model.Errors.{invalid}
use atlas_c.Model.Float.{Float64, float_lt, is_truncated, in_safe_range, to_int64, of_int64}
use atlas_c.Model.Json.{Json, float64, int, int64}

-- The results `f`, `i` and `isInt` of asJSONNumberAndInt; `ok` is the Option around it.
pub record Numeric : Type 0 where
  pub real : Float64
  pub whole : ℤ
  pub is_int : Bool

unfoldable pub as_json_number_and_int : Json → Option Numeric
as_json_number_and_int (float64 v) =
    if is_truncated v && in_safe_range v
    then some (record { real = v; whole = to_int64 v; is_int = true })
    else some (record { real = v; whole = pos 0; is_int = false })
as_json_number_and_int (int v) = some (record { real = of_int64 v; whole = v; is_int = true })
as_json_number_and_int (int64 v) = some (record { real = of_int64 v; whole = v; is_int = true })
as_json_number_and_int _ = none

unfoldable pub number_to_int64 : Json → Option ℤ
number_to_int64 (float64 v) =
    if is_truncated v then (if in_safe_range v then some (to_int64 v) else none) else none
number_to_int64 (int v) = some v
number_to_int64 (int64 v) = some v
number_to_int64 _ = none

-- numberToInt: every int64 is an int.
unfoldable pub number_to_int : Json → Option ℤ
unfolding number_to_int64
number_to_int v = number_to_int64 v

unfoldable pub number_to_float : Json → Option Float64
number_to_float (float64 v) = some v
number_to_float (int v) = some (of_int64 v)
number_to_float (int64 v) = some (of_int64 v)
number_to_float _ = none

abbrev pub above_maximum : String → Result (Unit {0})
above_maximum path = err (invalid path "out_of_range" "value is above maximum")

abbrev pub below_minimum : String → Result (Unit {0})
below_minimum path = err (invalid path "out_of_range" "value is below minimum")

-- The comparison of two integers, and of two floats, against a bound.
unfoldable pub compare_int_bound : ℤ → ℤ → Bool → String → Result (Unit {0})
compare_int_bound bound actual true path = if ltb_ℤ bound actual then above_maximum path else pass
compare_int_bound bound actual false path = if ltb_ℤ actual bound then below_minimum path else pass

unfoldable pub compare_float_bound : Float64 → Float64 → Bool → String → Result (Unit {0})
compare_float_bound bound actual true path =
    if float_lt bound actual then above_maximum path else pass
compare_float_bound bound actual false path =
    if float_lt actual bound then below_minimum path else pass

unfoldable pub compare_by_float : Json → Float64 → Bool → String → Result (Unit {0})
compare_by_float raw actual is_max path = elim (number_to_float raw) [
  | none ↦ pass
  | some bound ↦ compare_float_bound bound actual is_max path
]

-- compareNumericBound
unfoldable pub compare_numeric_bound : Json → Numeric → Bool → String → Result (Unit {0})
unfolding compare_int_bound compare_float_bound compare_by_float
compare_numeric_bound raw actual is_max path =
    if actual.is_int
    then elim (number_to_int64 raw) [
      | some bound ↦ compare_int_bound bound actual.whole is_max path
      | none ↦ compare_by_float raw actual.real is_max path
    ]
    else compare_by_float raw actual.real is_max path
