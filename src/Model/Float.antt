-- ===== src/Model/Float.antt =====
-- Go's float64 as far as the program uses it: comparison, the test `v == math.Trunc(v)`, and the
-- conversions from and to int64. A finite value is `numerator / 2 ^ shift`; every float64 is of this
-- form, and the two zeros are one value, which no comparison tells apart.
use atlas_c.Base.{arith, ℕ, zero, suc, ◌+◌, ◌*◌, ◌/◌, ◌%◌, ◌^◌, Bool, true, false, ◌&&◌, ◌≡◌, refl}
use atlas_c.Base.{ltb, leb, nat_eq, if◌then◌else◌}
use atlas_c.Base.Int.{ℤ, pos, negsuc, ltb_ℤ, leb_ℤ, scale}

pub data Float64 : Type 0 where
  nan pos_inf neg_inf : Float64
  finite : ℤ → ℕ → Float64

-- `a < b`; any comparison with NaN is false.
unfoldable pub float_lt : Float64 → Float64 → Bool
float_lt nan b = false
float_lt pos_inf b = false
float_lt neg_inf nan = false
float_lt neg_inf neg_inf = false
float_lt neg_inf b = true
float_lt (finite a s) nan = false
float_lt (finite a s) pos_inf = true
float_lt (finite a s) neg_inf = false
float_lt (finite a s) (finite b t) = ltb_ℤ (scale a (2 ^ t)) (scale b (2 ^ s))

abbrev magnitude : ℤ → ℕ
magnitude (pos n) = n
magnitude (negsuc n) = suc n

-- `v == math.Trunc(v)`: the infinities are their own truncation, NaN is equal to nothing.
unfoldable pub is_truncated : Float64 → Bool
is_truncated nan = false
is_truncated pos_inf = true
is_truncated neg_inf = true
is_truncated (finite a s) = nat_eq (magnitude a % 2 ^ s) 0

abbrev pub safe_limit : ℕ
safe_limit = 2 ^ 53

-- `v >= -float64(1<<53) && v <= float64(1<<53)`
unfoldable pub in_safe_range : Float64 → Bool
in_safe_range (finite a s) = leb (magnitude a) (safe_limit * 2 ^ s)
in_safe_range v = false

abbrev signed : ℤ → ℕ → ℤ
signed (pos _) n = pos n
signed (negsuc _) zero = pos 0
signed (negsuc _) (suc n) = negsuc n

-- `int64(v)`, which drops the fraction. It is called on finite values only.
unfoldable pub to_int64 : Float64 → ℤ
to_int64 (finite a s) = signed a (magnitude a / 2 ^ s)
to_int64 v = pos 0

-- Round `n` to a multiple of `unit`, a tie to the even multiple.
abbrev round_to : ℕ → ℕ → ℕ
round_to unit n =
    let q = n / unit in
    let r = n % unit in
    if ltb (2 * r) unit
    then q * unit
    else if ltb unit (2 * r)
    then (q + 1) * unit
    else if nat_eq (q % 2) 0
    then q * unit
    else (q + 1) * unit

-- The spacing of the float64 values around `n`, for `n` below 2 ^ (53 + fuel).
spacing : ℕ → ℕ → ℕ → ℕ
spacing zero unit n = unit
spacing (suc fuel) unit n =
    let wider = spacing fuel (2 * unit) n in if ltb n (safe_limit * unit) then unit else wider

-- `float64(i)` for an int64: the nearest float64, ties to even. Eleven doublings reach 2 ^ 64.
unfoldable pub of_int64 : ℤ → Float64
unfolding spacing
of_int64 i = finite (signed i (round_to (spacing 11 1 (magnitude i)) (magnitude i))) 0

of_int64_ties : of_int64 (pos (2 ^ 53 + 1)) ≡ finite (pos (2 ^ 53)) 0
unfolding of_int64
of_int64_ties = refl

of_int64_ties_up : of_int64 (negsuc (2 ^ 53 + 2)) ≡ finite (negsuc (2 ^ 53 + 3)) 0
unfolding of_int64
of_int64_ties_up = refl

-- `a == b`; NaN is equal to nothing, itself included.
unfoldable pub float_eq : Float64 → Float64 → Bool
float_eq pos_inf pos_inf = true
float_eq neg_inf neg_inf = true
float_eq (finite a s) (finite b t) =
    leb_ℤ (scale a (2 ^ t)) (scale b (2 ^ s)) && leb_ℤ (scale b (2 ^ s)) (scale a (2 ^ t))
float_eq a b = false

pub float_eq_refl : (a : ℤ) (s : ℕ) → float_eq (finite a s) (finite a s) ≡ true
unfolding float_eq
float_eq_refl a s = ground arith
