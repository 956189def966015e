-- ===== src/Model/Pagination.antt =====
-- internal/model/pagination.go. `url.Values.Get` gives "" where the parameter is missing, so the two
-- raw texts stand for the query; strconv.Atoi is modelled for 64-bit int.
use atlas_c.Base.{
  ℕ, ◌+◌, ◌-◌, ◌*◌, ◌≤◌, ◌^◌, ◌≡◌, String, ◌||◌, Option, none, some, List, [], ◌∷◌, arith, leb, ltb,
  nat_eq, ◌==◌, codes, if◌then◌else◌, Result, ok, err, ◌>>=◌,
}
use atlas_c.Base.Int.{ℤ, pos, negsuc}
use atlas_c.Model.Errors.{invalid}
use atlas_c.Model.Ids.{is_digit}

pub record Pagination : Type 0 where
  pub limit : ℕ
  pub offset : ℕ

abbrev pub default_limit : ℕ
default_limit = 50

abbrev pub max_limit : ℕ
max_limit = 100

-- The digits of strconv.Atoi, most significant first.
read_digits : ℕ → List ℕ → Option ℕ
read_digits n [] = some n
read_digits n (c ∷ cs) =
    let rest = read_digits (n * 10 + (c - b'0')) cs in if is_digit c then rest else none

digits_of : List ℕ → Option ℕ
unfolding read_digits
digits_of [] = none
digits_of (c ∷ cs) = read_digits 0 (c ∷ cs)

-- -(n + 1) + 1
abbrev negate : ℕ → ℤ
negate ℕ.zero = pos 0
negate (ℕ.suc n) = negsuc n

in_range_pos : Option ℕ → Option ℤ
in_range_pos none = none
in_range_pos (some n) = if ltb n (2 ^ 63) then some (pos n) else none

in_range_neg : Option ℕ → Option ℤ
in_range_neg none = none
in_range_neg (some n) = if leb n (2 ^ 63) then some (negate n) else none

-- strconv.Atoi: an optional sign, digits, and the range of int64.
unfoldable pub atoi : List ℕ → Option ℤ
unfolding digits_of in_range_pos in_range_neg
atoi [] = none
atoi (c ∷ cs) =
    if nat_eq c b'-'
    then in_range_neg (digits_of cs)
    else if nat_eq c b'+'
    then in_range_pos (digits_of cs)
    else in_range_pos (digits_of (c ∷ cs))

abbrev bad_limit : Result ℕ
bad_limit = err (invalid "limit" "out_of_range" "limit must be between 1 and 100")

abbrev bad_offset : Result ℕ
bad_offset = err (invalid "offset" "out_of_range" "offset must be 0 or greater")

parsed_limit : Option ℤ → Result ℕ
parsed_limit none = bad_limit
parsed_limit (some (negsuc n)) = bad_limit
parsed_limit (some (pos n)) = if ltb n 1 || ltb max_limit n then bad_limit else ok n

parsed_offset : Option ℤ → Result ℕ
parsed_offset none = bad_offset
parsed_offset (some (negsuc n)) = bad_offset
parsed_offset (some (pos n)) = ok n

unfoldable pub parse_pagination : String → String → Result Pagination
unfolding parsed_limit parsed_offset
parse_pagination raw_limit raw_offset = do
  limit ← if raw_limit == "" then ok default_limit else parsed_limit (atoi (codes raw_limit))
  offset ← if raw_offset == "" then ok 0 else parsed_offset (atoi (codes raw_offset))
  ok (record { limit = limit; offset = offset })

-- An accepted page asks for at least one and at most a hundred items.
pub parse_pagination_bounds :
    (raw_limit raw_offset : String) (page : Pagination)
    → parse_pagination raw_limit raw_offset ≡ ok page
    → (1 ≤ page.limit) × (page.limit ≤ max_limit)
unfolding parse_pagination
parse_pagination_bounds raw_limit raw_offset page h = ground arith
