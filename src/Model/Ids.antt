-- ===== src/Model/Ids.antt =====
-- internal/model/types.go: the checks on identifiers and on other short texts.
pub mod Exact
pub mod Snake
use Prim.Native.String.{len}
use atlas_c.Base.{
  ℕ, String, Bool, true, false, not, ◌&&◌, ◌||◌, Option, none, some, List, [], ◌∷◌, reverse, leb,
  ltb, nat_eq, ◌==◌, ◌<>◌, codes, all, drop_while, if◌then◌else◌, FieldError,
}
use atlas_c.Model.Errors.{field_error}

abbrev pub is_lower : ℕ → Bool
is_lower c = leb b'a' c && leb c b'z'

abbrev pub is_upper : ℕ → Bool
is_upper c = leb b'A' c && leb c b'Z'

abbrev pub is_digit : ℕ → Bool
is_digit c = leb b'0' c && leb c b'9'

-- [a-zA-Z0-9._:-]
unfoldable pub is_id_char : ℕ → Bool
is_id_char c =
    is_lower c
    || is_upper c
    || is_digit c
    || nat_eq c b'.'
    || nat_eq c b'_'
    || nat_eq c b':'
    || nat_eq c b'-'

-- ^[a-zA-Z0-9._:-]+$
unfoldable pub id_pattern : List ℕ → Bool
id_pattern [] = false
id_pattern (c ∷ cs) = all is_id_char (c ∷ cs)

abbrev pub is_dot : ℕ → Bool
is_dot c = nat_eq c b'.'

-- strings.Trim(value, ".")
unfoldable pub trim_dots : List ℕ → List ℕ
trim_dots cs = reverse (drop_while is_dot (reverse (drop_while is_dot cs)))

abbrev pub is_empty : List ℕ → Bool
is_empty [] = true
is_empty (c ∷ cs) = false

-- `len` counts bytes, as Go's does.
unfoldable pub validate_id : String → String → Option FieldError
validate_id name value =
    if value == ""
    then some (field_error name "required" (name <> " is required"))
    else if ltb 50 (len value)
    then some (field_error name "too_long" (name <> " must be 50 characters or fewer"))
    else if not (id_pattern (codes value))
    then some (field_error name "invalid_value" (name <> " contains unsupported characters"))
    else if is_empty (trim_dots (codes value))
    then some (field_error name "invalid_value" (name <> " must contain non-dot characters"))
    else none

-- The states of the matcher of ^[a-z0-9]+(?:_[a-z0-9]+)*$: at the start of a word, inside one, and
-- after a character that no match has.
pub data Scan : Type 0 where
  opening inside failed : Scan

abbrev pub is_word_char : ℕ → Bool
is_word_char c = is_lower c || is_digit c

unfoldable pub scan_step : Scan → ℕ → Scan
scan_step failed c = failed
scan_step opening c = if is_word_char c then inside else failed
scan_step inside c = if is_word_char c then inside else if nat_eq c b'_' then opening else failed

unfoldable pub scan : Scan → List ℕ → Scan
scan state [] = state
scan state (c ∷ cs) = scan (scan_step state c) cs

abbrev pub is_inside : Scan → Bool
is_inside inside = true
is_inside _ = false

unfoldable pub snake_case_pattern : List ℕ → Bool
snake_case_pattern cs = is_inside (scan opening cs)

unfoldable pub validate_snake_case : String → String → Option FieldError
validate_snake_case name value = elim (validate_id name value) [
  | some e ↦ some e
  | none ↦
      if snake_case_pattern (codes value)
      then none
      else some (field_error name "invalid_value" (name <> " must be lowercase snake_case"))
]

-- The states of the matcher of ^(\+-|\+|-)[0-9]+(\.[0-9]+)?$.
pub data Gauge : Type 0 where
  at_sign after_plus after_minus whole point fraction no_match : Gauge

abbrev on_digit : ℕ → Gauge → Gauge → Gauge
on_digit c next other = if is_digit c then next else other

unfoldable pub gauge_step : Gauge → ℕ → Gauge
gauge_step at_sign c =
    if nat_eq c b'+' then after_plus else if nat_eq c b'-' then after_minus else no_match
gauge_step after_plus c = if nat_eq c b'-' then after_minus else on_digit c whole no_match
gauge_step after_minus c = on_digit c whole no_match
gauge_step whole c = on_digit c whole (if nat_eq c b'.' then point else no_match)
gauge_step point c = on_digit c fraction no_match
gauge_step fraction c = on_digit c fraction no_match
gauge_step no_match c = no_match

unfoldable pub gauge : Gauge → List ℕ → Gauge
gauge state [] = state
gauge state (c ∷ cs) = gauge (gauge_step state c) cs

abbrev pub accepts : Gauge → Bool
accepts whole = true
accepts fraction = true
accepts _ = false

unfoldable pub inaccuracy_pattern : List ℕ → Bool
inaccuracy_pattern cs = accepts (gauge at_sign cs)

unfoldable pub validate_inaccuracy_string : String → String → Option FieldError
validate_inaccuracy_string name value =
    if value == ""
    then none
    else if inaccuracy_pattern (codes value)
    then none
    else some (field_error name "invalid_value" (name <> " must use +, -, or +- numeric encoding"))
