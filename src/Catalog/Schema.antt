-- ===== src/Catalog/Schema.antt =====
-- internal/catalog/schema.go: ValidateSchema. The errors of the nested schemas come back as lists, in
-- the order in which the source appends them.
use atlas_c.Base.{
  String, Bool, true, false, not, ◌&&◌, ◌||◌, Option, none, some, List, [], ◌∷◌, ◌++◌, ◌==◌, ◌<>◌,
  contains_string, if◌then◌else◌, FieldError, Result, err, pass,
}
use atlas_c.Base.Int.{ℤ, pos, leb_ℤ}
use atlas_c.Model.Errors.{field_error, invalid, validation_error}
use atlas_c.Model.Float.{is_truncated, in_safe_range}
use atlas_c.Model.Json.{
  Json, bool, float64, int, int64, strings, nil_strings, arr, obj, json_map, nil, Fields, end,
  field, JsonMap, as_string,
}
use atlas_c.Model.Json.Entries.{get}
use atlas_c.Model.Merge.{read_strings}
use atlas_c.Catalog.Number.{number_to_int64}
use atlas_c.Catalog.Value.{or_blank}

-- supportedSchemaKeywords
abbrev pub supported_schema_keywords : List String
supported_schema_keywords =
    "type" ∷ "properties" ∷ "required" ∷ "additionalProperties" ∷ "items" ∷ "enum" ∷ "minimum"
    ∷ "maximum" ∷ "minLength" ∷ "maxLength" ∷ "pattern" ∷ "minItems" ∷ "maxItems" ∷ []

abbrev one : String → String → String → List FieldError
one name code message = field_error name code message ∷ []

unfoldable pub unsupported_keywords : Fields → String → List FieldError
unsupported_keywords end path = []
unsupported_keywords (field key v rest) path =
    (if contains_string supported_schema_keywords key
      then []
      else one (path <> "." <> key) "invalid_value" "unsupported schema keyword")
    ++ unsupported_keywords rest path

-- The second loop over the keys: a supported keyword other than "type".
unfoldable pub has_constraint_keywords : Fields → Bool
has_constraint_keywords end = false
has_constraint_keywords (field key v rest) =
    (not (key == "type") && contains_string supported_schema_keywords key)
    || has_constraint_keywords rest

unfoldable pub type_errors : Option Json → Bool → String → List FieldError
type_errors none true path =
    one (path <> ".type") "required"
      "type is required when schema defines properties or constraints"
type_errors none false path = []
type_errors (some v) constrained path = elim (as_string v) [
  | none ↦ one (path <> ".type") "invalid_type" "type must be a string"
  | some _ ↦ []
]

abbrev bad_required : String → List FieldError
bad_required path = one (path <> ".required") "invalid_type" "required must be an array of strings"

-- The loops over `required` and `enum` stop at the first member that is no string.
unfoldable pub required_errors : Option Json → String → List FieldError
required_errors none path = []
required_errors (some (strings l)) path = []
required_errors (some nil_strings) path = []
required_errors (some (arr xs)) path = elim (read_strings xs) [
  | none ↦ bad_required path
  | some _ ↦ []
]
required_errors (some _) path = bad_required path

unfoldable pub is_json_number_keyword : Json → Bool
is_json_number_keyword (int i) = true
is_json_number_keyword (int64 i) = true
is_json_number_keyword (float64 x) = true
is_json_number_keyword _ = false

unfoldable pub is_lossless_numeric_constraint : Json → Bool
is_lossless_numeric_constraint (float64 x) = in_safe_range x
is_lossless_numeric_constraint _ = true

unfoldable pub bound_errors : Option Json → String → String → List FieldError
bound_errors none key path = []
bound_errors (some v) key path =
    if not (is_json_number_keyword v)
    then one (path <> "." <> key) "invalid_type" (key <> " must be a number")
    else if not (is_lossless_numeric_constraint v)
    then one (path <> "." <> key) "invalid_value"
        (key <> " exceeds lossless integer range; specify as integer")
    else []

unfoldable pub is_json_integer_keyword : Json → Bool
is_json_integer_keyword (int i) = true
is_json_integer_keyword (int64 i) = true
is_json_integer_keyword (float64 x) = is_truncated x && in_safe_range x
is_json_integer_keyword _ = false

abbrev is_non_negative : Option ℤ → Bool
is_non_negative none = false
is_non_negative (some i) = leb_ℤ (pos 0) i

unfoldable pub is_non_negative_json_integer_keyword : Json → Bool
is_non_negative_json_integer_keyword v =
    is_json_integer_keyword v && is_non_negative (number_to_int64 v)

unfoldable pub size_errors : Option Json → String → String → List FieldError
size_errors none key path = []
size_errors (some v) key path =
    if not (is_json_integer_keyword v)
    then one (path <> "." <> key) "invalid_type" (key <> " must be an integer")
    else if not (is_non_negative_json_integer_keyword v)
    then one (path <> "." <> key) "invalid_value" (key <> " must be greater than or equal to 0")
    else []

unfoldable pub additional_errors : Option Json → String → List FieldError
additional_errors none path = []
additional_errors (some (bool b)) path = []
additional_errors (some _) path =
    one (path <> ".additionalProperties") "invalid_type" "additionalProperties must be a boolean"

abbrev empty_enum : String → List FieldError
empty_enum path = one (path <> ".enum") "invalid_value" "enum must be a non-empty array"

unfoldable pub enum_errors : Option Json → String → List FieldError
enum_errors none path = []
enum_errors (some (arr nil)) path = empty_enum path
enum_errors (some (arr xs)) path = elim (read_strings xs) [
  | none ↦ one (path <> ".enum") "invalid_type" "enum values must be strings"
  | some _ ↦ []
]
enum_errors (some (strings [])) path = empty_enum path
enum_errors (some nil_strings) path = empty_enum path
enum_errors (some (strings (s ∷ l))) path = []
enum_errors (some _) path = one (path <> ".enum") "invalid_type" "enum must be an array"

-- appendSchemaKeywordValueErrors
unfoldable pub keyword_value_errors : Fields → String → List FieldError
keyword_value_errors schema path =
    required_errors (get "required" schema) path
    ++ (bound_errors (get "minimum" schema) "minimum" path
        ++ (bound_errors (get "maximum" schema) "maximum" path
            ++ (size_errors (get "minItems" schema) "minItems" path
                ++ (size_errors (get "maxItems" schema) "maxItems" path
                    ++ (size_errors (get "minLength" schema) "minLength" path
                        ++ (size_errors (get "maxLength" schema) "maxLength" path
                            ++ (additional_errors (get "additionalProperties" schema) path
                                ++ enum_errors (get "enum" schema) path)))))))

abbrev items_on_object : Option Json → String → List FieldError
items_on_object none path = []
items_on_object (some _) path =
    one (path <> ".items") "invalid_value" "items not allowed on object schema"

-- `schemaType`, which stays "" where the type is missing or no string.
abbrev type_name : Option Json → String
type_name none = ""
type_name (some v) = or_blank (as_string v)

-- The body of ValidateSchema around the errors of the nested schemas.
unfoldable pub own_errors : Fields → String → List FieldError → List FieldError → List FieldError
own_errors schema path in_properties in_items =
    let type = type_name (get "type" schema) in
    unsupported_keywords schema path
    ++ (type_errors (get "type" schema) (has_constraint_keywords schema) path
        ++ ((if type == "object"
              then in_properties ++ items_on_object (get "items" schema) path
              else if type == "array"
              then in_items
              else if contains_string
                  ("string" ∷ "number" ∷ "integer" ∷ "boolean" ∷ "null" ∷ "" ∷ []) type
              then []
              else one (path <> ".type") "invalid_value" "unsupported schema type")
            ++ keyword_value_errors schema path))

unfoldable mutual
  -- The errors of a property's or an item's schema; `message` is for a value that is no object.
  pub nested_errors : Json → String → String → List FieldError
  nested_errors (obj fs) path message =
      own_errors fs path (properties_errors fs path) (items_errors fs path)
  nested_errors (json_map fs) path message =
      own_errors fs path (properties_errors fs path) (items_errors fs path)
  nested_errors _ path message = one path "invalid_type" message

  -- The value under "properties", found by walking the entries.
  pub properties_errors : Fields → String → List FieldError
  properties_errors end path = []
  properties_errors (field key v rest) path =
      let here = members_errors v path in
      let later = properties_errors rest path in if key == "properties" then here else later

  pub members_errors : Json → String → List FieldError
  members_errors (obj members) path = each_member_errors members path
  members_errors (json_map members) path = each_member_errors members path
  members_errors _ path = one (path <> ".properties") "invalid_type" "properties must be an object"

  pub each_member_errors : Fields → String → List FieldError
  each_member_errors end path = []
  each_member_errors (field name raw rest) path =
      nested_errors raw (path <> ".properties." <> name) "property schema must be an object"
      ++ each_member_errors rest path

  -- The value under "items".
  pub items_errors : Fields → String → List FieldError
  items_errors end path = []
  items_errors (field key v rest) path =
      let here = nested_errors v (path <> ".items") "items must be an object" in
      let later = items_errors rest path in if key == "items" then here else later

-- ValidateSchema
unfoldable pub validate_schema : JsonMap → String → Result (Unit {0})
validate_schema none path = err (invalid path "required" "schema is required")
validate_schema (some schema) path =
    elim (own_errors schema path (properties_errors schema path) (items_errors schema path)) [
      | [] ↦ pass
      | e ∷ es ↦ err (validation_error (e ∷ es))
    ]
