-- ===== src/Catalog/Value.antt =====
-- internal/catalog/schema.go: ValidateValue. regexp.Compile is a parameter: none for a pattern that does
-- not compile, and else the test MatchString.
use Prim.Native.String.{count}
use atlas_c.Base.{
  ℕ, suc, String, Bool, true, false, not, ◌&&◌, Option, none, some, List, [], ◌∷◌, length, ◌==◌,
  ◌<>◌, decimal, contains_string, if◌then◌else◌, ◌||◌, Result, err, pass, ◌>>◌,
}
use atlas_c.Base.Int.{ℤ, pos, ltb_ℤ}
use atlas_c.Model.Errors.{invalid}
use atlas_c.Model.Json.{
  Json, bool, strings, nil_strings, arr, obj, json_map, Items, nil, cons, Fields, end, field,
  entries, as_string, as_bool, as_array, items,
}
use atlas_c.Model.Json.Entries.{get, at}
use atlas_c.Model.Merge.{read_strings, is_null}
use atlas_c.Catalog.Number.{Numeric, as_json_number_and_int, number_to_int, compare_numeric_bound}

-- asJSONObject: both map types pass.
abbrev pub as_json_object : Json → Option Fields
as_json_object (obj fs) = some fs
as_json_object (json_map fs) = some fs
as_json_object _ = none

-- toStringSlice
unfoldable pub to_string_slice : Json → Option (List String)
to_string_slice (arr xs) = read_strings xs
to_string_slice (strings l) = some l
to_string_slice nil_strings = some []
to_string_slice _ = none

abbrev pub or_nil : Option (List String) → List String
or_nil none = []
or_nil (some l) = l

abbrev pub or_blank : Option String → String
or_blank none = ""
or_blank (some s) = s

-- `schemaType, _ := schema["type"].(string)`
unfoldable pub schema_type : Fields → String
schema_type schema = or_blank (as_string (at "type" schema))

unfoldable pub check_required : List String → Fields → String → Result (Unit {0})
check_required [] object path = pass
check_required (name ∷ names) object path = elim (get name object) [
  | none ↦ err (invalid (path <> "." <> name) "required" "field is required")
  | some _ ↦ check_required names object path
]

-- `if n, ok := numberToInt(...); ok && size < n`
abbrev pub is_below : ℕ → Option ℤ → Bool
is_below size none = false
is_below size (some least) = ltb_ℤ (pos size) least

abbrev pub is_above : ℕ → Option ℤ → Bool
is_above size none = false
is_above size (some most) = ltb_ℤ most (pos size)

-- `%d`
abbrev shown : Option ℤ → String
shown none = ""
shown (some (pos n)) = decimal n
shown (some (ℤ.negsuc n)) = "-" <> decimal (suc n)

unfoldable pub check_item_count : Fields → ℕ → String → Result (Unit {0})
check_item_count schema size path =
    let least = number_to_int (at "minItems" schema) in
    let most = number_to_int (at "maxItems" schema) in
    if is_below size least
    then err (invalid path "out_of_range" ("must contain at least " <> shown least <> " items"))
    else if is_above size most
    then err (invalid path "out_of_range" ("must contain at most " <> shown most <> " items"))
    else pass

-- `if raw, present := schema[key]; present { compareNumericBound(...) }`
unfoldable pub check_bound : Option Json → Numeric → Bool → String → Result (Unit {0})
check_bound none actual is_max path = pass
check_bound (some raw) actual is_max path = compare_numeric_bound raw actual is_max path

unfoldable pub check_number : Fields → String → Json → String → Result (Unit {0})
unfolding check_bound
check_number schema type value path = elim (as_json_number_and_int value) [
  | none ↦ err (invalid path "invalid_type" "must be numeric")
  | some actual ↦
      if type == "integer" && not actual.is_int
      then err (invalid path "invalid_type" "must be an integer")
      else (check_bound (get "minimum" schema) actual false path
          >> check_bound (get "maximum" schema) actual true path)
]

unfoldable pub check_enum : Option (List String) → String → String → Result (Unit {0})
check_enum none actual path = pass
check_enum (some allowed) actual path =
    if contains_string allowed actual
    then pass
    else err (invalid path "invalid_value" "value is not in enum")

unfoldable pub check_bool : Json → String → Result (Unit {0})
check_bool (bool b) path = pass
check_bool _ path = err (invalid path "invalid_type" "must be a boolean")

-- The position of a value in the document, for the error.
abbrev indexed : String → ℕ → String
indexed path index = path <> "[" <> decimal index <> "]"

module _ (compile : String → Option (String → Bool)) where
  unfoldable pub check_pattern : Option String → String → String → Result (Unit {0})
  check_pattern none actual path = pass
  check_pattern (some pattern) actual path = elim (compile pattern) [
    | none ↦ err (invalid path "invalid_value" "invalid regex pattern in schema")
    | some matches ↦
        if matches actual
        then pass
        else err (invalid path "invalid_value" "string does not match pattern")
  ]

  unfoldable pub check_text : Fields → String → String → Result (Unit {0})
  unfolding check_pattern check_enum
  check_text schema actual path =
      let size = count actual in
      if is_below size (number_to_int (at "minLength" schema))
      then err (invalid path "out_of_range" "string shorter than minLength")
      else if is_above size (number_to_int (at "maxLength" schema))
      then err (invalid path "out_of_range" "string longer than maxLength")
      else (check_pattern (as_string (at "pattern" schema)) actual path
          >> check_enum (to_string_slice (at "enum" schema)) actual path)

  unfoldable pub check_string : Fields → Json → String → Result (Unit {0})
  unfolding check_text
  check_string schema value path = elim (as_string value) [
    | none ↦ err (invalid path "invalid_type" "must be a string")
    | some actual ↦ check_text schema actual path
  ]

  -- The `switch schemaType`; `members` and `elements` are the results of the loops over the value's
  -- entries and items, which the cases "object" and "array" run last.
  unfoldable pub check_value :
      Fields → Json → String → Result (Unit {0}) → Result (Unit {0}) → Result (Unit {0})
  unfolding check_required check_item_count check_string check_number check_bool
  check_value schema value path members elements =
      let type = schema_type schema in
      if type == "object"
      then elim (as_json_object value) [
        | none ↦ err (invalid path "invalid_type" "must be an object")
        | some object ↦
            (check_required (or_nil (to_string_slice (at "required" schema))) object path
              >> members)
      ]
      else if type == "array"
      then elim (as_array value) [
        | none ↦ err (invalid path "invalid_type" "must be an array")
        | some xs ↦ (check_item_count schema (length (items xs)) path >> elements)
      ]
      else if type == "string"
      then check_string schema value path
      else if type == "number" || type == "integer"
      then check_number schema type value path
      else if type == "boolean"
      then check_bool value path
      else if type == "null"
      then (if is_null value then pass else err (invalid path "invalid_type" "must be null"))
      else if type == ""
      then pass
      else err (invalid path "invalid_value" "unsupported schema type")

  -- A key that `properties` does not name: `hasAdditional && !additional`.
  unfoldable pub check_unnamed : Fields → String → String → Result (Unit {0})
  check_unnamed schema key path = elim (as_bool (at "additionalProperties" schema)) [
    | some false ↦ err (invalid (path <> "." <> key) "unknown_field" "field is not allowed")
    | _ ↦ pass
  ]

  abbrev pub properties : Fields → Fields
  properties schema = entries (as_json_object (at "properties" schema))

  unfoldable mutual
    -- ValidateValue
    pub validate_value : Fields → Json → String → Result (Unit {0})
    validate_value schema (obj fs) path =
        check_value schema (obj fs) path (validate_members schema fs path) pass
    validate_value schema (json_map fs) path =
        check_value schema (json_map fs) path (validate_members schema fs path) pass
    validate_value schema (arr xs) path =
        check_value schema (arr xs) path pass (validate_elements schema xs path 0)
    validate_value schema value path = check_value schema value path pass pass

    -- `for key, child := range obj`
    pub validate_members : Fields → Fields → String → Result (Unit {0})
    validate_members schema end path = pass
    validate_members schema (field key child rest) path =
        elim (get key (properties schema)) [
          | none ↦ check_unnamed schema key path
          | some raw ↦ elim (as_json_object raw) [
            | none ↦
                err (invalid (path <> "." <> key) "invalid_type" "schema property must be object")
            | some nested ↦ validate_value nested child (path <> "." <> key)
          ]
        ]
        >> validate_members schema rest path

    -- `for index, item := range items`
    pub validate_elements : Fields → Items → String → ℕ → Result (Unit {0})
    validate_elements schema nil path index = pass
    validate_elements schema (cons item rest) path index =
        elim (as_json_object (at "items" schema)) [
          | none ↦ pass
          | some nested ↦ validate_value nested item (indexed path index)
        ]
        >> validate_elements schema rest path (suc index)
