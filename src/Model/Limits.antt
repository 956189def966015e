-- ===== src/Model/Limits.antt =====
-- internal/model/types.go: the limits on custom components. The size in bytes is that of json.Marshal's
-- output; the encoder's text layout is a parameter of the model, `json_size`.
use Prim.Native.String.{len}
use atlas_c.Base.{ℕ, ◌+◌, ◌*◌, String, Option, none, some, ltb, if◌then◌else◌, FieldError}
use atlas_c.Model.Errors.{field_error}
use atlas_c.Model.Json.{Json, arr, obj, json_map, Items, nil, cons, Fields, end, field}
use atlas_c.Model.Json.Entries.{len_fields}

-- CountJSONFields
unfoldable mutual
  pub count_json_fields : Json → ℕ
  count_json_fields (obj fs) = len_fields fs + count_fields fs
  count_json_fields (json_map fs) = len_fields fs + count_fields fs
  count_json_fields (arr xs) = count_items xs
  count_json_fields _ = 0

  pub count_items : Items → ℕ
  count_items nil = 0
  count_items (cons v xs) = count_json_fields v + count_items xs

  pub count_fields : Fields → ℕ
  count_fields end = 0
  count_fields (field k v fs) = count_json_fields v + count_fields fs

-- `if depth := 1 + JSONDepth(child); depth > maxDepth { maxDepth = depth }`
abbrev deeper : ℕ → ℕ → ℕ
deeper depth max_depth = if ltb max_depth depth then depth else max_depth

-- JSONDepth
unfoldable mutual
  pub json_depth : Json → ℕ
  json_depth (obj fs) = fields_depth 1 fs
  json_depth (json_map fs) = fields_depth 1 fs
  json_depth (arr xs) = items_depth 1 xs
  json_depth _ = 1

  pub items_depth : ℕ → Items → ℕ
  items_depth max_depth nil = max_depth
  items_depth max_depth (cons v xs) = items_depth (deeper (1 + json_depth v) max_depth) xs

  pub fields_depth : ℕ → Fields → ℕ
  fields_depth max_depth end = max_depth
  fields_depth max_depth (field k v fs) = fields_depth (deeper (1 + json_depth v) max_depth) fs

abbrev first : Option FieldError → Option FieldError → Option FieldError
first none next = next
first (some e) next = some e

-- The closure `walk` of ValidateCustomComponent.
unfoldable mutual
  pub walk : String → Json → Option FieldError
  walk name (obj fs) = walk_fields name fs
  walk name (json_map fs) = walk_fields name fs
  walk name (arr xs) = walk_items name xs
  walk name _ = none

  pub walk_items : String → Items → Option FieldError
  walk_items name nil = none
  walk_items name (cons v xs) = first (walk name v) (walk_items name xs)

  pub walk_fields : String → Fields → Option FieldError
  walk_fields name end = none
  walk_fields name (field key child fs) =
      first
        (if ltb 100 (len key)
          then some (field_error name "too_long" "custom component key exceeds 100 characters")
          else none)
        (first (walk name child) (walk_fields name fs))

module _ (json_size : Json → ℕ) where
  unfoldable pub validate_custom_object : String → Fields → Option FieldError
  validate_custom_object name fs =
      if ltb (16 * 1024) (json_size (obj fs))
      then some (field_error name "out_of_range" "custom component exceeds 16 KiB")
      else if ltb 8 (json_depth (obj fs))
      then some (field_error name "out_of_range" "custom component exceeds max depth 8")
      else if ltb 100 (count_json_fields (obj fs))
      then some (field_error name "out_of_range" "custom component exceeds max field count 100")
      else walk name (obj fs)

  -- ValidateCustomComponent
  unfoldable pub validate_custom_component : String → Json → Option FieldError
  unfolding validate_custom_object
  validate_custom_component name (obj fs) = validate_custom_object name fs
  validate_custom_component name (json_map fs) = validate_custom_object name fs
  validate_custom_component name _ =
      some (field_error name "invalid_value" "custom components must be JSON objects")
