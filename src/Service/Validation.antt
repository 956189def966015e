-- ===== src/Service/Validation.antt =====
-- internal/service/service.go: the checks on incoming records.
use text.Mathlib.Text.{starts_with}
use atlas_c.Base.{
  String, true, false, not, ◌&&◌, Option, none, some, List, [], ◌∷◌, ◌==◌, ◌<>◌, contains_string,
  if◌then◌else◌, Result, ok, err, pass, ◌>>=◌, ◌>>◌,
}
use atlas_c.Base.Assoc.{string_eq, lookup, Assoc}
use atlas_c.Model.Errors.{invalid, catalog_unavailable}
use atlas_c.Model.Ids.{validate_id, validate_snake_case}
use atlas_c.Model.Json.{Json, Fields, end, field, JsonMap, entries, as_map, as_string}
use atlas_c.Model.Json.Entries.{get, at}
use atlas_c.Model.Merge.{ensure_no_promoted_field_duplication, read_string_slice}
use atlas_c.Model.Limits.{validate_custom_component}
use atlas_c.Model.Records.{Object}
use atlas_c.Catalog.Value.{or_blank}
use atlas_c.Sighting.{
  SightingActive, report, validate_rfc3339_field, get_sightings, validate_sighting,
}
use atlas_c.Store.{MemoryStore}
use atlas_c.Store.Objects.{get_object}
use atlas_c.Service.State.{Env}

-- requireValidID
unfoldable pub require_valid_id : String → String → Result (Unit {0})
require_valid_id name value = report (validate_id name value)

-- componentRules
abbrev pub component_rules : Assoc String (List String)
component_rules =
    ("heartbeat", "asset" ∷ [])
    ∷ ("communications", "asset" ∷ [])
    ∷ ("health", "asset" ∷ [])
    ∷ ("telemetry", "asset" ∷ "track" ∷ [])
    ∷ ("geometry", "geofeature" ∷ [])
    ∷ ("sensor_refs", "asset" ∷ "track" ∷ [])
    ∷ ("status", "asset" ∷ "track" ∷ "geofeature" ∷ [])
    ∷ ("supported_commands", "asset" ∷ [])
    ∷ ("fusion_summary", "track" ∷ [])
    ∷ []

-- The loop of validateSupportedCommands.
unfoldable pub check_command_names : List String → Result (Unit {0})
check_command_names [] = pass
check_command_names (command ∷ rest) =
    report (validate_snake_case "json.components.supported_commands.commands" command)
    >> check_command_names rest

unfoldable pub require_entity_type : String → Result (Unit {0})
require_entity_type entity_type =
    if contains_string ("asset" ∷ "track" ∷ "geofeature" ∷ []) entity_type
    then pass
    else err (invalid "type" "invalid_value" "type must be asset, track, or geofeature")

abbrev pub missing_commands : Result (Unit {0})
missing_commands = err (
    invalid "json.components.supported_commands" "required"
      "asset entities require supported_commands")

unfoldable pub require_map : String → String → Json → Result Fields
require_map name message v = elim (as_map v) [
  | none ↦ err (invalid name "invalid_type" message)
  | some fs ↦ ok fs
]

unfoldable pub string_list : Option (List String) → Result (List String)
string_list none = err (
    invalid "json.components.supported_commands.commands" "invalid_type"
      "commands must be an array of strings")
string_list (some l) = ok l

module _ (env : Env) where
  -- validateSupportedCommands
  unfoldable pub validate_supported_commands : Fields → Result (Unit {0})
  unfolding check_command_names string_list
  validate_supported_commands component = do
    report (
        validate_rfc3339_field env.parse_time "json.components.supported_commands.observed_at"
          (or_blank (as_string (at "observed_at" component))))
    commands ← string_list (read_string_slice (at "commands" component))
    check_command_names commands

  unfoldable pub check_observed_at : String → Option String → Result (Unit {0})
  check_observed_at name none = pass
  check_observed_at name (some observed_at) = report (
      validate_rfc3339_field env.parse_time ("json.components." <> name <> ".observed_at")
        observed_at)

  -- A component that is not a custom one, of the types that its rule allows.
  unfoldable pub check_known_component : String → List String → String → Json → Result (Unit {0})
  unfolding check_observed_at validate_supported_commands require_map
  check_known_component entity_type allowed name value =
      if not (contains_string allowed entity_type)
      then err (
          invalid ("json.components." <> name) "invalid_value"
            "component is not allowed for this entity type")
      else (do
        component ← require_map ("json.components." <> name) "component must be an object" value
        check_observed_at name (as_string (at "observed_at" component))
        elim (name == "supported_commands") [
          | true ↦ validate_supported_commands component
          | false ↦ pass
        ])

  -- One round of the loop over the components.
  unfoldable pub check_component : String → String → Json → Result (Unit {0})
  unfolding check_known_component
  check_component entity_type name value =
      if starts_with name "custom_"
      then report (validate_custom_component env.json_size ("json.components." <> name) value)
      else elim (lookup name component_rules) [
        | none ↦ err (invalid ("json.components." <> name) "unknown_field" "unknown component")
        | some allowed ↦ check_known_component entity_type allowed name value
      ]

  unfoldable pub check_components : String → Fields → Result (Unit {0})
  unfolding check_component
  check_components entity_type end = pass
  check_components entity_type (field name value rest) =
      check_component entity_type name value >> check_components entity_type rest

  -- The part of validateEntityInput for a document with components.
  unfoldable pub check_component_section : String → Json → Result (Unit {0})
  unfolding check_components require_map
  check_component_section entity_type raw = do
    components ← require_map "json.components" "components must be an object" raw
    check_components entity_type components
    elim (entity_type == "asset") [
      | false ↦ pass
      | true ↦ elim (get "supported_commands" components) [
        | none ↦ missing_commands
        | some _ ↦ pass
      ]
    ]

  -- validateEntityInput
  unfoldable pub validate_entity_input : String → JsonMap → Result (Unit {0})
  unfolding require_entity_type check_component_section
  validate_entity_input entity_type json = do
    require_entity_type entity_type
    report (
        ensure_no_promoted_field_duplication (entries json)
          ("entity_id" ∷ "type" ∷ "subtype" ∷ "alias" ∷ "created_at" ∷ "updated_at" ∷ []))
    elim (get "components" (entries json)) [
      | none ↦ if entity_type == "asset" then missing_commands else pass
      | some raw ↦ check_component_section entity_type raw
    ]

unfoldable pub require_state : String → Result (Unit {0})
require_state state =
    if contains_string ("active" ∷ "inactive" ∷ "ended" ∷ []) state
    then pass
    else err (invalid "json.state" "invalid_value" "state must be active, inactive, or ended")

abbrev pub history_type : String
history_type = "observation_sighting_history"

unfoldable pub check_history : String → Object → Result (Unit {0})
check_history observation_id object =
    if object.type == history_type
      && object.owner_type == "observation"
      && object.owner_id == observation_id
    then pass
    else err (
        invalid "json.sightings_object_id" "invalid_value"
          "sightings_object_id must reference an observation-owned observation_sighting_history object")

-- The reference of an observation to the object that holds its sightings.
unfoldable pub check_history_reference : Option String → String → MemoryStore → Result (Unit {0})
unfolding check_history
check_history_reference none observation_id m = pass
check_history_reference (some id) observation_id m =
    if id == "" then pass else get_object id m >>= check_history observation_id

module _ (env : Env) where
  unfoldable pub check_latest_sighting : Option Json → SightingActive → Result (Unit {0})
  check_latest_sighting none sightings = pass
  check_latest_sighting (some latest) sightings = elim (get_sightings sightings) [
    | none ↦ err (catalog_unavailable "sighting catalog is unavailable" [])
    | some active ↦ validate_sighting env.compile env.parse_time active latest
  ]

  -- validateObservationJSON
  unfoldable pub validate_observation_json :
      MemoryStore → SightingActive → String → JsonMap → Result (Unit {0})
  unfolding require_state check_latest_sighting check_history_reference
  validate_observation_json m sightings observation_id json = do
    require_state (or_blank (as_string (at "state" (entries json))))
    check_latest_sighting (get "latest_sighting" (entries json)) sightings
    check_history_reference (as_string (at "sightings_object_id" (entries json))) observation_id m
