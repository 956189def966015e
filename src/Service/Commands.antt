-- ===== src/Service/Commands.antt =====
-- internal/service/service.go: the checks of the command in a task.
pub mod Accepted
use text.Mathlib.Text.{starts_with}
use atlas_c.Base.{
  String, true, false, not, ◌&&◌, Option, none, some, List, [], ◌∷◌, ◌==◌, ◌<>◌, contains_string,
  if◌then◌else◌, FieldError, CoreError, field_errors, core, other, Error, Result, ok, err, pass,
  ◌>>=◌, ◌>>◌,
}
use atlas_c.Base.Assoc.{string_eq, lookup, Assoc}
use atlas_c.Model.Errors.{invalid, command_validation_error, catalog_unavailable}
use atlas_c.Model.Ids.{validate_id, validate_snake_case}
use atlas_c.Model.Json.{Json, obj, Fields, end, field, JsonMap, entries, as_map, as_string}
use atlas_c.Model.Json.Entries.{get, at}
use atlas_c.Model.Merge.{ensure_no_promoted_field_duplication, read_string_slice}
use atlas_c.Model.Limits.{validate_custom_component}
use atlas_c.Model.Records.{Entity, Object}
use atlas_c.Catalog.Commands.{Catalog, Command, validate_parameters}
use atlas_c.Catalog.Value.{or_blank}
use atlas_c.Sighting.{
  SightingActive, report, validate_rfc3339_field, get_sightings, validate_sighting,
}
use atlas_c.Store.{MemoryStore}
use atlas_c.Store.Objects.{get_object}
use atlas_c.Service.State.{Env}
use atlas_c.Service.Validation.{require_map}

unfoldable pub required_section : Option Json → String → String → String → Result Fields
unfolding require_map
required_section none name missing wrong = err (invalid name "required" missing)
required_section (some v) name missing wrong = require_map name wrong v

unfoldable pub command_type_of : Fields → Result String
command_type_of section =
    let type = or_blank (as_string (at "type" section)) in
    if type == ""
    then err (invalid "json.components.command.type" "required" "command.type is required")
    else ok type

unfoldable pub defined_command : Catalog → String → Result Command
defined_command cat type = elim (lookup type cat.by_type) [
  | none ↦ err (
      command_validation_error "command type is not defined in the catalog" (
        record {
          field = "json.components.command.type";
          code = "invalid_value";
          message = "unknown command type";
        }
        ∷ []))
  | some command ↦ ok command
]

-- flattenFieldErrors
unfoldable pub flatten_field_errors : CoreError → List FieldError
flatten_field_errors e = elim (lookup "fields" e.details) [ some (field_errors es) ↦ es | _ ↦ [] ]

unfoldable pub as_command_error : Result (Unit {0}) → Result (Unit {0})
unfolding flatten_field_errors
as_command_error (ok u) = ok u
as_command_error (err (core e)) =
    err (command_validation_error "command parameters failed validation" (flatten_field_errors e))
as_command_error (err (other text)) = err (other text)

-- `parameters, ok := components["parameters"]`, an empty object where the key is missing
abbrev pub parameters_of : Option Json → Json
parameters_of none = obj end
parameters_of (some v) = v

module _ (env : Env) where
  -- validateTaskCommandCatalog
  unfoldable pub validate_task_command_catalog : JsonMap → Catalog → Result String
  unfolding required_section command_type_of defined_command as_command_error
  validate_task_command_catalog json cat = do
    components ←
        required_section (get "components" (entries json)) "json.components"
          "components are required" "components must be an object"
    section ←
        required_section (get "command" components) "json.components.command" "command is required"
          "command must be an object"
    command_type ← command_type_of section
    command ← defined_command cat command_type
    as_command_error
        (validate_parameters env.compile command (parameters_of (get "parameters" components)))
    ok command_type

abbrev no_such_support : Error
no_such_support = command_validation_error "asset does not support requested command" (
    record {
      field = "json.components.command.type";
      code = "invalid_value";
      message = "asset does not support command";
    }
    ∷ [])

unfoldable pub supported_list : Option Fields → Result (List String)
supported_list none = err (
    command_validation_error "asset does not expose supported_commands" (
      record {
        field = "asset.json.components.supported_commands";
        code = "required";
        message = "asset missing supported_commands";
      }
      ∷ []))
supported_list (some supported) = elim (read_string_slice (at "commands" supported)) [
  | none ↦ err no_such_support
  | some commands ↦ ok commands
]

-- validateTaskCommandSupport
unfoldable pub validate_task_command_support : String → Entity → Result (Unit {0})
unfolding supported_list
validate_task_command_support command_type asset = do
  commands ←
      supported_list
        (as_map (at "supported_commands" (entries (as_map (at "components" (entries asset.json))))))
  elim (contains_string commands command_type) [ true ↦ pass | false ↦ err no_such_support ]

module _ (env : Env) where
  -- validateTaskCommand
  unfoldable pub validate_task_command : JsonMap → Catalog → Entity → Result (Unit {0})
  unfolding validate_task_command_support
  validate_task_command json cat asset = do
    command_type ← validate_task_command_catalog env json cat
    validate_task_command_support command_type asset
