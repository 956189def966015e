-- ===== src/Catalog/Commands.antt =====
-- internal/catalog/catalog.go: the command catalog and the one that is active. `Clone` copies, and a
-- copy of an immutable value is the value. The hash (the first 8 bytes of SHA-256, in hexadecimal) and
-- the decoder of the catalog file are parameters where they are used.
use atlas_c.Base.{
  ℕ, suc, String, Bool, true, false, ◌&&◌, Option, none, some, List, [], ◌∷◌, ◌++◌, ◌==◌, ◌<>◌,
  decimal, contains_string, if◌then◌else◌, FieldError, field_errors, label, Detail, core, other,
  Error, Result, ok, err, pass,
}
use atlas_c.Base.Assoc.{Assoc, string_eq, insert, lookup}
use atlas_c.Model.Errors.{field_error, catalog_unavailable, conflict}
use atlas_c.Model.Ids.{validate_snake_case}
use atlas_c.Model.Json.{Json, JsonMap, entries}
use atlas_c.Catalog.Schema.{validate_schema}
use atlas_c.Catalog.Value.{validate_value}

pub record Command : Type 0 where
  pub type : String
  pub display_name : String
  pub description : String
  pub parameters_schema : JsonMap

pub record Catalog : Type 0 where
  pub catalog_id : String
  pub version : String
  pub authored_at : String
  pub description : String
  pub metadata : JsonMap
  pub commands : List Command
  pub raw : List ℕ
  pub by_type : Assoc String Command
  pub content_hash : String
  pub object_id : String

-- The zero value.
abbrev pub no_catalog : Catalog
no_catalog = record {
  catalog_id = "";
  version = "";
  authored_at = "";
  description = "";
  metadata = none;
  commands = [];
  raw = [];
  by_type = [];
  content_hash = "";
  object_id = "";
}

abbrev option_list : Option FieldError → List FieldError
option_list none = []
option_list (some e) = e ∷ []

abbrev required_text : String → String → String → List FieldError
required_text value name message =
    if value == "" then field_error name "required" message ∷ [] else []

abbrev details_fields : Option Detail → List FieldError → List FieldError
details_fields (some (field_errors es)) default = es
details_fields _ default = default

-- The errors of a schema, or one error where the failure carries none.
unfoldable pub schema_field_errors : Result (Unit {0}) → String → List FieldError
schema_field_errors (ok _) name = []
schema_field_errors (err (core e)) name =
    details_fields (lookup "fields" e.details)
      (field_error name "invalid_value" (e.error_code <> ": " <> e.message) ∷ [])
schema_field_errors (err (other text)) name = field_error name "invalid_value" text ∷ []

unfoldable pub command_errors : Command → List String → String → List FieldError
unfolding schema_field_errors
command_errors command seen prefix =
    option_list (validate_snake_case (prefix <> ".type") command.type)
    ++ ((if contains_string seen command.type
          then field_error (prefix <> ".type") "conflict" "duplicate command type" ∷ []
          else [])
        ++ (required_text command.display_name (prefix <> ".display_name")
              "display_name is required"
            ++ (required_text command.description (prefix <> ".description")
                  "description is required"
                ++ schema_field_errors
                    (validate_schema command.parameters_schema (prefix <> ".parameters_schema"))
                    (prefix <> ".parameters_schema"))))

-- The loop of Validate over the commands, with the types seen so far.
unfoldable pub commands_errors : List Command → List String → ℕ → List FieldError
unfolding command_errors
commands_errors [] seen index = []
commands_errors (command ∷ rest) seen index =
    command_errors command seen ("commands[" <> decimal index <> "]")
    ++ commands_errors rest (command.type ∷ seen) (suc index)

unfoldable pub catalog_errors : Catalog → List FieldError
unfolding commands_errors
catalog_errors c =
    required_text c.catalog_id "catalog_id" "catalog_id is required"
    ++ (required_text c.version "version" "version is required" ++ commands_errors c.commands [] 0)

-- Validate
unfoldable pub validate : Catalog → Result (Unit {0})
unfolding catalog_errors
validate c = elim (catalog_errors c) [
  | [] ↦ pass
  | e ∷ es ↦ err (
      catalog_unavailable "command catalog validation failed"
        (("fields", field_errors (e ∷ es)) ∷ []))
]

-- `for _, command := range commands { ByType[command.Type] = command }`
unfoldable pub index_commands : Assoc String Command → List Command → Assoc String Command
index_commands found [] = found
index_commands found (command ∷ rest) = index_commands (insert command.type command found) rest

-- ObjectIDFromContentHash
unfoldable pub object_id_from_content_hash : String → String
object_id_from_content_hash hash = "command-catalog-" <> hash

pub record Active : Type 0 where
  pub catalog : Catalog
  pub ready : Bool

-- Active.Set
unfoldable pub set_active : Catalog → Active → Active
set_active c a = record { catalog = c; ready = true }

-- Active.Clear
unfoldable pub clear_active : Active → Active
clear_active a = record { catalog = no_catalog; ready = false }

-- Active.Get
unfoldable pub get_active : Active → Option Catalog
get_active a = if a.ready then some a.catalog else none

-- The test of RunWhileObjectInactive: none where the function may run.
unfoldable pub protection : Active → String → Option Error
protection a object_id =
    if a.ready && a.catalog.object_id == object_id
    then some (
        conflict "object" object_id "protected"
          (("owner_type", label "system") ∷ ("owner_id", label "active_command_catalog") ∷ []))
    else none

-- ValidateParameters
module _ (compile : String → Option (String → Bool)) where
  unfoldable pub validate_parameters : Command → Json → Result (Unit {0})
  validate_parameters command parameters =
      validate_value compile (entries command.parameters_schema) parameters "parameters"
