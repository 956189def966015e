-- ===== src/Sighting.antt =====
-- internal/sightingcatalog: the catalog of sighting kinds, and the check of a sighting against it.
-- time.Parse with the RFC 3339 layout is a parameter.
use atlas_c.Base.{
  ℕ, suc, String, Bool, Option, none, some, List, [], ◌∷◌, ◌++◌, map, ◌==◌, ◌<>◌, decimal,
  contains_string, if◌then◌else◌, FieldError, field_errors, Result, ok, err, pass, ◌>>=◌, ◌>>◌,
}
use atlas_c.Base.Assoc.{Assoc, string_eq, lookup}
use atlas_c.Model.Errors.{field_error, catalog_unavailable, invalid, validation_error}
use atlas_c.Model.Ids.{validate_snake_case, validate_inaccuracy_string}
use atlas_c.Model.Json.{Json, JsonMap, Fields, entries, as_map, as_string}
use atlas_c.Model.Json.Entries.{get, at}
use atlas_c.Model.Json.Clone.{clone_json_map}
use atlas_c.Model.Records.{Time}
use atlas_c.Catalog.Schema.{validate_schema}
use atlas_c.Catalog.Commands.{schema_field_errors}
use atlas_c.Catalog.Value.{validate_value, or_blank}

pub record Kind : Type 0 where
  pub kind : String
  pub display_name : String
  pub description : String
  pub data_schema : JsonMap

pub record SightingCatalog : Type 0 where
  pub catalog_id : String
  pub sighting_kinds : List Kind
  pub by_kind : Assoc String Kind

-- Kind.Clone: a nil schema stays nil, another one goes through JSON and back.
unfoldable pub clone_kind : Kind → Kind
clone_kind k = elim k.data_schema [
  | none ↦ k
  | some schema ↦ record k { data_schema = some (clone_json_map (some schema)) }
]

abbrev clone_entry : String × Kind → String × Kind
clone_entry (name, k) = (name, clone_kind k)

-- Catalog.Clone
unfoldable pub clone_catalog : SightingCatalog → SightingCatalog
unfolding clone_kind
clone_catalog c = record c {
  sighting_kinds = map clone_kind c.sighting_kinds;
  by_kind = map clone_entry c.by_kind;
}

pub record SightingActive : Type 0 where
  pub catalog : SightingCatalog
  pub ready : Bool

-- Active.Set
unfoldable pub set_sightings : SightingCatalog → SightingActive → SightingActive
set_sightings c a = record { catalog = clone_catalog c; ready = Bool.true }

-- Active.Get
unfoldable pub get_sightings : SightingActive → Option SightingCatalog
get_sightings a = if a.ready then some (clone_catalog a.catalog) else none

abbrev option_list : Option FieldError → List FieldError
option_list none = []
option_list (some e) = e ∷ []

-- The loop of Validate over the kinds, with the kinds seen so far. (The code of a schema failure that
-- carries no fields does not arise: ValidateSchema always gives them.)
unfoldable pub kinds_errors : List Kind → List String → ℕ → List FieldError
kinds_errors [] seen index = []
kinds_errors (k ∷ rest) seen index =
    let prefix = "sighting_kinds[" <> decimal index <> "]" in
    option_list (validate_snake_case (prefix <> ".kind") k.kind)
    ++ ((if contains_string seen k.kind
          then field_error (prefix <> ".kind") "conflict" "duplicate kind" ∷ []
          else [])
        ++ (schema_field_errors (validate_schema k.data_schema (prefix <> ".data_schema"))
              (prefix <> ".data_schema")
            ++ kinds_errors rest (k.kind ∷ seen) (suc index)))

-- Validate
unfoldable pub validate_kinds : SightingCatalog → Result (Unit {0})
unfolding kinds_errors
validate_kinds c = elim (kinds_errors c.sighting_kinds [] 0) [
  | [] ↦ pass
  | e ∷ es ↦ err (
      catalog_unavailable "sighting catalog validation failed"
        (("fields", field_errors (e ∷ es)) ∷ []))
]

-- `if err := check; err != nil { return ValidationError(*err) }`
abbrev pub report : Option FieldError → Result (Unit {0})
report none = pass
report (some e) = err (validation_error (e ∷ []))

module _ (parse_time : String → Option Time) where
  -- ValidateRFC3339Field
  unfoldable pub validate_rfc3339_field : String → String → Option FieldError
  validate_rfc3339_field name value =
      if value == ""
      then some (field_error name "required" (name <> " is required"))
      else elim (parse_time value) [
        | none ↦ some (field_error name "invalid_value" (name <> " must be RFC3339"))
        | some _ ↦ none
      ]

unfoldable pub validate_inaccuracy : Option Json → Result (Unit {0})
validate_inaccuracy none = pass
validate_inaccuracy (some raw) = elim (as_string raw) [
  | none ↦ err (
      invalid "json.latest_sighting.observed_at_inaccuracy_ms" "invalid_type"
        "observed_at_inaccuracy_ms must be a string")
  | some text ↦
      report (validate_inaccuracy_string "json.latest_sighting.observed_at_inaccuracy_ms" text)
]

-- The kind of a sighting, by its three checks.
unfoldable pub sighting_kind : Option Json → Result String
sighting_kind none = err (invalid "json.latest_sighting.kind" "required" "kind is required")
sighting_kind (some raw) = elim (as_string raw) [
  | none ↦ err (invalid "json.latest_sighting.kind" "invalid_type" "kind must be a string")
  | some kind ↦
      if kind == ""
      then err (invalid "json.latest_sighting.kind" "required" "kind is required")
      else ok kind
]

unfoldable pub known_kind : SightingCatalog → String → Result Kind
known_kind active kind = elim (lookup kind active.by_kind) [
  | none ↦ err (invalid "json.latest_sighting.kind" "invalid_value" "unknown sighting kind")
  | some definition ↦ ok definition
]

unfoldable pub sighting_map : Json → Result Fields
sighting_map v = elim (as_map v) [
  | none ↦ err (invalid "json.latest_sighting" "invalid_type" "sighting must be an object")
  | some fs ↦ ok fs
]

-- ValidateSighting
module _ (compile : String → Option (String → Bool)) (parse_time : String → Option Time) where
  unfoldable pub validate_sighting : SightingCatalog → Json → Result (Unit {0})
  unfolding sighting_map validate_inaccuracy sighting_kind known_kind
  validate_sighting active sighting = do
    fields ← sighting_map sighting
    report (
        validate_rfc3339_field parse_time "json.latest_sighting.observed_at"
          (or_blank (as_string (at "observed_at" fields))))
    validate_inaccuracy (get "observed_at_inaccuracy_ms" fields)
    kind ← sighting_kind (get "kind" fields)
    definition ← known_kind active kind
    validate_value compile (entries definition.data_schema) (at "data" fields)
        "json.latest_sighting.data"
