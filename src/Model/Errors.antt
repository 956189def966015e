-- ===== src/Model/Errors.antt =====
-- internal/model/errors.go: the constructors of CoreError. The cause, which never leaves the server,
-- is left out.
use atlas_c.Base.{
  ℕ, String, List, [], ◌∷◌, map, ◌<>◌, FieldError, Detail, field_errors, label, CoreError, Error,
  core,
}
use atlas_c.Base.Assoc.{Assoc, insert, string_eq}

abbrev pub Details : Type 0
Details = Assoc String Detail

abbrev pub field_error : String → String → String → FieldError
field_error name code message = record { field = name; code = code; message = message }

unfoldable pub new_core_error : ℕ → String → String → Details → CoreError
new_core_error status code message details = record {
  status_code = status;
  error_code = code;
  message = message;
  details = details;
}

unfoldable pub validation_error : List FieldError → Error
unfolding new_core_error
validation_error errors = core (
    new_core_error 400 "validation_failed" "request validation failed"
      (("fields", field_errors errors) ∷ []))

-- `ValidationError(FieldError{...})`
abbrev pub invalid : String → String → String → Error
invalid name code message = validation_error (field_error name code message ∷ [])

abbrev immutable : String → FieldError
immutable name = field_error name "immutable" "field is immutable"

unfoldable pub immutable_fields_error : List String → Error
unfolding new_core_error
immutable_fields_error names = core (
    new_core_error 400 "immutable_field" "immutable field update rejected"
      (("fields", field_errors (map immutable names)) ∷ []))

unfoldable pub immutable_field_error : String → Error
immutable_field_error name = immutable_fields_error (name ∷ [])

abbrev field_details : List FieldError → Details
field_details [] = []
field_details (e ∷ es) = ("fields", field_errors (e ∷ es)) ∷ []

unfoldable pub command_validation_error : String → List FieldError → Error
unfolding new_core_error
command_validation_error message errors =
    core (new_core_error 400 "command_validation_failed" message (field_details errors))

unfoldable pub invalid_status_transition : String → String → Error
unfolding new_core_error
invalid_status_transition current target = core (
    new_core_error 400 "invalid_status_transition" "task status transition is not allowed"
      (("current_status", label current) ∷ ("target_status", label target) ∷ []))

unfoldable pub not_found : String → String → Error
unfolding new_core_error
not_found resource_type resource_id = core (
    new_core_error 404 "not_found" (resource_type <> " not found")
      (("resource_type", label resource_type) ∷ ("resource_id", label resource_id) ∷ []))

-- The named arguments overwrite equally named entries of `extra`.
abbrev pub conflict_details : String → String → String → Details → Details
conflict_details resource_type resource_id reason extra =
    insert "reason" (label reason) (
      insert "resource_id" (label resource_id) (insert "resource_type" (label resource_type) extra))

unfoldable pub conflict : String → String → String → Details → Error
unfolding new_core_error
conflict resource_type resource_id reason extra = core (
    new_core_error 409 "conflict" "resource conflict"
      (conflict_details resource_type resource_id reason extra))

unfoldable pub payload_too_large : String → Error
unfolding new_core_error
payload_too_large message = core (new_core_error 413 "payload_too_large" message [])

unfoldable pub unsupported_media_type : String → Error
unfolding new_core_error
unsupported_media_type message = core (new_core_error 415 "unsupported_media_type" message [])

unfoldable pub storage_unavailable : String → Details → Error
unfolding new_core_error
storage_unavailable message details =
    core (new_core_error 503 "storage_unavailable" message details)

unfoldable pub catalog_unavailable : String → Details → Error
unfolding new_core_error
catalog_unavailable message details =
    core (new_core_error 503 "catalog_unavailable" message details)

unfoldable pub internal_error : String → Error
unfolding new_core_error
internal_error message = core (new_core_error 500 "internal_error" message [])
