-- ===== src/Service/Owners.antt =====
-- internal/service/service.go: validateObjectInput.
use atlas_c.Base.{
  String, ◌&&◌, ◌||◌, not, [], ◌∷◌, ◌==◌, contains_string, if◌then◌else◌, Result, err, pass, ◌>>=◌,
  ◌>>◌,
}
use atlas_c.Base.Trim.{trim_space}
use atlas_c.Model.Errors.{invalid}
use atlas_c.Model.Json.{JsonMap, entries}
use atlas_c.Model.Merge.{ensure_no_promoted_field_duplication}
use atlas_c.Model.Records.{Entity}
use atlas_c.Sighting.{report}
use atlas_c.Store.{MemoryStore}
use atlas_c.Store.Entities.{get_entity}
use atlas_c.Store.Observations.{get_observation}
use atlas_c.Store.Tasks.{get_task}
use atlas_c.Store.Objects.{checked}
use atlas_c.Service.Validation.{require_valid_id, history_type}

unfoldable pub check_owner_named : String → String → Result (Unit {0})
check_owner_named owner_type owner_id =
    if owner_type == "" || owner_id == ""
    then err (invalid "owner" "required" "owner_type and owner_id are required")
    else if contains_string ("entity" ∷ "observation" ∷ "task" ∷ "system" ∷ []) owner_type
    then pass
    else err (
        invalid "owner_type" "invalid_value"
          "owner_type must be entity, observation, task, or system")

-- The `switch ownerType`, and the one owner that the system has.
unfoldable pub check_owner_found : String → String → MemoryStore → Result (Unit {0})
check_owner_found owner_type owner_id m =
    if not (owner_type == "system")
    then if owner_type == "entity"
      then checked (get_entity owner_id m)
      else if owner_type == "observation"
      then checked (get_observation owner_id m)
      else if owner_type == "task"
      then checked (get_task owner_id m)
      else pass
    else if owner_id == "active_command_catalog"
    then pass
    else err (invalid "owner_id" "invalid_value" "unsupported system owner id")

unfoldable pub check_track : Entity → Result (Unit {0})
check_track entity =
    if entity.type == "track"
    then pass
    else err (invalid "owner_id" "invalid_value" "fusion_provenance owner must be a track entity")

-- What the two special object types ask of their owners.
unfoldable pub check_owner_fits : String → String → String → MemoryStore → Result (Unit {0})
unfolding check_track
check_owner_fits object_type owner_type owner_id m =
    if object_type == history_type && not (owner_type == "observation")
    then err
        (invalid "type" "invalid_value" "observation_sighting_history must be observation-owned")
    else if object_type == "fusion_provenance"
    then if not (owner_type == "entity")
      then err (invalid "type" "invalid_value" "fusion_provenance must be entity-owned")
      else get_entity owner_id m >>= check_track
    else pass

unfoldable pub require_type : String → Result (Unit {0})
require_type object_type =
    if object_type == "" then err (invalid "type" "required" "type is required") else pass

-- validateObjectInput
unfoldable pub validate_object_input :
    MemoryStore → String → String → String → String → JsonMap → Result (Unit {0})
unfolding require_type check_owner_named check_owner_found check_owner_fits
validate_object_input m object_id raw_type owner_type owner_id json = do
  require_valid_id "object_id" object_id
  let object_type = trim_space raw_type
  require_type object_type
  check_owner_named owner_type owner_id
  check_owner_found owner_type owner_id m
  check_owner_fits object_type owner_type owner_id m
  report (
      ensure_no_promoted_field_duplication (entries json)
        ("object_id" ∷ "type" ∷ "owner_type" ∷ "owner_id" ∷ "created_at" ∷ "updated_at" ∷ []))
