-- ===== src/Service/Observations.antt =====
-- internal/service/service.go: the operations on observations.
use atlas_c.Base.{ℕ, String, List}
use atlas_c.Model.Json.{JsonMap}
use atlas_c.Model.Merge.{normalize_json_map, merge_named_sections}
use atlas_c.Model.Pagination.{Pagination}
use atlas_c.Model.Records.{Observation, EventData, Time}
use atlas_c.Store.Entities.{get_entity}
use atlas_c.Store.Observations
use atlas_c.Store.Observations.{ObservationListFilter}
use atlas_c.Service.State.{Env, Action, ◌>>=◌, ◌>>◌, pure, lift, reading, writing, now}
use atlas_c.Service.Validation.{validate_observation_json, require_valid_id}
use atlas_c.Service.Entities.{require_asset}
use atlas_c.Service.Publishing.{publish}

pub record ObservationCreateInput : Type 0 where
  pub observation_id : String
  pub source_asset_id : String
  pub json : JsonMap

pub record ObservationPatchInput : Type 0 where
  pub json : JsonMap

abbrev pub patched_observation : Observation → ObservationPatchInput → Observation
patched_observation current patch = record current {
  json = merge_named_sections current.json patch.json;
}

-- The record that create_observation stores.
abbrev pub new_observation : ObservationCreateInput → Time → Time → Observation
new_observation input created_at updated_at = record {
  observation_id = input.observation_id;
  source_asset_id = input.source_asset_id;
  json = normalize_json_map input.json;
  created_at = created_at;
  updated_at = updated_at;
}

-- GetObservation
unfoldable pub get_observation : String → Action Observation
get_observation id = reading (Observations.get_observation id)

module _ (env : Env) where
  -- ListObservations
  unfoldable pub list_observations :
      ObservationListFilter → Pagination → Action (List Observation × ℕ)
  list_observations filter page =
      reading (Observations.list_observations env.parse_time filter page)

  -- The call of validateObservationJSON, which reads the stores and the sighting catalog.
  unfoldable pub check_observation : String → JsonMap → Action (Unit {0})
  check_observation observation_id json s =
      (validate_observation_json env s.stores s.sightings observation_id json, s)

  -- CreateObservation
  unfoldable pub create_observation : ObservationCreateInput → Action Observation
  unfolding check_observation require_asset
  create_observation input = do
    lift (require_valid_id "observation_id" input.observation_id)
    asset ← reading (get_entity input.source_asset_id)
    lift (require_asset "source_asset_id" "source_asset_id must reference an asset" asset)
    check_observation input.observation_id input.json
    created_at ← now env
    updated_at ← now env
    created ←
        writing (Observations.create_observation (new_observation input created_at updated_at))
    publish env "observation" "created" created.observation_id (EventData.observation created)
    pure created

  -- PatchObservation
  unfoldable pub patch_observation : String → ObservationPatchInput → Action Observation
  unfolding check_observation
  patch_observation id patch = do
    current ← reading (Observations.get_observation id)
    let next = patched_observation current patch
    check_observation next.observation_id next.json
    updated_at ← now env
    updated ← writing (Observations.update_observation (record next { updated_at = updated_at }))
    publish env "observation" "updated" updated.observation_id (EventData.observation updated)
    pure updated

  -- DeleteObservation
  unfoldable pub delete_observation : String → Action (Unit {0})
  delete_observation id = do
    writing (Observations.delete_observation id)
    deleted_at ← now env
    publish env "observation" "deleted" id (EventData.deleted_at deleted_at)
