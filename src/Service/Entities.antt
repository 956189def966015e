-- ===== src/Service/Entities.antt =====
-- internal/service/service.go: the operations on entities.
use atlas_c.Base.{
  ℕ, String, ◌||◌, Option, none, some, List, [], ◌∷◌, ltb, ◌==◌, if◌then◌else◌, counts, Result, ok,
  err,
}
use atlas_c.Model.Errors.{conflict, invalid}
use atlas_c.Model.Json.{JsonMap}
use atlas_c.Model.Merge.{normalize_json_map, merge_named_sections}
use atlas_c.Model.Pagination.{Pagination}
use atlas_c.Model.Records.{Entity, Task, EventData, Time}
use atlas_c.Store.Entities
use atlas_c.Store.Entities.{Dependents}
use atlas_c.Store.Tasks.{list_tasks_for_asset}
use atlas_c.Service.State.{Env, Action, ◌>>=◌, ◌>>◌, pure, lift, reading, writing, gets, now}
use atlas_c.Service.Validation.{validate_entity_input, require_valid_id}
use atlas_c.Service.Publishing.{publish}

pub record EntityCreateInput : Type 0 where
  pub entity_id : String
  pub type : String
  pub subtype : String
  pub alias : String
  pub json : JsonMap

-- A nil pointer is none.
pub record EntityPatchInput : Type 0 where
  pub subtype : Option String
  pub alias : Option String
  pub json : JsonMap

abbrev pub or_current : Option String → String → String
or_current none current = current
or_current (some given) current = given

-- The dependents as details of the error.
abbrev dependents_detail : Dependents → List (String × ℕ)
dependents_detail d =
    ("tasks", d.tasks) ∷ ("observations", d.observations) ∷ ("objects", d.objects) ∷ []

unfoldable pub refuse_dependents : String → Dependents → Result (Unit {0})
refuse_dependents id d =
    if ltb 0 d.tasks || ltb 0 d.observations || ltb 0 d.objects
    then err (
        conflict "entity" id "dependent_records"
          (("dependents", counts (dependents_detail d)) ∷ []))
    else ok tt

abbrev pub patched_entity : Entity → EntityPatchInput → Entity
patched_entity current patch = record current {
  subtype = or_current patch.subtype current.subtype;
  alias = or_current patch.alias current.alias;
  json = merge_named_sections current.json patch.json;
}

unfoldable pub require_asset : String → String → Entity → Result (Unit {0})
require_asset name message entity =
    if entity.type == "asset" then ok tt else err (invalid name "invalid_value" message)

-- The record that create_entity stores.
abbrev pub new_entity : EntityCreateInput → Time → Time → Entity
new_entity input created_at updated_at = record {
  entity_id = input.entity_id;
  type = input.type;
  subtype = input.subtype;
  alias = input.alias;
  json = normalize_json_map input.json;
  created_at = created_at;
  updated_at = updated_at;
}

-- GetEntity
unfoldable pub get_entity : String → Action Entity
get_entity id = reading (Entities.get_entity id)

-- ListEntities
unfoldable pub list_entities : String → Pagination → Action (List Entity × ℕ)
list_entities type page = reading (Entities.list_entities type page)

-- ListEntityTasks
unfoldable pub list_entity_tasks : String → Pagination → Action (List Task × ℕ)
unfolding require_asset
list_entity_tasks entity_id page = do
  entity ← reading (Entities.get_entity entity_id)
  lift (require_asset "entity_id" "entity must be an asset" entity)
  reading (list_tasks_for_asset entity_id page)

module _ (env : Env) where
  -- CreateEntity
  unfoldable pub create_entity : EntityCreateInput → Action Entity
  create_entity input = do
    lift (validate_entity_input env input.type input.json)
    lift (require_valid_id "entity_id" input.entity_id)
    created_at ← now env
    updated_at ← now env
    created ← writing (Entities.create_entity (new_entity input created_at updated_at))
    publish env "entity" "created" created.entity_id (EventData.entity created)
    pure created

  -- PatchEntity
  unfoldable pub patch_entity : String → EntityPatchInput → Action Entity
  patch_entity id patch = do
    current ← reading (Entities.get_entity id)
    let next = patched_entity current patch
    lift (validate_entity_input env next.type next.json)
    updated_at ← now env
    updated ← writing (Entities.update_entity (record next { updated_at = updated_at }))
    publish env "entity" "updated" updated.entity_id (EventData.entity updated)
    pure updated

  -- DeleteEntity
  unfoldable pub delete_entity : String → Action (Unit {0})
  unfolding refuse_dependents
  delete_entity id = do
    dependents ← gets (λ s. Entities.count_entity_dependents id s.stores)
    lift (refuse_dependents id dependents)
    writing (Entities.delete_entity id)
    deleted_at ← now env
    publish env "entity" "deleted" id (EventData.deleted_at deleted_at)
