-- ===== src/Service/Tasks.antt =====
-- internal/service/service.go: the operations on tasks.
pub mod Raised
pub mod Announced
use atlas_c.Base.{
  ℕ, String, Bool, ◌&&◌, ◌||◌, Option, none, some, List, [], ◌∷◌, ltb, ◌==◌, if◌then◌else◌, number,
  Result, ok, err, pass, after,
}
use atlas_c.Model.Errors.{
  conflict, immutable_fields_error, invalid_status_transition, catalog_unavailable,
}
use atlas_c.Model.Json.{Fields, JsonMap}
use atlas_c.Model.Json.Clone.{clone_json_map}
use atlas_c.Model.Merge.{normalize_json_map}
use atlas_c.Model.Pagination.{Pagination}
use atlas_c.Model.Records.{Task, EventData, Time}
use atlas_c.Catalog.Commands.{Catalog, get_active}
use atlas_c.Store.Entities.{get_entity}
use atlas_c.Store.{MemoryStore}
use atlas_c.Store.Tasks
use atlas_c.Store.Tasks.{TaskListFilter, count_task_owned_objects}
use atlas_c.Service.State.{Env, Action, ◌>>=◌, ◌>>◌, pure, lift, reading, writing, gets, now}
use atlas_c.Service.Validation.{require_valid_id}
use atlas_c.Service.Commands.{validate_task_command, validate_task_command_catalog}
use atlas_c.Service.TaskJson.{
  merge_task_json_for_patch, merge_task_json_for_status_transition,
  task_command_and_parameters_equal,
}
use atlas_c.Service.Entities.{require_asset}
use atlas_c.Service.Pinned.{load_pinned_catalog}
use atlas_c.Service.Publishing.{publish}

pub record TaskCreateInput : Type 0 where
  pub task_id : String
  pub asset_id : String
  pub json : JsonMap

pub record TaskPatchInput : Type 0 where
  pub json : JsonMap

pub record TaskStatusInput : Type 0 where
  pub status : String
  pub json : JsonMap

-- allowedTaskTransition
unfoldable pub allowed_task_transition : String → String → Bool
allowed_task_transition current target =
    (current == "pending" && target == "acknowledged")
    || (current == "acknowledged" && (target == "completed" || target == "failed"))

unfoldable pub require_allowed : String → String → Result (Unit {0})
unfolding allowed_task_transition
require_allowed current target =
    if allowed_task_transition current target
    then pass
    else err (invalid_status_transition current target)

abbrev immutable_command : Result (Unit {0})
immutable_command =
    err (immutable_fields_error ("json.components.command" ∷ "json.components.parameters" ∷ []))

unfoldable pub require_same_command : JsonMap → Fields → Result (Unit {0})
require_same_command current next =
    if task_command_and_parameters_equal current (some next) then pass else immutable_command

-- `s.commands.Get()`, or catalog_unavailable
unfoldable pub require_active : Option Catalog → Result Catalog
require_active none = err (catalog_unavailable "active command catalog is unavailable" [])
require_active (some active) = ok active

abbrev pub active_catalog : Action Catalog
active_catalog s = (require_active (get_active s.commands), s)

unfoldable pub no_owned_objects : String → ℕ → Result (Unit {0})
no_owned_objects id n =
    if ltb 0 n
    then err (conflict "task" id "dependent_records" (("objects", number n) ∷ []))
    else pass

-- `nextJSON` of PatchTask; a nil patch document is none.
unfoldable pub next_task_json : Task → JsonMap → Result Fields
next_task_json current none = ok (clone_json_map current.json)
next_task_json current (some patch) =
    merge_task_json_for_patch current.json (some patch) (current.status == "pending")

unfoldable pub unless_pending : String → Result (Unit {0}) → Result (Unit {0})
unless_pending status test = if status == "pending" then pass else test

-- The record that create_task stores.
abbrev pub new_task : TaskCreateInput → String → Time → Time → Task
new_task input command_catalog_object_id created_at updated_at = record {
  task_id = input.task_id;
  status = "pending";
  asset_id = input.asset_id;
  command_catalog_object_id = command_catalog_object_id;
  json = normalize_json_map input.json;
  created_at = created_at;
  updated_at = updated_at;
}

-- GetTask
unfoldable pub get_task : String → Action Task
get_task id = reading (Tasks.get_task id)

-- ListTasks
unfoldable pub list_tasks : TaskListFilter → Pagination → Action (List Task × ℕ)
list_tasks filter page = reading (Tasks.list_tasks filter page)

module _ (env : Env) where
  unfoldable pub pinned_catalog : String → Action Catalog
  pinned_catalog object_id s = (load_pinned_catalog env object_id s, s)

  -- CreateTask
  unfoldable pub create_task : TaskCreateInput → Action Task
  unfolding require_asset require_active
  create_task input = do
    lift (require_valid_id "task_id" input.task_id)
    asset ← reading (get_entity input.asset_id)
    lift (require_asset "asset_id" "asset_id must reference an asset" asset)
    active ← active_catalog
    lift (validate_task_command env input.json active asset)
    created_at ← now env
    updated_at ← now env
    created ← writing (Tasks.create_task (new_task input active.object_id created_at updated_at))
    publish env "task" "created" created.task_id (EventData.task created)
    pure created

  -- The two checks of PatchTask against the catalog, for a pending task and for any other.
  unfoldable pub check_patched : Task → Fields → Catalog → MemoryStore → Result (Unit {0})
  check_patched current next cat m =
      if current.status == "pending"
      then after (get_entity current.asset_id m) (validate_task_command env (some next) cat)
      else after (validate_task_command_catalog env (some next) cat) (λ _. pass)

  -- The end of PatchTask and TransitionTaskStatus: the new document, stored and published.
  unfoldable pub store_task : Task → Action Task
  store_task task = do
    updated_at ← now env
    updated ← writing (Tasks.update_task (record task { updated_at = updated_at }))
    publish env "task" "updated" updated.task_id (EventData.task updated)
    pure updated

  -- PatchTask
  unfoldable pub patch_task : String → TaskPatchInput → Action Task
  unfolding next_task_json unless_pending require_same_command pinned_catalog check_patched
      store_task
  patch_task id patch = do
    current ← reading (Tasks.get_task id)
    next ← lift (next_task_json current patch.json)
    lift (unless_pending current.status (require_same_command current.json next))
    cat ← pinned_catalog current.command_catalog_object_id
    reading (check_patched current next cat)
    store_task (record current { json = some next })

  -- TransitionTaskStatus, where the status differs from the current one.
  unfoldable pub move_task : Task → TaskStatusInput → Action Task
  unfolding require_allowed require_same_command pinned_catalog store_task
  move_task task input = do
    lift (require_allowed task.status input.status)
    merged ← lift (merge_task_json_for_status_transition task.json input.json)
    lift (require_same_command task.json merged)
    cat ← pinned_catalog task.command_catalog_object_id
    command_type ← lift (validate_task_command_catalog env (some merged) cat)
    store_task (record task { status = input.status; json = some merged })

  -- TransitionTaskStatus
  unfoldable pub transition_task_status : String → TaskStatusInput → Action Task
  unfolding move_task
  transition_task_status id input = do
    task ← reading (Tasks.get_task id)
    if task.status == input.status then pure task else move_task task input

  -- DeleteTask
  unfoldable pub delete_task : String → Action (Unit {0})
  unfolding no_owned_objects
  delete_task id = do
    count ← gets (λ s. count_task_owned_objects id s.stores)
    lift (no_owned_objects id count)
    writing (Tasks.delete_task id)
    deleted_at ← now env
    publish env "task" "deleted" id (EventData.deleted_at deleted_at)
