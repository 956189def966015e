-- ===== src/Tests/Lifecycle.antt =====
-- Tests of the life of a task.
use atlas_c.Catalog.Commands.{index_commands}
use atlas_c.Catalog.Schema.{enum_errors}
use atlas_c.Catalog.Schema.{additional_errors}
use atlas_c.Catalog.Schema.{size_errors}
use atlas_c.Catalog.Schema.{bound_errors}
use atlas_c.Catalog.Schema.{required_errors}
use atlas_c.Catalog.Schema.{keyword_value_errors}
use atlas_c.Catalog.Schema.{properties_errors}
use atlas_c.Catalog.Schema.{type_errors}
use atlas_c.Catalog.Schema.{unsupported_keywords}
use atlas_c.Catalog.Schema.{own_errors}
use atlas_c.Catalog.Schema.{validate_schema}
use atlas_c.Base.{contains_string}
use atlas_c.Model.Ids.{scan_step}
use atlas_c.Model.Ids.{scan}
use atlas_c.Model.Ids.{snake_case_pattern}
use atlas_c.Model.Ids.{trim_dots}
use atlas_c.Model.Ids.{is_id_char}
use atlas_c.Model.Ids.{id_pattern}
use atlas_c.Model.Ids.{validate_id}
use atlas_c.Model.Ids.{validate_snake_case}
use atlas_c.Catalog.Commands.{validate}
use atlas_c.Store.Files.{read_limited}
use atlas_c.Store.Files.{get_object_file}
use atlas_c.Store.Files.{open_object_file}
use atlas_c.Store.Entities.{count_objects}
use atlas_c.Store.Entities.{count_observations}
use atlas_c.Store.Entities.{count_tasks}
use atlas_c.Store.Entities.{count_entity_dependents}
use atlas_c.Service.Entities.{delete_entity}
use atlas_c.Events.{evict_all}
use atlas_c.Events.{next_id}
use atlas_c.Events.{offer_all}
use atlas_c.Service.Publishing.{publish}
use atlas_c.Store.Tasks.{update_task}
use atlas_c.Catalog.Value.{to_string_slice}
use atlas_c.Catalog.Value.{schema_type}
use atlas_c.Catalog.Value.{check_value}
use atlas_c.Catalog.Value.{validate_value}
use atlas_c.Catalog.Commands.{validate_parameters}
use atlas_c.Service.Commands.{validate_task_command_catalog}
use atlas_c.Catalog.Commands.{object_id_from_content_hash}
use atlas_c.Catalog.Commands.{get_active}
use atlas_c.Service.Pinned.{load_pinned_catalog}
use atlas_c.Model.Json.Equal.{deep_equal}
use atlas_c.Model.Json.Clone.{normalize_fields}
use atlas_c.Model.Json.Clone.{all_marshalable}
use atlas_c.Model.Json.Clone.{clone_json_map}
use atlas_c.Model.Json.Entries.{get}
use atlas_c.Service.TaskJson.{task_command_and_parameters_equal}
use atlas_c.Service.TaskJson.{merge_task_json_for_status_transition}
use atlas_c.Store.Tasks.{get_task}
use atlas_c.Service.Tasks.{transition_task_status}
use atlas_c.Events
use atlas_c.Store.Files.{key_of}
use atlas_c.Service.State.{Env}
use atlas_c.Model.Records.{ObjectFile}
use atlas_c.Catalog.Commands.{Catalog, no_catalog}
use atlas_c.Base.{List, false, length, nat_eq, if◌then◌else◌, ◌≡◌, refl, some, none, [], ◌∷◌}
use atlas_c.Base.Assoc.{string_eq, lookup, insert}
use atlas_c.Model.Json.{end}
use atlas_c.Base.Assoc.Evolves.{Evolves}
use atlas_c.Model.Records.{Entity, Task}
use atlas_c.Store.{new_memory_store}
use atlas_c.Store.Integrity.{IsIntact, IsAsset, new_memory_store-IsIntact, put_entity, put_task}
use atlas_c.Service.State.{Services}
use atlas_c.Base.{counts}
use atlas_c.Model.Errors.{conflict}
use atlas_c.Events.Live.{Reach}
use atlas_c.Service.Atomic.{IsLive}
use atlas_c.Service.Atomic.Serve.{failure, serve-failed}
use atlas_c.Base.{◌⊎◌, ok}
use atlas_c.Store.Filed.{IsFiled, Filed}
use atlas_c.Service.Lifecycle.Files.{serve_all-IsFiled}
use atlas_c.Service.Materialize.{catalog_upload}
use atlas_c.Service.Pinned.{load_pinned_catalog}
use atlas_c.Service.Pinned.Verified.{IsVerified, IsStored, load_pinned_catalog-IsVerified}
use atlas_c.Catalog.Commands.{get_active}
use atlas_c.Service.Requests.{Request, serve, serve_all}
use atlas_c.Service.Change.{Allowed, SameEntity, SameObservation, SameTask, SameObject}
use atlas_c.Service.Change.Serve.{serve-Change}
use atlas_c.Service.Lifecycle.{serve-Evolves}
use atlas_c.Service.Lifecycle.Status.{IsFinished}
use atlas_c.Service.Lifecycle.Runs.{IsPresent, Lives, serve_all-Lives, serve_all-finished}
use atlas_c.Tests.Service.{move_to, catalog, env, services, task_json}

abbrev acknowledge : Request
acknowledge = Request.transition_task_status "t1" (record { status = "acknowledged"; json = none })

abbrev stored_asset : Entity
stored_asset = record {
  entity_id = "a1";
  type = "asset";
  subtype = "";
  alias = "";
  json = some end;
  created_at = 1;
  updated_at = 1;
}

abbrev pub pending_task : Task
pending_task = record {
  task_id = "t1";
  status = "pending";
  asset_id = "a1";
  command_catalog_object_id = "command-catalog-00";
  json = some task_json;
  created_at = 2;
  updated_at = 2;
}

-- One asset with a pending task.
abbrev pub started : Services
started = record services {
  stores = record new_memory_store {
    entities = insert "a1" stored_asset [];
    tasks = insert "t1" pending_task [];
  };
  reads = 3;
}

started-IsIntact : IsIntact started.stores
unfolding IsAsset insert lookup
started-IsIntact =
    put_task
      (put_entity new_memory_store-IsIntact stored_asset
        (λ old found. let bad : none ≡ some old = found in cc bad))
      pending_task (stored_asset, refl, refl)

abbrev pub moved_task : Task
moved_task = record pending_task { status = "acknowledged"; updated_at = 3 }

moved : lookup "t1" (serve env acknowledge started).stores.tasks ≡ some moved_task
unfolding serve lookup insert transition_task_status get_task merge_task_json_for_status_transition
    task_command_and_parameters_equal get clone_json_map all_marshalable normalize_fields deep_equal
    load_pinned_catalog get_active object_id_from_content_hash validate_task_command_catalog
    validate_parameters validate_value check_value schema_type to_string_slice update_task publish
    offer_all next_id evict_all Events.publish
moved = refl

serve-Change_example : Allowed started (serve env acknowledge started).stores
serve-Change_example = serve-Change env acknowledge started

serve-Evolves_example :
    Evolves SameEntity started.stores.entities (serve env acknowledge started).stores.entities
    × Evolves SameObservation started.stores.observations
        (serve env acknowledge started).stores.observations
    × Evolves SameTask started.stores.tasks (serve env acknowledge started).stores.tasks
    × Evolves SameObject started.stores.objects (serve env acknowledge started).stores.objects
serve-Evolves_example = serve-Evolves env acknowledge started started-IsIntact

serve_all-Lives_example : Lives pending_task moved_task
unfolding IsPresent serve_all lookup insert
serve_all-Lives_example =
    serve_all-Lives env "t1" (acknowledge ∷ []) started pending_task moved_task started-IsIntact
      ((moved_task, moved), tt) refl moved

abbrev failed_task : Task
failed_task = record pending_task { status = "failed" }

abbrev stopped : Services
stopped = record started {
  stores = record new_memory_store {
    entities = insert "a1" stored_asset [];
    tasks = insert "t1" failed_task [];
  };
}

stopped-IsIntact : IsIntact stopped.stores
unfolding IsAsset insert lookup
stopped-IsIntact =
    put_task
      (put_entity new_memory_store-IsIntact stored_asset
        (λ old found. let bad : none ≡ some old = found in cc bad))
      failed_task (stored_asset, refl, refl)

refused : lookup "t1" (serve env acknowledge stopped).stores.tasks ≡ some failed_task
unfolding serve lookup insert transition_task_status get_task
refused = refl

serve_all-finished_example : failed_task.status ≡ failed_task.status
unfolding IsPresent serve_all lookup insert
serve_all-finished_example =
    serve_all-finished env "t1" (acknowledge ∷ []) stopped failed_task failed_task stopped-IsIntact
      ((failed_task, refused), tt) refl refused IsFinished.failed

-- Deleting an asset that a task depends on.
abbrev forbidden : Request
forbidden = Request.delete_entity "a1"

forbidden-failure :
    failure env forbidden started
    ≡ some (
        conflict "entity" "a1" "dependent_records"
          (("dependents", counts (("tasks", 1) ∷ ("observations", 0) ∷ ("objects", 0) ∷ [])) ∷ []))
unfolding failure insert delete_entity count_entity_dependents count_tasks count_observations
    count_objects
forbidden-failure = refl

serve-failed_example : (serve env forbidden started).stores ≡ started.stores
unfolding IsLive
serve-failed_example =
    serve-failed env forbidden started
      (conflict "entity" "a1" "dependent_records"
        (("dependents", counts (("tasks", 1) ∷ ("observations", 0) ∷ ("objects", 0) ∷ [])) ∷ []))
      Reach.start forbidden-failure

-- An object of the asset, a file of two bytes, two more bytes, and the object again away.
abbrev file_requests : List Request
file_requests =
    Request.create_object (record {
      object_id = "o1";
      type = "log";
      owner_type = "entity";
      owner_id = "a1";
      json = none;
    })
    ∷ Request.upload_object_file (record (catalog_upload catalog) {
      file = record (catalog_upload catalog).file { file_id = "f1"; object_id = "o1" };
    })
    ∷ Request.append_object_file "o1" "f1" (record { bytes = 1 ∷ 2 ∷ []; failure = none }) 100
    ∷ Request.delete_object "o1"
    ∷ []

started-IsFiled : IsFiled started.stores
unfolding Filed lookup
started-IsFiled k f h = cc h

serve_all-IsFiled_example : IsFiled (serve_all env file_requests started).stores
serve_all-IsFiled_example = serve_all-IsFiled env file_requests started started-IsFiled

-- A store that holds a catalog's file of two bytes, and no active catalog.
abbrev parsed_catalog : Catalog
parsed_catalog = record no_catalog { catalog_id = "old"; version = "2"; commands = move_to ∷ [] }

abbrev decoding : Env
decoding = record env {
  unmarshal_catalog = λ bytes. if nat_eq (length bytes) 2 then some parsed_catalog else none;
}

abbrev catalog_file : ObjectFile
catalog_file = record {
  file_id = "catalog-json";
  object_id = "command-catalog-00";
  usage_hint = "";
  path = "";
  content_type = "application/json";
  size_bytes = 2;
  created_at = 1;
  updated_at = 1;
}

abbrev pinned : Services
pinned = record started {
  stores = record new_memory_store {
    object_files = (key_of "command-catalog-00" "catalog-json", catalog_file) ∷ [];
    file_bytes = (key_of "command-catalog-00" "catalog-json", 123 ∷ 125 ∷ []) ∷ [];
  };
  commands = record { catalog = catalog; ready = false };
}

abbrev old_catalog : Catalog
old_catalog = record parsed_catalog {
  raw = 123 ∷ 125 ∷ [];
  by_type = ("move_to", move_to) ∷ [];
  content_hash = "00";
  object_id = "command-catalog-00";
}

loaded : load_pinned_catalog decoding "command-catalog-00" pinned ≡ ok old_catalog
unfolding load_pinned_catalog get_active object_id_from_content_hash open_object_file
    get_object_file lookup read_limited validate validate_snake_case validate_id id_pattern
    is_id_char trim_dots snake_case_pattern scan scan_step contains_string validate_schema
    own_errors unsupported_keywords type_errors get properties_errors keyword_value_errors
    required_errors bound_errors size_errors additional_errors enum_errors index_commands insert
loaded = refl

load_pinned_catalog-IsVerified_example :
    IsVerified decoding "command-catalog-00" pinned old_catalog
    ⊎ IsStored decoding "command-catalog-00" pinned.stores old_catalog
load_pinned_catalog-IsVerified_example =
    load_pinned_catalog-IsVerified decoding pinned "command-catalog-00" old_catalog loaded
