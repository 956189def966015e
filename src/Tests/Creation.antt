-- ===== src/Tests/Creation.antt =====
-- Tests of the creation of tasks, and of the storing of catalogs.
use atlas_c.Store.Files.{read_count, mem_upload_limit}
use atlas_c.Store.Files.{read_limited}
use atlas_c.Store.Uploads.{create_object_file}
use atlas_c.Store.Files.{select_files}
use atlas_c.Store.Paging.{sort_slice}
use atlas_c.Store.Files.{list_object_files_for_object}
use atlas_c.Store.Objects.{owner_exists}
use atlas_c.Store.Objects.{create_object}
use atlas_c.Model.Errors.{not_found}
use atlas_c.Store.Objects.{get_object}
use atlas_c.Model.Merge.{read_string_slice}
use atlas_c.Catalog.Value.{to_string_slice}
use atlas_c.Catalog.Value.{schema_type}
use atlas_c.Catalog.Value.{check_value}
use atlas_c.Catalog.Value.{validate_value}
use atlas_c.Catalog.Commands.{validate_parameters}
use atlas_c.Model.Json.Entries.{get}
use atlas_c.Service.Commands.{validate_task_command_catalog}
use atlas_c.Service.Commands.{validate_task_command}
use atlas_c.Catalog.Commands.{get_active}
use atlas_c.Base.Assoc.{lookup}
use atlas_c.Store.Entities.{get_entity}
use atlas_c.Model.Ids.{trim_dots}
use atlas_c.Model.Ids.{is_id_char}
use atlas_c.Model.Ids.{id_pattern}
use atlas_c.Model.Ids.{validate_id}
use atlas_c.Service.Validation.{require_valid_id}
use atlas_c.Service.Publishing.{publish}
use atlas_c.Events
use atlas_c.Events.{offer_all, next_id, evict_all}
use atlas_c.Model.Merge.{normalize_json_map}
use atlas_c.Base.{contains_string, ◌∷◌, ◌⊎◌, ◌≡◌, refl, some, [], ok}
use atlas_c.Base.Assoc.{string_eq, lookup, insert}
use atlas_c.Model.Records.{Entity, Task}
use atlas_c.Store.{new_memory_store, object_file_key_eq}
use atlas_c.Store.Files.{key_of}
use atlas_c.Store.Filed.{IsFiled, Filed}
use atlas_c.Service.Materialize.{materialize, ensure_object}
use atlas_c.Service.Materialize.Stores.{IsBeaten, materialize-stores}
use atlas_c.Service.State.{Services}
use atlas_c.Store.Tasks
use atlas_c.Service.Tasks.{create_task}
use atlas_c.Service.Tasks.Raised.{IsRaised, create_task-IsRaised}
use atlas_c.Tests.Service.{env, catalog, services, task, task_json, asset_json}

abbrev ready_asset : Entity
ready_asset = record {
  entity_id = "a1";
  type = "asset";
  subtype = "";
  alias = "";
  json = some asset_json;
  created_at = 1;
  updated_at = 1;
}

abbrev pub ready : Services
ready = record services {
  stores = record new_memory_store { entities = insert "a1" ready_asset [] };
  reads = 2;
}

abbrev pub raised : Task
raised = record {
  task_id = "t1";
  status = "pending";
  asset_id = "a1";
  command_catalog_object_id = "command-catalog-00";
  json = some task_json;
  created_at = 2;
  updated_at = 3;
}

created : (create_task env task ready).0 ≡ ok raised
unfolding create_task insert require_valid_id validate_id id_pattern is_id_char trim_dots get_entity
    lookup get_active validate_task_command validate_task_command_catalog get validate_parameters
    validate_value check_value schema_type to_string_slice read_string_slice contains_string
    Tasks.create_task publish Events.publish offer_all next_id evict_all normalize_json_map
created = refl

create_task-IsRaised_example : IsRaised env task ready raised
create_task-IsRaised_example = create_task-IsRaised env task ready raised created

new_memory_store-IsFiled : IsFiled new_memory_store
unfolding Filed lookup
new_memory_store-IsFiled k f h = cc h

materialized : (materialize env.mime env.files catalog 1 2 new_memory_store).0 ≡ ok catalog
unfolding materialize get_object lookup not_found create_object owner_exists
    list_object_files_for_object sort_slice select_files create_object_file insert validate_id
    id_pattern is_id_char trim_dots read_limited read_count mem_upload_limit
materialized = refl

materialize-stores_example :
    (catalog ≡ catalog)
    × ((lookup
            (key_of "command-catalog-00" "catalog-json")
            (materialize env.mime env.files catalog 1 2 new_memory_store).1.file_bytes
          ≡ some (123 ∷ []))
        ⊎ IsBeaten env.mime env.files catalog 2 (ensure_object catalog 1 new_memory_store).1)
materialize-stores_example =
    materialize-stores env.mime env.files catalog catalog 1 2 new_memory_store
      new_memory_store-IsFiled materialized
