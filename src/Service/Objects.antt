-- ===== src/Service/Objects.antt =====
-- internal/service/service.go: the operations on objects and their files.
use atlas_c.Base.{ℕ, String, Option, none, some, List, ok, err}
use atlas_c.Model.Json.{JsonMap}
use atlas_c.Model.Merge.{normalize_json_map, merge_named_sections}
use atlas_c.Model.Pagination.{Pagination}
use atlas_c.Model.Records.{Object, ObjectFile, EventData, Time}
use atlas_c.Catalog.Commands.{protection}
use atlas_c.Store.Objects
use atlas_c.Store.Objects.{ObjectListFilter}
use atlas_c.Store.Files
use atlas_c.Store.Files.{Reader}
use atlas_c.Store.Uploads
use atlas_c.Store.Uploads.{ObjectUploadInput}
use atlas_c.Service.State.{Env, Action, ◌>>=◌, ◌>>◌, pure, throw, lift, reading, writing, gets, now}
use atlas_c.Service.Validation.{require_valid_id}
use atlas_c.Base.Trim.{trim_space}
use atlas_c.Service.Owners.{validate_object_input}
use atlas_c.Service.Publishing.{publish, publish_object}

pub record ObjectCreateInput : Type 0 where
  pub object_id : String
  pub type : String
  pub owner_type : String
  pub owner_id : String
  pub json : JsonMap

-- A nil pointer is none.
pub record ObjectPatchInput : Type 0 where
  pub type : Option String
  pub json : JsonMap

unfoldable pub patched_object : Object → ObjectPatchInput → Object
patched_object current patch = record current {
  type = elim patch.type [ none ↦ current.type | some given ↦ trim_space given ];
  json = merge_named_sections current.json patch.json;
}

-- The call of validateObjectInput, which reads the stores.
unfoldable pub check_object : Object → Action (Unit {0})
check_object o s =
    (validate_object_input s.stores o.object_id o.type o.owner_type o.owner_id o.json, s)

-- The record that create_object stores.
abbrev pub new_object : ObjectCreateInput → Time → Time → Object
new_object input created_at updated_at = record {
  object_id = input.object_id;
  type = trim_space input.type;
  owner_type = input.owner_type;
  owner_id = input.owner_id;
  json = normalize_json_map input.json;
  created_at = created_at;
  updated_at = updated_at;
}

-- GetObject
unfoldable pub get_object : String → Action Object
get_object id = reading (Objects.get_object id)

-- ListObjects
unfoldable pub list_objects : ObjectListFilter → Pagination → Action (List Object × ℕ)
list_objects filter page = reading (Objects.list_objects filter page)

-- GetObjectFile
unfoldable pub get_object_file : String → String → Action ObjectFile
get_object_file object_id file_id = reading (Files.get_object_file object_id file_id)

-- OpenObjectFile
unfoldable pub open_object_file : String → String → Action (ObjectFile × List ℕ)
open_object_file object_id file_id = reading (Files.open_object_file object_id file_id)

-- RunWhileObjectInactive around the store's DeleteObject: the guard holds while the call runs.
unfoldable pub delete_inactive_object : String → Action (Unit {0})
delete_inactive_object id s = elim (protection s.commands id) [
  | some e ↦ throw e s
  | none ↦ writing (Objects.delete_object id) s
]

module _ (env : Env) where
  -- CreateObject
  unfoldable pub create_object : ObjectCreateInput → Action Object
  unfolding check_object
  create_object input = do
    lift (require_valid_id "object_id" input.object_id)
    s ← gets (λ s. s.stores)
    let object_type = trim_space input.type
    lift (
        validate_object_input s input.object_id object_type input.owner_type input.owner_id
          input.json)
    created_at ← now env
    updated_at ← now env
    created ← writing (Objects.create_object (new_object input created_at updated_at))
    publish_object env "created" created.object_id created
    pure created

  -- PatchObject
  unfoldable pub patch_object : String → ObjectPatchInput → Action Object
  unfolding patched_object check_object
  patch_object id patch = do
    current ← reading (Objects.get_object id)
    let next = patched_object current patch
    check_object next
    updated_at ← now env
    updated ← writing (Objects.update_object (record next { updated_at = updated_at }))
    publish_object env "updated" updated.object_id updated
    pure updated

  -- DeleteObject
  unfoldable pub delete_object : String → Action (Unit {0})
  unfolding delete_inactive_object
  delete_object id = do
    delete_inactive_object id
    deleted_at ← now env
    publish env "object" "deleted" id (EventData.deleted_at deleted_at)

  -- `object, err := s.stores.GetObject(...)`, and an event where there is no error
  unfoldable pub publish_if_found : String → Action (Unit {0})
  publish_if_found object_id = do
    found ← gets (λ s. Objects.get_object object_id s.stores)
    elim found [ err _ ↦ pure tt | ok object ↦ publish_object env "updated" object_id object ]

  -- The event of an upload, under the identifier that the stored object has.
  unfoldable pub publish_uploaded : String → Action (Unit {0})
  publish_uploaded object_id = do
    found ← gets (λ s. Objects.get_object object_id s.stores)
    elim found [
      | err _ ↦ pure tt
      | ok object ↦ publish_object env "updated" object.object_id object
    ]

  -- UploadObjectFile; the store reads the clock for the file's times. The read is counted also where
  -- the store fails before it; the clock is any function of the read's number.
  unfoldable pub upload_object_file : ObjectUploadInput → Action ObjectFile
  unfolding publish_uploaded
  upload_object_file input = do
    lift (require_valid_id "file_id" input.file.file_id)
    time ← now env
    file ← writing (Uploads.create_object_file env.mime env.files time input)
    publish_uploaded file.object_id
    pure file

  -- AppendObjectFile; the store reads the clock for the file's time, counted as in an upload.
  unfoldable pub append_object_file : String → String → Reader → ℕ → Action ObjectFile
  unfolding publish_if_found
  append_object_file object_id file_id reader max_bytes = do
    time ← now env
    file ← writing (Files.append_object_file time object_id file_id reader max_bytes)
    publish_if_found object_id
    pure file

  -- DeleteObjectFile
  unfoldable pub delete_object_file : String → String → Action (Unit {0})
  unfolding publish_if_found
  delete_object_file object_id file_id = do
    writing (Files.delete_object_file object_id file_id)
    publish_if_found object_id
