-- ===== src/Service/Change/Objects.antt =====
-- The operations on objects and their files change the stores as Change allows.
use mathlib.Core.Path.{subst}
use atlas_c.Base.{ℕ, suc, refl, sym, String, Option-cases, inl, inr}
use atlas_c.Catalog.Commands.{protection}
use atlas_c.Model.Records.{EventData}
use atlas_c.Store.Objects.{create_object, get_object, update_object}
use atlas_c.Store.Uploads.{ObjectUploadInput, create_object_file}
use atlas_c.Store.Files.{Reader, append_object_file, delete_object_file}
use atlas_c.Service.State.{Env, Services}
use atlas_c.Service.Validation.{require_valid_id}
use atlas_c.Base.Trim.{trim_space}
use atlas_c.Service.Owners.{validate_object_input}
use atlas_c.Service.Objects
use atlas_c.Service.Objects.{
  ObjectCreateInput, ObjectPatchInput, new_object, patched_object, check_object,
  delete_inactive_object, publish_if_found, publish_uploaded,
}
use atlas_c.Service.Intact.{keeps, keeps_write, publish_object-pure, publish-stores, returned}
use atlas_c.Service.Intact.Objects.{publish_if_found-stores, publish_uploaded-stores}
use atlas_c.Service.Change.{Change, Allowed}

delete_inactive-Change :
    (id : String) (s : Services) → Allowed s (delete_inactive_object id s).1.stores
unfolding delete_inactive_object
delete_inactive-Change id s = elim (Option-cases (protection s.commands id)) [
  | inl free ↦ rw (free, delete_inactive_object) (Change.object_deleted id free)
  | inr (e, refused) ↦ rw (refused, delete_inactive_object) Change.unchanged
]

module _ (env : Env) (s : Services) where
  pub create-Change :
      (input : ObjectCreateInput) → Allowed s (Objects.create_object env input s).1.stores
  unfolding Objects.create_object
  create-Change input =
      keeps (Allowed s) (require_valid_id "object_id" input.object_id) _ s Change.unchanged (λ _ _.
        keeps (Allowed s)
          (validate_object_input s.stores input.object_id (trim_space input.type) input.owner_type
            input.owner_id input.json)
          _ s Change.unchanged
          (λ _ _.
            keeps_write (Allowed s)
              (create_object (new_object input (env.clock s.reads) (env.clock (suc s.reads)))) _
              (record s { reads = suc (suc s.reads) }) (Change.object_created _)
              (λ o t. publish_object-pure env "created" o.object_id o o t)))

  pub patch-Change :
      (id : String) (patch : ObjectPatchInput)
      → Allowed s (Objects.patch_object env id patch s).1.stores
  unfolding Objects.patch_object check_object patched_object
  patch-Change id patch =
      keeps (Allowed s) (get_object id s.stores) _ s Change.unchanged (λ current e.
        keeps (Allowed s) (check_object (patched_object current patch) s).0 _ s Change.unchanged
          (λ _ _.
            keeps_write (Allowed s)
              (update_object
                (record (patched_object current patch) { updated_at = env.clock s.reads }))
              _ (record s { reads = suc s.reads })
              (Change.object_updated id current _ e (record {
                object_id = refl;
                owner_type = refl;
                owner_id = refl;
                created_at = refl;
              }))
              (λ o t. publish_object-pure env "updated" o.object_id o o t)))

  pub delete-Change : (id : String) → Allowed s (Objects.delete_object env id s).1.stores
  unfolding Objects.delete_object
  delete-Change id =
      let deleted = delete_inactive-Change id s in
      let t = (delete_inactive_object id s).1 in
      keeps (Allowed s) (delete_inactive_object id s).0 _ t deleted (λ _ _.
        subst (Allowed s)
          (sym (
            publish-stores env "object" "deleted" id (EventData.deleted_at (env.clock t.reads))
              (record t { reads = suc t.reads })))
          deleted)

  pub append-Change :
      (object_id file_id : String) (reader : Reader) (max_bytes : ℕ)
      → Allowed s (Objects.append_object_file env object_id file_id reader max_bytes s).1.stores
  unfolding Objects.append_object_file
  append-Change object_id file_id reader max_bytes =
      keeps_write (Allowed s)
        (append_object_file (env.clock s.reads) object_id file_id reader max_bytes) _
        (record s { reads = suc s.reads })
        (Change.file_appended _ object_id file_id reader max_bytes)
        (λ file t.
          returned (publish_if_found env object_id) file t
            (publish_if_found-stores env object_id t))

  pub delete_file-Change :
      (object_id file_id : String)
      → Allowed s (Objects.delete_object_file env object_id file_id s).1.stores
  unfolding Objects.delete_object_file
  delete_file-Change object_id file_id =
      keeps_write (Allowed s) (delete_object_file object_id file_id) _ s
        (Change.file_deleted object_id file_id) (λ u t. publish_if_found-stores env object_id t)

  pub upload-Change :
      (input : ObjectUploadInput) → Allowed s (Objects.upload_object_file env input s).1.stores
  unfolding Objects.upload_object_file
  upload-Change input =
      keeps (Allowed s) (require_valid_id "file_id" input.file.file_id) _ s Change.unchanged (λ _ _.
        keeps_write (Allowed s) (create_object_file env.mime env.files (env.clock s.reads) input) _
          (record s { reads = suc s.reads }) (Change.file_created env.mime env.files _ input)
          (λ file t.
            returned (publish_uploaded env file.object_id) file t
              (publish_uploaded-stores env file.object_id t)))
