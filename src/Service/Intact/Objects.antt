-- ===== src/Service/Intact/Objects.antt =====
-- The operations on objects and their files keep the references of the store.
pub mod Methods
pub mod Owners
use mathlib.Core.Path.{subst}
use atlas_c.Base.{
  ℕ, suc, ◌≡◌, refl, sym, ap, ◌∙◌, String, some, inl, inr, Option-cases, Bool-cases, ok, err,
  Result-cases,
}
use atlas_c.Base.Assoc.{string_eq, lookup}
use atlas_c.Base.Assoc.Stored.{Stored}
use atlas_c.Catalog.Commands.{protection}
use atlas_c.Model.Records.{Object, EventData}
use atlas_c.Store.{MemoryStore}
use atlas_c.Store.Integrity.{IsIntact, HasOwner, Refers, put_object}
use atlas_c.Store.Integrity.Drops.{drop_objects}
use atlas_c.Store.Integrity.Cascade.{drop_object-links}
use atlas_c.Store.Entities.{get_entity}
use atlas_c.Store.Observations.{get_observation}
use atlas_c.Store.Tasks.{get_task}
use atlas_c.Store.Objects.{
  checked, owner_exists, create_object, get_object, update_object, delete_object, is_referenced,
}
use atlas_c.Store.Frame.{create_object_file-frame}
use atlas_c.Store.Uploads.{ObjectUploadInput, create_object_file}
use atlas_c.Store.Files.{
  Reader, get_object_file, read_append, append_object_file, delete_object_file,
}
use atlas_c.Service.State.{Env, Services}
use atlas_c.Service.Validation.{require_valid_id}
use atlas_c.Base.Trim.{trim_space}
use atlas_c.Service.Owners.{validate_object_input}
use atlas_c.Service.Objects
use atlas_c.Service.Objects.{
  ObjectCreateInput, ObjectPatchInput, new_object, patched_object, check_object,
  delete_inactive_object, publish_if_found, publish_uploaded,
}
use atlas_c.Service.Intact.{
  keeps, keeps_write, publish_object-pure, publish_object-stores, publish-stores, returned,
}
use atlas_c.Service.Intact.Entities.{get_entity-found}
use atlas_c.Service.Intact.Observations.{get_observation-found}
use atlas_c.Service.Intact.Tasks.{get_task-found}
use atlas_c.Service.Intact.Objects.Owners.{validate_object_input-IsKnownOwner}
use atlas_c.Service.Intact.Objects.Methods.{
  owner_exists-HasOwner, create_object-IsIntact, update_object-IsIntact, delete_object-IsIntact,
  append_object_file-IsIntact, delete_object_file-IsIntact,
}

pub get_object-found :
    (id : String) (m : MemoryStore) (v : Object)
    → get_object id m ≡ ok v
    → lookup id m.objects ≡ some v
unfolding get_object
get_object-found id m v h = elim (Option-cases (lookup id m.objects)) [
  | inl absent ↦ let bad : err _ ≡ ok v = rw (absent, get_object) at h in cc bad
  | inr (w, found) ↦
      let it : ok w ≡ ok v = rw (found, get_object) at h in
      let it' : w ≡ v = cc it in found ∙ ap some it'
]

delete_inactive_object-IsIntact :
    (id : String) (s : Services)
    → IsIntact s.stores
    → IsIntact (delete_inactive_object id s).1.stores
unfolding delete_inactive_object
delete_inactive_object-IsIntact id s h = elim (Option-cases (protection s.commands id)) [
  | inl free ↦ rw (free, delete_inactive_object) (delete_object-IsIntact id s.stores h)
  | inr (e, refused) ↦ rw (refused, delete_inactive_object) h
]

pub publish_if_found-stores :
    (env : Env) (object_id : String) (s : Services)
    → (publish_if_found env object_id s).1.stores ≡ s.stores
unfolding publish_if_found
publish_if_found-stores env object_id s = elim (Result-cases (get_object object_id s.stores)) [
  | inl (o, e) ↦ rw (e, publish_if_found) (publish_object-stores env "updated" object_id o s)
  | inr (er, e) ↦ rw (e, publish_if_found) refl
]

pub publish_uploaded-stores :
    (env : Env) (object_id : String) (s : Services)
    → (publish_uploaded env object_id s).1.stores ≡ s.stores
unfolding publish_uploaded
publish_uploaded-stores env object_id s = elim (Result-cases (get_object object_id s.stores)) [
  | inl (o, e) ↦ rw (e, publish_uploaded) (publish_object-stores env "updated" o.object_id o s)
  | inr (er, e) ↦ rw (e, publish_uploaded) refl
]

module _ (env : Env) where
  pub upload-IsIntact :
      (input : ObjectUploadInput) (s : Services)
      → IsIntact s.stores
      → IsIntact (Objects.upload_object_file env input s).1.stores
  unfolding Objects.upload_object_file
  upload-IsIntact input s h =
      keeps IsIntact (require_valid_id "file_id" input.file.file_id) _ s h (λ _ _.
        keeps_write IsIntact (create_object_file env.mime env.files (env.clock s.reads) input) _
          (record s { reads = suc s.reads })
          (subst (λ l. Refers l.0 l.1 l.2 l.3)
            (sym (create_object_file-frame env.mime env.files (env.clock s.reads) input s.stores))
            h)
          (λ file t.
            returned (publish_uploaded env file.object_id) file t
              (publish_uploaded-stores env file.object_id t)))

  pub create-IsIntact :
      (input : ObjectCreateInput) (s : Services)
      → IsIntact s.stores
      → IsIntact (Objects.create_object env input s).1.stores
  unfolding Objects.create_object
  create-IsIntact input s h =
      keeps IsIntact (require_valid_id "object_id" input.object_id) _ s h (λ _ _.
        keeps IsIntact
          (validate_object_input s.stores input.object_id (trim_space input.type) input.owner_type
            input.owner_id input.json)
          _ s h
          (λ _ valid.
            keeps_write IsIntact
              (create_object (new_object input (env.clock s.reads) (env.clock (suc s.reads)))) _
              (record s { reads = suc (suc s.reads) })
              (create_object-IsIntact _ s.stores
                (validate_object_input-IsKnownOwner s.stores input.object_id (trim_space input.type)
                  input.owner_type input.owner_id input.json valid)
                h)
              (λ o t. publish_object-pure env "created" o.object_id o o t)))

  pub patch-IsIntact :
      (id : String) (patch : ObjectPatchInput) (s : Services)
      → IsIntact s.stores
      → IsIntact (Objects.patch_object env id patch s).1.stores
  unfolding Objects.patch_object check_object patched_object
  patch-IsIntact id patch s h = keeps IsIntact (get_object id s.stores) _ s h (λ current e.
      let owned = h.object_owner id current (get_object-found id s.stores current e) in
      keeps IsIntact (check_object (patched_object current patch) s).0 _ s h (λ _ _.
        keeps_write IsIntact
          (update_object (record (patched_object current patch) { updated_at = env.clock s.reads }))
          _ (record s { reads = suc s.reads })
          (update_object-IsIntact _ s.stores
            (record {
              known = owned.known;
              entity_owner = owned.entity_owner;
              observation_owner = owned.observation_owner;
              task_owner = owned.task_owner;
            })
            h)
          (λ o t. publish_object-pure env "updated" o.object_id o o t)))

  pub delete-IsIntact :
      (id : String) (s : Services)
      → IsIntact s.stores
      → IsIntact (Objects.delete_object env id s).1.stores
  unfolding Objects.delete_object
  delete-IsIntact id s h =
      let deleted = delete_inactive_object-IsIntact id s h in
      let t = (delete_inactive_object id s).1 in
      keeps IsIntact (delete_inactive_object id s).0 _ t deleted (λ _ _.
        subst IsIntact
          (sym (
            publish-stores env "object" "deleted" id (EventData.deleted_at (env.clock t.reads))
              (record t { reads = suc t.reads })))
          deleted)

  pub append-IsIntact :
      (object_id file_id : String) (reader : Reader) (max_bytes : ℕ) (s : Services)
      → IsIntact s.stores
      → IsIntact (Objects.append_object_file env object_id file_id reader max_bytes s).1.stores
  unfolding Objects.append_object_file
  append-IsIntact object_id file_id reader max_bytes s h =
      keeps_write IsIntact
        (append_object_file (env.clock s.reads) object_id file_id reader max_bytes) _
        (record s { reads = suc s.reads })
        (append_object_file-IsIntact _ object_id file_id reader max_bytes s.stores h)
        (λ file t.
          returned (publish_if_found env object_id) file t
            (publish_if_found-stores env object_id t))

  pub delete_file-IsIntact :
      (object_id file_id : String) (s : Services)
      → IsIntact s.stores
      → IsIntact (Objects.delete_object_file env object_id file_id s).1.stores
  unfolding Objects.delete_object_file
  delete_file-IsIntact object_id file_id s h =
      keeps_write IsIntact (delete_object_file object_id file_id) _ s
        (delete_object_file-IsIntact object_id file_id s.stores h)
        (λ u t. publish_if_found-stores env object_id t)
