-- ===== src/Service/Atomic/Objects.antt =====
-- The operations on objects and their files leave the stores as they were where they fail.
use atlas_c.Base.{ℕ, suc, refl, String, Option-cases, Result-cases, inl, inr}
use atlas_c.Catalog.Commands.{protection}
use atlas_c.Model.Records.{EventData}
use atlas_c.Store.Objects.{create_object, get_object, update_object, delete_object}
use atlas_c.Store.Uploads.{ObjectUploadInput, create_object_file}
use atlas_c.Store.Files.{Reader, append_object_file, delete_object_file}
use atlas_c.Store.Atomic.{
  create_object-atomic, update_object-atomic, delete_object-atomic, create_object_file-atomic,
  append_object_file-atomic, delete_object_file-atomic,
}
use atlas_c.Service.State.{Env, Services}
use atlas_c.Service.Validation.{require_valid_id}
use atlas_c.Base.Trim.{trim_space}
use atlas_c.Service.Owners.{validate_object_input}
use atlas_c.Service.Objects
use atlas_c.Service.Objects.{
  ObjectCreateInput, ObjectPatchInput, new_object, patched_object, check_object,
  delete_inactive_object, publish_if_found, publish_uploaded,
}
use atlas_c.Service.Atomic.{
  IsLive, IsSettled, Answers, Answers-pure, settles, settles_write, publish-Answers,
  publish_object-Answers, publish_object-pure-Answers,
}

publish_if_found-Answers :
    (env : Env) (object_id : String) (s : Services)
    → IsLive s.publisher
    → Answers (publish_if_found env object_id s)
unfolding publish_if_found
publish_if_found-Answers env object_id s l = elim (Result-cases (get_object object_id s.stores)) [
  | inl (o, e) ↦ rw (e, publish_if_found) (publish_object-Answers env "updated" object_id o s l)
  | inr (er, e) ↦ rw (e, publish_if_found) (record { value = tt; is_value = refl; live = l })
]

publish_uploaded-Answers :
    (env : Env) (object_id : String) (s : Services)
    → IsLive s.publisher
    → Answers (publish_uploaded env object_id s)
unfolding publish_uploaded
publish_uploaded-Answers env object_id s l = elim (Result-cases (get_object object_id s.stores)) [
  | inl (o, e) ↦ rw (e, publish_uploaded) (publish_object-Answers env "updated" o.object_id o s l)
  | inr (er, e) ↦ rw (e, publish_uploaded) (record { value = tt; is_value = refl; live = l })
]

module _ (env : Env) (s : Services) (l : IsLive s.publisher) where
  pub create-IsSettled :
      (input : ObjectCreateInput) → IsSettled s.stores (Objects.create_object env input s)
  unfolding Objects.create_object
  create-IsSettled input =
      settles s.stores (require_valid_id "object_id" input.object_id) _ s refl l (λ _ _.
        settles s.stores
          (validate_object_input s.stores input.object_id (trim_space input.type) input.owner_type
            input.owner_id input.json)
          _ s refl l
          (λ _ _.
            settles_write s.stores
              (create_object (new_object input (env.clock s.reads) (env.clock (suc s.reads)))) _
              (record s { reads = suc (suc s.reads) }) (create_object-atomic _ s.stores) refl l
              (λ o t. publish_object-pure-Answers env "created" o.object_id o o t)))

  pub patch-IsSettled :
      (id : String) (patch : ObjectPatchInput)
      → IsSettled s.stores (Objects.patch_object env id patch s)
  unfolding Objects.patch_object check_object patched_object
  patch-IsSettled id patch = settles s.stores (get_object id s.stores) _ s refl l (λ current _.
      settles s.stores (check_object (patched_object current patch) s).0 _ s refl l (λ _ _.
        settles_write s.stores
          (update_object (record (patched_object current patch) { updated_at = env.clock s.reads }))
          _ (record s { reads = suc s.reads }) (update_object-atomic _ s.stores) refl l
          (λ o t. publish_object-pure-Answers env "updated" o.object_id o o t)))

  pub delete-IsSettled : (id : String) → IsSettled s.stores (Objects.delete_object env id s)
  unfolding Objects.delete_object delete_inactive_object
  delete-IsSettled id = elim (Option-cases (protection s.commands id)) [
    | inr (e, refused) ↦
        rw (refused, delete_inactive_object) (record { failed = λ _ _. refl; live = l })
    | inl free ↦
        rw (free, delete_inactive_object)
          (settles_write s.stores (delete_object id) _ s (delete_object-atomic id s.stores) refl l
            (λ _ t.
              publish-Answers env "object" "deleted" id (EventData.deleted_at (env.clock t.reads))
                (record t { reads = suc t.reads })))
  ]

  pub append-IsSettled :
      (object_id file_id : String) (reader : Reader) (max_bytes : ℕ)
      → IsSettled s.stores (Objects.append_object_file env object_id file_id reader max_bytes s)
  unfolding Objects.append_object_file
  append-IsSettled object_id file_id reader max_bytes =
      settles_write s.stores
        (append_object_file (env.clock s.reads) object_id file_id reader max_bytes) _
        (record s { reads = suc s.reads })
        (append_object_file-atomic _ object_id file_id reader max_bytes s.stores) refl l
        (λ file t live.
          Answers-pure (publish_if_found env object_id) file t
            (publish_if_found-Answers env object_id t live))

  pub delete_file-IsSettled :
      (object_id file_id : String)
      → IsSettled s.stores (Objects.delete_object_file env object_id file_id s)
  unfolding Objects.delete_object_file
  delete_file-IsSettled object_id file_id =
      settles_write s.stores (delete_object_file object_id file_id) _ s
        (delete_object_file-atomic object_id file_id s.stores) refl l
        (λ u t. publish_if_found-Answers env object_id t)

  pub upload-IsSettled :
      (input : ObjectUploadInput) → IsSettled s.stores (Objects.upload_object_file env input s)
  unfolding Objects.upload_object_file
  upload-IsSettled input =
      settles s.stores (require_valid_id "file_id" input.file.file_id) _ s refl l (λ _ _.
        settles_write s.stores (create_object_file env.mime env.files (env.clock s.reads) input) _
          (record s { reads = suc s.reads })
          (create_object_file-atomic env.mime env.files _ input s.stores) refl l
          (λ file t live.
            Answers-pure (publish_uploaded env file.object_id) file t
              (publish_uploaded-Answers env file.object_id t live)))
