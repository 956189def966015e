-- ===== src/Store/Atomic.antt =====
-- The methods of the in-memory store change nothing where they fail.
use atlas_c.Base.{
  ℕ, ◌≡◌, refl, String, Bool-cases, Option-cases, Result-cases, inl, inr, Error, ok, err,
}
use atlas_c.Base.Assoc.{string_eq, lookup}
use atlas_c.Model.Records.{Entity, Observation, Task, Object, Time}
use atlas_c.Store.State.{MemoryStore}
use atlas_c.Store.Entities.{create_entity, update_entity, delete_entity}
use atlas_c.Store.Observations.{create_observation, update_observation, delete_observation}
use atlas_c.Store.Tasks.{create_task, update_task, delete_task}
use atlas_c.Store.Objects.{create_object, update_object, delete_object, owner_exists, is_referenced}
use atlas_c.Model.MediaType.{Mime}
use atlas_c.Store.Staged.{FileSystem}
use atlas_c.Store.Uploads.{ObjectUploadInput, uploaded, create_object_file}
use atlas_c.Store.Files.{
  Reader, get_object_file, read_append, append_object_file, delete_object_file,
}

pub create_entity-atomic :
    (v : Entity) (m : MemoryStore) (e : Error)
    → (create_entity v m).0 ≡ err e
    → (create_entity v m).1 ≡ m
unfolding create_entity
create_entity-atomic v m e h = elim (Option-cases (lookup v.entity_id m.entities)) [
  | inl absent ↦ let bad : ok v ≡ err e = rw (absent, create_entity) at h in cc bad
  | inr (_, found) ↦ rw (found, create_entity) refl
]

pub update_entity-atomic :
    (v : Entity) (m : MemoryStore) (e : Error)
    → (update_entity v m).0 ≡ err e
    → (update_entity v m).1 ≡ m
unfolding update_entity
update_entity-atomic v m e h = elim (Option-cases (lookup v.entity_id m.entities)) [
  | inl absent ↦ rw (absent, update_entity) refl
  | inr (_, found) ↦ let bad : ok v ≡ err e = rw (found, update_entity) at h in cc bad
]

pub delete_entity-atomic :
    (id : String) (m : MemoryStore) (e : Error)
    → (delete_entity id m).0 ≡ err e
    → (delete_entity id m).1 ≡ m
unfolding delete_entity
delete_entity-atomic id m e h = elim (Option-cases (lookup id m.entities)) [
  | inl absent ↦ rw (absent, delete_entity) refl
  | inr (_, found) ↦ let bad : ok tt ≡ err e = rw (found, delete_entity) at h in cc bad
]

pub create_observation-atomic :
    (v : Observation) (m : MemoryStore) (e : Error)
    → (create_observation v m).0 ≡ err e
    → (create_observation v m).1 ≡ m
unfolding create_observation
create_observation-atomic v m e h = elim (Option-cases (lookup v.observation_id m.observations)) [
  | inl absent ↦ let bad : ok v ≡ err e = rw (absent, create_observation) at h in cc bad
  | inr (_, found) ↦ rw (found, create_observation) refl
]

pub update_observation-atomic :
    (v : Observation) (m : MemoryStore) (e : Error)
    → (update_observation v m).0 ≡ err e
    → (update_observation v m).1 ≡ m
unfolding update_observation
update_observation-atomic v m e h = elim (Option-cases (lookup v.observation_id m.observations)) [
  | inl absent ↦ rw (absent, update_observation) refl
  | inr (_, found) ↦ let bad : ok v ≡ err e = rw (found, update_observation) at h in cc bad
]

pub delete_observation-atomic :
    (id : String) (m : MemoryStore) (e : Error)
    → (delete_observation id m).0 ≡ err e
    → (delete_observation id m).1 ≡ m
unfolding delete_observation
delete_observation-atomic id m e h = elim (Option-cases (lookup id m.observations)) [
  | inl absent ↦ rw (absent, delete_observation) refl
  | inr (_, found) ↦ let bad : ok tt ≡ err e = rw (found, delete_observation) at h in cc bad
]

pub create_task-atomic :
    (v : Task) (m : MemoryStore) (e : Error) → (create_task v m).0 ≡ err e → (create_task v m).1 ≡ m
unfolding create_task
create_task-atomic v m e h = elim (Option-cases (lookup v.task_id m.tasks)) [
  | inl absent ↦ let bad : ok v ≡ err e = rw (absent, create_task) at h in cc bad
  | inr (_, found) ↦ rw (found, create_task) refl
]

pub update_task-atomic :
    (v : Task) (m : MemoryStore) (e : Error) → (update_task v m).0 ≡ err e → (update_task v m).1 ≡ m
unfolding update_task
update_task-atomic v m e h = elim (Option-cases (lookup v.task_id m.tasks)) [
  | inl absent ↦ rw (absent, update_task) refl
  | inr (_, found) ↦ let bad : ok v ≡ err e = rw (found, update_task) at h in cc bad
]

pub delete_task-atomic :
    (id : String) (m : MemoryStore) (e : Error)
    → (delete_task id m).0 ≡ err e
    → (delete_task id m).1 ≡ m
unfolding delete_task
delete_task-atomic id m e h = elim (Option-cases (lookup id m.tasks)) [
  | inl absent ↦ rw (absent, delete_task) refl
  | inr (_, found) ↦ let bad : ok tt ≡ err e = rw (found, delete_task) at h in cc bad
]

pub update_object-atomic :
    (v : Object) (m : MemoryStore) (e : Error)
    → (update_object v m).0 ≡ err e
    → (update_object v m).1 ≡ m
unfolding update_object
update_object-atomic v m e h = elim (Option-cases (lookup v.object_id m.objects)) [
  | inl absent ↦ rw (absent, update_object) refl
  | inr (_, found) ↦ let bad : ok v ≡ err e = rw (found, update_object) at h in cc bad
]

pub create_object-atomic :
    (v : Object) (m : MemoryStore) (e : Error)
    → (create_object v m).0 ≡ err e
    → (create_object v m).1 ≡ m
unfolding create_object
create_object-atomic v m e h = elim (Option-cases (lookup v.object_id m.objects)) [
  | inr (_, found) ↦ rw (found, create_object) refl
  | inl absent ↦ elim (Result-cases (owner_exists v m)) [
    | inl (_, owned) ↦ let bad : ok v ≡ err e = rw (absent, owned, create_object) at h in cc bad
    | inr (_, failed) ↦ rw (absent, failed, create_object) refl
  ]
]

pub delete_object-atomic :
    (id : String) (m : MemoryStore) (e : Error)
    → (delete_object id m).0 ≡ err e
    → (delete_object id m).1 ≡ m
unfolding delete_object
delete_object-atomic id m e h = elim (Option-cases (lookup id m.objects)) [
  | inl absent ↦ rw (absent, delete_object) refl
  | inr (_, found) ↦ elim (Bool-cases (is_referenced id m.tasks)) [
    | inl used ↦ rw (found, used, delete_object) refl
    | inr unused ↦ let bad : ok tt ≡ err e = rw (found, unused, delete_object) at h in cc bad
  ]
]

pub append_object_file-atomic :
    (now : Time) (object_id file_id : String) (reader : Reader) (max_bytes : ℕ) (m : MemoryStore)
    (e : Error)
    → (append_object_file now object_id file_id reader max_bytes m).0 ≡ err e
    → (append_object_file now object_id file_id reader max_bytes m).1 ≡ m
unfolding append_object_file
append_object_file-atomic now object_id file_id reader max_bytes m e h =
    elim (Result-cases (get_object_file object_id file_id m)) [
      | inr (_, failed) ↦ rw (failed, append_object_file) refl
      | inl (_, found) ↦ elim (Result-cases (read_append reader max_bytes)) [
        | inr (_, failed) ↦ rw (found, failed, append_object_file) refl
        | inl (_, read) ↦
            let bad : ok _ ≡ err e = rw (found, read, append_object_file) at h in cc bad
      ]
    ]

pub delete_object_file-atomic :
    (object_id file_id : String) (m : MemoryStore) (e : Error)
    → (delete_object_file object_id file_id m).0 ≡ err e
    → (delete_object_file object_id file_id m).1 ≡ m
unfolding delete_object_file
delete_object_file-atomic object_id file_id m e h =
    elim (Result-cases (get_object_file object_id file_id m)) [
      | inr (_, failed) ↦ rw (failed, delete_object_file) refl
      | inl (_, found) ↦ let bad : ok tt ≡ err e = rw (found, delete_object_file) at h in cc bad
    ]

pub create_object_file-atomic :
    (mime : Mime) (fs : FileSystem) (now : Time) (input : ObjectUploadInput) (m : MemoryStore)
    (e : Error)
    → (create_object_file mime fs now input m).0 ≡ err e
    → (create_object_file mime fs now input m).1 ≡ m
unfolding create_object_file
create_object_file-atomic mime fs now input m e h = elim (Result-cases (uploaded mime fs input m)) [
  | inr (_, failed) ↦ rw (failed, create_object_file) refl
  | inl (_, read) ↦ let bad : ok _ ≡ err e = rw (read, create_object_file) at h in cc bad
]
