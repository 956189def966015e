-- ===== src/Store/Frame.antt =====
-- What the methods of the in-memory store leave as it is.
use atlas_c.Base.{List, ℕ, ◌≡◌, refl, ap, String, Bool-cases, Option-cases, Result-cases, inl, inr}
use atlas_c.Base.Assoc.{Assoc, string_eq, lookup}
use atlas_c.Model.Records.{Entity, Observation, Task, Object, ObjectFile, Time}
use atlas_c.Store.State.{MemoryStore, ObjectFileKey}
use atlas_c.Store.Entities.{create_entity, update_entity, delete_entity}
use atlas_c.Store.Observations.{create_observation, update_observation, delete_observation}
use atlas_c.Store.Tasks.{create_task, update_task, delete_task}
use atlas_c.Store.Objects.{create_object, update_object, delete_object, owner_exists, is_referenced}
use atlas_c.Store.Files.{
  Reader, get_object_file, read_append, append_object_file, delete_object_file,
}
use atlas_c.Model.MediaType.{Mime}
use atlas_c.Store.Staged.{FileSystem}
use atlas_c.Store.Uploads.{ObjectUploadInput, uploaded, create_object_file}
use atlas_c.Store.Integrity.Cascade.{links, roots, drop_object-links, drop_owned-roots}

-- The maps of the store that are about files.
abbrev pub Files : Type 0
Files = Assoc ObjectFileKey ObjectFile × Assoc ObjectFileKey (List ℕ)

abbrev pub files : MemoryStore → Files
files m = (m.object_files, m.file_bytes)

abbrev pub beside_entities :
    MemoryStore → Assoc String Observation × Assoc String Task × Assoc String Object × Files
beside_entities m = (m.observations, m.tasks, m.objects, files m)

abbrev pub beside_observations :
    MemoryStore → Assoc String Entity × Assoc String Task × Assoc String Object × Files
beside_observations m = (m.entities, m.tasks, m.objects, files m)

abbrev pub beside_tasks :
    MemoryStore → Assoc String Entity × Assoc String Observation × Assoc String Object × Files
beside_tasks m = (m.entities, m.observations, m.objects, files m)

pub create_entity-frame :
    (v : Entity) (m : MemoryStore) → beside_entities (create_entity v m).1 ≡ beside_entities m
unfolding create_entity
create_entity-frame v m = elim (Option-cases (lookup v.entity_id m.entities)) [
  | inl absent ↦ rw (absent, create_entity) refl
  | inr (_, found) ↦ rw (found, create_entity) refl
]

pub update_entity-frame :
    (v : Entity) (m : MemoryStore) → beside_entities (update_entity v m).1 ≡ beside_entities m
unfolding update_entity
update_entity-frame v m = elim (Option-cases (lookup v.entity_id m.entities)) [
  | inl absent ↦ rw (absent, update_entity) refl
  | inr (_, found) ↦ rw (found, update_entity) refl
]

pub delete_entity-frame :
    (id : String) (m : MemoryStore) → beside_entities (delete_entity id m).1 ≡ beside_entities m
unfolding delete_entity
delete_entity-frame id m = elim (Option-cases (lookup id m.entities)) [
  | inl absent ↦ rw (absent, delete_entity) refl
  | inr (_, found) ↦ rw (found, delete_entity) refl
]

pub create_observation-frame :
    (v : Observation) (m : MemoryStore)
    → beside_observations (create_observation v m).1 ≡ beside_observations m
unfolding create_observation
create_observation-frame v m = elim (Option-cases (lookup v.observation_id m.observations)) [
  | inl absent ↦ rw (absent, create_observation) refl
  | inr (_, found) ↦ rw (found, create_observation) refl
]

pub update_observation-frame :
    (v : Observation) (m : MemoryStore)
    → beside_observations (update_observation v m).1 ≡ beside_observations m
unfolding update_observation
update_observation-frame v m = elim (Option-cases (lookup v.observation_id m.observations)) [
  | inl absent ↦ rw (absent, update_observation) refl
  | inr (_, found) ↦ rw (found, update_observation) refl
]

pub create_task-frame :
    (v : Task) (m : MemoryStore) → beside_tasks (create_task v m).1 ≡ beside_tasks m
unfolding create_task
create_task-frame v m = elim (Option-cases (lookup v.task_id m.tasks)) [
  | inl absent ↦ rw (absent, create_task) refl
  | inr (_, found) ↦ rw (found, create_task) refl
]

pub update_task-frame :
    (v : Task) (m : MemoryStore) → beside_tasks (update_task v m).1 ≡ beside_tasks m
unfolding update_task
update_task-frame v m = elim (Option-cases (lookup v.task_id m.tasks)) [
  | inl absent ↦ rw (absent, update_task) refl
  | inr (_, found) ↦ rw (found, update_task) refl
]

pub delete_task-frame :
    (id : String) (m : MemoryStore) → beside_tasks (delete_task id m).1 ≡ beside_tasks m
unfolding delete_task
delete_task-frame id m = elim (Option-cases (lookup id m.tasks)) [
  | inl absent ↦ rw (absent, delete_task) refl
  | inr (_, found) ↦ rw (found, delete_task) refl
]

pub update_object-frame : (v : Object) (m : MemoryStore) → roots (update_object v m).1 ≡ roots m
unfolding update_object
update_object-frame v m = elim (Option-cases (lookup v.object_id m.objects)) [
  | inl absent ↦ rw (absent, update_object) refl
  | inr (_, found) ↦ rw (found, update_object) refl
]

pub create_object-frame : (v : Object) (m : MemoryStore) → roots (create_object v m).1 ≡ roots m
unfolding create_object
create_object-frame v m = elim (Option-cases (lookup v.object_id m.objects)) [
  | inr (_, found) ↦ rw (found, create_object) refl
  | inl absent ↦ elim (Result-cases (owner_exists v m)) [
    | inl (_, owned) ↦ rw (absent, owned, create_object) refl
    | inr (_, failed) ↦ rw (absent, failed, create_object) refl
  ]
]

pub delete_object-frame : (id : String) (m : MemoryStore) → roots (delete_object id m).1 ≡ roots m
unfolding delete_object
delete_object-frame id m = elim (Option-cases (lookup id m.objects)) [
  | inl absent ↦ rw (absent, delete_object) refl
  | inr (_, found) ↦ elim (Bool-cases (is_referenced id m.tasks)) [
    | inl used ↦ rw (found, used, delete_object) refl
    | inr unused ↦
        rw (found, unused, delete_object) (ap (λ l. (l.0, l.1, l.2)) (drop_object-links id m))
  ]
]

abbrev pub entities_and_tasks : MemoryStore → Assoc String Entity × Assoc String Task
entities_and_tasks m = (m.entities, m.tasks)

pub delete_observation-frame :
    (id : String) (m : MemoryStore)
    → entities_and_tasks (delete_observation id m).1 ≡ entities_and_tasks m
unfolding delete_observation
delete_observation-frame id m = elim (Option-cases (lookup id m.observations)) [
  | inl absent ↦ rw (absent, delete_observation) refl
  | inr (_, found) ↦
      rw (found, delete_observation) (ap (λ l. (l.0, l.2)) (drop_owned-roots id m.objects _))
]

pub append_object_file-frame :
    (now : Time) (object_id file_id : String) (reader : Reader) (max_bytes : ℕ) (m : MemoryStore)
    → links (append_object_file now object_id file_id reader max_bytes m).1 ≡ links m
unfolding append_object_file
append_object_file-frame now object_id file_id reader max_bytes m =
    elim (Result-cases (get_object_file object_id file_id m)) [
      | inr (_, failed) ↦ rw (failed, append_object_file) refl
      | inl (_, found) ↦ elim (Result-cases (read_append reader max_bytes)) [
        | inr (_, failed) ↦ rw (found, failed, append_object_file) refl
        | inl (_, read) ↦ rw (found, read, append_object_file) refl
      ]
    ]

pub delete_object_file-frame :
    (object_id file_id : String) (m : MemoryStore)
    → links (delete_object_file object_id file_id m).1 ≡ links m
unfolding delete_object_file
delete_object_file-frame object_id file_id m =
    elim (Result-cases (get_object_file object_id file_id m)) [
      | inr (_, failed) ↦ rw (failed, delete_object_file) refl
      | inl (_, found) ↦ rw (found, delete_object_file) refl
    ]

pub create_object_file-frame :
    (mime : Mime) (fs : FileSystem) (now : Time) (input : ObjectUploadInput) (m : MemoryStore)
    → links (create_object_file mime fs now input m).1 ≡ links m
unfolding create_object_file
create_object_file-frame mime fs now input m = elim (Result-cases (uploaded mime fs input m)) [
  | inr (_, failed) ↦ rw (failed, create_object_file) refl
  | inl (_, read) ↦ rw (read, create_object_file) refl
]
