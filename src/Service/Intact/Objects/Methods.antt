-- ===== src/Service/Intact/Objects/Methods.antt =====
-- The object methods of the in-memory store keep the references of the store.
use mathlib.Core.Path.{subst}
use atlas_c.Base.{ℕ, ◌≡◌, sym, String, inl, inr, Option-cases, Bool-cases, ok, err, Result-cases}
use atlas_c.Base.Assoc.{string_eq, lookup}
use atlas_c.Base.Assoc.Stored.{Stored}
use atlas_c.Model.Records.{Object}
use atlas_c.Store.{MemoryStore}
use atlas_c.Store.Integrity.{IsIntact, IsKnownOwner, HasOwner, Refers, put_object}
use atlas_c.Store.Integrity.Drops.{drop_objects}
use atlas_c.Store.Integrity.Cascade.{drop_object-links}
use atlas_c.Store.Entities.{get_entity}
use atlas_c.Store.Observations.{get_observation}
use atlas_c.Store.Tasks.{get_task}
use atlas_c.Store.Objects.{
  checked, owner_exists, create_object, update_object, delete_object, is_referenced,
}
use atlas_c.Store.Files.{
  Reader, get_object_file, read_append, append_object_file, delete_object_file,
}
use atlas_c.Service.Intact.Entities.{get_entity-found}
use atlas_c.Service.Intact.Observations.{get_observation-found}
use atlas_c.Service.Intact.Tasks.{get_task-found}

-- The check of the owner finds the record that the object names.
pub owner_exists-HasOwner :
    (o : Object) (m : MemoryStore)
    → IsKnownOwner o.owner_type o.owner_id
    → owner_exists o m ≡ ok tt
    → HasOwner m.entities m.observations m.tasks o
unfolding owner_exists Stored
owner_exists-HasOwner o m known h = record {
  known = known;
  entity_owner = λ is.
      let found : checked (get_entity o.owner_id m) ≡ ok tt = rw (is, owner_exists) at h in
      elim (Result-cases (get_entity o.owner_id m)) [
        | inl (e, got) ↦ (e, get_entity-found o.owner_id m e got)
        | inr (e, failed) ↦ let bad : err e ≡ ok tt = rw failed at found in cc bad
      ];
  observation_owner = λ is.
      let found : checked (get_observation o.owner_id m) ≡ ok tt = rw (is, owner_exists) at h in
      elim (Result-cases (get_observation o.owner_id m)) [
        | inl (e, got) ↦ (e, get_observation-found o.owner_id m e got)
        | inr (e, failed) ↦ let bad : err e ≡ ok tt = rw failed at found in cc bad
      ];
  task_owner = λ is.
      let found : checked (get_task o.owner_id m) ≡ ok tt = rw (is, owner_exists) at h in
      elim (Result-cases (get_task o.owner_id m)) [
        | inl (e, got) ↦ (e, get_task-found o.owner_id m e got)
        | inr (e, failed) ↦ let bad : err e ≡ ok tt = rw failed at found in cc bad
      ];
}

pub create_object-IsIntact :
    (o : Object) (m : MemoryStore)
    → IsKnownOwner o.owner_type o.owner_id
    → IsIntact m
    → IsIntact (create_object o m).1
unfolding create_object
create_object-IsIntact o m known h = elim (Option-cases (lookup o.object_id m.objects)) [
  | inr (old, found) ↦ rw (found, create_object) h
  | inl absent ↦ elim (Result-cases (owner_exists o m)) [
    | inl (u, owned) ↦
        rw (absent, owned, create_object) (put_object h o (owner_exists-HasOwner o m known owned))
    | inr (e, failed) ↦ rw (absent, failed, create_object) h
  ]
]

pub update_object-IsIntact :
    (o : Object) (m : MemoryStore)
    → HasOwner m.entities m.observations m.tasks o
    → IsIntact m
    → IsIntact (update_object o m).1
unfolding update_object
update_object-IsIntact o m owned h = elim (Option-cases (lookup o.object_id m.objects)) [
  | inl absent ↦ rw (absent, update_object) h
  | inr (old, found) ↦ rw (found, update_object) (put_object h o owned)
]

pub delete_object-IsIntact :
    (id : String) (m : MemoryStore) → IsIntact m → IsIntact (delete_object id m).1
unfolding delete_object
delete_object-IsIntact id m h = elim (Option-cases (lookup id m.objects)) [
  | inl absent ↦ rw (absent, delete_object) h
  | inr (old, found) ↦ elim (Bool-cases (is_referenced id m.tasks)) [
    | inl used ↦ rw (found, used, delete_object) h
    | inr unused ↦
        rw (found, unused, delete_object)
          (subst (λ l. Refers l.0 l.1 l.2 l.3) (sym (drop_object-links id m)) (drop_objects h id))
  ]
]

pub append_object_file-IsIntact :
    (now : ℕ) (object_id file_id : String) (reader : Reader) (max_bytes : ℕ) (m : MemoryStore)
    → IsIntact m
    → IsIntact (append_object_file now object_id file_id reader max_bytes m).1
unfolding append_object_file
append_object_file-IsIntact now object_id file_id reader max_bytes m h =
    elim (Result-cases (get_object_file object_id file_id m)) [
      | inr (e, failed) ↦ rw (failed, append_object_file) h
      | inl (file, found) ↦ elim (Result-cases (read_append reader max_bytes)) [
        | inr (e, failed) ↦ rw (found, failed, append_object_file) h
        | inl (bytes, read) ↦ rw (found, read, append_object_file) h
      ]
    ]

pub delete_object_file-IsIntact :
    (object_id file_id : String) (m : MemoryStore)
    → IsIntact m
    → IsIntact (delete_object_file object_id file_id m).1
unfolding delete_object_file
delete_object_file-IsIntact object_id file_id m h =
    elim (Result-cases (get_object_file object_id file_id m)) [
      | inr (e, failed) ↦ rw (failed, delete_object_file) h
      | inl (file, found) ↦ rw (found, delete_object_file) h
    ]
