-- ===== src/Store/Filed/Methods.antt =====
-- The methods of the in-memory store keep what holds of its files.
use atlas_c.Base.{
  ℕ, ◌≡◌, refl, ap, ◌∙◌, String, some, ok, err, inl, inr, ◌==◌, Bool-cases, Option-cases,
  Result-cases, after-eq-ok,
}
use atlas_c.Base.Assoc.{string_eq, lookup, insert}
use atlas_c.Base.Assoc.Stored.{Stored, Stored-insert}
use atlas_c.Model.MediaType.{Mime}
use atlas_c.Model.Records.{Object, ObjectFile, Time}
use atlas_c.Store.State.{MemoryStore, object_file_key_eq}
use atlas_c.Store.Observations.{delete_observation}
use atlas_c.Store.Objects.{create_object, update_object, delete_object, owner_exists, is_referenced}
use atlas_c.Store.Files.{
  Reader, key_of, get_object_file, read_append, append_object_file, delete_object_file,
}
use atlas_c.Store.Staged.{FileSystem}
use atlas_c.Store.Uploads.{
  ObjectUploadInput, check_upload, uploaded, new_object_file, create_object_file,
}
use atlas_c.Store.Filed.{
  IsFiled, Filed, Filed-objects, Filed-insert, Filed-delete, drop_object-IsFiled,
  drop_owned-IsFiled,
}

insert-IsFiled :
    (v : Object) (m : MemoryStore)
    → IsFiled m
    → IsFiled (record m { objects = insert v.object_id v m.objects })
insert-IsFiled v m =
    Filed-objects m.objects (insert v.object_id v m.objects) m.object_files m.file_bytes
      (λ id. Stored-insert v.object_id id v m.objects)

pub create_object-IsFiled :
    (v : Object) (m : MemoryStore) → IsFiled m → IsFiled (create_object v m).1
unfolding create_object
create_object-IsFiled v m filed = elim (Option-cases (lookup v.object_id m.objects)) [
  | inr (_, found) ↦ rw (found, create_object) filed
  | inl absent ↦ elim (Result-cases (owner_exists v m)) [
    | inl (_, owned) ↦ rw (absent, owned, create_object) (insert-IsFiled v m filed)
    | inr (_, failed) ↦ rw (absent, failed, create_object) filed
  ]
]

pub update_object-IsFiled :
    (v : Object) (m : MemoryStore) → IsFiled m → IsFiled (update_object v m).1
unfolding update_object
update_object-IsFiled v m filed = elim (Option-cases (lookup v.object_id m.objects)) [
  | inl absent ↦ rw (absent, update_object) filed
  | inr (_, found) ↦ rw (found, update_object) (insert-IsFiled v m filed)
]

pub delete_object-IsFiled :
    (id : String) (m : MemoryStore) → IsFiled m → IsFiled (delete_object id m).1
unfolding delete_object
delete_object-IsFiled id m filed = elim (Option-cases (lookup id m.objects)) [
  | inl absent ↦ rw (absent, delete_object) filed
  | inr (_, found) ↦ elim (Bool-cases (is_referenced id m.tasks)) [
    | inl used ↦ rw (found, used, delete_object) filed
    | inr unused ↦ rw (found, unused, delete_object) (drop_object-IsFiled id m filed)
  ]
]

pub delete_observation-IsFiled :
    (id : String) (m : MemoryStore) → IsFiled m → IsFiled (delete_observation id m).1
unfolding delete_observation
delete_observation-IsFiled id m filed = elim (Option-cases (lookup id m.observations)) [
  | inl absent ↦ rw (absent, delete_observation) filed
  | inr (_, found) ↦ rw (found, delete_observation) (drop_owned-IsFiled id m.objects _ filed)
]

-- What get_object_file returns is what is stored.
pub get_object_file-found :
    (object_id file_id : String) (m : MemoryStore) (f : ObjectFile)
    → get_object_file object_id file_id m ≡ ok f
    → lookup (key_of object_id file_id) m.object_files ≡ some f
unfolding get_object_file
get_object_file-found object_id file_id m f h =
    elim (Option-cases (lookup (key_of object_id file_id) m.object_files)) [
      | inl absent ↦ let bad : err _ ≡ ok f = rw (absent, get_object_file) at h in cc bad
      | inr (g, found) ↦ elim (Bool-cases (g.object_id == object_id)) [
        | inl e ↦
            let it : ok g ≡ ok f = rw (found, e, get_object_file) at h in
            let it' : g ≡ f = cc it in found ∙ ap some it'
        | inr e ↦ let bad : err _ ≡ ok f = rw (found, e, get_object_file) at h in cc bad
      ]
    ]

pub append_object_file-IsFiled :
    (now : Time) (object_id file_id : String) (reader : Reader) (max_bytes : ℕ) (m : MemoryStore)
    → IsFiled m
    → IsFiled (append_object_file now object_id file_id reader max_bytes m).1
unfolding append_object_file Filed
append_object_file-IsFiled now object_id file_id reader max_bytes m filed =
    elim (Result-cases (get_object_file object_id file_id m)) [
      | inr (_, failed) ↦ rw (failed, append_object_file) filed
      | inl (f, found) ↦ elim (Result-cases (read_append reader max_bytes)) [
        | inr (_, failed) ↦ rw (found, failed, append_object_file) filed
        | inl (_, read) ↦
            let w =
              filed (key_of object_id file_id) f
                (get_object_file-found object_id file_id m f found) in
            rw (found, read, append_object_file)
              (Filed-insert m.objects m.object_files m.file_bytes (key_of object_id file_id) _ _
                w.object_id w.file_id w.object refl filed)
      ]
    ]

pub delete_object_file-IsFiled :
    (object_id file_id : String) (m : MemoryStore)
    → IsFiled m
    → IsFiled (delete_object_file object_id file_id m).1
unfolding delete_object_file
delete_object_file-IsFiled object_id file_id m filed =
    elim (Result-cases (get_object_file object_id file_id m)) [
      | inr (_, failed) ↦ rw (failed, delete_object_file) filed
      | inl (_, found) ↦
          rw (found, delete_object_file)
            (Filed-delete m.objects m.object_files m.file_bytes (key_of object_id file_id) filed)
    ]

check_upload-Stored :
    (f : ObjectFile) (m : MemoryStore) → check_upload f m ≡ ok tt → Stored f.object_id m.objects
unfolding check_upload Stored
check_upload-Stored f m h = elim (Option-cases (lookup f.object_id m.objects)) [
  | inl absent ↦ let bad : err _ ≡ ok tt = rw (absent, check_upload) at h in cc bad
  | inr (o, found) ↦ (o, found)
]

pub create_object_file-IsFiled :
    (mime : Mime) (fs : FileSystem) (now : Time) (input : ObjectUploadInput) (m : MemoryStore)
    → IsFiled m
    → IsFiled (create_object_file mime fs now input m).1
unfolding create_object_file uploaded new_object_file
create_object_file-IsFiled mime fs now input m filed =
    elim (Result-cases (uploaded mime fs input m)) [
      | inr (_, failed) ↦ rw (failed, create_object_file) filed
      | inl (bytes, read) ↦
          let (_, checked, _) = after-eq-ok (check_upload input.file m) _ read in
          rw (read, create_object_file)
            (Filed-insert m.objects m.object_files m.file_bytes
              (key_of input.file.object_id input.file.file_id) _ bytes refl refl
              (check_upload-Stored input.file m checked) refl filed)
    ]
