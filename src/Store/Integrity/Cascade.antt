-- ===== src/Store/Integrity/Cascade.antt =====
-- The loops of the deletions: the files of an object, and the objects of an observation.
use atlas_c.Base.{
  ◌≡◌, refl, sym, ap, ◌∙◌, String, false, some, [], ◌∷◌, ◌==◌, inl, inr, eq_iff, Bool-cases,
}
use atlas_c.Base.Assoc.{Assoc, string_eq, lookup, delete}
use atlas_c.Base.Assoc.Stored.{delete-cases}
use atlas_c.Model.Records.{Entity, Observation, Task, Object, ObjectFile}
use atlas_c.Store.State.{MemoryStore, ObjectFileKey, object_file_key_eq}
use atlas_c.Store.Observations.{drop_files, drop_object, drop_owned, is_owned_by}

-- The maps of the store that are not about files.
abbrev pub Links : Type 0
Links = Assoc String Entity × Assoc String Observation × Assoc String Task × Assoc String Object

abbrev pub links : MemoryStore → Links
links m = (m.entities, m.observations, m.tasks, m.objects)

pub drop_files-links :
    (object_id : String) (files : Assoc ObjectFileKey ObjectFile) (m : MemoryStore)
    → links (drop_files object_id files m) ≡ links m
unfolding drop_files
drop_files-links object_id [] m = refl
drop_files-links object_id ((key, file) ∷ rest) m =
    elim (Bool-cases (file.object_id == object_id)) [
      | inl e ↦ rw (e, drop_files) (drop_files-links object_id rest _)
      | inr e ↦ rw (e, drop_files) (drop_files-links object_id rest m)
    ]

pub drop_object-links :
    (object_id : String) (m : MemoryStore)
    → links (drop_object object_id m)
      ≡ (m.entities, m.observations, m.tasks, delete object_id m.objects)
unfolding drop_object
drop_object-links object_id m = drop_files-links object_id m.object_files _

abbrev pub roots : MemoryStore → Assoc String Entity × Assoc String Observation × Assoc String Task
roots m = (m.entities, m.observations, m.tasks)

pub drop_owned-roots :
    (id : String) (l : Assoc String Object) (m : MemoryStore) → roots (drop_owned id l m) ≡ roots m
unfolding drop_owned
drop_owned-roots id [] m = refl
drop_owned-roots id ((j, v) ∷ rest) m = elim (Bool-cases (is_owned_by "observation" id v)) [
  | inl e ↦
      rw (e, drop_owned)
        (drop_owned-roots id rest (drop_object j m)
          ∙ ap (λ l. (l.0, l.1, l.2)) (drop_object-links j m))
  | inr e ↦ rw (e, drop_owned) (drop_owned-roots id rest m)
]

-- An object that is left was there before, and no entry of the loop held it as an owned one.
pub drop_owned-left :
    (id : String) (l : Assoc String Object) (m : MemoryStore) (k : String) (o : Object)
    → lookup k (drop_owned id l m).objects ≡ some o
    → (lookup k m.objects ≡ some o)
      × ((v : Object) → lookup k l ≡ some v → is_owned_by "observation" id v ≡ false)
unfolding drop_owned lookup
drop_owned-left id [] m k o h = (h, λ v f. cc f)
drop_owned-left id ((j, v) ∷ rest) m k o h = elim (Bool-cases (is_owned_by "observation" id v)) [
  | inl e ↦
      let h' : lookup k (drop_owned id rest (drop_object j m)).objects ≡ some o =
        rw (e, drop_owned) at h in
      let (before, not_later) = drop_owned-left id rest (drop_object j m) k o h' in
      let (other, there) =
        delete-cases j k o m.objects
          (ap (λ l. lookup k l.3) (sym (drop_object-links j m)) ∙ before) in
      (
        there,
        λ w found. elim (Bool-cases (j == k)) [
          | inl same ↦ elim (other ((eq_iff j k).0 same)) [ ]
          | inr differ ↦
              let later : lookup k rest ≡ some w = rw differ at found in not_later w later
        ],
      )
  | inr e ↦
      let h' : lookup k (drop_owned id rest m).objects ≡ some o = rw (e, drop_owned) at h in
      let (before, not_later) = drop_owned-left id rest m k o h' in
      (
        before,
        λ w found. elim (Bool-cases (j == k)) [
          | inl same ↦
              let it : some v ≡ some w = rw same at found in
              let it' : v ≡ w = cc it in ap (λ x. is_owned_by "observation" id x) (sym it') ∙ e
          | inr differ ↦
              let later : lookup k rest ≡ some w = rw differ at found in not_later w later
        ],
      )
]
