-- ===== src/Store/Filed.antt =====
-- The files of the in-memory store: what holds of each, and the writes that keep it.
pub mod Methods
use mathlib.Core.Path.{subst}
use mathlib.Core.Bool.{true≢false}
use atlas_c.Base.{
  ℕ, ◌≡◌, ◌≢◌, refl, sym, ap, ◌∙◌, String, Bool, true, false, none, some, List, [], ◌∷◌, length,
  inl, inr, ◌==◌, eq_iff, Bool-cases,
}
use atlas_c.Base.Assoc.{Assoc, string_eq, lookup, insert, delete, lookup-insert, lookup-delete}
use atlas_c.Base.Assoc.Stored.{Stored, Stored-delete}
use atlas_c.Model.Records.{Object, ObjectFile}
use atlas_c.Store.State.{MemoryStore, ObjectFileKey, object_file_key_eq, key_eq, key_eq_iff}
use atlas_c.Store.Observations.{drop_files, drop_object, drop_owned, is_owned_by}
use atlas_c.Store.Integrity.Cascade.{links, drop_files-links}

-- The file stands under its own identifiers, its object is stored, and its size is that of its bytes.
pub record Holds (objects : Assoc String Object) (bytes : Assoc ObjectFileKey (List ℕ))
    (k : ObjectFileKey) (f : ObjectFile) : Type 0 where
  pub object_id : f.object_id ≡ k.object_id
  pub file_id : f.file_id ≡ k.file_id
  pub object : Stored k.object_id objects
  pub content : List ℕ
  pub stored : lookup k bytes ≡ some content
  pub size : f.size_bytes ≡ length content

unfoldable pub Filed :
    Assoc String Object → Assoc ObjectFileKey ObjectFile → Assoc ObjectFileKey (List ℕ) → Type 0
Filed objects files bytes =
    (k : ObjectFileKey) (f : ObjectFile) → lookup k files ≡ some f → Holds objects bytes k f

-- Every file of the store holds.
abbrev pub IsFiled : MemoryStore → Type 0
IsFiled m = Filed m.objects m.object_files m.file_bytes

pub Filed-objects :
    (bs bs' : Assoc String Object) (fs : Assoc ObjectFileKey ObjectFile)
    (ys : Assoc ObjectFileKey (List ℕ))
    → ((id : String) → Stored id bs → Stored id bs')
    → Filed bs fs ys
    → Filed bs' fs ys
unfolding Filed
Filed-objects bs bs' fs ys more filed k f h =
    let w = filed k f h in
    record {
      object_id = w.object_id;
      file_id = w.file_id;
      object = more k.object_id w.object;
      content = w.content;
      stored = w.stored;
      size = w.size;
    }

pub Filed-insert :
    (bs : Assoc String Object) (fs : Assoc ObjectFileKey ObjectFile)
    (ys : Assoc ObjectFileKey (List ℕ)) (key : ObjectFileKey) (file : ObjectFile) (content : List ℕ)
    → file.object_id ≡ key.object_id
    → file.file_id ≡ key.file_id
    → Stored key.object_id bs
    → file.size_bytes ≡ length content
    → Filed bs fs ys
    → Filed bs (insert key file fs) (insert key content ys)
unfolding Filed
Filed-insert bs fs ys key file content own_object own_file there size filed k f h =
    elim (Bool-cases (key_eq key k)) [
      | inl e ↦
          let same : some file ≡ some f = sym (lookup-insert key k file fs ∙ rw e refl) ∙ h in
          let same' : file ≡ f = cc same in
          let at_k = (key_eq_iff key k).0 e in
          subst (Holds bs (insert key content ys) k) same' (record {
            object_id = own_object ∙ ap (λ x. x.object_id) at_k;
            file_id = own_file ∙ ap (λ x. x.file_id) at_k;
            object = subst (λ x. Stored x.object_id bs) at_k there;
            content = content;
            stored = lookup-insert key k content ys ∙ rw e refl;
            size = size;
          })
      | inr e ↦
          let before : lookup k fs ≡ some f = sym (lookup-insert key k file fs ∙ rw e refl) ∙ h in
          let w = filed k f before in
          record {
            object_id = w.object_id;
            file_id = w.file_id;
            object = w.object;
            content = w.content;
            stored = lookup-insert key k content ys ∙ (rw e refl ∙ w.stored);
            size = w.size;
          }
    ]

pub Filed-delete :
    (bs : Assoc String Object) (fs : Assoc ObjectFileKey ObjectFile)
    (ys : Assoc ObjectFileKey (List ℕ)) (key : ObjectFileKey)
    → Filed bs fs ys
    → Filed bs (delete key fs) (delete key ys)
unfolding Filed
Filed-delete bs fs ys key filed k f h = elim (Bool-cases (key_eq key k)) [
  | inl e ↦ let bad : none ≡ some f = sym (lookup-delete key k fs ∙ rw e refl) ∙ h in cc bad
  | inr e ↦
      let before : lookup k fs ≡ some f = sym (lookup-delete key k fs ∙ rw e refl) ∙ h in
      let w = filed k f before in
      record {
        object_id = w.object_id;
        file_id = w.file_id;
        object = w.object;
        content = w.content;
        stored = lookup-delete key k ys ∙ (rw e refl ∙ w.stored);
        size = w.size;
      }
]

-- The loop over the files keeps every file that it leaves, with its bytes.
drop_files-Filed :
    (bs : Assoc String Object) (id : String) (l : Assoc ObjectFileKey ObjectFile) (m : MemoryStore)
    → Filed bs m.object_files m.file_bytes
    → Filed bs (drop_files id l m).object_files (drop_files id l m).file_bytes
unfolding drop_files
drop_files-Filed bs id [] m filed = filed
drop_files-Filed bs id ((key, file) ∷ rest) m filed = elim (Bool-cases (file.object_id == id)) [
  | inl e ↦
      rw (e, drop_files)
        (drop_files-Filed bs id rest _ (Filed-delete bs m.object_files m.file_bytes key filed))
  | inr e ↦ rw (e, drop_files) (drop_files-Filed bs id rest m filed)
]

-- A file that the loop leaves was there, and no entry of the loop held it as one of the object.
drop_files-left :
    (id : String) (l : Assoc ObjectFileKey ObjectFile) (m : MemoryStore) (k : ObjectFileKey)
    (f : ObjectFile)
    → lookup k (drop_files id l m).object_files ≡ some f
    → (lookup k m.object_files ≡ some f)
      × ((v : ObjectFile) → lookup k l ≡ some v → (v.object_id == id) ≡ false)
unfolding drop_files lookup
drop_files-left id [] m k f h = (h, λ v found. cc found)
drop_files-left id ((key, file) ∷ rest) m k f h = elim (Bool-cases (file.object_id == id)) [
  | inl e ↦
      let h' = rw (e, drop_files) at h in
      let (before, not_later) = drop_files-left id rest _ k f h' in
      elim (Bool-cases (key_eq key k)) [
        | inl same ↦
            let bad : none ≡ some f =
              sym (lookup-delete key k m.object_files ∙ rw same refl) ∙ before in
            cc bad
        | inr other ↦ (
          sym (lookup-delete key k m.object_files ∙ rw other refl) ∙ before,
          λ v found. let later : lookup k rest ≡ some v = rw other at found in not_later v later,
        )
      ]
  | inr e ↦
      let h' = rw (e, drop_files) at h in
      let (before, not_later) = drop_files-left id rest m k f h' in
      (
        before,
        λ v found. elim (Bool-cases (key_eq key k)) [
          | inl same ↦
              let it : some file ≡ some v = rw same at found in
              let it' : file ≡ v = cc it in ap (λ x. x.object_id == id) (sym it') ∙ e
          | inr other ↦ let later : lookup k rest ≡ some v = rw other at found in not_later v later
        ],
      )
]

-- An object goes with its files.
pub drop_object-IsFiled : (id : String) (m : MemoryStore) → IsFiled m → IsFiled (drop_object id m)
unfolding drop_object Filed
drop_object-IsFiled id m filed k f h =
    let m' = record m { objects = delete id m.objects } in
    let w = drop_files-Filed m.objects id m.object_files m' filed k f h in
    let (before, kept) = drop_files-left id m.object_files m' k f h in
    let other : k.object_id ≢ id =
      λ e. true≢false (sym ((eq_iff f.object_id id).1 (w.object_id ∙ e)) ∙ kept f before) in
    record {
      object_id = w.object_id;
      file_id = w.file_id;
      object =
          subst (Stored k.object_id) (sym (ap (λ l. l.3) (drop_files-links id m.object_files m')))
            (Stored-delete id k.object_id m.objects (λ e. other (sym e)) w.object);
      content = w.content;
      stored = w.stored;
      size = w.size;
    }

pub drop_owned-IsFiled :
    (id : String) (l : Assoc String Object) (m : MemoryStore)
    → IsFiled m
    → IsFiled (drop_owned id l m)
unfolding drop_owned
drop_owned-IsFiled id [] m filed = filed
drop_owned-IsFiled id ((j, v) ∷ rest) m filed = elim (Bool-cases (is_owned_by "observation" id v)) [
  | inl e ↦
      rw (e, drop_owned)
        (drop_owned-IsFiled id rest (drop_object j m) (drop_object-IsFiled j m filed))
  | inr e ↦ rw (e, drop_owned) (drop_owned-IsFiled id rest m filed)
]
