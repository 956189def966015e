-- ===== src/Store/State.antt =====
-- The state of the in-memory store, and how its methods return.
use mathlib.Core.Bool.{and-eq-true_iff}
use atlas_c.Base.{
  ℕ, String, Bool, true, ◌&&◌, ◌≡◌, ◌↔◌, List, [], Result, ok, err, Error, ◌==◌, eq_iff,
}
use atlas_c.Base.Assoc.{Assoc, Eq}
use atlas_c.Model.Records.{Entity, Observation, Task, Object, ObjectFile}

pub record ObjectFileKey : Type 0 where
  pub object_id : String
  pub file_id : String

abbrev pub key_eq : ObjectFileKey → ObjectFileKey → Bool
key_eq a b = a.object_id == b.object_id && a.file_id == b.file_id

pub key_eq_iff : (a b : ObjectFileKey) → (key_eq a b ≡ true) ↔ (a ≡ b)
key_eq_iff a b = (
  λ h.
      let (p, q) = (and-eq-true_iff _ _).0 h in
      let e = (eq_iff a.object_id b.object_id).0 p in
      let f = (eq_iff a.file_id b.file_id).0 q in λ i. record { object_id = e i; file_id = f i },
  λ e. (and-eq-true_iff _ _).1 (
    (eq_iff a.object_id b.object_id).1 (λ i. (e i).object_id),
    (eq_iff a.file_id b.file_id).1 (λ i. (e i).file_id),
  ),
)

instance abbrev pub object_file_key_eq : Eq ObjectFileKey
object_file_key_eq = record { beq = key_eq; beq_iff = key_eq_iff }

pub record DependencyStatus : Type 0 where
  pub status : String
  pub message : String

pub record MemoryStore : Type 0 where
  pub entities : Assoc String Entity
  pub observations : Assoc String Observation
  pub tasks : Assoc String Task
  pub objects : Assoc String Object
  pub object_files : Assoc ObjectFileKey ObjectFile
  pub file_bytes : Assoc ObjectFileKey (List ℕ)
  pub ready : DependencyStatus

-- A method that writes: the result, and the store after it, also where it returns an error.
abbrev pub Method : Type 0 → Type 0
Method A = MemoryStore → Result A × MemoryStore

abbrev pub returns : {A : Type 0} → A → Method A
returns a m = (ok a, m)

abbrev pub fails : {A : Type 0} → Error → Method A
fails e m = (err e, m)

-- NewMemoryStore
abbrev pub new_memory_store : MemoryStore
new_memory_store = record {
  entities = [];
  observations = [];
  tasks = [];
  objects = [];
  object_files = [];
  file_bytes = [];
  ready = record { status = "ready"; message = "" };
}
