-- ===== src/Store/Integrity.antt =====
-- The references between the records of the in-memory store, and the writes that keep them.
pub mod Counts
pub mod Cascade
pub mod Drops
use mathlib.Core.Path.{subst}
use atlas_c.Base.{
  ◌≡◌, ◌≢◌, refl, sym, ap, ◌∙◌, String, Bool, true, false, Option, none, some, ◌⊎◌, inl, inr,
}
use atlas_c.Base.Assoc.{Assoc, string_eq, lookup, insert, delete}
use atlas_c.Base.Assoc.Stored.{
  Stored, insert-cases, delete-cases, Stored-insert, Stored-delete, lookup-insert_other,
  lookup-delete_other,
}
use atlas_c.Model.Records.{Entity, Observation, Task, Object}
use atlas_c.Store.State.{MemoryStore, new_memory_store}

-- An entity of type "asset" is stored under the identifier.
unfoldable pub IsAsset : Assoc String Entity → String → Type 0
IsAsset entities id = (e : Entity) × (lookup id entities ≡ some e) × (e.type ≡ "asset")

-- The owner is of one of four types, and the system has only one.
unfoldable pub IsKnownOwner : String → String → Type 0
IsKnownOwner type id =
    (type ≡ "entity")
    ⊎ ((type ≡ "observation")
        ⊎ ((type ≡ "task") ⊎ ((type ≡ "system") × (id ≡ "active_command_catalog"))))

-- The owner that an object names is the system's catalog or a stored record of the type it names.
pub record HasOwner (entities : Assoc String Entity) (observations : Assoc String Observation)
    (tasks : Assoc String Task) (o : Object) : Type 0 where
  pub known : IsKnownOwner o.owner_type o.owner_id
  pub entity_owner : o.owner_type ≡ "entity" → Stored o.owner_id entities
  pub observation_owner : o.owner_type ≡ "observation" → Stored o.owner_id observations
  pub task_owner : o.owner_type ≡ "task" → Stored o.owner_id tasks

-- Every record stands under its own identifier, and every record that it refers to is stored.
pub record Refers (entities : Assoc String Entity) (observations : Assoc String Observation)
    (tasks : Assoc String Task) (objects : Assoc String Object) : Type 0 where
  pub entity_key : (id : String) (e : Entity) → lookup id entities ≡ some e → e.entity_id ≡ id
  pub observation_key :
      (id : String) (o : Observation) → lookup id observations ≡ some o → o.observation_id ≡ id
  pub task_key : (id : String) (t : Task) → lookup id tasks ≡ some t → t.task_id ≡ id
  pub object_key : (id : String) (o : Object) → lookup id objects ≡ some o → o.object_id ≡ id
  pub observation_asset :
      (id : String) (o : Observation)
      → lookup id observations ≡ some o
      → IsAsset entities o.source_asset_id
  pub task_asset : (id : String) (t : Task) → lookup id tasks ≡ some t → IsAsset entities t.asset_id
  pub object_owner :
      (id : String) (o : Object)
      → lookup id objects ≡ some o
      → HasOwner entities observations tasks o

-- Referential integrity of the store; the files are keyed by their objects and refer to nothing else.
abbrev pub IsIntact : MemoryStore → Type 0
IsIntact m = Refers m.entities m.observations m.tasks m.objects

pub new_memory_store-IsIntact : IsIntact new_memory_store
unfolding lookup
new_memory_store-IsIntact = record {
  entity_key = λ id e h. cc h;
  observation_key = λ id o h. cc h;
  task_key = λ id t h. cc h;
  object_key = λ id o h. cc h;
  observation_asset = λ id o h. cc h;
  task_asset = λ id t h. cc h;
  object_owner = λ id o h. cc h;
}

-- A write under an item's own identifier keeps every item under its own.
own_key :
    {V : Type 0} (key : V → String) (v : V) (m : Assoc String V)
    → ((id : String) (w : V) → lookup id m ≡ some w → key w ≡ id)
    → (id : String) (w : V) → lookup id (insert (key v) v m) ≡ some w
    → key w ≡ id
own_key key v m keyed id w h = elim (insert-cases (key v) id v w m h) [
  | inl (e, same) ↦ sym (ap key same) ∙ e
  | inr before ↦ keyed id w before
]

IsAsset-insert :
    (e : Entity) (m : Assoc String Entity) (id : String)
    → ((old : Entity) → lookup e.entity_id m ≡ some old → e.type ≡ old.type)
    → IsAsset m id
    → IsAsset (insert e.entity_id e m) id
unfolding IsAsset Stored
IsAsset-insert e m id same (old, found, asset) =
    let (w, stored) = Stored-insert e.entity_id id e m (old, found) in
    (
      w,
      stored,
      elim (insert-cases e.entity_id id e w m stored) [
        | inl (key, it) ↦
            ap (λ x. x.type) (sym it) ∙ same old (ap (λ k. lookup k m) key ∙ found) ∙ asset
        | inr before ↦
            let it : some w ≡ some old = sym before ∙ found in
            ap (λ x. elim x [ none ↦ "" | some y ↦ y.type ]) it ∙ asset
      ],
    )

module _ {es : Assoc String Entity} {os : Assoc String Observation} {ts : Assoc String Task}
    {bs : Assoc String Object} (h : Refers es os ts bs) where
  -- A new entity, or an old one with its type kept.
  pub put_entity :
      (e : Entity)
      → ((old : Entity) → lookup e.entity_id es ≡ some old → e.type ≡ old.type)
      → Refers (insert e.entity_id e es) os ts bs
  put_entity e same = record {
    entity_key = own_key (λ x. x.entity_id) e es h.entity_key;
    observation_key = h.observation_key;
    task_key = h.task_key;
    object_key = h.object_key;
    observation_asset =
        λ id o found. IsAsset-insert e es o.source_asset_id same (h.observation_asset id o found);
    task_asset = λ id t found. IsAsset-insert e es t.asset_id same (h.task_asset id t found);
    object_owner = λ id o found.
        let w = h.object_owner id o found in
        record {
          known = w.known;
          entity_owner = λ is. Stored-insert e.entity_id o.owner_id e es (w.entity_owner is);
          observation_owner = w.observation_owner;
          task_owner = w.task_owner;
        };
  }

  pub put_observation :
      (v : Observation)
      → IsAsset es v.source_asset_id
      → Refers es (insert v.observation_id v os) ts bs
  put_observation v asset = record {
    entity_key = h.entity_key;
    observation_key = own_key (λ x. x.observation_id) v os h.observation_key;
    task_key = h.task_key;
    object_key = h.object_key;
    observation_asset = λ id o found. elim (insert-cases v.observation_id id v o os found) [
      | inl (key, it) ↦ subst (λ x. IsAsset es x.source_asset_id) it asset
      | inr before ↦ h.observation_asset id o before
    ];
    task_asset = h.task_asset;
    object_owner = λ id o found.
        let w = h.object_owner id o found in
        record {
          known = w.known;
          entity_owner = w.entity_owner;
          observation_owner =
              λ is. Stored-insert v.observation_id o.owner_id v os (w.observation_owner is);
          task_owner = w.task_owner;
        };
  }

  pub put_task : (v : Task) → IsAsset es v.asset_id → Refers es os (insert v.task_id v ts) bs
  put_task v asset = record {
    entity_key = h.entity_key;
    observation_key = h.observation_key;
    task_key = own_key (λ x. x.task_id) v ts h.task_key;
    object_key = h.object_key;
    observation_asset = h.observation_asset;
    task_asset = λ id t found. elim (insert-cases v.task_id id v t ts found) [
      | inl (key, it) ↦ subst (λ x. IsAsset es x.asset_id) it asset
      | inr before ↦ h.task_asset id t before
    ];
    object_owner = λ id o found.
        let w = h.object_owner id o found in
        record {
          known = w.known;
          entity_owner = w.entity_owner;
          observation_owner = w.observation_owner;
          task_owner = λ is. Stored-insert v.task_id o.owner_id v ts (w.task_owner is);
        };
  }

  pub put_object : (v : Object) → HasOwner es os ts v → Refers es os ts (insert v.object_id v bs)
  put_object v owned = record {
    entity_key = h.entity_key;
    observation_key = h.observation_key;
    task_key = h.task_key;
    object_key = own_key (λ x. x.object_id) v bs h.object_key;
    observation_asset = h.observation_asset;
    task_asset = h.task_asset;
    object_owner = λ id o found. elim (insert-cases v.object_id id v o bs found) [
      | inl (key, it) ↦ subst (HasOwner es os ts) it owned
      | inr before ↦ h.object_owner id o before
    ];
  }
