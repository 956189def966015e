-- ===== src/Store/Integrity/Drops.antt =====
-- Deletions of records to which nothing refers.
use atlas_c.Base.{◌≡◌, ◌≢◌, sym, ◌∙◌, String, some}
use atlas_c.Base.Assoc.{Assoc, string_eq, lookup, delete}
use atlas_c.Base.Assoc.Stored.{delete-cases, Stored-delete, lookup-delete_other}
use atlas_c.Model.Records.{Entity, Observation, Task, Object}
use atlas_c.Store.Integrity.{IsAsset, HasOwner, Refers}

-- Every value that is left after a deletion was there before.
kept :
    {V : Type 0} (k : String) (m : Assoc String V) (P : String → V → Type 0)
    → ((id : String) (v : V) → lookup id m ≡ some v → P id v)
    → (id : String) (v : V) → lookup id (delete k m) ≡ some v
    → P id v
kept k m P h id v found = h id v (delete-cases k id v m found).1

IsAsset-delete :
    (k : String) (m : Assoc String Entity) (id : String)
    → id ≢ k
    → IsAsset m id
    → IsAsset (delete k m) id
unfolding IsAsset
IsAsset-delete k m id n (e, found, asset) =
    (e, lookup-delete_other k id m (λ s. n (sym s)) ∙ found, asset)

module _ {es : Assoc String Entity} {os : Assoc String Observation} {ts : Assoc String Task}
    {bs : Assoc String Object} (h : Refers es os ts bs) (id : String) where
  pub drop_entity :
      ((k : String) (o : Observation) → lookup k os ≡ some o → o.source_asset_id ≢ id)
      → ((k : String) (t : Task) → lookup k ts ≡ some t → t.asset_id ≢ id)
      → ((k : String) (o : Object)
          → lookup k bs ≡ some o
          → o.owner_type ≡ "entity"
          → o.owner_id ≢ id)
      → Refers (delete id es) os ts bs
  drop_entity no_os no_ts no_bs = record {
    entity_key = kept id es (λ k e. e.entity_id ≡ k) h.entity_key;
    observation_key = h.observation_key;
    task_key = h.task_key;
    object_key = h.object_key;
    observation_asset = λ k o found.
        IsAsset-delete id es o.source_asset_id (no_os k o found) (h.observation_asset k o found);
    task_asset =
        λ k t found. IsAsset-delete id es t.asset_id (no_ts k t found) (h.task_asset k t found);
    object_owner = λ k o found.
        let w = h.object_owner k o found in
        record {
          known = w.known;
          entity_owner = λ is.
              Stored-delete id o.owner_id es (λ s. no_bs k o found is (sym s)) (w.entity_owner is);
          observation_owner = w.observation_owner;
          task_owner = w.task_owner;
        };
  }

  pub drop_task :
      ((k : String) (o : Object) → lookup k bs ≡ some o → o.owner_type ≡ "task" → o.owner_id ≢ id)
      → Refers es os (delete id ts) bs
  drop_task no_bs = record {
    entity_key = h.entity_key;
    observation_key = h.observation_key;
    task_key = kept id ts (λ k t. t.task_id ≡ k) h.task_key;
    object_key = h.object_key;
    observation_asset = h.observation_asset;
    task_asset = kept id ts (λ k t. IsAsset es t.asset_id) h.task_asset;
    object_owner = λ k o found.
        let w = h.object_owner k o found in
        record {
          known = w.known;
          entity_owner = w.entity_owner;
          observation_owner = w.observation_owner;
          task_owner = λ is.
              Stored-delete id o.owner_id ts (λ s. no_bs k o found is (sym s)) (w.task_owner is);
        };
  }

  -- An observation, with the objects that are left when those that it owned are gone.
  pub drop_observation :
      (left : Assoc String Object)
      → ((k : String) (o : Object) → lookup k left ≡ some o → lookup k bs ≡ some o)
      → ((k : String) (o : Object)
          → lookup k left ≡ some o
          → o.owner_type ≡ "observation"
          → o.owner_id ≢ id)
      → Refers es (delete id os) ts left
  drop_observation left before no_bs = record {
    entity_key = h.entity_key;
    observation_key = kept id os (λ k o. o.observation_id ≡ k) h.observation_key;
    task_key = h.task_key;
    object_key = λ k o found. h.object_key k o (before k o found);
    observation_asset = kept id os (λ k o. IsAsset es o.source_asset_id) h.observation_asset;
    task_asset = h.task_asset;
    object_owner = λ k o found.
        let w = h.object_owner k o (before k o found) in
        record {
          known = w.known;
          entity_owner = w.entity_owner;
          observation_owner = λ is.
              Stored-delete id o.owner_id os (λ s. no_bs k o found is (sym s))
                (w.observation_owner is);
          task_owner = w.task_owner;
        };
  }

  pub drop_objects : Refers es os ts (delete id bs)
  drop_objects = record {
    entity_key = h.entity_key;
    observation_key = h.observation_key;
    task_key = h.task_key;
    object_key = kept id bs (λ k o. o.object_id ≡ k) h.object_key;
    observation_asset = h.observation_asset;
    task_asset = h.task_asset;
    object_owner = kept id bs (λ k o. HasOwner es os ts o) h.object_owner;
  }
