-- ===== src/Service/Intact/Observations.antt =====
-- The operations on observations keep the references of the store.
use mathlib.Core.Path.{subst}
use mathlib.Core.Bool.{true≢false}
use atlas_c.Base.{
  suc, ◌≡◌, ◌≢◌, sym, ap, ◌∙◌, String, true, false, some, inl, inr, Option-cases, Bool-cases, ok,
  err, ◌==◌, eq_iff,
}
use atlas_c.Base.Assoc.{string_eq, lookup, delete}
use atlas_c.Model.Records.{Entity, Observation, Object, EventData}
use atlas_c.Store.{MemoryStore}
use atlas_c.Store.Integrity.{IsIntact, IsAsset, Refers, put_observation}
use atlas_c.Store.Integrity.Drops.{drop_observation}
use atlas_c.Store.Integrity.Cascade.{drop_owned-roots, drop_owned-left}
use atlas_c.Store.Entities.{get_entity}
use atlas_c.Store.Observations.{
  create_observation, get_observation, update_observation, delete_observation, drop_owned,
  is_owned_by,
}
use atlas_c.Service.State.{Env, Services}
use atlas_c.Service.Validation.{validate_observation_json, require_valid_id}
use atlas_c.Service.Entities.{require_asset}
use atlas_c.Service.Observations
use atlas_c.Service.Observations.{
  ObservationCreateInput, ObservationPatchInput, new_observation, patched_observation,
  check_observation,
}
use atlas_c.Service.Intact.{keeps, keeps_write, publish-pure, publish-stores}
use atlas_c.Service.Intact.Entities.{get_entity-found}

-- An entity that was read and passed the check of its type.
pub require_asset-IsAsset :
    (name message id : String) (e : Entity) (m : MemoryStore)
    → get_entity id m ≡ ok e
    → require_asset name message e ≡ ok tt
    → IsAsset m.entities id
unfolding require_asset IsAsset
require_asset-IsAsset name message id e m found is = elim (Bool-cases (e.type == "asset")) [
  | inl asset ↦ (e, get_entity-found id m e found, (eq_iff e.type "asset").0 asset)
  | inr other ↦ let bad : err _ ≡ ok tt = rw (other, require_asset) at is in cc bad
]

create_observation-IsIntact :
    (v : Observation) (m : MemoryStore)
    → IsAsset m.entities v.source_asset_id
    → IsIntact m
    → IsIntact (create_observation v m).1
unfolding create_observation
create_observation-IsIntact v m asset h =
    elim (Option-cases (lookup v.observation_id m.observations)) [
      | inl absent ↦ rw (absent, create_observation) (put_observation h v asset)
      | inr (old, found) ↦ rw (found, create_observation) h
    ]

update_observation-IsIntact :
    (v : Observation) (m : MemoryStore)
    → IsAsset m.entities v.source_asset_id
    → IsIntact m
    → IsIntact (update_observation v m).1
unfolding update_observation
update_observation-IsIntact v m asset h =
    elim (Option-cases (lookup v.observation_id m.observations)) [
      | inl absent ↦ rw (absent, update_observation) h
      | inr (old, found) ↦ rw (found, update_observation) (put_observation h v asset)
    ]

pub get_observation-found :
    (id : String) (m : MemoryStore) (v : Observation)
    → get_observation id m ≡ ok v
    → lookup id m.observations ≡ some v
unfolding get_observation
get_observation-found id m v h = elim (Option-cases (lookup id m.observations)) [
  | inl absent ↦ let bad : err _ ≡ ok v = rw (absent, get_observation) at h in cc bad
  | inr (w, found) ↦
      let it : ok w ≡ ok v = rw (found, get_observation) at h in
      let it' : w ≡ v = cc it in found ∙ ap some it'
]

not_owned :
    (id : String) (o : Object)
    → is_owned_by "observation" id o ≡ false
    → o.owner_type ≡ "observation"
    → o.owner_id ≢ id
not_owned id o other is same =
    let bad : true ≡ false =
      rw ((eq_iff o.owner_type "observation").1 is, (eq_iff o.owner_id id).1 same) at other in
    true≢false bad

-- The observation goes together with the objects that it owns.
drop_owned-IsIntact :
    (id : String) (m : MemoryStore)
    → IsIntact m
    → IsIntact (drop_owned id m.objects (record m { observations = delete id m.observations }))
drop_owned-IsIntact id m h =
    let m' = record m { observations = delete id m.observations } in
    let left = drop_owned-left id m.objects m' in
    subst (λ r. Refers r.0 r.1 r.2 (drop_owned id m.objects m').objects)
      (sym (drop_owned-roots id m.objects m'))
      (drop_observation h id (drop_owned id m.objects m').objects (λ k o found. (left k o found).0)
        (λ k o found. not_owned id o ((left k o found).1 o (left k o found).0)))

delete_observation-IsIntact :
    (id : String) (m : MemoryStore) → IsIntact m → IsIntact (delete_observation id m).1
unfolding delete_observation
delete_observation-IsIntact id m h = elim (Option-cases (lookup id m.observations)) [
  | inl absent ↦ rw (absent, delete_observation) h
  | inr (old, found) ↦ rw (found, delete_observation) (drop_owned-IsIntact id m h)
]

module _ (env : Env) where
  pub create-IsIntact :
      (input : ObservationCreateInput) (s : Services)
      → IsIntact s.stores
      → IsIntact (Observations.create_observation env input s).1.stores
  unfolding Observations.create_observation check_observation
  create-IsIntact input s h =
      keeps IsIntact (require_valid_id "observation_id" input.observation_id) _ s h (λ _ _.
        keeps IsIntact (get_entity input.source_asset_id s.stores) _ s h (λ asset e.
          keeps IsIntact
            (require_asset "source_asset_id" "source_asset_id must reference an asset" asset) _ s h
            (λ _ is.
              keeps IsIntact
                (validate_observation_json env s.stores s.sightings input.observation_id input.json)
                _ s h
                (λ _ _.
                  keeps_write IsIntact
                    (create_observation
                      (new_observation input (env.clock s.reads) (env.clock (suc s.reads))))
                    _ (record s { reads = suc (suc s.reads) })
                    (create_observation-IsIntact _ s.stores
                      (require_asset-IsAsset "source_asset_id"
                        "source_asset_id must reference an asset" input.source_asset_id asset
                        s.stores e is)
                      h)
                    (λ o t.
                      publish-pure env "observation" "created" o.observation_id
                        (EventData.observation o) o t)))))

  pub patch-IsIntact :
      (id : String) (patch : ObservationPatchInput) (s : Services)
      → IsIntact s.stores
      → IsIntact (Observations.patch_observation env id patch s).1.stores
  unfolding Observations.patch_observation check_observation
  patch-IsIntact id patch s h = keeps IsIntact (get_observation id s.stores) _ s h (λ current e.
      keeps IsIntact
        (validate_observation_json env s.stores s.sightings current.observation_id
          (patched_observation current patch).json)
        _ s h
        (λ _ _.
          keeps_write IsIntact
            (update_observation
              (record (patched_observation current patch) { updated_at = env.clock s.reads }))
            _ (record s { reads = suc s.reads })
            (update_observation-IsIntact _ s.stores
              (h.observation_asset id current (get_observation-found id s.stores current e)) h)
            (λ o t.
              publish-pure env "observation" "updated" o.observation_id (EventData.observation o) o
                t)))

  pub delete-IsIntact :
      (id : String) (s : Services)
      → IsIntact s.stores
      → IsIntact (Observations.delete_observation env id s).1.stores
  unfolding Observations.delete_observation
  delete-IsIntact id s h =
      keeps_write IsIntact (delete_observation id) _ s (delete_observation-IsIntact id s.stores h)
        (λ _ t.
          publish-stores env "observation" "deleted" id (EventData.deleted_at (env.clock t.reads))
            (record t { reads = suc t.reads }))
