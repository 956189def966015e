-- ===== src/Service/Change/Observations.antt =====
-- The operations on observations change the stores as Change allows.
use atlas_c.Base.{suc, refl, String}
use atlas_c.Model.Records.{EventData}
use atlas_c.Store.Entities.{get_entity}
use atlas_c.Store.Observations.{
  create_observation, get_observation, update_observation, delete_observation,
}
use atlas_c.Service.State.{Env, Services}
use atlas_c.Service.Validation.{require_valid_id, validate_observation_json}
use atlas_c.Service.Entities.{require_asset}
use atlas_c.Service.Observations
use atlas_c.Service.Observations.{
  ObservationCreateInput, ObservationPatchInput, new_observation, patched_observation,
  check_observation,
}
use atlas_c.Service.Intact.{keeps, keeps_write, publish-pure, publish-stores}
use atlas_c.Service.Change.{Change, Allowed}
use atlas_c.Service.Change.Entities.{require_asset-asset}

module _ (env : Env) (s : Services) where
  pub create-Change :
      (input : ObservationCreateInput)
      → Allowed s (Observations.create_observation env input s).1.stores
  unfolding Observations.create_observation check_observation
  create-Change input =
      keeps (Allowed s) (require_valid_id "observation_id" input.observation_id) _ s
        Change.unchanged
        (λ _ _.
          keeps (Allowed s) (get_entity input.source_asset_id s.stores) _ s Change.unchanged
            (λ asset e.
              keeps (Allowed s)
                (require_asset "source_asset_id" "source_asset_id must reference an asset" asset) _
                s Change.unchanged
                (λ _ is.
                  keeps (Allowed s)
                    (validate_observation_json env s.stores s.sightings input.observation_id
                      input.json)
                    _ s Change.unchanged
                    (λ _ _.
                      keeps_write (Allowed s)
                        (create_observation
                          (new_observation input (env.clock s.reads) (env.clock (suc s.reads))))
                        _ (record s { reads = suc (suc s.reads) })
                        (Change.observation_created _ asset e (
                          require_asset-asset "source_asset_id"
                            "source_asset_id must reference an asset" asset is))
                        (λ o t.
                          publish-pure env "observation" "created" o.observation_id
                            (EventData.observation o) o t)))))

  pub patch-Change :
      (id : String) (patch : ObservationPatchInput)
      → Allowed s (Observations.patch_observation env id patch s).1.stores
  unfolding Observations.patch_observation check_observation
  patch-Change id patch =
      keeps (Allowed s) (get_observation id s.stores) _ s Change.unchanged (λ current e.
        keeps (Allowed s)
          (validate_observation_json env s.stores s.sightings current.observation_id
            (patched_observation current patch).json)
          _ s Change.unchanged
          (λ _ _.
            keeps_write (Allowed s)
              (update_observation
                (record (patched_observation current patch) { updated_at = env.clock s.reads }))
              _ (record s { reads = suc s.reads })
              (Change.observation_updated id current _ e
                (record { observation_id = refl; source_asset_id = refl; created_at = refl }))
              (λ o t.
                publish-pure env "observation" "updated" o.observation_id (EventData.observation o)
                  o t)))

  pub delete-Change : (id : String) → Allowed s (Observations.delete_observation env id s).1.stores
  unfolding Observations.delete_observation
  delete-Change id =
      keeps_write (Allowed s) (delete_observation id) _ s (Change.observation_deleted id) (λ _ t.
        publish-stores env "observation" "deleted" id (EventData.deleted_at (env.clock t.reads))
          (record t { reads = suc t.reads }))
