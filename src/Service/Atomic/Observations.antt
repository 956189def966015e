-- ===== src/Service/Atomic/Observations.antt =====
-- The operations on observations leave the stores as they were where they fail.
use atlas_c.Base.{suc, refl, String}
use atlas_c.Model.Records.{EventData}
use atlas_c.Store.Entities.{get_entity}
use atlas_c.Store.Observations.{
  create_observation, get_observation, update_observation, delete_observation,
}
use atlas_c.Store.Atomic.{
  create_observation-atomic, update_observation-atomic, delete_observation-atomic,
}
use atlas_c.Service.State.{Env, Services}
use atlas_c.Service.Validation.{require_valid_id, validate_observation_json}
use atlas_c.Service.Entities.{require_asset}
use atlas_c.Service.Observations
use atlas_c.Service.Observations.{
  ObservationCreateInput, ObservationPatchInput, new_observation, patched_observation,
  check_observation,
}
use atlas_c.Service.Atomic.{
  IsLive, IsSettled, settles, settles_write, publish-Answers, publish-pure-Answers,
}

module _ (env : Env) (s : Services) (l : IsLive s.publisher) where
  pub create-IsSettled :
      (input : ObservationCreateInput)
      → IsSettled s.stores (Observations.create_observation env input s)
  unfolding Observations.create_observation check_observation
  create-IsSettled input =
      settles s.stores (require_valid_id "observation_id" input.observation_id) _ s refl l (λ _ _.
        settles s.stores (get_entity input.source_asset_id s.stores) _ s refl l (λ asset _.
          settles s.stores
            (require_asset "source_asset_id" "source_asset_id must reference an asset" asset) _ s
            refl l
            (λ _ _.
              settles s.stores
                (validate_observation_json env s.stores s.sightings input.observation_id input.json)
                _ s refl l
                (λ _ _.
                  settles_write s.stores
                    (create_observation
                      (new_observation input (env.clock s.reads) (env.clock (suc s.reads))))
                    _ (record s { reads = suc (suc s.reads) })
                    (create_observation-atomic _ s.stores) refl l
                    (λ o t.
                      publish-pure-Answers env "observation" "created" o.observation_id
                        (EventData.observation o) o t)))))

  pub patch-IsSettled :
      (id : String) (patch : ObservationPatchInput)
      → IsSettled s.stores (Observations.patch_observation env id patch s)
  unfolding Observations.patch_observation check_observation
  patch-IsSettled id patch = settles s.stores (get_observation id s.stores) _ s refl l (λ current _.
      settles s.stores
        (validate_observation_json env s.stores s.sightings current.observation_id
          (patched_observation current patch).json)
        _ s refl l
        (λ _ _.
          settles_write s.stores
            (update_observation
              (record (patched_observation current patch) { updated_at = env.clock s.reads }))
            _ (record s { reads = suc s.reads }) (update_observation-atomic _ s.stores) refl l
            (λ o t.
              publish-pure-Answers env "observation" "updated" o.observation_id
                (EventData.observation o) o t)))

  pub delete-IsSettled :
      (id : String) → IsSettled s.stores (Observations.delete_observation env id s)
  unfolding Observations.delete_observation
  delete-IsSettled id =
      settles_write s.stores (delete_observation id) _ s (delete_observation-atomic id s.stores)
        refl l
        (λ _ t.
          publish-Answers env "observation" "deleted" id (EventData.deleted_at (env.clock t.reads))
            (record t { reads = suc t.reads }))
