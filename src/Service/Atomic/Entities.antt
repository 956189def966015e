-- ===== src/Service/Atomic/Entities.antt =====
-- The operations on entities leave the stores as they were where they fail.
use atlas_c.Base.{suc, refl, String}
use atlas_c.Model.Records.{EventData}
use atlas_c.Store.Entities.{
  create_entity, get_entity, update_entity, delete_entity, count_entity_dependents,
}
use atlas_c.Store.Atomic.{create_entity-atomic, update_entity-atomic, delete_entity-atomic}
use atlas_c.Service.State.{Env, Services}
use atlas_c.Service.Validation.{validate_entity_input, require_valid_id}
use atlas_c.Service.Entities
use atlas_c.Service.Entities.{
  EntityCreateInput, EntityPatchInput, refuse_dependents, new_entity, patched_entity,
}
use atlas_c.Service.Atomic.{
  IsLive, IsSettled, settles, settles_write, publish-Answers, publish-pure-Answers,
}

module _ (env : Env) (s : Services) (l : IsLive s.publisher) where
  pub create-IsSettled :
      (input : EntityCreateInput) → IsSettled s.stores (Entities.create_entity env input s)
  unfolding Entities.create_entity
  create-IsSettled input =
      settles s.stores (validate_entity_input env input.type input.json) _ s refl l (λ _ _.
        settles s.stores (require_valid_id "entity_id" input.entity_id) _ s refl l (λ _ _.
          settles_write s.stores
            (create_entity (new_entity input (env.clock s.reads) (env.clock (suc s.reads)))) _
            (record s { reads = suc (suc s.reads) }) (create_entity-atomic _ s.stores) refl l
            (λ e t.
              publish-pure-Answers env "entity" "created" e.entity_id (EventData.entity e) e t)))

  pub patch-IsSettled :
      (id : String) (patch : EntityPatchInput)
      → IsSettled s.stores (Entities.patch_entity env id patch s)
  unfolding Entities.patch_entity
  patch-IsSettled id patch = settles s.stores (get_entity id s.stores) _ s refl l (λ current _.
      settles s.stores (validate_entity_input env current.type (patched_entity current patch).json)
        _ s refl l
        (λ _ _.
          settles_write s.stores
            (update_entity
              (record (patched_entity current patch) { updated_at = env.clock s.reads }))
            _ (record s { reads = suc s.reads }) (update_entity-atomic _ s.stores) refl l
            (λ e t.
              publish-pure-Answers env "entity" "updated" e.entity_id (EventData.entity e) e t)))

  pub delete-IsSettled : (id : String) → IsSettled s.stores (Entities.delete_entity env id s)
  unfolding Entities.delete_entity
  delete-IsSettled id =
      settles s.stores (refuse_dependents id (count_entity_dependents id s.stores)) _ s refl l
        (λ _ _.
          settles_write s.stores (delete_entity id) _ s (delete_entity-atomic id s.stores) refl l
            (λ _ t.
              publish-Answers env "entity" "deleted" id (EventData.deleted_at (env.clock t.reads))
                (record t { reads = suc t.reads })))
