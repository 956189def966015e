-- ===== src/Service/Change/Entities.antt =====
-- The operations on entities change the stores as Change allows.
use atlas_c.Base.{suc, ◌≡◌, refl, String, ok, err, ◌==◌, eq_iff, Bool-cases, inl, inr}
use atlas_c.Model.Records.{Entity, EventData}
use atlas_c.Store.Entities.{
  create_entity, get_entity, update_entity, delete_entity, count_entity_dependents,
}
use atlas_c.Service.State.{Env, Services}
use atlas_c.Service.Validation.{validate_entity_input, require_valid_id}
use atlas_c.Service.Entities
use atlas_c.Service.Entities.{
  EntityCreateInput, EntityPatchInput, refuse_dependents, new_entity, patched_entity, require_asset,
}
use atlas_c.Service.Intact.{keeps, keeps_write, publish-pure, publish-stores}
use atlas_c.Service.Change.{Change, Allowed}

-- What the check of an asset has shown.
pub require_asset-asset :
    (name message : String) (e : Entity) → require_asset name message e ≡ ok tt → e.type ≡ "asset"
unfolding require_asset
require_asset-asset name message e h = elim (Bool-cases (e.type == "asset")) [
  | inl same ↦ (eq_iff e.type "asset").0 same
  | inr other ↦ let bad : err _ ≡ ok tt = rw (other, require_asset) at h in cc bad
]

module _ (env : Env) (s : Services) where
  pub create-Change :
      (input : EntityCreateInput) → Allowed s (Entities.create_entity env input s).1.stores
  unfolding Entities.create_entity
  create-Change input =
      keeps (Allowed s) (validate_entity_input env input.type input.json) _ s Change.unchanged
        (λ _ _.
          keeps (Allowed s) (require_valid_id "entity_id" input.entity_id) _ s Change.unchanged
            (λ _ _.
              keeps_write (Allowed s)
                (create_entity (new_entity input (env.clock s.reads) (env.clock (suc s.reads)))) _
                (record s { reads = suc (suc s.reads) }) (Change.entity_created _)
                (λ e t. publish-pure env "entity" "created" e.entity_id (EventData.entity e) e t)))

  pub patch-Change :
      (id : String) (patch : EntityPatchInput)
      → Allowed s (Entities.patch_entity env id patch s).1.stores
  unfolding Entities.patch_entity
  patch-Change id patch =
      keeps (Allowed s) (get_entity id s.stores) _ s Change.unchanged (λ current e.
        keeps (Allowed s)
          (validate_entity_input env current.type (patched_entity current patch).json) _ s
          Change.unchanged
          (λ _ _.
            keeps_write (Allowed s)
              (update_entity
                (record (patched_entity current patch) { updated_at = env.clock s.reads }))
              _ (record s { reads = suc s.reads })
              (Change.entity_updated id current _ e
                (record { entity_id = refl; type = refl; created_at = refl }))
              (λ e t. publish-pure env "entity" "updated" e.entity_id (EventData.entity e) e t)))

  pub delete-Change : (id : String) → Allowed s (Entities.delete_entity env id s).1.stores
  unfolding Entities.delete_entity
  delete-Change id =
      keeps (Allowed s) (refuse_dependents id (count_entity_dependents id s.stores)) _ s
        Change.unchanged
        (λ _ free.
          keeps_write (Allowed s) (delete_entity id) _ s (Change.entity_deleted id free) (λ _ t.
            publish-stores env "entity" "deleted" id (EventData.deleted_at (env.clock t.reads))
              (record t { reads = suc t.reads })))
