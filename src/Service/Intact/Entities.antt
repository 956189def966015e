-- ===== src/Service/Intact/Entities.antt =====
-- The operations on entities keep the references of the store.
use atlas_c.Base.{
  suc, ◌≡◌, sym, ap, ◌∙◌, String, ◌||◌, none, some, inl, inr, Option-cases, Bool-cases, ok, err,
  ltb, arith,
}
use atlas_c.Base.Assoc.{string_eq, lookup}
use atlas_c.Model.Records.{Entity, EventData}
use atlas_c.Store.{MemoryStore}
use atlas_c.Store.Integrity.{IsIntact, put_entity}
use atlas_c.Store.Integrity.Counts.{count_tasks-zero, count_observations-zero, count_objects-zero}
use atlas_c.Store.Integrity.Drops.{drop_entity}
use atlas_c.Store.Entities.{
  create_entity, get_entity, update_entity, delete_entity, count_entity_dependents, Dependents,
}
use atlas_c.Service.State.{Env, Services}
use atlas_c.Service.Validation.{validate_entity_input, require_valid_id}
use atlas_c.Service.Entities
use atlas_c.Service.Entities.{
  EntityCreateInput, EntityPatchInput, refuse_dependents, new_entity, patched_entity,
}
use atlas_c.Service.Intact.{keeps, keeps_write, publish-pure, publish-stores}

create_entity-IsIntact :
    (e : Entity) (m : MemoryStore) → IsIntact m → IsIntact (create_entity e m).1
unfolding create_entity
create_entity-IsIntact e m h = elim (Option-cases (lookup e.entity_id m.entities)) [
  | inl absent ↦
      rw (absent, create_entity)
        (put_entity h e (λ old found. let bad : none ≡ some old = sym absent ∙ found in cc bad))
  | inr (old, found) ↦ rw (found, create_entity) h
]

update_entity-IsIntact :
    (e : Entity) (m : MemoryStore)
    → IsIntact m
    → ((old : Entity) → lookup e.entity_id m.entities ≡ some old → e.type ≡ old.type)
    → IsIntact (update_entity e m).1
unfolding update_entity
update_entity-IsIntact e m h same = elim (Option-cases (lookup e.entity_id m.entities)) [
  | inl absent ↦ rw (absent, update_entity) h
  | inr (old, found) ↦ rw (found, update_entity) (put_entity h e same)
]

-- What get_entity returns is what is stored.
pub get_entity-found :
    (id : String) (m : MemoryStore) (e : Entity)
    → get_entity id m ≡ ok e
    → lookup id m.entities ≡ some e
unfolding get_entity
get_entity-found id m e h = elim (Option-cases (lookup id m.entities)) [
  | inl absent ↦ let bad : err _ ≡ ok e = rw (absent, get_entity) at h in cc bad
  | inr (v, found) ↦
      let it : ok v ≡ ok e = rw (found, get_entity) at h in
      let it' : v ≡ e = cc it in found ∙ ap some it'
]

-- The stored entity under the identifier of one that was read is the one that was read.
same_type :
    (id : String) (m : MemoryStore) (current : Entity)
    → IsIntact m
    → lookup id m.entities ≡ some current
    → (old : Entity) → lookup current.entity_id m.entities ≡ some old
    → current.type ≡ old.type
same_type id m current h found old stored =
    let it : some current ≡ some old =
      sym found ∙ ap (λ k. lookup k m.entities) (sym (h.entity_key id current found)) ∙ stored in
    let it' : current ≡ old = cc it in ap (λ e. e.type) it'

free-zero :
    (id : String) (d : Dependents)
    → refuse_dependents id d ≡ ok tt
    → (d.tasks ≡ 0) × (d.observations ≡ 0) × (d.objects ≡ 0)
unfolding refuse_dependents
free-zero id d h = elim (Bool-cases (ltb 0 d.tasks || ltb 0 d.observations || ltb 0 d.objects)) [
  | inl e ↦ let bad : err _ ≡ ok tt = rw (e, refuse_dependents) at h in cc bad
  | inr e ↦ ground (arith, e)
]

-- Without dependents the entity can go.
delete_entity-IsIntact :
    (id : String) (m : MemoryStore)
    → refuse_dependents id (count_entity_dependents id m) ≡ ok tt
    → IsIntact m
    → IsIntact (delete_entity id m).1
unfolding delete_entity count_entity_dependents
delete_entity-IsIntact id m free h = elim (Option-cases (lookup id m.entities)) [
  | inl absent ↦ rw (absent, delete_entity) h
  | inr (old, found) ↦
      let (no_tasks, no_observations, no_objects) =
        free-zero id (count_entity_dependents id m) free in
      rw (found, delete_entity)
        (drop_entity h id (count_observations-zero id m.observations no_observations)
          (count_tasks-zero id m.tasks no_tasks)
          (count_objects-zero "entity" id m.objects no_objects))
]

module _ (env : Env) where
  pub create-IsIntact :
      (input : EntityCreateInput) (s : Services)
      → IsIntact s.stores
      → IsIntact (Entities.create_entity env input s).1.stores
  unfolding Entities.create_entity
  create-IsIntact input s h =
      keeps IsIntact (validate_entity_input env input.type input.json) _ s h (λ _ _.
        keeps IsIntact (require_valid_id "entity_id" input.entity_id) _ s h (λ _ _.
          keeps_write IsIntact
            (create_entity (new_entity input (env.clock s.reads) (env.clock (suc s.reads)))) _
            (record s { reads = suc (suc s.reads) }) (create_entity-IsIntact _ s.stores h)
            (λ e t. publish-pure env "entity" "created" e.entity_id (EventData.entity e) e t)))

  pub patch-IsIntact :
      (id : String) (patch : EntityPatchInput) (s : Services)
      → IsIntact s.stores
      → IsIntact (Entities.patch_entity env id patch s).1.stores
  unfolding Entities.patch_entity
  patch-IsIntact id patch s h = keeps IsIntact (get_entity id s.stores) _ s h (λ current e.
      keeps IsIntact (validate_entity_input env current.type (patched_entity current patch).json) _
        s h
        (λ _ _.
          keeps_write IsIntact
            (update_entity
              (record (patched_entity current patch) { updated_at = env.clock s.reads }))
            _ (record s { reads = suc s.reads })
            (update_entity-IsIntact _ s.stores h
              (same_type id s.stores current h (get_entity-found id s.stores current e)))
            (λ e t. publish-pure env "entity" "updated" e.entity_id (EventData.entity e) e t)))

  pub delete-IsIntact :
      (id : String) (s : Services)
      → IsIntact s.stores
      → IsIntact (Entities.delete_entity env id s).1.stores
  unfolding Entities.delete_entity
  delete-IsIntact id s h =
      keeps IsIntact (refuse_dependents id (count_entity_dependents id s.stores)) _ s h (λ _ free.
        keeps_write IsIntact (delete_entity id) _ s (delete_entity-IsIntact id s.stores free h)
          (λ _ t.
            publish-stores env "entity" "deleted" id (EventData.deleted_at (env.clock t.reads))
              (record t { reads = suc t.reads })))
