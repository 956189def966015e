-- ===== src/Service/Change/Evolution/Entities.antt =====
-- What a change of the stores may do to a stored entity.
use atlas_c.Base.{◌≡◌, refl, ap, ◌∙◌, String, inl, inr, Option-cases, ok}
use atlas_c.Base.Assoc.{string_eq, lookup}
use atlas_c.Base.Assoc.Evolves.{Evolves, Evolves-kept, Evolves-add, Evolves-update, Evolves-delete}
use atlas_c.Catalog.Commands.{Active}
use atlas_c.Model.Records.{Entity}
use atlas_c.Store.{MemoryStore}
use atlas_c.Store.Integrity.{IsIntact}
use atlas_c.Store.Frame
use atlas_c.Store.Entities.{create_entity, get_entity, update_entity, delete_entity}
use atlas_c.Service.Intact.Entities.{get_entity-found}
use atlas_c.Service.Change.{Change, SameEntity}

create_entity-Evolves :
    (v : Entity) (m : MemoryStore) → Evolves SameEntity m.entities (create_entity v m).1.entities
unfolding create_entity
create_entity-Evolves v m = elim (Option-cases (lookup v.entity_id m.entities)) [
  | inl absent ↦ rw (absent, create_entity) (Evolves-add SameEntity v.entity_id v m.entities absent)
  | inr (_, found) ↦ rw (found, create_entity) (Evolves-kept SameEntity m.entities m.entities refl)
]

update_entity-Evolves :
    (id : String) (current v : Entity) (m : MemoryStore)
    → IsIntact m
    → get_entity id m ≡ ok current
    → SameEntity current v
    → Evolves SameEntity m.entities (update_entity v m).1.entities
unfolding update_entity
update_entity-Evolves id current v m h got same =
    let there = get_entity-found id m current got in
    elim (Option-cases (lookup v.entity_id m.entities)) [
      | inl absent ↦ rw (absent, update_entity) (Evolves-kept SameEntity m.entities m.entities refl)
      | inr (_, found) ↦
          rw (found, update_entity)
            (Evolves-update SameEntity v.entity_id id current v m.entities
              (same.entity_id ∙ h.entity_key id current there) there same)
    ]

delete_entity-Evolves :
    (id : String) (m : MemoryStore) → Evolves SameEntity m.entities (delete_entity id m).1.entities
unfolding delete_entity
delete_entity-Evolves id m = elim (Option-cases (lookup id m.entities)) [
  | inl absent ↦ rw (absent, delete_entity) (Evolves-kept SameEntity m.entities m.entities refl)
  | inr (_, found) ↦ rw (found, delete_entity) (Evolves-delete SameEntity id m.entities)
]

pub Change-entities :
    {commands : Active} {m m' : MemoryStore}
    → Change commands m m'
    → IsIntact m
    → Evolves SameEntity m.entities m'.entities
Change-entities {m} Change.unchanged h = Evolves-kept SameEntity m.entities m.entities refl
Change-entities {m} (Change.entity_created v) h = create_entity-Evolves v m
Change-entities {m} (Change.entity_updated id current v got same) h =
    update_entity-Evolves id current v m h got same
Change-entities {m} (Change.entity_deleted id _) h = delete_entity-Evolves id m
Change-entities {m} (Change.observation_created v _ _ _) h =
    Evolves-kept SameEntity m.entities _ (ap (λ l. l.0) (Frame.create_observation-frame v m))
Change-entities {m} (Change.observation_updated _ _ v _ _) h =
    Evolves-kept SameEntity m.entities _ (ap (λ l. l.0) (Frame.update_observation-frame v m))
Change-entities {m} (Change.observation_deleted id) h =
    Evolves-kept SameEntity m.entities _ (ap (λ l. l.0) (Frame.delete_observation-frame id m))
Change-entities {m} (Change.task_created v _ _ _ _) h =
    Evolves-kept SameEntity m.entities _ (ap (λ l. l.0) (Frame.create_task-frame v m))
Change-entities {m} (Change.task_updated _ _ v _ _) h =
    Evolves-kept SameEntity m.entities _ (ap (λ l. l.0) (Frame.update_task-frame v m))
Change-entities {m} (Change.task_deleted id _) h =
    Evolves-kept SameEntity m.entities _ (ap (λ l. l.0) (Frame.delete_task-frame id m))
Change-entities {m} (Change.object_created v) h =
    Evolves-kept SameEntity m.entities _ (ap (λ l. l.0) (Frame.create_object-frame v m))
Change-entities {m} (Change.object_updated _ _ v _ _) h =
    Evolves-kept SameEntity m.entities _ (ap (λ l. l.0) (Frame.update_object-frame v m))
Change-entities {m} (Change.object_deleted id _) h =
    Evolves-kept SameEntity m.entities _ (ap (λ l. l.0) (Frame.delete_object-frame id m))
Change-entities {m} (Change.file_appended now object_id file_id reader max_bytes) h =
    Evolves-kept SameEntity m.entities _
      (ap (λ l. l.0) (Frame.append_object_file-frame now object_id file_id reader max_bytes m))
Change-entities {m} (Change.file_deleted object_id file_id) h =
    Evolves-kept SameEntity m.entities _
      (ap (λ l. l.0) (Frame.delete_object_file-frame object_id file_id m))
Change-entities {m} (Change.file_created mime fs now input) h =
    Evolves-kept SameEntity m.entities _
      (ap (λ l. l.0) (Frame.create_object_file-frame mime fs now input m))
