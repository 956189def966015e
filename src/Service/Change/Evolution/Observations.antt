-- ===== src/Service/Change/Evolution/Observations.antt =====
-- What a change of the stores may do to a stored observation.
use mathlib.Core.Path.{subst}
use atlas_c.Base.{◌≡◌, refl, sym, ap, ◌∙◌, String, inl, inr, Option-cases, ok}
use atlas_c.Base.Assoc.{string_eq, lookup}
use atlas_c.Base.Assoc.Evolves.{Evolves, Evolves-kept, Evolves-add, Evolves-update, Evolves-delete}
use atlas_c.Catalog.Commands.{Active}
use atlas_c.Model.Records.{Observation}
use atlas_c.Store.{MemoryStore}
use atlas_c.Store.Integrity.{IsIntact}
use atlas_c.Store.Frame
use atlas_c.Store.Integrity.Cascade.{drop_owned-roots}
use atlas_c.Store.Observations.{
  create_observation, get_observation, update_observation, delete_observation,
}
use atlas_c.Service.Intact.Observations.{get_observation-found}
use atlas_c.Service.Change.{Change, SameObservation}

create_observation-Evolves :
    (v : Observation) (m : MemoryStore)
    → Evolves SameObservation m.observations (create_observation v m).1.observations
unfolding create_observation
create_observation-Evolves v m = elim (Option-cases (lookup v.observation_id m.observations)) [
  | inl absent ↦
      rw (absent, create_observation)
        (Evolves-add SameObservation v.observation_id v m.observations absent)
  | inr (_, found) ↦
      rw (found, create_observation)
        (Evolves-kept SameObservation m.observations m.observations refl)
]

update_observation-Evolves :
    (id : String) (current v : Observation) (m : MemoryStore)
    → IsIntact m
    → get_observation id m ≡ ok current
    → SameObservation current v
    → Evolves SameObservation m.observations (update_observation v m).1.observations
unfolding update_observation
update_observation-Evolves id current v m h got same =
    let there = get_observation-found id m current got in
    elim (Option-cases (lookup v.observation_id m.observations)) [
      | inl absent ↦
          rw (absent, update_observation)
            (Evolves-kept SameObservation m.observations m.observations refl)
      | inr (_, found) ↦
          rw (found, update_observation)
            (Evolves-update SameObservation v.observation_id id current v m.observations
              (same.observation_id ∙ h.observation_key id current there) there same)
    ]

delete_observation-Evolves :
    (id : String) (m : MemoryStore)
    → Evolves SameObservation m.observations (delete_observation id m).1.observations
unfolding delete_observation
delete_observation-Evolves id m = elim (Option-cases (lookup id m.observations)) [
  | inl absent ↦
      rw (absent, delete_observation)
        (Evolves-kept SameObservation m.observations m.observations refl)
  | inr (_, found) ↦
      rw (found, delete_observation)
        (subst (Evolves SameObservation m.observations)
          (sym (ap (λ l. l.1) (drop_owned-roots id m.objects _)))
          (Evolves-delete SameObservation id m.observations))
]

pub Change-observations :
    {commands : Active} {m m' : MemoryStore}
    → Change commands m m'
    → IsIntact m
    → Evolves SameObservation m.observations m'.observations
Change-observations {m} Change.unchanged h =
    Evolves-kept SameObservation m.observations m.observations refl
Change-observations {m} (Change.entity_created v) h =
    Evolves-kept SameObservation m.observations _ (ap (λ l. l.0) (Frame.create_entity-frame v m))
Change-observations {m} (Change.entity_updated _ _ v _ _) h =
    Evolves-kept SameObservation m.observations _ (ap (λ l. l.0) (Frame.update_entity-frame v m))
Change-observations {m} (Change.entity_deleted id _) h =
    Evolves-kept SameObservation m.observations _ (ap (λ l. l.0) (Frame.delete_entity-frame id m))
Change-observations {m} (Change.observation_created v _ _ _) h = create_observation-Evolves v m
Change-observations {m} (Change.observation_updated id current v got same) h =
    update_observation-Evolves id current v m h got same
Change-observations {m} (Change.observation_deleted id) h = delete_observation-Evolves id m
Change-observations {m} (Change.task_created v _ _ _ _) h =
    Evolves-kept SameObservation m.observations _ (ap (λ l. l.1) (Frame.create_task-frame v m))
Change-observations {m} (Change.task_updated _ _ v _ _) h =
    Evolves-kept SameObservation m.observations _ (ap (λ l. l.1) (Frame.update_task-frame v m))
Change-observations {m} (Change.task_deleted id _) h =
    Evolves-kept SameObservation m.observations _ (ap (λ l. l.1) (Frame.delete_task-frame id m))
Change-observations {m} (Change.object_created v) h =
    Evolves-kept SameObservation m.observations _ (ap (λ l. l.1) (Frame.create_object-frame v m))
Change-observations {m} (Change.object_updated _ _ v _ _) h =
    Evolves-kept SameObservation m.observations _ (ap (λ l. l.1) (Frame.update_object-frame v m))
Change-observations {m} (Change.object_deleted id _) h =
    Evolves-kept SameObservation m.observations _ (ap (λ l. l.1) (Frame.delete_object-frame id m))
Change-observations {m} (Change.file_appended now object_id file_id reader max_bytes) h =
    Evolves-kept SameObservation m.observations _
      (ap (λ l. l.1) (Frame.append_object_file-frame now object_id file_id reader max_bytes m))
Change-observations {m} (Change.file_deleted object_id file_id) h =
    Evolves-kept SameObservation m.observations _
      (ap (λ l. l.1) (Frame.delete_object_file-frame object_id file_id m))
Change-observations {m} (Change.file_created mime fs now input) h =
    Evolves-kept SameObservation m.observations _
      (ap (λ l. l.1) (Frame.create_object_file-frame mime fs now input m))
