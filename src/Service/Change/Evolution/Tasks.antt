-- ===== src/Service/Change/Evolution/Tasks.antt =====
-- What a change of the stores may do to a stored task.
use atlas_c.Base.{◌≡◌, refl, ap, ◌∙◌, String, inl, inr, Option-cases, ok}
use atlas_c.Base.Assoc.{string_eq, lookup}
use atlas_c.Base.Assoc.Evolves.{Evolves, Evolves-kept, Evolves-add, Evolves-update, Evolves-delete}
use atlas_c.Catalog.Commands.{Active}
use atlas_c.Model.Records.{Task}
use atlas_c.Store.{MemoryStore}
use atlas_c.Store.Integrity.{IsIntact}
use atlas_c.Store.Frame
use atlas_c.Store.Tasks.{create_task, get_task, update_task, delete_task}
use atlas_c.Service.Intact.Tasks.{get_task-found}
use atlas_c.Service.Change.{Change, SameTask}

create_task-Evolves :
    (v : Task) (m : MemoryStore) → Evolves SameTask m.tasks (create_task v m).1.tasks
unfolding create_task
create_task-Evolves v m = elim (Option-cases (lookup v.task_id m.tasks)) [
  | inl absent ↦ rw (absent, create_task) (Evolves-add SameTask v.task_id v m.tasks absent)
  | inr (_, found) ↦ rw (found, create_task) (Evolves-kept SameTask m.tasks m.tasks refl)
]

update_task-Evolves :
    (id : String) (current v : Task) (m : MemoryStore)
    → IsIntact m
    → get_task id m ≡ ok current
    → SameTask current v
    → Evolves SameTask m.tasks (update_task v m).1.tasks
unfolding update_task
update_task-Evolves id current v m h got same =
    let there = get_task-found id m current got in
    elim (Option-cases (lookup v.task_id m.tasks)) [
      | inl absent ↦ rw (absent, update_task) (Evolves-kept SameTask m.tasks m.tasks refl)
      | inr (_, found) ↦
          rw (found, update_task)
            (Evolves-update SameTask v.task_id id current v m.tasks
              (same.task_id ∙ h.task_key id current there) there same)
    ]

delete_task-Evolves :
    (id : String) (m : MemoryStore) → Evolves SameTask m.tasks (delete_task id m).1.tasks
unfolding delete_task
delete_task-Evolves id m = elim (Option-cases (lookup id m.tasks)) [
  | inl absent ↦ rw (absent, delete_task) (Evolves-kept SameTask m.tasks m.tasks refl)
  | inr (_, found) ↦ rw (found, delete_task) (Evolves-delete SameTask id m.tasks)
]

pub Change-tasks :
    {commands : Active} {m m' : MemoryStore}
    → Change commands m m'
    → IsIntact m
    → Evolves SameTask m.tasks m'.tasks
Change-tasks {m} Change.unchanged h = Evolves-kept SameTask m.tasks m.tasks refl
Change-tasks {m} (Change.entity_created v) h =
    Evolves-kept SameTask m.tasks _ (ap (λ l. l.1) (Frame.create_entity-frame v m))
Change-tasks {m} (Change.entity_updated _ _ v _ _) h =
    Evolves-kept SameTask m.tasks _ (ap (λ l. l.1) (Frame.update_entity-frame v m))
Change-tasks {m} (Change.entity_deleted id _) h =
    Evolves-kept SameTask m.tasks _ (ap (λ l. l.1) (Frame.delete_entity-frame id m))
Change-tasks {m} (Change.observation_created v _ _ _) h =
    Evolves-kept SameTask m.tasks _ (ap (λ l. l.1) (Frame.create_observation-frame v m))
Change-tasks {m} (Change.observation_updated _ _ v _ _) h =
    Evolves-kept SameTask m.tasks _ (ap (λ l. l.1) (Frame.update_observation-frame v m))
Change-tasks {m} (Change.observation_deleted id) h =
    Evolves-kept SameTask m.tasks _ (ap (λ l. l.1) (Frame.delete_observation-frame id m))
Change-tasks {m} (Change.task_created v _ _ _ _) h = create_task-Evolves v m
Change-tasks {m} (Change.task_updated id current v got same) h =
    update_task-Evolves id current v m h got same
Change-tasks {m} (Change.task_deleted id _) h = delete_task-Evolves id m
Change-tasks {m} (Change.object_created v) h =
    Evolves-kept SameTask m.tasks _ (ap (λ l. l.2) (Frame.create_object-frame v m))
Change-tasks {m} (Change.object_updated _ _ v _ _) h =
    Evolves-kept SameTask m.tasks _ (ap (λ l. l.2) (Frame.update_object-frame v m))
Change-tasks {m} (Change.object_deleted id _) h =
    Evolves-kept SameTask m.tasks _ (ap (λ l. l.2) (Frame.delete_object-frame id m))
Change-tasks {m} (Change.file_appended now object_id file_id reader max_bytes) h =
    Evolves-kept SameTask m.tasks _
      (ap (λ l. l.2) (Frame.append_object_file-frame now object_id file_id reader max_bytes m))
Change-tasks {m} (Change.file_deleted object_id file_id) h =
    Evolves-kept SameTask m.tasks _
      (ap (λ l. l.2) (Frame.delete_object_file-frame object_id file_id m))
Change-tasks {m} (Change.file_created mime fs now input) h =
    Evolves-kept SameTask m.tasks _
      (ap (λ l. l.2) (Frame.create_object_file-frame mime fs now input m))
