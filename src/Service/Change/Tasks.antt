-- ===== src/Service/Change/Tasks.antt =====
-- The operations on tasks change the stores as Change allows.
use atlas_c.Base.{
  suc, ◌≡◌, refl, String, true, some, ◌⊎◌, inl, inr, Bool-cases, ok, err, ◌==◌, eq_iff,
}
use atlas_c.Catalog.Commands.{get_active}
use atlas_c.Model.Json.{JsonMap, Fields}
use atlas_c.Model.Records.{Task, EventData}
use atlas_c.Store.Entities.{get_entity}
use atlas_c.Store.Tasks.{create_task, get_task, update_task, delete_task, count_task_owned_objects}
use atlas_c.Service.State.{Env, Services}
use atlas_c.Service.Validation.{require_valid_id}
use atlas_c.Service.Commands.{validate_task_command, validate_task_command_catalog}
use atlas_c.Service.TaskJson.{
  merge_task_json_for_status_transition, task_command_and_parameters_equal,
}
use atlas_c.Service.Pinned.{load_pinned_catalog}
use atlas_c.Service.Entities.{require_asset}
use atlas_c.Service.Tasks
use atlas_c.Service.Tasks.{
  TaskCreateInput, TaskPatchInput, TaskStatusInput, new_task, require_active, next_task_json,
  unless_pending, require_same_command, require_allowed, pinned_catalog, check_patched, store_task,
  move_task, no_owned_objects, allowed_task_transition,
}
use atlas_c.Service.Intact.{keeps, keeps_write, publish-pure, publish-stores}
use atlas_c.Service.Change.{Change, Allowed, SameTask}
use atlas_c.Service.Change.Entities.{require_asset-asset}

require_allowed-allowed :
    (current target : String)
    → require_allowed current target ≡ ok tt
    → allowed_task_transition current target ≡ true
unfolding require_allowed
require_allowed-allowed current target h =
    elim (Bool-cases (allowed_task_transition current target)) [
      | inl e ↦ e
      | inr e ↦ let bad : err _ ≡ ok tt = rw (e, require_allowed) at h in cc bad
    ]

require_same_command-equal :
    (current : JsonMap) (next : Fields)
    → require_same_command current next ≡ ok tt
    → task_command_and_parameters_equal current (some next) ≡ true
unfolding require_same_command
require_same_command-equal current next h =
    elim (Bool-cases (task_command_and_parameters_equal current (some next))) [
      | inl e ↦ e
      | inr e ↦ let bad : err _ ≡ ok tt = rw (e, require_same_command) at h in cc bad
    ]

unless_pending-cases :
    (status : String) (current : JsonMap) (next : Fields)
    → unless_pending status (require_same_command current next) ≡ ok tt
    → ((status ≡ "pending") × (status ≡ "pending"))
      ⊎ (task_command_and_parameters_equal current (some next) ≡ true)
unfolding unless_pending
unless_pending-cases status current next h = elim (Bool-cases (status == "pending")) [
  | inl is ↦ let same = (eq_iff status "pending").0 is in inl (same, same)
  | inr other ↦
      let checked : require_same_command current next ≡ ok tt = rw (other, unless_pending) at h in
      inr (require_same_command-equal current next checked)
]

module _ (env : Env) (s : Services) where
  pub create-Change : (input : TaskCreateInput) → Allowed s (Tasks.create_task env input s).1.stores
  unfolding Tasks.create_task
  create-Change input =
      keeps (Allowed s) (require_valid_id "task_id" input.task_id) _ s Change.unchanged (λ _ _.
        keeps (Allowed s) (get_entity input.asset_id s.stores) _ s Change.unchanged (λ asset e.
          keeps (Allowed s) (require_asset "asset_id" "asset_id must reference an asset" asset) _ s
            Change.unchanged
            (λ _ is.
              keeps (Allowed s) (require_active (get_active s.commands)) _ s Change.unchanged
                (λ active _.
                  keeps (Allowed s) (validate_task_command env input.json active asset) _ s
                    Change.unchanged
                    (λ _ _.
                      keeps_write (Allowed s)
                        (create_task (
                          new_task input active.object_id (env.clock s.reads)
                            (env.clock (suc s.reads))))
                        _ (record s { reads = suc (suc s.reads) })
                        (Change.task_created _ asset e
                          (require_asset-asset "asset_id" "asset_id must reference an asset" asset
                            is)
                          refl)
                        (λ t s'.
                          publish-pure env "task" "created" t.task_id (EventData.task t) t s'))))))

  store-Change :
      (id : String) (current next : Task)
      → get_task id s.stores ≡ ok current
      → SameTask current (record next { updated_at = env.clock s.reads })
      → Allowed s (store_task env next s).1.stores
  unfolding store_task
  store-Change id current next found same =
      keeps_write (Allowed s) (update_task (record next { updated_at = env.clock s.reads })) _
        (record s { reads = suc s.reads }) (Change.task_updated id current _ found same)
        (λ t s'. publish-pure env "task" "updated" t.task_id (EventData.task t) t s')

  move-Change :
      (id : String) (task : Task) (input : TaskStatusInput)
      → get_task id s.stores ≡ ok task
      → Allowed s (move_task env task input s).1.stores
  unfolding move_task pinned_catalog
  move-Change id task input found =
      keeps (Allowed s) (require_allowed task.status input.status) _ s Change.unchanged (λ _ moved.
        keeps (Allowed s) (merge_task_json_for_status_transition task.json input.json) _ s
          Change.unchanged
          (λ merged _.
            keeps (Allowed s) (require_same_command task.json merged) _ s Change.unchanged
              (λ _ same.
                keeps (Allowed s) (load_pinned_catalog env task.command_catalog_object_id s) _ s
                  Change.unchanged
                  (λ cat _.
                    keeps (Allowed s) (validate_task_command_catalog env (some merged) cat) _ s
                      Change.unchanged
                      (λ _ _.
                        store-Change id task
                          (record task { status = input.status; json = some merged }) found
                          (record {
                            task_id = refl;
                            asset_id = refl;
                            command_catalog_object_id = refl;
                            created_at = refl;
                            status = inr (require_allowed-allowed task.status input.status moved);
                            command = inr (require_same_command-equal task.json merged same);
                          }))))))

  pub transition-Change :
      (id : String) (input : TaskStatusInput)
      → Allowed s (Tasks.transition_task_status env id input s).1.stores
  unfolding Tasks.transition_task_status
  transition-Change id input =
      keeps (Allowed s) (get_task id s.stores) _ s Change.unchanged (λ task e.
        elim (Bool-cases (task.status == input.status)) [
          | inl same ↦ rw same Change.unchanged
          | inr other ↦ rw other (move-Change id task input e)
        ])

  pub delete-Change : (id : String) → Allowed s (Tasks.delete_task env id s).1.stores
  unfolding Tasks.delete_task
  delete-Change id =
      keeps (Allowed s) (no_owned_objects id (count_task_owned_objects id s.stores)) _ s
        Change.unchanged
        (λ _ free.
          keeps_write (Allowed s) (delete_task id) _ s (Change.task_deleted id free) (λ _ t.
            publish-stores env "task" "deleted" id (EventData.deleted_at (env.clock t.reads))
              (record t { reads = suc t.reads })))

  pub patch-Change :
      (id : String) (patch : TaskPatchInput) → Allowed s (Tasks.patch_task env id patch s).1.stores
  unfolding Tasks.patch_task pinned_catalog
  patch-Change id patch =
      keeps (Allowed s) (get_task id s.stores) _ s Change.unchanged (λ current e.
        keeps (Allowed s) (next_task_json current patch.json) _ s Change.unchanged (λ next _.
          keeps (Allowed s) (unless_pending current.status (require_same_command current.json next))
            _ s Change.unchanged
            (λ _ same.
              keeps (Allowed s) (load_pinned_catalog env current.command_catalog_object_id s) _ s
                Change.unchanged
                (λ cat _.
                  keeps (Allowed s) (check_patched env current next cat s.stores) _ s
                    Change.unchanged
                    (λ _ _.
                      store-Change id current (record current { json = some next }) e
                        (record {
                          task_id = refl;
                          asset_id = refl;
                          command_catalog_object_id = refl;
                          created_at = refl;
                          status = inl refl;
                          command = unless_pending-cases current.status current.json next same;
                        }))))))
