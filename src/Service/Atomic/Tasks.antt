-- ===== src/Service/Atomic/Tasks.antt =====
-- The operations on tasks leave the stores as they were where they fail.
use atlas_c.Base.{suc, refl, String, some, inl, inr, Bool-cases, ◌==◌}
use atlas_c.Catalog.Commands.{get_active}
use atlas_c.Model.Records.{Task, EventData}
use atlas_c.Store.Entities.{get_entity}
use atlas_c.Store.Tasks.{create_task, get_task, update_task, delete_task, count_task_owned_objects}
use atlas_c.Store.Atomic.{create_task-atomic, update_task-atomic, delete_task-atomic}
use atlas_c.Service.State.{Env, Services}
use atlas_c.Service.Validation.{require_valid_id}
use atlas_c.Service.Commands.{validate_task_command, validate_task_command_catalog}
use atlas_c.Service.TaskJson.{merge_task_json_for_status_transition}
use atlas_c.Service.Pinned.{load_pinned_catalog}
use atlas_c.Service.Entities.{require_asset}
use atlas_c.Service.Tasks
use atlas_c.Service.Tasks.{
  TaskCreateInput, TaskPatchInput, TaskStatusInput, new_task, require_active, next_task_json,
  unless_pending, require_same_command, require_allowed, pinned_catalog, check_patched, store_task,
  move_task, no_owned_objects,
}
use atlas_c.Service.Atomic.{
  IsLive, IsSettled, settles, settles_write, publish-Answers, publish-pure-Answers,
}

module _ (env : Env) (s : Services) (l : IsLive s.publisher) where
  pub create-IsSettled :
      (input : TaskCreateInput) → IsSettled s.stores (Tasks.create_task env input s)
  unfolding Tasks.create_task
  create-IsSettled input =
      settles s.stores (require_valid_id "task_id" input.task_id) _ s refl l (λ _ _.
        settles s.stores (get_entity input.asset_id s.stores) _ s refl l (λ asset _.
          settles s.stores (require_asset "asset_id" "asset_id must reference an asset" asset) _ s
            refl l
            (λ _ _.
              settles s.stores (require_active (get_active s.commands)) _ s refl l (λ active _.
                settles s.stores (validate_task_command env input.json active asset) _ s refl l
                  (λ _ _.
                    settles_write s.stores
                      (create_task (
                        new_task input active.object_id (env.clock s.reads)
                          (env.clock (suc s.reads))))
                      _ (record s { reads = suc (suc s.reads) }) (create_task-atomic _ s.stores)
                      refl l
                      (λ t s'.
                        publish-pure-Answers env "task" "created" t.task_id (EventData.task t) t
                          s'))))))

  store-IsSettled : (next : Task) → IsSettled s.stores (store_task env next s)
  unfolding store_task
  store-IsSettled next =
      settles_write s.stores (update_task (record next { updated_at = env.clock s.reads })) _
        (record s { reads = suc s.reads }) (update_task-atomic _ s.stores) refl l
        (λ t s'. publish-pure-Answers env "task" "updated" t.task_id (EventData.task t) t s')

  move-IsSettled :
      (task : Task) (input : TaskStatusInput) → IsSettled s.stores (move_task env task input s)
  unfolding move_task pinned_catalog
  move-IsSettled task input =
      settles s.stores (require_allowed task.status input.status) _ s refl l (λ _ _.
        settles s.stores (merge_task_json_for_status_transition task.json input.json) _ s refl l
          (λ merged _. settles s.stores (require_same_command task.json merged) _ s refl l (λ _ _.
            settles s.stores (load_pinned_catalog env task.command_catalog_object_id s) _ s refl l
              (λ cat _.
                settles s.stores (validate_task_command_catalog env (some merged) cat) _ s refl l
                  (λ _ _.
                    store-IsSettled (record task { status = input.status; json = some merged }))))))

  pub transition-IsSettled :
      (id : String) (input : TaskStatusInput)
      → IsSettled s.stores (Tasks.transition_task_status env id input s)
  unfolding Tasks.transition_task_status
  transition-IsSettled id input = settles s.stores (get_task id s.stores) _ s refl l (λ task _.
      elim (Bool-cases (task.status == input.status)) [
        | inl same ↦ rw same (record { failed = λ _ _. refl; live = l })
        | inr other ↦ rw other (move-IsSettled task input)
      ])

  pub delete-IsSettled : (id : String) → IsSettled s.stores (Tasks.delete_task env id s)
  unfolding Tasks.delete_task
  delete-IsSettled id =
      settles s.stores (no_owned_objects id (count_task_owned_objects id s.stores)) _ s refl l
        (λ _ _.
          settles_write s.stores (delete_task id) _ s (delete_task-atomic id s.stores) refl l
            (λ _ t.
              publish-Answers env "task" "deleted" id (EventData.deleted_at (env.clock t.reads))
                (record t { reads = suc t.reads })))

  pub patch-IsSettled :
      (id : String) (patch : TaskPatchInput) → IsSettled s.stores (Tasks.patch_task env id patch s)
  unfolding Tasks.patch_task pinned_catalog
  patch-IsSettled id patch = settles s.stores (get_task id s.stores) _ s refl l (λ current _.
      settles s.stores (next_task_json current patch.json) _ s refl l (λ next _.
        settles s.stores (unless_pending current.status (require_same_command current.json next)) _
          s refl l
          (λ _ _.
            settles s.stores (load_pinned_catalog env current.command_catalog_object_id s) _ s refl
              l
              (λ cat _.
                settles s.stores (check_patched env current next cat s.stores) _ s refl l
                  (λ _ _. store-IsSettled (record current { json = some next }))))))
