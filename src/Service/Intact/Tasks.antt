-- ===== src/Service/Intact/Tasks.antt =====
-- The operations on tasks keep the references of the store.
use atlas_c.Base.{
  ℕ, suc, ◌≡◌, ap, ◌∙◌, String, some, inl, inr, Option-cases, Bool-cases, ok, err, ◌==◌, ltb, arith,
}
use atlas_c.Base.Assoc.{string_eq, lookup}
use atlas_c.Catalog.Commands.{get_active}
use atlas_c.Model.Records.{Task, EventData}
use atlas_c.Store.{MemoryStore}
use atlas_c.Store.Integrity.{IsIntact, IsAsset, put_task}
use atlas_c.Store.Integrity.Counts.{count_objects-zero}
use atlas_c.Store.Integrity.Drops.{drop_task}
use atlas_c.Store.Entities.{get_entity}
use atlas_c.Store.Tasks.{create_task, get_task, update_task, delete_task, count_task_owned_objects}
use atlas_c.Service.State.{Env, Services}
use atlas_c.Service.Validation.{require_valid_id}
use atlas_c.Service.Commands.{validate_task_command, validate_task_command_catalog}
use atlas_c.Service.TaskJson.{merge_task_json_for_status_transition}
use atlas_c.Service.Pinned.{load_pinned_catalog}
use atlas_c.Service.Entities.{require_asset}
use atlas_c.Service.Tasks
use atlas_c.Service.Tasks.{
  TaskCreateInput, TaskPatchInput, TaskStatusInput, new_task, require_active, next_task_json,
  unless_pending, require_same_command, require_allowed, pinned_catalog, check_patched, store_task,
  move_task, no_owned_objects,
}
use atlas_c.Service.Intact.{keeps, keeps_write, publish-pure, publish-stores}
use atlas_c.Service.Intact.Observations.{require_asset-IsAsset}

create_task-IsIntact :
    (v : Task) (m : MemoryStore)
    → IsAsset m.entities v.asset_id
    → IsIntact m
    → IsIntact (create_task v m).1
unfolding create_task
create_task-IsIntact v m asset h = elim (Option-cases (lookup v.task_id m.tasks)) [
  | inl absent ↦ rw (absent, create_task) (put_task h v asset)
  | inr (old, found) ↦ rw (found, create_task) h
]

update_task-IsIntact :
    (v : Task) (m : MemoryStore)
    → IsAsset m.entities v.asset_id
    → IsIntact m
    → IsIntact (update_task v m).1
unfolding update_task
update_task-IsIntact v m asset h = elim (Option-cases (lookup v.task_id m.tasks)) [
  | inl absent ↦ rw (absent, update_task) h
  | inr (old, found) ↦ rw (found, update_task) (put_task h v asset)
]

pub get_task-found :
    (id : String) (m : MemoryStore) (v : Task) → get_task id m ≡ ok v → lookup id m.tasks ≡ some v
unfolding get_task
get_task-found id m v h = elim (Option-cases (lookup id m.tasks)) [
  | inl absent ↦ let bad : err _ ≡ ok v = rw (absent, get_task) at h in cc bad
  | inr (w, found) ↦
      let it : ok w ≡ ok v = rw (found, get_task) at h in
      let it' : w ≡ v = cc it in found ∙ ap some it'
]

no_owned_objects-zero : (id : String) (n : ℕ) → no_owned_objects id n ≡ ok tt → n ≡ 0
unfolding no_owned_objects
no_owned_objects-zero id n h = elim (Bool-cases (ltb 0 n)) [
  | inl e ↦ let bad : err _ ≡ ok tt = rw (e, no_owned_objects) at h in cc bad
  | inr e ↦ ground (arith, e)
]

delete_task-IsIntact :
    (id : String) (m : MemoryStore)
    → no_owned_objects id (count_task_owned_objects id m) ≡ ok tt
    → IsIntact m
    → IsIntact (delete_task id m).1
unfolding delete_task count_task_owned_objects
delete_task-IsIntact id m free h = elim (Option-cases (lookup id m.tasks)) [
  | inl absent ↦ rw (absent, delete_task) h
  | inr (old, found) ↦
      rw (found, delete_task)
        (drop_task h id (
          count_objects-zero "task" id m.objects
            (no_owned_objects-zero id (count_task_owned_objects id m) free)))
]

module _ (env : Env) where
  pub create-IsIntact :
      (input : TaskCreateInput) (s : Services)
      → IsIntact s.stores
      → IsIntact (Tasks.create_task env input s).1.stores
  unfolding Tasks.create_task
  create-IsIntact input s h =
      keeps IsIntact (require_valid_id "task_id" input.task_id) _ s h (λ _ _.
        keeps IsIntact (get_entity input.asset_id s.stores) _ s h (λ asset e.
          keeps IsIntact (require_asset "asset_id" "asset_id must reference an asset" asset) _ s h
            (λ _ is. keeps IsIntact (require_active (get_active s.commands)) _ s h (λ active _.
              keeps IsIntact (validate_task_command env input.json active asset) _ s h (λ _ _.
                keeps_write IsIntact
                  (create_task
                    (new_task input active.object_id (env.clock s.reads) (env.clock (suc s.reads))))
                  _ (record s { reads = suc (suc s.reads) })
                  (create_task-IsIntact _ s.stores
                    (require_asset-IsAsset "asset_id" "asset_id must reference an asset"
                      input.asset_id asset s.stores e is)
                    h)
                  (λ t s'. publish-pure env "task" "created" t.task_id (EventData.task t) t s'))))))

  store_task-IsIntact :
      (task : Task) (s : Services)
      → IsAsset s.stores.entities task.asset_id
      → IsIntact s.stores
      → IsIntact (store_task env task s).1.stores
  unfolding store_task
  store_task-IsIntact task s asset h =
      keeps_write IsIntact (update_task (record task { updated_at = env.clock s.reads })) _
        (record s { reads = suc s.reads }) (update_task-IsIntact _ s.stores asset h)
        (λ t s'. publish-pure env "task" "updated" t.task_id (EventData.task t) t s')

  move-IsIntact :
      (task : Task) (input : TaskStatusInput) (s : Services)
      → IsAsset s.stores.entities task.asset_id
      → IsIntact s.stores
      → IsIntact (move_task env task input s).1.stores
  unfolding move_task pinned_catalog
  move-IsIntact task input s asset h =
      keeps IsIntact (require_allowed task.status input.status) _ s h (λ _ _.
        keeps IsIntact (merge_task_json_for_status_transition task.json input.json) _ s h
          (λ merged _. keeps IsIntact (require_same_command task.json merged) _ s h (λ _ _.
            keeps IsIntact (load_pinned_catalog env task.command_catalog_object_id s) _ s h
              (λ cat _.
                keeps IsIntact (validate_task_command_catalog env (some merged) cat) _ s h (λ _ _.
                  store_task-IsIntact (record task { status = input.status; json = some merged }) s
                    asset h)))))

  pub transition-IsIntact :
      (id : String) (input : TaskStatusInput) (s : Services)
      → IsIntact s.stores
      → IsIntact (Tasks.transition_task_status env id input s).1.stores
  unfolding Tasks.transition_task_status
  transition-IsIntact id input s h = keeps IsIntact (get_task id s.stores) _ s h (λ task e.
      elim (Bool-cases (task.status == input.status)) [
        | inl same ↦ rw same h
        | inr other ↦ rw other (
            move-IsIntact task input s (h.task_asset id task (get_task-found id s.stores task e)) h)
      ])

  pub delete-IsIntact :
      (id : String) (s : Services)
      → IsIntact s.stores
      → IsIntact (Tasks.delete_task env id s).1.stores
  unfolding Tasks.delete_task
  delete-IsIntact id s h =
      keeps IsIntact (no_owned_objects id (count_task_owned_objects id s.stores)) _ s h (λ _ free.
        keeps_write IsIntact (delete_task id) _ s (delete_task-IsIntact id s.stores free h) (λ _ t.
          publish-stores env "task" "deleted" id (EventData.deleted_at (env.clock t.reads))
            (record t { reads = suc t.reads })))

  pub patch-IsIntact :
      (id : String) (patch : TaskPatchInput) (s : Services)
      → IsIntact s.stores
      → IsIntact (Tasks.patch_task env id patch s).1.stores
  unfolding Tasks.patch_task pinned_catalog
  patch-IsIntact id patch s h = keeps IsIntact (get_task id s.stores) _ s h (λ current e.
      keeps IsIntact (next_task_json current patch.json) _ s h (λ next _.
        keeps IsIntact (unless_pending current.status (require_same_command current.json next)) _ s
          h
          (λ _ _.
            keeps IsIntact (load_pinned_catalog env current.command_catalog_object_id s) _ s h
              (λ cat _. keeps IsIntact (check_patched env current next cat s.stores) _ s h (λ _ _.
                store_task-IsIntact (record current { json = some next }) s
                  (h.task_asset id current (get_task-found id s.stores current e)) h)))))
