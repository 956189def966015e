-- ===== src/Store/Tasks.antt =====
-- The task methods of the in-memory store.
use atlas_c.Base.{
  ℕ, String, Bool, ◌>>=◌, ◌&&◌, not, none, some, List, [], ◌∷◌, length, ◌==◌, if◌then◌else◌, Result,
  ok, err,
}
use atlas_c.Base.Assoc.{Assoc, string_eq, lookup, insert, delete}
use atlas_c.Model.Errors.{conflict, not_found}
use atlas_c.Model.Records.{Task}
use atlas_c.Model.Pagination.{Pagination}
use atlas_c.Store.State.{MemoryStore, Method, returns, fails}
use atlas_c.Store.Paging.{newer, sort_slice, paginate}
use atlas_c.Store.Entities.{count_objects}

unfoldable pub create_task : Task → Method Task
create_task item m = elim (lookup item.task_id m.tasks) [
  | some _ ↦ fails (conflict "task" item.task_id "already_exists" []) m
  | none ↦ returns item (record m { tasks = insert item.task_id item m.tasks })
]

unfoldable pub get_task : String → MemoryStore → Result Task
get_task id m = elim (lookup id m.tasks) [ none ↦ err (not_found "task" id) | some item ↦ ok item ]

unfoldable pub update_task : Task → Method Task
update_task item m = elim (lookup item.task_id m.tasks) [
  | none ↦ fails (not_found "task" item.task_id) m
  | some _ ↦ returns item (record m { tasks = insert item.task_id item m.tasks })
]

unfoldable pub delete_task : String → Method (Unit {0})
delete_task id m = elim (lookup id m.tasks) [
  | none ↦ fails (not_found "task" id) m
  | some _ ↦ returns tt (record m { tasks = delete id m.tasks })
]

-- CountTaskOwnedObjects
unfoldable pub count_task_owned_objects : String → MemoryStore → ℕ
count_task_owned_objects task_id m = count_objects "task" task_id m.objects

pub record TaskListFilter : Type 0 where
  pub asset_id : String
  pub status : String

-- The loop of ListTasks, with its two `continue`s.
unfoldable pub select_tasks : TaskListFilter → Assoc String Task → List Task
select_tasks filter [] = []
select_tasks filter ((_, item) ∷ rest) =
    let others = select_tasks filter rest in
    if not (filter.asset_id == "") && not (item.asset_id == filter.asset_id)
    then others
    else if not (filter.status == "") && not (item.status == filter.status)
    then others
    else item ∷ others

abbrev pub task_less : Task → Task → Bool
task_less a b = newer a.updated_at a.task_id b.updated_at b.task_id

-- ListTasks
unfoldable pub list_tasks : TaskListFilter → Pagination → MemoryStore → Result (List Task × ℕ)
list_tasks filter page m = do
  let found = sort_slice task_less (select_tasks filter m.tasks)
  items ← paginate found page
  ok (items, length found)

-- ListTasksForAsset
unfoldable pub list_tasks_for_asset : String → Pagination → MemoryStore → Result (List Task × ℕ)
list_tasks_for_asset asset_id page m =
    list_tasks (record { asset_id = asset_id; status = "" }) page m
