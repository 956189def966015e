-- ===== src/Store/Listing.antt =====
-- What the list methods of the in-memory store answer.
pub mod Chosen
pub mod Newest
use mathlib.Core.List.{Perm}
use atlas_c.Base.{
  ℕ, ◌≡◌, ◌∙◌, ap, String, Bool, true, false, List, length, take, drop, Result, ok, ◌>>=◌,
}
use atlas_c.Model.Pagination.{Pagination}
use atlas_c.Model.Records.{Entity, Task, Object}
use atlas_c.Store.State.{MemoryStore}
use atlas_c.Store.Paging.{newer, sort_slice, paginate, paginate-eq-take-drop}
use atlas_c.Store.Paging.Order.{
  sort_slice-Perm, sort_slice-IsOrdered, length-sort_slice, newer-asym,
}
use atlas_c.Store.Entities.{select_entities, list_entities}
use atlas_c.Store.Tasks.{TaskListFilter, select_tasks, list_tasks}
use atlas_c.Store.Objects.{ObjectListFilter, select_objects, list_objects}
use atlas_c.Store.Listing.Chosen.{
  Picks, records, WantedEntity, WantedTask, WantedObject, select_entities-Picks, select_tasks-Picks,
  select_objects-Picks,
}
use atlas_c.Store.Listing.Newest.{NewestFirst, IsOrdered-NewestFirst}

-- An answer that is one page of the wanted records, newest first, with the number of them all.
pub record IsPage {A : Type 0} (time : A → ℕ) (id : A → String) (Wanted : A → Type 0)
    (stored : List A) (page : Pagination) (answer : Result (List A × ℕ)) : Type 0 where
  pub wanted : List A
  pub picked : Picks Wanted stored wanted
  pub whole : List A
  pub same : Perm whole wanted
  pub ordered : NewestFirst time id whole
  pub answered : answer ≡ ok (take page.limit (drop page.offset whole), length wanted)

sorted-IsPage :
    {A : Type 0} (time : A → ℕ) (id : A → String) (Wanted : A → Type 0) (stored found : List A)
    (page : Pagination)
    → Picks Wanted stored found
    → IsPage time id Wanted stored page (do
      items ← paginate (sort_slice (λ a b. newer (time a) (id a) (time b) (id b)) found) page
      ok (items, length (sort_slice (λ a b. newer (time a) (id a) (time b) (id b)) found)))
sorted-IsPage {A = A} time id Wanted stored found page picked =
    let less = λ (a : A) (b : A). newer (time a) (id a) (time b) (id b) in
    record {
      wanted = found;
      picked = picked;
      whole = sort_slice less found;
      same = sort_slice-Perm less found;
      ordered =
          IsOrdered-NewestFirst time id (sort_slice less found)
            (sort_slice-IsOrdered less (λ a b. newer-asym (time a) (time b) (id a) (id b)) found);
      answered =
          rw (paginate-eq-take-drop (sort_slice less found) page, length-sort_slice less found);
    }

-- Listing entities, tasks or objects never fails, and answers the items from `offset` on, at most
-- `limit` of them, of one list of exactly the stored records that the filter wants, each once, newest
-- first and by identifier at equal times, with the number of all wanted records. A filter wants the
-- records that agree with each of its fields that is not empty; an owner's type and identifier count
-- together where the type is not empty.
pub list-IsPage :
    (type : String) (tasks : TaskListFilter) (objects : ObjectListFilter) (page : Pagination)
    (m : MemoryStore)
    → IsPage
        (λ e. e.updated_at)
        (λ e. e.entity_id)
        (WantedEntity type)
        (records m.entities)
        page
        (list_entities type page m)
      × IsPage
          (λ t. t.updated_at)
          (λ t. t.task_id)
          (WantedTask tasks)
          (records m.tasks)
          page
          (list_tasks tasks page m)
      × IsPage
          (λ o. o.updated_at)
          (λ o. o.object_id)
          (WantedObject objects)
          (records m.objects)
          page
          (list_objects objects page m)
unfolding list_entities list_tasks list_objects
list-IsPage type tasks objects page m = (
  sorted-IsPage (λ e. e.updated_at) (λ e. e.entity_id) (WantedEntity type) (records m.entities)
      (select_entities type m.entities) page (select_entities-Picks type m.entities),
  sorted-IsPage (λ t. t.updated_at) (λ t. t.task_id) (WantedTask tasks) (records m.tasks)
      (select_tasks tasks m.tasks) page (select_tasks-Picks tasks m.tasks),
  sorted-IsPage (λ o. o.updated_at) (λ o. o.object_id) (WantedObject objects) (records m.objects)
      (select_objects objects m.objects) page (select_objects-Picks objects m.objects),
)
