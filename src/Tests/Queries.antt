-- ===== src/Tests/Queries.antt =====
-- Tests of the queries.
use atlas_c.Base.{◌≡◌, refl, ok}
use atlas_c.Catalog.Commands.{get_active}
use atlas_c.Model.Pagination.{Pagination}
use atlas_c.Model.Records.{QuerySnapshot}
use atlas_c.Store.Entities.{list_entities}
use atlas_c.Store.Tasks.{TaskListFilter, list_tasks}
use atlas_c.Store.Objects.{ObjectListFilter, list_objects}
use atlas_c.Store.Listing.Chosen.{WantedEntity, WantedTask, WantedObject, records}
use atlas_c.Store.Listing.{IsPage, list-IsPage}
use atlas_c.Service.Query.{full_query, IsWhole, full_query-IsWhole}
use atlas_c.Tests.Service.{env, catalog}
use atlas_c.Tests.Lifecycle.{started}

abbrev first_page : Pagination
first_page = record { limit = 10; offset = 0 }

abbrev pending_tasks : TaskListFilter
pending_tasks = record { asset_id = "a1"; status = "pending" }

abbrev owned_objects : ObjectListFilter
owned_objects = record { owner_type = "entity"; owner_id = "a1"; type = "" }

list-IsPage_example :
    IsPage
      (λ e. e.updated_at)
      (λ e. e.entity_id)
      (WantedEntity "asset")
      (records started.stores.entities)
      first_page
      (list_entities "asset" first_page started.stores)
    × IsPage
        (λ t. t.updated_at)
        (λ t. t.task_id)
        (WantedTask pending_tasks)
        (records started.stores.tasks)
        first_page
        (list_tasks pending_tasks first_page started.stores)
    × IsPage
        (λ o. o.updated_at)
        (λ o. o.object_id)
        (WantedObject owned_objects)
        (records started.stores.objects)
        first_page
        (list_objects owned_objects first_page started.stores)
list-IsPage_example = list-IsPage "asset" pending_tasks owned_objects first_page started.stores

full_query-IsWhole_example :
    (snapshot : QuerySnapshot) × ((full_query env started).0 ≡ ok snapshot)
    × IsWhole started.stores catalog snapshot
    × ((full_query env started).1.stores ≡ started.stores)
unfolding get_active
full_query-IsWhole_example = full_query-IsWhole env started catalog refl
