-- ===== src/Store/Objects.antt =====
-- The object methods of the in-memory store.
use atlas_c.Base.{
  String, Bool, false, ◌&&◌, ◌||◌, not, ℕ, length, none, some, List, [], ◌∷◌, ◌==◌, if◌then◌else◌,
  Result, ◌>>=◌, ok, err, pass,
}
use atlas_c.Base.Assoc.{Assoc, string_eq, lookup, insert}
use atlas_c.Base.{label}
use atlas_c.Model.Errors.{conflict, not_found}
use atlas_c.Model.Records.{Object, Task}
use atlas_c.Model.Pagination.{Pagination}
use atlas_c.Store.State.{MemoryStore, Method, returns, fails}
use atlas_c.Store.Observations.{drop_object, get_observation}
use atlas_c.Store.Entities.{get_entity}
use atlas_c.Store.Tasks.{get_task}
use atlas_c.Store.Paging.{newer, sort_slice, paginate}

abbrev pub checked : {A : Type 0} → Result A → Result (Unit {0})
checked (ok a) = pass
checked (err e) = err e

-- The `switch item.OwnerType` of CreateObject.
unfoldable pub owner_exists : Object → MemoryStore → Result (Unit {0})
owner_exists item m =
    if item.owner_type == "entity"
    then checked (get_entity item.owner_id m)
    else if item.owner_type == "observation"
    then checked (get_observation item.owner_id m)
    else if item.owner_type == "task"
    then checked (get_task item.owner_id m)
    else pass

unfoldable pub create_object : Object → Method Object
create_object item m = elim (lookup item.object_id m.objects) [
  | some _ ↦ fails (conflict "object" item.object_id "already_exists" []) m
  | none ↦ elim (owner_exists item m) [
    | err e ↦ fails e m
    | ok _ ↦ returns item (record m { objects = insert item.object_id item m.objects })
  ]
]

unfoldable pub get_object : String → MemoryStore → Result Object
get_object id m = elim (lookup id m.objects) [
  | none ↦ err (not_found "object" id)
  | some item ↦ ok item
]

unfoldable pub update_object : Object → Method Object
update_object item m = elim (lookup item.object_id m.objects) [
  | none ↦ fails (not_found "object" item.object_id) m
  | some _ ↦ returns item (record m { objects = insert item.object_id item m.objects })
]

-- `for _, task := range m.Tasks { if task.CommandCatalogObjectID == id { ... } }`
unfoldable pub is_referenced : String → Assoc String Task → Bool
is_referenced id [] = false
is_referenced id ((_, task) ∷ rest) = task.command_catalog_object_id == id || is_referenced id rest

unfoldable pub delete_object : String → Method (Unit {0})
delete_object id m = elim (lookup id m.objects) [
  | none ↦ fails (not_found "object" id) m
  | some _ ↦
      if is_referenced id m.tasks
      then fails
          (conflict "object" id "referenced" (("dependent_resource_type", label "task") ∷ [])) m
      else returns tt (drop_object id m)
]

pub record ObjectListFilter : Type 0 where
  pub owner_type : String
  pub owner_id : String
  pub type : String

-- The loop of ListObjects.
unfoldable pub select_objects : ObjectListFilter → Assoc String Object → List Object
select_objects filter [] = []
select_objects filter ((_, item) ∷ rest) =
    let others = select_objects filter rest in
    if not (filter.owner_type == "")
      && (not (item.owner_type == filter.owner_type) || not (item.owner_id == filter.owner_id))
    then others
    else if not (filter.type == "") && not (item.type == filter.type)
    then others
    else item ∷ others

abbrev pub object_less : Object → Object → Bool
object_less a b = newer a.updated_at a.object_id b.updated_at b.object_id

-- ListObjects
unfoldable pub list_objects : ObjectListFilter → Pagination → MemoryStore → Result (List Object × ℕ)
list_objects filter page m = do
  let found = sort_slice object_less (select_objects filter m.objects)
  items ← paginate found page
  ok (items, length found)
