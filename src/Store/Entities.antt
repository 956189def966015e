-- ===== src/Store/Entities.antt =====
-- The entity methods of the in-memory store.
use atlas_c.Base.{
  ℕ, ◌+◌, String, Bool, ◌&&◌, ◌||◌, none, some, List, [], ◌∷◌, length, ◌==◌, if◌then◌else◌, Result,
  ◌>>=◌, ok, err,
}
use atlas_c.Base.Assoc.{Assoc, string_eq, lookup, insert, delete}
use atlas_c.Model.Errors.{conflict, not_found}
use atlas_c.Model.Records.{Entity, Observation, Task, Object}
use atlas_c.Model.Pagination.{Pagination}
use atlas_c.Store.State.{MemoryStore, Method, returns, fails}
use atlas_c.Store.Paging.{newer, sort_slice, paginate}

unfoldable pub create_entity : Entity → Method Entity
create_entity entity m = elim (lookup entity.entity_id m.entities) [
  | some _ ↦ fails (conflict "entity" entity.entity_id "already_exists" []) m
  | none ↦ returns entity (record m { entities = insert entity.entity_id entity m.entities })
]

unfoldable pub get_entity : String → MemoryStore → Result Entity
get_entity id m = elim (lookup id m.entities) [
  | none ↦ err (not_found "entity" id)
  | some item ↦ ok item
]

unfoldable pub update_entity : Entity → Method Entity
update_entity entity m = elim (lookup entity.entity_id m.entities) [
  | none ↦ fails (not_found "entity" entity.entity_id) m
  | some _ ↦ returns entity (record m { entities = insert entity.entity_id entity m.entities })
]

unfoldable pub delete_entity : String → Method (Unit {0})
delete_entity id m = elim (lookup id m.entities) [
  | none ↦ fails (not_found "entity" id) m
  | some _ ↦ returns tt (record m { entities = delete id m.entities })
]

-- `if test { counts[...]++ }`
abbrev tally : Bool → ℕ → ℕ
tally test n = if test then n + 1 else n

unfoldable pub count_tasks : String → Assoc String Task → ℕ
count_tasks id [] = 0
count_tasks id ((_, t) ∷ rest) = tally (t.asset_id == id) (count_tasks id rest)

unfoldable pub count_observations : String → Assoc String Observation → ℕ
count_observations id [] = 0
count_observations id ((_, o) ∷ rest) = tally (o.source_asset_id == id) (count_observations id rest)

unfoldable pub count_objects : String → String → Assoc String Object → ℕ
count_objects owner_type id [] = 0
count_objects owner_type id ((_, o) ∷ rest) =
    tally (o.owner_type == owner_type && o.owner_id == id) (count_objects owner_type id rest)

pub record Dependents : Type 0 where
  pub tasks : ℕ
  pub observations : ℕ
  pub objects : ℕ

-- CountEntityDependents
unfoldable pub count_entity_dependents : String → MemoryStore → Dependents
count_entity_dependents id m = record {
  tasks = count_tasks id m.tasks;
  observations = count_observations id m.observations;
  objects = count_objects "entity" id m.objects;
}

-- The loop of ListEntities.
unfoldable pub select_entities : String → Assoc String Entity → List Entity
select_entities type [] = []
select_entities type ((_, item) ∷ rest) =
    let others = select_entities type rest in
    if type == "" || item.type == type then item ∷ others else others

abbrev pub entity_less : Entity → Entity → Bool
entity_less a b = newer a.updated_at a.entity_id b.updated_at b.entity_id

-- ListEntities; the second part is the number of matches before the page is cut out.
unfoldable pub list_entities : String → Pagination → MemoryStore → Result (List Entity × ℕ)
list_entities type page m = do
  let found = sort_slice entity_less (select_entities type m.entities)
  items ← paginate found page
  ok (items, length found)
