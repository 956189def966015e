-- ===== src/Store/Query.antt =====
-- internal/service/servicetest/stores.go: GetFullQueryState.
use atlas_c.Base.{Bool, not, List, [], ◌∷◌, ltb, nat_eq, ◌==◌, if◌then◌else◌}
use atlas_c.Base.Assoc.{Assoc}
use atlas_c.Model.Records.{Entity, Observation, Task, Object, ObjectFile}
use atlas_c.Store.State.{MemoryStore, ObjectFileKey}
use atlas_c.Store.Paging.{newer, text_lt, sort_slice}

pub record QueryState : Type 0 where
  pub entities : List Entity
  pub observations : List Observation
  pub tasks : List Task
  pub objects : List Object
  pub object_files : List ObjectFile

-- values, in the order of the iteration
unfoldable pub values {ℓ κ} : {K : Type ℓ} {V : Type κ} → Assoc K V → List V
values [] = []
values ((_, v) ∷ rest) = v ∷ values rest

unfoldable pub newer_file : ObjectFile → ObjectFile → Bool
newer_file a b =
    if not (nat_eq a.updated_at b.updated_at)
    then ltb b.updated_at a.updated_at
    else if not (a.object_id == b.object_id)
    then text_lt a.object_id b.object_id
    else text_lt a.file_id b.file_id

-- objectFileValues
unfoldable pub object_file_values : Assoc ObjectFileKey ObjectFile → List ObjectFile
object_file_values files = sort_slice newer_file (values files)

-- GetFullQueryState
unfoldable pub get_full_query_state : MemoryStore → QueryState
unfolding values object_file_values
get_full_query_state m = record {
  entities =
      sort_slice (λ a b. newer a.updated_at a.entity_id b.updated_at b.entity_id)
        (values m.entities);
  observations =
      sort_slice (λ a b. newer a.updated_at a.observation_id b.updated_at b.observation_id)
        (values m.observations);
  tasks = sort_slice (λ a b. newer a.updated_at a.task_id b.updated_at b.task_id) (values m.tasks);
  objects =
      sort_slice (λ a b. newer a.updated_at a.object_id b.updated_at b.object_id)
        (values m.objects);
  object_files = object_file_values m.object_files;
}
