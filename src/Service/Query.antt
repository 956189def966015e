-- ===== src/Service/Query.antt =====
-- internal/service/service.go: FullQuery.
use mathlib.Core.List.{Perm}
use mathlib.Core.Path.{subst}
use atlas_c.Base.{ℕ, ◌≡◌, refl, ap, String, some, ok, List, [], ◌∷◌}
use atlas_c.Base.Assoc.{Assoc}
use atlas_c.Catalog.Commands.{Catalog, get_active}
use atlas_c.Model.Records.{QuerySnapshot}
use atlas_c.Store.{MemoryStore}
use atlas_c.Store.Query.{get_full_query_state, object_file_values, values}
use atlas_c.Store.Paging.{newer, sort_slice}
use atlas_c.Store.Paging.Order.{sort_slice-Perm, sort_slice-IsOrdered, newer-asym}
use atlas_c.Store.Listing.Chosen.{records}
use atlas_c.Store.Listing.Newest.{NewestFirst, IsOrdered-NewestFirst}
use atlas_c.Service.State.{Env, Services, Action, ◌>>=◌, pure, gets, now}
use atlas_c.Service.Tasks.{active_catalog, require_active}

-- FullQuery
unfoldable pub full_query : Env → Action QuerySnapshot
full_query env = do
  active ← active_catalog
  state ← gets (λ s. get_full_query_state s.stores)
  generated_at ← now env
  pure (record {
    generated_at = generated_at;
    service = record {
      service = "atlas-core";
      active_command_catalog_object_id = active.object_id;
    };
    entities = state.entities;
    observations = state.observations;
    tasks = state.tasks;
    objects = state.objects;
    object_files = state.object_files;
  })

-- Every entry of a map counts once.
values-records : {K V : Type 0} (m : Assoc K V) → values m ≡ records m
unfolding values
values-records [] = refl
values-records ((k, v) ∷ m) = ap (λ l. v ∷ l) (values-records m)

-- All stored records, each once, newest first.
pub record IsAll {K A : Type 0} (time : A → ℕ) (id : A → String) (stored : Assoc K A)
    (listed : List A) : Type 0 where
  pub same : Perm listed (records stored)
  pub ordered : NewestFirst time id listed

sorted-IsAll :
    {K A : Type 0} (time : A → ℕ) (id : A → String) (stored : Assoc K A)
    → IsAll time id stored
        (sort_slice (λ a b. newer (time a) (id a) (time b) (id b)) (values stored))
sorted-IsAll {A = A} time id stored =
    let less = λ (a : A) (b : A). newer (time a) (id a) (time b) (id b) in
    record {
      same =
          subst (λ l. Perm (sort_slice less (values stored)) l) (values-records stored)
            (sort_slice-Perm less (values stored));
      ordered = IsOrdered-NewestFirst time id (sort_slice less (values stored)) (
          sort_slice-IsOrdered less (λ a b. newer-asym (time a) (time b) (id a) (id b))
            (values stored));
    }

-- A snapshot that holds every stored record once, and names the active catalog.
pub record IsWhole (m : MemoryStore) (c : Catalog) (snapshot : QuerySnapshot) : Type 0 where
  pub entities : IsAll (λ e. e.updated_at) (λ e. e.entity_id) m.entities snapshot.entities
  pub observations :
      IsAll (λ o. o.updated_at) (λ o. o.observation_id) m.observations snapshot.observations
  pub tasks : IsAll (λ t. t.updated_at) (λ t. t.task_id) m.tasks snapshot.tasks
  pub objects : IsAll (λ o. o.updated_at) (λ o. o.object_id) m.objects snapshot.objects
  pub object_files : Perm snapshot.object_files (records m.object_files)
  pub catalog : snapshot.service.active_command_catalog_object_id ≡ c.object_id

-- While a command catalog is active, FullQuery answers a snapshot that holds the record of every entry
-- of the store's maps exactly once: the entities, observations, tasks and objects, each newest first
-- and by identifier at equal times, and the files. The snapshot names the catalog's object, and the
-- stores stay as they are.
pub full_query-IsWhole :
    (env : Env) (s : Services) (c : Catalog)
    → get_active s.commands ≡ some c
    → (snapshot : QuerySnapshot) × ((full_query env s).0 ≡ ok snapshot)
      × IsWhole s.stores c snapshot
      × ((full_query env s).1.stores ≡ s.stores)
unfolding full_query require_active get_full_query_state object_file_values
full_query-IsWhole env s c active = rw active (
  _,
  refl,
  record {
    entities = sorted-IsAll (λ e. e.updated_at) (λ e. e.entity_id) s.stores.entities;
    observations = sorted-IsAll (λ o. o.updated_at) (λ o. o.observation_id) s.stores.observations;
    tasks = sorted-IsAll (λ t. t.updated_at) (λ t. t.task_id) s.stores.tasks;
    objects = sorted-IsAll (λ o. o.updated_at) (λ o. o.object_id) s.stores.objects;
    object_files =
        subst (λ l. Perm (object_file_values s.stores.object_files) l)
          (values-records s.stores.object_files) (sort_slice-Perm _ (values s.stores.object_files));
    catalog = refl;
  },
  refl,
)
