-- ===== src/Service/Change.antt =====
-- What one operation of the service may do to the stores: an abstract description of its methods of
-- internal/service/service.go, without their checks of documents, their clock and their events.
pub mod Entities
pub mod Observations
pub mod Tasks
pub mod Objects
pub mod Evolution
pub mod Serve
use atlas_c.Base.{ℕ, ◌≡◌, String, Bool, true, ◌⊎◌, none, ok}
use atlas_c.Catalog.Commands.{Active, protection}
use atlas_c.Model.Records.{Entity, Observation, Task, Object, Time}
use atlas_c.Store.{MemoryStore}
use atlas_c.Store.Entities.{
  create_entity, get_entity, update_entity, delete_entity, count_entity_dependents,
}
use atlas_c.Store.Observations.{
  create_observation, get_observation, update_observation, delete_observation,
}
use atlas_c.Store.Tasks.{create_task, get_task, update_task, delete_task, count_task_owned_objects}
use atlas_c.Store.Objects.{create_object, get_object, update_object, delete_object}
use atlas_c.Model.MediaType.{Mime}
use atlas_c.Store.Staged.{FileSystem}
use atlas_c.Store.Uploads.{ObjectUploadInput, create_object_file}
use atlas_c.Store.Files.{Reader, append_object_file, delete_object_file}
use atlas_c.Service.State.{Services}
use atlas_c.Service.Entities.{refuse_dependents}
use atlas_c.Service.TaskJson.{task_command_and_parameters_equal}
use atlas_c.Service.Tasks.{allowed_task_transition, no_owned_objects}

-- What an update keeps of a record.
pub record SameEntity (before after : Entity) : Type 0 where
  pub entity_id : after.entity_id ≡ before.entity_id
  pub type : after.type ≡ before.type
  pub created_at : after.created_at ≡ before.created_at

pub record SameObservation (before after : Observation) : Type 0 where
  pub observation_id : after.observation_id ≡ before.observation_id
  pub source_asset_id : after.source_asset_id ≡ before.source_asset_id
  pub created_at : after.created_at ≡ before.created_at

pub record SameObject (before after : Object) : Type 0 where
  pub object_id : after.object_id ≡ before.object_id
  pub owner_type : after.owner_type ≡ before.owner_type
  pub owner_id : after.owner_id ≡ before.owner_id
  pub created_at : after.created_at ≡ before.created_at

-- What an update keeps of a task. Its status stays or makes an allowed move, and its command and
-- parameters stay, unless it was pending and still is.
pub record SameTask (before after : Task) : Type 0 where
  pub task_id : after.task_id ≡ before.task_id
  pub asset_id : after.asset_id ≡ before.asset_id
  pub command_catalog_object_id : after.command_catalog_object_id ≡ before.command_catalog_object_id
  pub created_at : after.created_at ≡ before.created_at
  pub status :
      (after.status ≡ before.status) ⊎ (allowed_task_transition before.status after.status ≡ true)
  pub command :
      ((before.status ≡ "pending") × (after.status ≡ "pending"))
      ⊎ (task_command_and_parameters_equal before.json after.json ≡ true)

-- The change of the stores that one operation makes: at most one call of one of their methods that
-- write, with what the operation made sure of before the call.
pub data Change (commands : Active) (m : MemoryStore) : MemoryStore → Type 0 where
  unchanged : Change commands m m
  entity_created : (e : Entity) → Change commands m (create_entity e m).1
  entity_updated :
      (id : String) (current e : Entity)
      → get_entity id m ≡ ok current
      → SameEntity current e
      → Change commands m (update_entity e m).1
  entity_deleted :
      (id : String)
      → refuse_dependents id (count_entity_dependents id m) ≡ ok tt
      → Change commands m (delete_entity id m).1
  observation_created :
      (o : Observation) (asset : Entity)
      → get_entity o.source_asset_id m ≡ ok asset
      → asset.type ≡ "asset"
      → Change commands m (create_observation o m).1
  observation_updated :
      (id : String) (current o : Observation)
      → get_observation id m ≡ ok current
      → SameObservation current o
      → Change commands m (update_observation o m).1
  observation_deleted : (id : String) → Change commands m (delete_observation id m).1
  task_created :
      (t : Task) (asset : Entity)
      → get_entity t.asset_id m ≡ ok asset
      → asset.type ≡ "asset"
      → t.status ≡ "pending"
      → Change commands m (create_task t m).1
  task_updated :
      (id : String) (current t : Task)
      → get_task id m ≡ ok current
      → SameTask current t
      → Change commands m (update_task t m).1
  task_deleted :
      (id : String)
      → no_owned_objects id (count_task_owned_objects id m) ≡ ok tt
      → Change commands m (delete_task id m).1
  object_created : (o : Object) → Change commands m (create_object o m).1
  object_updated :
      (id : String) (current o : Object)
      → get_object id m ≡ ok current
      → SameObject current o
      → Change commands m (update_object o m).1
  object_deleted :
      (id : String) → protection commands id ≡ none → Change commands m (delete_object id m).1
  file_created :
      (mime : Mime) (fs : FileSystem) (now : Time) (input : ObjectUploadInput)
      → Change commands m (create_object_file mime fs now input m).1
  file_appended :
      (now : Time) (object_id file_id : String) (reader : Reader) (max_bytes : ℕ)
      → Change commands m (append_object_file now object_id file_id reader max_bytes m).1
  file_deleted :
      (object_id file_id : String) → Change commands m (delete_object_file object_id file_id m).1

-- From a state of the services.
abbrev pub Allowed : Services → MemoryStore → Type 0
Allowed s = Change s.commands s.stores
