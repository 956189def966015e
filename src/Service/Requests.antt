-- ===== src/Service/Requests.antt =====
-- The operations of the service that change its state, as requests, and runs of them.
use atlas_c.Base.{String, ℕ, List, [], ◌∷◌}
use atlas_c.Catalog.Commands.{Catalog, set_active, clear_active}
use atlas_c.Store.Files.{Reader}
use atlas_c.Store.Uploads.{ObjectUploadInput}
use atlas_c.Store.Integrity.{IsIntact}
use atlas_c.Service.State.{Env, Services}
use atlas_c.Service.Entities.{EntityCreateInput, EntityPatchInput}
use atlas_c.Service.Observations.{ObservationCreateInput, ObservationPatchInput}
use atlas_c.Service.Tasks.{TaskCreateInput, TaskPatchInput, TaskStatusInput}
use atlas_c.Service.Objects.{ObjectCreateInput, ObjectPatchInput}
use atlas_c.Service.Entities
use atlas_c.Service.Observations
use atlas_c.Service.Tasks
use atlas_c.Service.Objects
use atlas_c.Service.Intact.Entities as EntitiesIntact
use atlas_c.Service.Intact.Observations as ObservationsIntact
use atlas_c.Service.Intact.Tasks as TasksIntact
use atlas_c.Service.Intact.Objects as ObjectsIntact

-- One request per method that writes, and the two changes of the active catalog at run time.
pub data Request : Type 0 where
  create_entity : EntityCreateInput → Request
  patch_entity : String → EntityPatchInput → Request
  delete_entity : String → Request
  create_observation : ObservationCreateInput → Request
  patch_observation : String → ObservationPatchInput → Request
  delete_observation : String → Request
  create_task : TaskCreateInput → Request
  patch_task : String → TaskPatchInput → Request
  transition_task_status : String → TaskStatusInput → Request
  delete_task : String → Request
  create_object : ObjectCreateInput → Request
  patch_object : String → ObjectPatchInput → Request
  delete_object : String → Request
  upload_object_file : ObjectUploadInput → Request
  append_object_file : String → String → Reader → ℕ → Request
  delete_object_file : String → String → Request
  activate_catalog : Catalog → Request
  deactivate_catalog : Request

module _ (env : Env) where
  -- The state after a request, whatever it answered.
  unfoldable pub serve : Request → Services → Services
  serve (Request.create_entity input) s = (Entities.create_entity env input s).1
  serve (Request.patch_entity id patch) s = (Entities.patch_entity env id patch s).1
  serve (Request.delete_entity id) s = (Entities.delete_entity env id s).1
  serve (Request.create_observation input) s = (Observations.create_observation env input s).1
  serve (Request.patch_observation id patch) s = (Observations.patch_observation env id patch s).1
  serve (Request.delete_observation id) s = (Observations.delete_observation env id s).1
  serve (Request.create_task input) s = (Tasks.create_task env input s).1
  serve (Request.patch_task id patch) s = (Tasks.patch_task env id patch s).1
  serve (Request.transition_task_status id input) s =
      (Tasks.transition_task_status env id input s).1
  serve (Request.delete_task id) s = (Tasks.delete_task env id s).1
  serve (Request.create_object input) s = (Objects.create_object env input s).1
  serve (Request.patch_object id patch) s = (Objects.patch_object env id patch s).1
  serve (Request.delete_object id) s = (Objects.delete_object env id s).1
  serve (Request.upload_object_file input) s = (Objects.upload_object_file env input s).1
  serve (Request.append_object_file object_id file_id reader max_bytes) s =
      (Objects.append_object_file env object_id file_id reader max_bytes s).1
  serve (Request.delete_object_file object_id file_id) s =
      (Objects.delete_object_file env object_id file_id s).1
  serve (Request.activate_catalog cat) s = record s { commands = set_active cat s.commands }
  serve Request.deactivate_catalog s = record s { commands = clear_active s.commands }

  -- A run of requests, in the order in which they take effect.
  unfoldable pub serve_all : List Request → Services → Services
  unfolding serve
  serve_all [] s = s
  serve_all (r ∷ rest) s = serve_all rest (serve r s)

  pub serve-IsIntact :
      (r : Request) (s : Services) → IsIntact s.stores → IsIntact (serve r s).stores
  unfolding serve
  serve-IsIntact (Request.create_entity input) s h = EntitiesIntact.create-IsIntact env input s h
  serve-IsIntact (Request.patch_entity id patch) s h =
      EntitiesIntact.patch-IsIntact env id patch s h
  serve-IsIntact (Request.delete_entity id) s h = EntitiesIntact.delete-IsIntact env id s h
  serve-IsIntact (Request.create_observation input) s h =
      ObservationsIntact.create-IsIntact env input s h
  serve-IsIntact (Request.patch_observation id patch) s h =
      ObservationsIntact.patch-IsIntact env id patch s h
  serve-IsIntact (Request.delete_observation id) s h = ObservationsIntact.delete-IsIntact env id s h
  serve-IsIntact (Request.create_task input) s h = TasksIntact.create-IsIntact env input s h
  serve-IsIntact (Request.patch_task id patch) s h = TasksIntact.patch-IsIntact env id patch s h
  serve-IsIntact (Request.transition_task_status id input) s h =
      TasksIntact.transition-IsIntact env id input s h
  serve-IsIntact (Request.delete_task id) s h = TasksIntact.delete-IsIntact env id s h
  serve-IsIntact (Request.create_object input) s h = ObjectsIntact.create-IsIntact env input s h
  serve-IsIntact (Request.patch_object id patch) s h = ObjectsIntact.patch-IsIntact env id patch s h
  serve-IsIntact (Request.delete_object id) s h = ObjectsIntact.delete-IsIntact env id s h
  serve-IsIntact (Request.upload_object_file input) s h =
      ObjectsIntact.upload-IsIntact env input s h
  serve-IsIntact (Request.append_object_file object_id file_id reader max_bytes) s h =
      ObjectsIntact.append-IsIntact env object_id file_id reader max_bytes s h
  serve-IsIntact (Request.delete_object_file object_id file_id) s h =
      ObjectsIntact.delete_file-IsIntact env object_id file_id s h
  serve-IsIntact (Request.activate_catalog cat) s h = h
  serve-IsIntact Request.deactivate_catalog s h = h

  -- Every run of requests on a store whose references hold ends in a store whose references hold:
  -- every task and observation names a stored entity of type "asset", every object has an owner of type
  -- "entity", "observation" or "task" that is stored under that type, or it belongs to the system as
  -- "active_command_catalog", and every record stands under its own identifier.
  pub serve_all-IsIntact :
      (requests : List Request) (s : Services)
      → IsIntact s.stores
      → IsIntact (serve_all requests s).stores
  unfolding serve_all
  serve_all-IsIntact [] s h = h
  serve_all-IsIntact (r ∷ rest) s h = serve_all-IsIntact rest (serve r s) (serve-IsIntact r s h)
