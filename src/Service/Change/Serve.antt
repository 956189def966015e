-- ===== src/Service/Change/Serve.antt =====
-- Every request changes the stores as Change allows.
use atlas_c.Service.State.{Env, Services}
use atlas_c.Service.Requests.{Request, serve}
use atlas_c.Service.Change.{Change, Allowed}
use atlas_c.Service.Change.Entities
use atlas_c.Service.Change.Observations
use atlas_c.Service.Change.Tasks
use atlas_c.Service.Change.Objects

-- A request, whatever it answers, leaves the stores as they were or makes one call of a method of the
-- stores that writes, and that one only after its checks: an update is of a stored record and keeps
-- the fields that identify it, an entity or a task is deleted only where its dependents are counted
-- as none, an object is deleted on its own only where the active catalog does not protect it, an
-- observation or a task is created on a stored asset, a task pending, and a task's update makes no
-- status move but an allowed one and keeps the command and parameters unless the task was pending and
-- stays so.
pub serve-Change : (env : Env) (r : Request) (s : Services) → Allowed s (serve env r s).stores
unfolding serve
serve-Change env (Request.create_entity input) s = Entities.create-Change env s input
serve-Change env (Request.patch_entity id patch) s = Entities.patch-Change env s id patch
serve-Change env (Request.delete_entity id) s = Entities.delete-Change env s id
serve-Change env (Request.create_observation input) s = Observations.create-Change env s input
serve-Change env (Request.patch_observation id patch) s = Observations.patch-Change env s id patch
serve-Change env (Request.delete_observation id) s = Observations.delete-Change env s id
serve-Change env (Request.create_task input) s = Tasks.create-Change env s input
serve-Change env (Request.patch_task id patch) s = Tasks.patch-Change env s id patch
serve-Change env (Request.transition_task_status id input) s =
    Tasks.transition-Change env s id input
serve-Change env (Request.delete_task id) s = Tasks.delete-Change env s id
serve-Change env (Request.create_object input) s = Objects.create-Change env s input
serve-Change env (Request.patch_object id patch) s = Objects.patch-Change env s id patch
serve-Change env (Request.delete_object id) s = Objects.delete-Change env s id
serve-Change env (Request.upload_object_file input) s = Objects.upload-Change env s input
serve-Change env (Request.append_object_file object_id file_id reader max_bytes) s =
    Objects.append-Change env s object_id file_id reader max_bytes
serve-Change env (Request.delete_object_file object_id file_id) s =
    Objects.delete_file-Change env s object_id file_id
serve-Change env (Request.activate_catalog cat) s = Change.unchanged
serve-Change env Request.deactivate_catalog s = Change.unchanged
