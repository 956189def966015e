-- ===== src/Service/Lifecycle.antt =====
-- The life of the records over runs of requests.
pub mod Status
pub mod Runs
pub mod Files
use atlas_c.Base.Assoc.Evolves.{Evolves}
use atlas_c.Store.Integrity.{IsIntact}
use atlas_c.Service.State.{Env, Services}
use atlas_c.Service.Requests.{Request, serve}
use atlas_c.Service.Change.{SameEntity, SameObservation, SameTask, SameObject}
use atlas_c.Service.Change.Serve.{serve-Change}
use atlas_c.Service.Change.Evolution.Entities.{Change-entities}
use atlas_c.Service.Change.Evolution.Observations.{Change-observations}
use atlas_c.Service.Change.Evolution.Tasks.{Change-tasks}
use atlas_c.Service.Change.Evolution.Objects.{Change-objects}

-- On a store whose references hold, a record that stands under an identifier before and after a
-- request is unchanged or updated, and no update changes an entity's type, an observation's source, an
-- object's owner, a task's asset or catalog, or the identifier or the creation time of any of them; a
-- task's status stays or makes an allowed move, and its command and parameters stay unless it was
-- pending and stays so.
pub serve-Evolves :
    (env : Env) (r : Request) (s : Services)
    → IsIntact s.stores
    → Evolves SameEntity s.stores.entities (serve env r s).stores.entities
      × Evolves SameObservation s.stores.observations (serve env r s).stores.observations
      × Evolves SameTask s.stores.tasks (serve env r s).stores.tasks
      × Evolves SameObject s.stores.objects (serve env r s).stores.objects
serve-Evolves env r s h =
    let change = serve-Change env r s in
    (
      Change-entities change h,
      Change-observations change h,
      Change-tasks change h,
      Change-objects change h,
    )
