-- ===== src/Service/Atomic/Serve.antt =====
-- A request that fails leaves the stores as they were, and every request a live hub.
use atlas_c.Base.{◌≡◌, refl, Option, none, some, Error, Result, ok, err}
use atlas_c.Service.State.{Env, Services}
use atlas_c.Service.Requests.{Request, serve}
use atlas_c.Service.Entities
use atlas_c.Service.Observations
use atlas_c.Service.Tasks
use atlas_c.Service.Objects
use atlas_c.Service.Atomic.{IsLive}
use atlas_c.Service.Atomic.Entities as EntitiesAtomic
use atlas_c.Service.Atomic.Observations as ObservationsAtomic
use atlas_c.Service.Atomic.Tasks as TasksAtomic
use atlas_c.Service.Atomic.Objects as ObjectsAtomic

abbrev error_of : {A : Type 0} → Result A → Option Error
error_of (ok a) = none
error_of (err e) = some e

error_of-eq : {A : Type 0} (r : Result A) {e : Error} → error_of r ≡ some e → r ≡ err e
error_of-eq (ok a) h = cc h
error_of-eq (err e) h = cc h

module _ (env : Env) where
  -- The error that a request answers with, if it does.
  unfoldable pub failure : Request → Services → Option Error
  failure (Request.create_entity input) s = error_of (Entities.create_entity env input s).0
  failure (Request.patch_entity id patch) s = error_of (Entities.patch_entity env id patch s).0
  failure (Request.delete_entity id) s = error_of (Entities.delete_entity env id s).0
  failure (Request.create_observation input) s =
      error_of (Observations.create_observation env input s).0
  failure (Request.patch_observation id patch) s =
      error_of (Observations.patch_observation env id patch s).0
  failure (Request.delete_observation id) s = error_of (Observations.delete_observation env id s).0
  failure (Request.create_task input) s = error_of (Tasks.create_task env input s).0
  failure (Request.patch_task id patch) s = error_of (Tasks.patch_task env id patch s).0
  failure (Request.transition_task_status id input) s =
      error_of (Tasks.transition_task_status env id input s).0
  failure (Request.delete_task id) s = error_of (Tasks.delete_task env id s).0
  failure (Request.create_object input) s = error_of (Objects.create_object env input s).0
  failure (Request.patch_object id patch) s = error_of (Objects.patch_object env id patch s).0
  failure (Request.delete_object id) s = error_of (Objects.delete_object env id s).0
  failure (Request.upload_object_file input) s = error_of (Objects.upload_object_file env input s).0
  failure (Request.append_object_file object_id file_id reader max_bytes) s =
      error_of (Objects.append_object_file env object_id file_id reader max_bytes s).0
  failure (Request.delete_object_file object_id file_id) s =
      error_of (Objects.delete_object_file env object_id file_id s).0
  failure (Request.activate_catalog cat) s = none
  failure Request.deactivate_catalog s = none

  -- What a request leaves where it starts with a live hub.
  pub record IsLeft (r : Request) (s : Services) : Type 0 where
    pub stores : (e : Error) → failure r s ≡ some e → (serve env r s).stores ≡ s.stores
    pub live : IsLive (serve env r s).publisher

  serve-IsLeft : (r : Request) (s : Services) → IsLive s.publisher → IsLeft r s
  unfolding serve failure
  serve-IsLeft (Request.create_entity input) s l =
      let p = EntitiesAtomic.create-IsSettled env s l input in
      record { stores = λ e h. p.failed e (error_of-eq _ h); live = p.live }
  serve-IsLeft (Request.patch_entity id patch) s l =
      let p = EntitiesAtomic.patch-IsSettled env s l id patch in
      record { stores = λ e h. p.failed e (error_of-eq _ h); live = p.live }
  serve-IsLeft (Request.delete_entity id) s l =
      let p = EntitiesAtomic.delete-IsSettled env s l id in
      record { stores = λ e h. p.failed e (error_of-eq _ h); live = p.live }
  serve-IsLeft (Request.create_observation input) s l =
      let p = ObservationsAtomic.create-IsSettled env s l input in
      record { stores = λ e h. p.failed e (error_of-eq _ h); live = p.live }
  serve-IsLeft (Request.patch_observation id patch) s l =
      let p = ObservationsAtomic.patch-IsSettled env s l id patch in
      record { stores = λ e h. p.failed e (error_of-eq _ h); live = p.live }
  serve-IsLeft (Request.delete_observation id) s l =
      let p = ObservationsAtomic.delete-IsSettled env s l id in
      record { stores = λ e h. p.failed e (error_of-eq _ h); live = p.live }
  serve-IsLeft (Request.create_task input) s l =
      let p = TasksAtomic.create-IsSettled env s l input in
      record { stores = λ e h. p.failed e (error_of-eq _ h); live = p.live }
  serve-IsLeft (Request.patch_task id patch) s l =
      let p = TasksAtomic.patch-IsSettled env s l id patch in
      record { stores = λ e h. p.failed e (error_of-eq _ h); live = p.live }
  serve-IsLeft (Request.transition_task_status id input) s l =
      let p = TasksAtomic.transition-IsSettled env s l id input in
      record { stores = λ e h. p.failed e (error_of-eq _ h); live = p.live }
  serve-IsLeft (Request.delete_task id) s l =
      let p = TasksAtomic.delete-IsSettled env s l id in
      record { stores = λ e h. p.failed e (error_of-eq _ h); live = p.live }
  serve-IsLeft (Request.create_object input) s l =
      let p = ObjectsAtomic.create-IsSettled env s l input in
      record { stores = λ e h. p.failed e (error_of-eq _ h); live = p.live }
  serve-IsLeft (Request.patch_object id patch) s l =
      let p = ObjectsAtomic.patch-IsSettled env s l id patch in
      record { stores = λ e h. p.failed e (error_of-eq _ h); live = p.live }
  serve-IsLeft (Request.delete_object id) s l =
      let p = ObjectsAtomic.delete-IsSettled env s l id in
      record { stores = λ e h. p.failed e (error_of-eq _ h); live = p.live }
  serve-IsLeft (Request.upload_object_file input) s l =
      let p = ObjectsAtomic.upload-IsSettled env s l input in
      record { stores = λ e h. p.failed e (error_of-eq _ h); live = p.live }
  serve-IsLeft (Request.append_object_file object_id file_id reader max_bytes) s l =
      let p = ObjectsAtomic.append-IsSettled env s l object_id file_id reader max_bytes in
      record { stores = λ e h. p.failed e (error_of-eq _ h); live = p.live }
  serve-IsLeft (Request.delete_object_file object_id file_id) s l =
      let p = ObjectsAtomic.delete_file-IsSettled env s l object_id file_id in
      record { stores = λ e h. p.failed e (error_of-eq _ h); live = p.live }
  serve-IsLeft (Request.activate_catalog cat) s l = record { stores = λ e h. refl; live = l }
  serve-IsLeft Request.deactivate_catalog s l = record { stores = λ e h. refl; live = l }

  -- From a live hub, a request that answers with an error leaves every map of the stores as it was.
  pub serve-failed :
      (r : Request) (s : Services) (e : Error)
      → IsLive s.publisher
      → failure r s ≡ some e
      → (serve env r s).stores ≡ s.stores
  serve-failed r s e l h = (serve-IsLeft r s l).stores e h
