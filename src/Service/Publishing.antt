-- ===== src/Service/Publishing.antt =====
-- internal/service/service.go: publish and publishObject.
pub mod Delivery
use Prim.Native.String.{len, slice}
use atlas_c.Base.{
  ◌-◌, String, Option, none, some, length, take, ltb, ◌==◌, ◌<>◌, if◌then◌else◌, other, ok, err,
}
use atlas_c.Model.Records.{Object, EventEnvelope, EventData, Time}
use atlas_c.Events.{Hub, next_id}
use atlas_c.Events
use atlas_c.Store.Files.{list_object_files_for_object}
use atlas_c.Service.State.{Env, Action, ◌>>=◌, pure, gets, now}

-- strings.TrimSuffix
unfoldable pub trim_suffix : String → String → String
trim_suffix s suffix =
    if slice s (len s - len suffix) (len s) == suffix then slice s 0 (len s - len suffix) else s

-- `strings.TrimSuffix(mutation, "d")`, and "delete" for "deleted"
unfoldable pub mutation_name : String → String
unfolding trim_suffix
mutation_name mutation = if mutation == "deleted" then "delete" else trim_suffix mutation "d"

-- The hub is shared: what happens to it is part of the state. A panic of the hub ends the request.
unfoldable pub send : Option Hub → EventEnvelope → Action (Unit {0})
send none event s = pure tt s
send (some h) event s = elim (Events.publish event h) [
  | none ↦ (err (other "panic: send on closed channel"), s)
  | some h' ↦ (ok tt, record s { publisher = some h' })
]

-- The envelope that publish builds.
unfoldable pub event_of : String → Time → String → String → String → EventData → EventEnvelope
unfolding mutation_name
event_of event_id occurred_at resource_type mutation resource_id payload = record {
  event_id = event_id;
  type = resource_type <> "." <> mutation;
  resource_type = resource_type;
  resource_id = resource_id;
  mutation = mutation_name mutation;
  occurred_at = occurred_at;
  payload = payload;
}

module _ (env : Env) where
  -- The event's identifier reads the clock of the process, as `s.now` does.
  unfoldable pub fresh_id : Hub → Action String
  fresh_id h = do
    time ← now env
    λ s. (ok (next_id time h).0, record s { publisher = some (next_id time h).1 })

  unfoldable pub publish_to : Option Hub → String → String → String → EventData → Action (Unit {0})
  unfolding fresh_id send event_of
  publish_to none resource_type mutation resource_id payload = pure tt
  publish_to (some h) resource_type mutation resource_id payload = do
    event_id ← fresh_id h
    occurred_at ← now env
    hub ← gets (λ s. s.publisher)
    send hub (event_of event_id occurred_at resource_type mutation resource_id payload)

  -- publish
  unfoldable pub publish : String → String → String → EventData → Action (Unit {0})
  unfolding publish_to
  publish resource_type mutation resource_id payload = do
    hub ← gets (λ s. s.publisher)
    publish_to hub resource_type mutation resource_id payload

  -- publishObject: the first eight files go with the event.
  unfoldable pub publish_object : String → String → Object → Action (Unit {0})
  unfolding publish
  publish_object mutation object_id object = do
    files ← gets (λ s. list_object_files_for_object object_id s.stores)
    publish "object" mutation object_id (
        EventData.object object (length files)
          (if ltb 8 (length files) then take 8 files else files))
