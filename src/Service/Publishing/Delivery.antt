-- ===== src/Service/Publishing/Delivery.antt =====
-- What the streams get to see of an event that publish of internal/service/service.go sends.
use mathlib.Core.Path.{subst}
use atlas_c.Base.{ℕ, suc, ◌≡◌, refl, sym, String, Option, some, ◌<>◌}
use atlas_c.Base.Assoc.{string_eq, lookup}
use atlas_c.Model.Records.{EventEnvelope, EventData}
use atlas_c.Events.{Hub, channel_eq, is_member, next_id}
use atlas_c.Events.Publish.{publish_lem, delivered}
use atlas_c.Events.Live.{Reach, Step, Reach-IsSound}
use atlas_c.Service.State.{Env, Services}
use atlas_c.Service.Publishing.{send, fresh_id, event_of, mutation_name, publish_to, publish}

-- One event went from the hub before to the hub after: every subscriber with room in its channel has
-- it at the end of its buffer, every full one is closed, and other channels are as they were.
pub record Announces (before : Hub) (after : Option Hub) (resource mutation name id : String)
    (payload : EventData) : Type 0 where
  pub hub : Hub
  pub is_hub : after ≡ some hub
  pub event : EventEnvelope
  pub type : event.type ≡ resource <> "." <> mutation
  pub resource_type : event.resource_type ≡ resource
  pub resource_id : event.resource_id ≡ id
  pub mutation_is : event.mutation ≡ name
  pub carried : event.payload ≡ payload
  pub channels :
      (j : ℕ)
      → lookup j hub.channels
        ≡ delivered (is_member j before.subscribers) event (lookup j before.channels)

send-Announces :
    (event : EventEnvelope) (h : Hub) (s : Services)
    → Reach h
    → (h' : Hub) × ((send (some h) event s).1.publisher ≡ some h')
      × ((j : ℕ)
          → lookup j h'.channels
            ≡ delivered (is_member j h.subscribers) event (lookup j h.channels))
unfolding send
send-Announces event h s r =
    let (h', sent, channels, _, _) = publish_lem event h (Reach-IsSound r).live in
    (h', rw (sent, send) refl, channels)

module _ (env : Env) where
  publish_to-Announces :
      (resource mutation id : String) (payload : EventData) (s : Services) (h : Hub)
      → Reach h
      → Announces h
          (publish_to env (some h) resource mutation id payload s).1.publisher
          resource
          mutation
          (mutation_name mutation)
          id
          payload
  unfolding publish_to fresh_id next_id
  publish_to-Announces resource mutation id payload s h r =
      let event =
        event_of (next_id (env.clock s.reads) h).0 (env.clock (suc s.reads)) resource mutation id
          payload in
      let numbered = (next_id (env.clock s.reads) h).1 in
      let (hub, is, channels) =
        send-Announces event numbered
          (record s { publisher = some numbered; reads = suc (suc s.reads) })
          (Reach.next r (Step.numbered (env.clock s.reads))) in
      unfold event_of in
      record {
        hub = hub;
        is_hub = is;
        event = event;
        type = refl;
        resource_type = refl;
        resource_id = refl;
        mutation_is = refl;
        carried = refl;
        channels = channels;
      }

  pub publish-Announces :
      (resource mutation id : String) (payload : EventData) (s : Services) (h : Hub)
      → s.publisher ≡ some h
      → Reach h
      → Announces h
          (publish env resource mutation id payload s).1.publisher
          resource
          mutation
          (mutation_name mutation)
          id
          payload
  unfolding publish
  publish-Announces resource mutation id payload s h is r =
      subst
        (λ o.
          Announces h (publish_to env o resource mutation id payload s).1.publisher resource
            mutation (mutation_name mutation) id payload)
        (sym is) (publish_to-Announces resource mutation id payload s h r)
