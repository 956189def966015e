-- ===== src/Tests/Events.antt =====
-- Tests of the hub.
use atlas_c.Base.{ℕ, ◌≡◌, refl, ◌&&◌, some}
use atlas_c.Base.Assoc.{lookup, insert}
use atlas_c.Model.Records.{EventEnvelope, EventData}
use atlas_c.Events.{Hub, channel_eq, new_hub, publish, subscribe, cancel, is_member}
use atlas_c.Events.Offer.{AreDistinct}
use atlas_c.Events.Publish.{publish_lem, delivered, has_room}
use atlas_c.Events.Live.{Reach, start, next, subscribed, Reach-IsSound, Reach-no_panic}
use atlas_c.Events.Live.Sound.{IsSound}

abbrev event : EventEnvelope
event = record {
  event_id = "evt-1-1";
  type = "task.deleted";
  resource_type = "task";
  resource_id = "t1";
  mutation = "delete";
  occurred_at = 5;
  payload = EventData.deleted_at 5;
}

-- A hub with the subscribers 1 and 2.
abbrev pub two_streams : Hub
two_streams = subscribe 2 (subscribe 1 new_hub)

pub two_streams-Reach : Reach two_streams
unfolding subscribe lookup insert
two_streams-Reach =
    next (next start (subscribed {h = new_hub} 1 refl))
      (subscribed {h = subscribe 1 new_hub} 2 refl)

two_streams-IsSound : IsSound two_streams
two_streams-IsSound = Reach-IsSound two_streams-Reach

publish_lem_example :
    (h' : Hub) × (publish event two_streams ≡ some h')
    × ((j : ℕ)
        → lookup j h'.channels
          ≡ delivered (is_member j two_streams.subscribers) event (lookup j two_streams.channels))
    × ((j : ℕ)
        → is_member j h'.subscribers
          ≡ (is_member j two_streams.subscribers && has_room (lookup j two_streams.channels)))
    × AreDistinct h'.subscribers
publish_lem_example = publish_lem event two_streams two_streams-IsSound.live

Reach-IsSound_example : IsSound two_streams
Reach-IsSound_example = Reach-IsSound two_streams-Reach

Reach-no_panic_example :
    ((h' : Hub) × (publish event two_streams ≡ some h'))
    × ((h' : Hub) × (cancel 1 two_streams ≡ some h'))
Reach-no_panic_example = Reach-no_panic event 1 two_streams-Reach
