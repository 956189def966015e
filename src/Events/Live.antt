-- ===== src/Events/Live.antt =====
-- Runs of the hub, as steps by the publishers, the streams and the subscriptions.
pub mod Sound
pub mod Moves
use atlas_c.Base.{
  ℕ, ◌≤◌, ◌≡◌, refl, sym, ap, ◌∙◌, Bool, true, false, ◌&&◌, not, Option, none, some, List, [], ◌∷◌,
  ◌++◌, length, length-append, nat_eq, arith, Bool-cases, Option-cases, inl, inr,
}
use atlas_c.Base.Assoc.{Assoc, lookup, insert, lookup-insert}
use atlas_c.Model.Records.{EventEnvelope, Time}
use atlas_c.Events.{
  Hub, Channel, channel_eq, capacity, is_member, publish, subscribe, cancel, receive, evict,
  next_id, new_hub, fresh_channel, nat_eq_iff,
}
use atlas_c.Events.Offer.{IsOpen, AllOpen, AreDistinct}
use atlas_c.Events.Evict.{shut_if, Evicted, evict-open, is_member-without, AreDistinct-without}
use atlas_c.Events.Publish.{IsLive, publish_lem, delivered, has_room}
use atlas_c.Events.Live.Sound.{
  AllOpen-at, AllOpen-of, IsSound, new_hub-IsSound, delivered-closed, delivered-bounded,
  delivered-open, publish-IsSound,
}
use atlas_c.Events.Live.Moves.{
  not_subscribed, IsSound-of, member_channel, subscribe-IsSound, cancel-IsSound, receive-IsSound,
  next_id-IsSound,
}

-- One step of the hub. A new channel is none of the existing ones.
pub data Step : Hub → Hub → Type 0 where
  published : {h h' : Hub} (event : EventEnvelope) → publish event h ≡ some h' → Step h h'
  subscribed : {h : Hub} (ch : ℕ) → lookup ch h.channels ≡ none → Step h (subscribe ch h)
  cancelled : {h h' : Hub} (ch : ℕ) → cancel ch h ≡ some h' → Step h h'
  received : {h : Hub} (ch : ℕ) → Step h (receive ch h).1
  numbered : {h : Hub} (now : Time) → Step h (next_id now h).1

pub data Reach : Hub → Type 0 where
  start : Reach new_hub
  next : {h h' : Hub} → Reach h → Step h h' → Reach h'

Step-IsSound : {h h' : Hub} → Step h h' → IsSound h → IsSound h'
Step-IsSound (published {h} {h'} event e) s = publish-IsSound event h h' s e
Step-IsSound (subscribed {h} ch absent) s = subscribe-IsSound ch h s absent
Step-IsSound (cancelled {h} {h'} ch e) s = cancel-IsSound ch h h' s e
Step-IsSound (received {h} ch) s = receive-IsSound ch h s
Step-IsSound (numbered {h} now) s = next_id-IsSound now h s

-- In every state that a run of publishing, subscribing, cancelling, receiving and numbering leads to
-- from a new hub: each subscriber's channel is open, none stands twice, a channel is closed exactly
-- when it is no subscriber's any more, and no buffer holds more than 32 events.
pub Reach-IsSound : {h : Hub} → Reach h → IsSound h
Reach-IsSound start = new_hub-IsSound
Reach-IsSound (next r st) = Step-IsSound st (Reach-IsSound r)

cancel-no_panic : (ch : ℕ) (h : Hub) → IsSound h → (h' : Hub) × (cancel ch h ≡ some h')
unfolding cancel
cancel-no_panic ch h s = elim (Bool-cases (is_member ch h.subscribers)) [
  | inr gone ↦ (h, rw gone refl)
  | inl there ↦
      let (left, evicted, _) =
        evict-open ch h (AllOpen-at h.channels h.subscribers ch s.live.all_open there) in
      (left, rw there evicted)
]

-- In every state that a run of publishing, subscribing, cancelling, receiving and numbering leads to
-- from a new hub, neither Publish nor the cancelling of any subscription, first or repeated, sends on
-- a closed channel or closes one twice.
pub Reach-no_panic :
    {h : Hub} (event : EventEnvelope) (ch : ℕ)
    → Reach h
    → ((h' : Hub) × (publish event h ≡ some h')) × ((h' : Hub) × (cancel ch h ≡ some h'))
Reach-no_panic {h} event ch r =
    let s = Reach-IsSound r in
    let (h', sent, _, _, _) = publish_lem event h s.live in ((h', sent), cancel-no_panic ch h s)
