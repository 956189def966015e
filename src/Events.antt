-- ===== src/Events.antt =====
-- internal/events/publisher.go: the hub that fans events out to the streams. A channel is a cell of a
-- heap, named by a number, since a subscriber keeps it after the hub has let it go. Every method holds
-- the hub's lock, so it is one step.
pub mod Offer
pub mod Evict
pub mod Publish
pub mod Live
use Prim.Native.Nat.{compare, Ordering}
use atlas_c.Base.{
  ℕ, suc, ◌+◌, ◌%◌, ◌^◌, ◌≡◌, ◌↔◌, String, Bool, true, false, Option, none, some, List, [], ◌∷◌,
  ◌++◌, length, ltb, nat_eq, arith, ◌<>◌, decimal, if◌then◌else◌,
}
use atlas_c.Base.Assoc.{Assoc, Eq, lookup, insert}
use atlas_c.Model.Records.{EventEnvelope, Time}

pub nat_eq_iff : (a b : ℕ) → (nat_eq a b ≡ true) ↔ (a ≡ b)
nat_eq_iff a b = ground arith

instance abbrev pub channel_eq : Eq ℕ
channel_eq = record { beq = nat_eq; beq_iff = nat_eq_iff }

pub record Channel : Type 0 where
  pub buffer : List EventEnvelope
  pub closed : Bool

pub record Hub : Type 0 where
  pub channels : Assoc ℕ Channel
  pub subscribers : List ℕ
  pub counter : ℕ

-- `make(chan model.EventEnvelope, 32)`
abbrev pub capacity : ℕ
capacity = 32

-- NewHub
abbrev pub new_hub : Hub
new_hub = record { channels = []; subscribers = []; counter = 0 }

-- NextID; the counter is a uint64.
unfoldable pub next_id : Time → Hub → String × Hub
next_id now h =
    let counter = (h.counter + 1) % 2 ^ 64 in
    ("evt-" <> decimal now <> "-" <> decimal counter, record h { counter = counter })

abbrev pub same_channel : ℕ → ℕ → Bool
same_channel a b = nat_eq a b

-- `delete(h.subscribers, ch)`
unfoldable pub without : ℕ → List ℕ → List ℕ
without ch [] = []
without ch (x ∷ xs) = let rest = without ch xs in if nat_eq x ch then rest else x ∷ rest

unfoldable pub is_member : ℕ → List ℕ → Bool
is_member ch [] = false
is_member ch (x ∷ xs) = if nat_eq x ch then true else is_member ch xs

-- What one `select` of Publish does: `none` is a panic (a send on a closed channel), else the channels
-- after it and the channels found full so far.
unfoldable pub offer :
    EventEnvelope → ℕ → Assoc ℕ Channel × List ℕ → Option (Assoc ℕ Channel × List ℕ)
offer event ch (channels, slow) = elim (lookup ch channels) [
  | none ↦ none
  | some c ↦
      if c.closed
      then none
      else if ltb (length c.buffer) capacity
      then some (insert ch (record c { buffer = c.buffer ++ event ∷ [] }) channels, slow)
      else some (channels, slow ++ ch ∷ [])
]

infixl 5 ◌>>=?◌
abbrev pub ◌>>=?◌ {ℓ κ} : {A : Type ℓ} {B : Type κ} → Option A → (A → Option B) → Option B
none >>=? f = none
some a >>=? f = f a

-- The first loop of Publish.
unfoldable pub offer_all :
    EventEnvelope → List ℕ → Assoc ℕ Channel × List ℕ → Option (Assoc ℕ Channel × List ℕ)
offer_all event [] s = some s
offer_all event (ch ∷ rest) s = offer event ch s >>=? offer_all event rest

-- `close(ch)`; closing a closed channel panics.
unfoldable pub close_channel : ℕ → Assoc ℕ Channel → Option (Assoc ℕ Channel)
close_channel ch channels = elim (lookup ch channels) [
  | none ↦ none
  | some c ↦ if c.closed then none else some (insert ch (record c { closed = true }) channels)
]

-- One round of the second loop of Publish, and the body of `cancel`.
unfoldable pub evict : ℕ → Hub → Option Hub
evict ch h = close_channel ch h.channels >>=? λ channels.
    some (record h { channels = channels; subscribers = without ch h.subscribers })

unfoldable pub evict_all : List ℕ → Hub → Option Hub
evict_all [] h = some h
evict_all (ch ∷ rest) h = evict ch h >>=? evict_all rest

-- Publish
unfoldable pub publish : EventEnvelope → Hub → Option Hub
publish event h = offer_all event h.subscribers (h.channels, []) >>=? λ s.
    evict_all s.1 (record h { channels = s.0 })

abbrev pub fresh_channel : Channel
fresh_channel = record { buffer = []; closed = false }

-- Subscribe; `make` gives a channel that is none of the existing ones, whose number is a parameter.
unfoldable pub subscribe : ℕ → Hub → Hub
subscribe ch h = record h {
  channels = insert ch fresh_channel h.channels;
  subscribers = ch ∷ without ch h.subscribers;
}

-- The `cancel` that Subscribe returns.
unfoldable pub cancel : ℕ → Hub → Option Hub
cancel ch h = if is_member ch h.subscribers then evict ch h else some h

-- A receive by the stream of a channel: the oldest event, if there is one.
unfoldable pub receive : ℕ → Hub → Option EventEnvelope × Hub
receive ch h = elim (lookup ch h.channels) [
  | none ↦ (none, h)
  | some c ↦ elim c.buffer [
    | [] ↦ (none, h)
    | event ∷ rest ↦
        (some event, record h { channels = insert ch (record c { buffer = rest }) h.channels })
  ]
]
