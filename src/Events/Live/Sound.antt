-- ===== src/Events/Live/Sound.antt =====
-- What holds of a hub, and that Publish keeps it.
use atlas_c.Base.{
  ℕ, ◌≤◌, ◌≡◌, refl, sym, ap, ◌∙◌, Bool, true, false, ◌&&◌, not, Option, none, some, List, [], ◌∷◌,
  ◌++◌, length, length-append, nat_eq, arith, Bool-cases, inl, inr,
}
use atlas_c.Base.Assoc.{Assoc, lookup}
use atlas_c.Model.Records.{EventEnvelope}
use atlas_c.Events.{Hub, Channel, channel_eq, capacity, is_member, publish, new_hub, nat_eq_iff}
use atlas_c.Events.Offer.{IsOpen, AllOpen}
use atlas_c.Events.Publish.{IsLive, publish_lem, delivered, has_room}

pub AllOpen-at :
    (channels : Assoc ℕ Channel) (subs : List ℕ) (j : ℕ)
    → AllOpen channels subs
    → is_member j subs ≡ true
    → IsOpen channels j
unfolding is_member
AllOpen-at channels [] j o m = cc
AllOpen-at channels (x ∷ subs) j (o, os) m = elim (Bool-cases (nat_eq x j)) [
  | inl same ↦ rw (← (nat_eq_iff x j).0 same) o
  | inr other ↦ AllOpen-at channels subs j os (rw other at m)
]

pub AllOpen-of :
    (channels : Assoc ℕ Channel) (subs : List ℕ)
    → ((j : ℕ) → is_member j subs ≡ true → IsOpen channels j)
    → AllOpen channels subs
unfolding is_member
AllOpen-of channels [] f = tt
AllOpen-of channels (x ∷ subs) f =
    (f x (ground arith), AllOpen-of channels subs (λ j m. f j (ground arith)))

-- What holds of the hub between its methods: a channel is open exactly while it is subscribed, every
-- subscriber has a channel, none stands twice, and no buffer holds more than its capacity.
pub record IsSound (h : Hub) : Type 0 where
  pub live : IsLive h
  pub let_go :
      (j : ℕ) (c : Channel)
      → lookup j h.channels ≡ some c
      → c.closed ≡ not (is_member j h.subscribers)
  pub bounded : (j : ℕ) (c : Channel) → lookup j h.channels ≡ some c → length c.buffer ≤ capacity

pub new_hub-IsSound : IsSound new_hub
unfolding lookup
new_hub-IsSound = record {
  live = record { all_open = tt; distinct = tt };
  let_go = λ j c e. cc e;
  bounded = λ j c e. cc e;
}

pub delivered-closed :
    (event : EventEnvelope) (m : Bool) (o : Option Channel) (c : Channel)
    → delivered m event o ≡ some c
    → ((d : Channel) → o ≡ some d → d.closed ≡ not m)
    → c.closed ≡ not (m && has_room o)
delivered-closed event true none c e h = cc
delivered-closed event false none c e h = cc
delivered-closed event true (some d) c e h = ground (arith, h d refl)
delivered-closed event false (some d) c e h = ground (arith, h d refl)

pub delivered-bounded :
    (event : EventEnvelope) (m : Bool) (o : Option Channel) (c : Channel)
    → delivered m event o ≡ some c
    → ((d : Channel) → o ≡ some d → length d.buffer ≤ capacity)
    → length c.buffer ≤ capacity
delivered-bounded event true none c e h = cc
delivered-bounded event false none c e h = cc
delivered-bounded event true (some d) c e h =
    ground (arith, h d refl, length-append d.buffer (event ∷ []))
delivered-bounded event false (some d) c e h = ground (arith, h d refl)

pub delivered-open :
    (event : EventEnvelope) (h : Hub) (j : ℕ) (o' : Option Channel) (m : Bool)
    → o' ≡ delivered m event (lookup j h.channels)
    → m ≡ true
    → has_room (lookup j h.channels) ≡ true
    → IsOpen h.channels j
    → (c : Channel) × (o' ≡ some c) × (c.closed ≡ false)
delivered-open event h j o' m e is fits o = (
  record (o.channel) { buffer = o.channel.buffer ++ event ∷ [] },
  ground (arith, o.found, o.open_still),
  o.open_still,
)

pub publish-IsSound :
    (event : EventEnvelope) (h h' : Hub) → IsSound h → publish event h ≡ some h' → IsSound h'
publish-IsSound event h h' s e =
    let (found, gone, channels, subscribers, distinct) = publish_lem event h s.live in
    let it : some found ≡ some h' = sym gone ∙ e in
    let same : found ≡ h' = cc it in
    rw (← same) (record {
      live = record {
        all_open = AllOpen-of found.channels found.subscribers (λ j m.
            let both =
              and-true (is_member j h.subscribers) (has_room (lookup j h.channels))
                (sym (subscribers j) ∙ m) in
            let (c, there, opened) =
              delivered-open event h j (lookup j found.channels) (is_member j h.subscribers)
                (channels j) both.0 both.1
                (AllOpen-at h.channels h.subscribers j s.live.all_open both.0) in
            record { channel = c; found = there; open_still = opened });
        distinct = distinct;
      };
      let_go = λ j c there.
          delivered-closed event (is_member j h.subscribers) (lookup j h.channels) c
            (sym (channels j) ∙ there) (s.let_go j)
          ∙ ap not (sym (subscribers j));
      bounded = λ j c there.
          delivered-bounded event (is_member j h.subscribers) (lookup j h.channels) c
            (sym (channels j) ∙ there) (s.bounded j);
    })
  where
    and-true : (a b : Bool) → (a && b) ≡ true → (a ≡ true) × (b ≡ true)
    and-true true b e = (refl, e)
    and-true false b e = cc
