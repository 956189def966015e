-- ===== src/Events/Publish.antt =====
-- What Publish does to every channel.
use mathlib.Core.Path.{ap₂}
use atlas_c.Base.{
  ℕ, ◌≡◌, refl, ap, ◌∙◌, Bool, true, false, ◌&&◌, not, Option, none, some, List, [], ◌∷◌, ◌++◌,
  nat_eq, arith, if◌then◌else◌, Bool-cases, inl, inr,
}
use atlas_c.Base.Assoc.{Assoc, lookup}
use atlas_c.Model.Records.{EventEnvelope}
use atlas_c.Events.{Hub, Channel, channel_eq, is_member, publish, nat_eq_iff}
use atlas_c.Events.Offer.{
  IsOpen, AllOpen, AreDistinct, room, sent, sent_if, is_full, full, offer_all-open,
}
use atlas_c.Events.Evict.{shut, shut_if, evict_all-open}

is_member-append :
    (j : ℕ) (xs ys : List ℕ)
    → is_member j (xs ++ ys) ≡ (if is_member j xs then true else is_member j ys)
unfolding is_member
is_member-append j [] ys = refl
is_member-append j (x ∷ xs) ys = ground (arith, is_member-append j xs ys)

is_member-full_head :
    (same fx fj m : Bool)
    → (same ≡ true → fx ≡ fj)
    → (if same && fx then true else (m && fj)) ≡ ((if same then true else m) && fj)
is_member-full_head true fx fj m h = rw (h refl) (ground arith)
is_member-full_head false fx fj m h = refl

is_member-single : (x j : ℕ) (b : Bool) → is_member j (if b then x ∷ [] else []) ≡ (nat_eq x j && b)
unfolding is_member
is_member-single x j true = ground arith
is_member-single x j false = ground arith

is_member-full :
    (channels : Assoc ℕ Channel) (subs : List ℕ) (j : ℕ)
    → is_member j (full channels subs) ≡ (is_member j subs && is_full (lookup j channels))
unfolding full is_member
is_member-full channels [] j = refl
is_member-full channels (x ∷ subs) j =
    is_member-append j (if is_full (lookup x channels) then x ∷ [] else []) (full channels subs)
    ∙ ap₂ (λ a b. if a then true else b) (is_member-single x j (is_full (lookup x channels)))
        (is_member-full channels subs j)
    ∙ is_member-full_head (nat_eq x j) (is_full (lookup x channels)) (is_full (lookup j channels))
        (is_member j subs) (λ e. ap (λ k. is_full (lookup k channels)) ((nat_eq_iff x j).0 e))

AreDistinct-full :
    (channels : Assoc ℕ Channel) (subs : List ℕ)
    → AreDistinct subs
    → AreDistinct (full channels subs)
unfolding full
AreDistinct-full channels [] d = tt
AreDistinct-full channels (x ∷ subs) (n, d) = elim (Bool-cases (is_full (lookup x channels))) [
  | inl e ↦ rw e (is_member-full channels subs x ∙ rw n refl, AreDistinct-full channels subs d)
  | inr e ↦ rw e (AreDistinct-full channels subs d)
]

AllOpen-sent :
    (event : EventEnvelope) (subs : List ℕ) (member : ℕ → Bool) (a b : Assoc ℕ Channel)
    → ((j : ℕ) → lookup j b ≡ sent_if (member j) event (lookup j a))
    → AllOpen a subs
    → AllOpen b subs
AllOpen-sent event [] member a b changed o = tt
AllOpen-sent event (x ∷ subs) member a b changed (o, os) = (
  open_after (member x) (changed x ∙ rw o.found refl),
  AllOpen-sent event subs member a b changed os,
)
  where
    open_after : (m : Bool) → lookup x b ≡ sent_if m event (some o.channel) → IsOpen b x
    open_after true e = record {
      channel = sent event o.channel;
      found = e;
      open_still = ground (arith, o.open_still);
    }
    open_after false e = record { channel = o.channel; found = e; open_still = o.open_still }

AllOpen-full :
    (channels next : Assoc ℕ Channel) (subs : List ℕ)
    → AllOpen next subs
    → AllOpen next (full channels subs)
unfolding full
AllOpen-full channels next [] o = tt
AllOpen-full channels next (x ∷ subs) (o, os) = elim (Bool-cases (is_full (lookup x channels))) [
  | inl e ↦ rw e (o, AllOpen-full channels next subs os)
  | inr e ↦ rw e (AllOpen-full channels next subs os)
]

-- The hub's own state between its methods: each subscriber's channel is open, and none stands twice.
pub record IsLive (h : Hub) : Type 0 where
  pub all_open : AllOpen h.channels h.subscribers
  pub distinct : AreDistinct h.subscribers

-- What an event does to a subscriber's channel: it is appended where there is room, and else the
-- channel is closed with what it holds. Other channels stay.
abbrev pub delivered : Bool → EventEnvelope → Option Channel → Option Channel
delivered true event none = none
delivered true event (some c) =
    some (if room c then record c { buffer = c.buffer ++ event ∷ [] } else shut c)
delivered false event o = o

abbrev pub has_room : Option Channel → Bool
has_room none = true
has_room (some c) = room c

-- Publish from a live hub does not panic. Every subscriber with room gets the event as the last of its
-- buffer and stays; every full one is closed, unchanged, and unsubscribed; no other channel changes,
-- and no subscriber stands twice.
pub publish_lem :
    (event : EventEnvelope) (h : Hub)
    → IsLive h
    → (h' : Hub) × (publish event h ≡ some h')
      × ((j : ℕ)
          → lookup j h'.channels
            ≡ delivered (is_member j h.subscribers) event (lookup j h.channels))
      × ((j : ℕ)
          → is_member j h'.subscribers
            ≡ (is_member j h.subscribers && has_room (lookup j h.channels)))
      × AreDistinct h'.subscribers
unfolding publish
publish_lem event h live =
    let (next, offered, changed) =
      offer_all-open event h.subscribers h.channels [] live.all_open live.distinct in
    let slow = full h.channels h.subscribers in
    let (h', gone, e) =
      evict_all-open slow (record h { channels = next })
        (AllOpen-full h.channels next h.subscribers (
          AllOpen-sent event h.subscribers (λ j. is_member j h.subscribers) h.channels next changed
            live.all_open))
        (AreDistinct-full h.channels h.subscribers live.distinct) in
    (
      h',
      rw (offered, publish) gone,
      λ j.
          e.channels j
          ∙ ap₂ shut_if (is_member-full h.channels h.subscribers j) (changed j)
          ∙ deliver_cases event (is_member j h.subscribers) (lookup j h.channels),
      λ j.
          e.subscribers j
          ∙ ap (λ b. not b && is_member j h.subscribers) (is_member-full h.channels h.subscribers j)
          ∙ stay_cases (is_member j h.subscribers) (lookup j h.channels),
      e.distinct live.distinct,
    )
  where
    deliver_cases :
        (event : EventEnvelope) (b : Bool) (o : Option Channel)
        → shut_if (b && is_full o) (sent_if b event o) ≡ delivered b event o
    deliver_cases event true none = refl
    deliver_cases event true (some c) = elim (Bool-cases (room c)) [
      | inl r ↦ rw r refl
      | inr r ↦ rw r refl
    ]
    deliver_cases event false o = refl

    stay_cases : (b : Bool) (o : Option Channel) → (not (b && is_full o) && b) ≡ (b && has_room o)
    stay_cases true none = refl
    stay_cases true (some c) = elim (Bool-cases (room c)) [ inl r ↦ rw r refl | inr r ↦ rw r refl ]
    stay_cases false o = refl
