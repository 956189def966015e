-- ===== src/Events/Offer.antt =====
-- The first loop of Publish: the event is offered to every subscriber.
use mathlib.Core.Path.{subst, ap₂}
use mathlib.Core.Bool.{true≢false}
use mathlib.Core.List.{append-nil, append_assoc}
use atlas_c.Base.{
  ℕ, ◌≡◌, refl, sym, ap, ◌∙◌, Bool, true, false, not, Option, none, some, List, [], ◌∷◌, ◌++◌,
  length, ltb, nat_eq, arith, if◌then◌else◌, Bool-cases, inl, inr,
}
use atlas_c.Base.Assoc.{Assoc, lookup, insert, lookup-insert}
use atlas_c.Model.Records.{EventEnvelope}
use atlas_c.Events.{Channel, channel_eq, capacity, is_member, offer, offer_all, nat_eq_iff}

-- A channel of the hub that can be sent to.
pub record IsOpen (channels : Assoc ℕ Channel) (ch : ℕ) : Type 0 where
  pub channel : Channel
  pub found : lookup ch channels ≡ some channel
  pub open_still : channel.closed ≡ false

abbrev pub AllOpen : Assoc ℕ Channel → List ℕ → Type 0
AllOpen channels [] = Unit
AllOpen channels (ch ∷ rest) = IsOpen channels ch × AllOpen channels rest

abbrev pub AreDistinct : List ℕ → Type 0
AreDistinct [] = Unit
AreDistinct (ch ∷ rest) = (is_member ch rest ≡ false) × AreDistinct rest

abbrev pub room : Channel → Bool
room c = ltb (length c.buffer) capacity

-- A channel after an event has been offered to it, and whether it is one of those found full.
abbrev pub sent : EventEnvelope → Channel → Channel
sent event c = if room c then record c { buffer = c.buffer ++ event ∷ [] } else c

abbrev pub sent_if : Bool → EventEnvelope → Option Channel → Option Channel
sent_if true event none = none
sent_if true event (some c) = some (sent event c)
sent_if false event o = o

abbrev pub is_full : Option Channel → Bool
is_full none = false
is_full (some c) = not (room c)

offer-eq :
    (event : EventEnvelope) (ch : ℕ) (channels : Assoc ℕ Channel) (slow : List ℕ) (c : Channel)
    → lookup ch channels ≡ some c
    → c.closed ≡ false
    → offer event ch (channels, slow) ≡ (
        if room c
        then some (insert ch (record c { buffer = c.buffer ++ event ∷ [] }) channels, slow)
        else some (channels, slow ++ ch ∷ []))
unfolding offer
offer-eq event ch channels slow c found open_still = rw (found, offer) (rw (open_still, offer) refl)

offer-open :
    (event : EventEnvelope) (ch : ℕ) (channels : Assoc ℕ Channel) (slow : List ℕ)
    → IsOpen channels ch
    → (next : Assoc ℕ Channel) × (offer event ch (channels, slow)
        ≡ some (next, slow ++ (if is_full (lookup ch channels) then ch ∷ [] else [])))
      × ((j : ℕ) → lookup j next ≡ sent_if (nat_eq ch j) event (lookup j channels))
unfolding offer
offer-open event ch channels slow o = elim (Bool-cases (room o.channel)) [
  | inl r ↦ (
    insert ch (record (o.channel) { buffer = o.channel.buffer ++ event ∷ [] }) channels,
    offer-eq event ch channels slow o.channel o.found o.open_still
        ∙ rw r (rw o.found (rw r (rw append-nil refl))),
    λ j. rw lookup-insert (ground (arith, nat_eq_iff ch j, o.found)),
  )
  | inr r ↦ (
    channels,
    offer-eq event ch channels slow o.channel o.found o.open_still ∙ rw r (rw o.found (rw r refl)),
    λ j. ground (arith, nat_eq_iff ch j, o.found),
  )
]

unfoldable pub full : Assoc ℕ Channel → List ℕ → List ℕ
full channels [] = []
full channels (ch ∷ rest) =
    (if is_full (lookup ch channels) then ch ∷ [] else []) ++ full channels rest

-- The same channels stand under the numbers of a list.
abbrev pub Agree : List ℕ → Assoc ℕ Channel → Assoc ℕ Channel → Type 0
Agree subs a b = (j : ℕ) → is_member j subs ≡ true → lookup j a ≡ lookup j b

Agree-tail : (x : ℕ) (subs : List ℕ) (a b : Assoc ℕ Channel) → Agree (x ∷ subs) a b → Agree subs a b
unfolding is_member
Agree-tail x subs a b h j m = h j (ground arith)

pub AllOpen-Agree :
    (subs : List ℕ) (a b : Assoc ℕ Channel) → Agree subs a b → AllOpen b subs → AllOpen a subs
AllOpen-Agree [] a b h o = tt
AllOpen-Agree (x ∷ subs) a b h (o, os) = (
  record {
    channel = o.channel;
    found = unfold is_member in h x (ground arith) ∙ o.found;
    open_still = o.open_still;
  },
  AllOpen-Agree subs a b (Agree-tail x subs a b h) os,
)

full-Agree : (subs : List ℕ) (a b : Assoc ℕ Channel) → Agree subs a b → full a subs ≡ full b subs
unfolding full is_member
full-Agree [] a b h = refl
full-Agree (x ∷ subs) a b h =
    ap₂ (λ o l. (if is_full o then x ∷ [] else []) ++ l) (h x (ground arith))
      (full-Agree subs a b (Agree-tail x subs a b h))

pub not_member-ne :
    (x j : ℕ) (subs : List ℕ)
    → is_member x subs ≡ false
    → is_member j subs ≡ true
    → nat_eq x j ≡ false
not_member-ne x j subs n m = elim (Bool-cases (nat_eq x j)) [
  | inl same ↦
      absurd (true≢false (sym m ∙ ap (λ k. is_member k subs) (sym ((nat_eq_iff x j).0 same)) ∙ n))
  | inr other ↦ other
]

sent_if-cons :
    (event : EventEnvelope) (x j : ℕ) (subs : List ℕ) (o : Option Channel)
    → is_member x subs ≡ false
    → sent_if (is_member j subs) event (sent_if (nat_eq x j) event o)
      ≡ sent_if (is_member j (x ∷ subs)) event o
unfolding is_member
sent_if-cons event x j subs o n = elim (Bool-cases (nat_eq x j)) [
  | inl same ↦ rw same (rw (subst (λ k. is_member k subs ≡ false) ((nat_eq_iff x j).0 same) n) refl)
  | inr other ↦ rw other refl
]

pub offer_all-open :
    (event : EventEnvelope) (subs : List ℕ) (channels : Assoc ℕ Channel) (slow : List ℕ)
    → AllOpen channels subs
    → AreDistinct subs
    → (next : Assoc ℕ Channel) × (offer_all event subs (channels, slow)
        ≡ some (next, slow ++ full channels subs))
      × ((j : ℕ) → lookup j next ≡ sent_if (is_member j subs) event (lookup j channels))
unfolding offer_all full is_member
offer_all-open event [] channels slow o d = (channels, rw append-nil refl, λ j. refl)
offer_all-open event (x ∷ subs) channels slow (o, os) (n, d) =
    let (mid, offered, changed) = offer-open event x channels slow o in
    let agree : Agree subs mid channels = λ j m. changed j ∙ rw (not_member-ne x j subs n m) refl in
    let (next, offered_rest, changed_rest) =
      offer_all-open event subs mid (slow ++ (if is_full (lookup x channels) then x ∷ [] else []))
        (AllOpen-Agree subs mid channels agree os) d in
    (
      next,
      rw (offered, offer_all)
          (offered_rest ∙ rw (full-Agree subs mid channels agree) (rw append_assoc refl)),
      λ j.
          changed_rest j
          ∙ ap (sent_if (is_member j subs) event) (changed j)
          ∙ sent_if-cons event x j subs (lookup j channels) n,
    )
