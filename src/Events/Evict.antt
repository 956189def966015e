-- ===== src/Events/Evict.antt =====
-- The second loop of Publish, and the cancelling of a subscription: channels are closed and let go.
use mathlib.Core.Path.{subst}
use atlas_c.Base.{
  ℕ, ◌≡◌, refl, ap, ◌∙◌, Bool, true, false, ◌&&◌, not, Option, none, some, List, [], ◌∷◌, nat_eq,
  arith, Bool-cases, inl, inr,
}
use atlas_c.Base.Assoc.{Assoc, lookup, insert, lookup-insert}
use atlas_c.Events.{
  Hub, Channel, channel_eq, without, is_member, close_channel, evict, evict_all, nat_eq_iff,
}
use atlas_c.Events.Offer.{IsOpen, AllOpen, AreDistinct, Agree, AllOpen-Agree, not_member-ne}

abbrev pub shut : Channel → Channel
shut c = record c { closed = true }

abbrev pub shut_if : Bool → Option Channel → Option Channel
shut_if true none = none
shut_if true (some c) = some (shut c)
shut_if false o = o

shut_if-cons :
    (x j : ℕ) (subs : List ℕ) (o : Option Channel)
    → is_member x subs ≡ false
    → shut_if (is_member j subs) (shut_if (nat_eq x j) o) ≡ shut_if (is_member j (x ∷ subs)) o
unfolding is_member
shut_if-cons x j subs o n = elim (Bool-cases (nat_eq x j)) [
  | inl same ↦ rw same (rw (subst (λ k. is_member k subs ≡ false) ((nat_eq_iff x j).0 same) n) refl)
  | inr other ↦ rw other refl
]

pub is_member-without :
    (x j : ℕ) (subs : List ℕ)
    → is_member j (without x subs) ≡ (not (nat_eq x j) && is_member j subs)
unfolding is_member without
is_member-without x j [] = ground arith
is_member-without x j (y ∷ subs) =
    ground (arith, is_member-without x j subs, nat_eq_iff x j, nat_eq_iff y j, nat_eq_iff y x)

close_channel-open :
    (ch : ℕ) (channels : Assoc ℕ Channel) (o : IsOpen channels ch)
    → close_channel ch channels ≡ some (insert ch (shut o.channel) channels)
unfolding close_channel
close_channel-open ch channels o =
    rw (o.found, close_channel) (rw (o.open_still, close_channel) refl)

pub AreDistinct-without : (x : ℕ) (subs : List ℕ) → AreDistinct subs → AreDistinct (without x subs)
unfolding without
AreDistinct-without x [] d = tt
AreDistinct-without x (y ∷ subs) (n, d) = elim (Bool-cases (nat_eq y x)) [
  | inl e ↦ rw e (AreDistinct-without x subs d)
  | inr e ↦ rw e (is_member-without x y subs ∙ rw n (ground arith), AreDistinct-without x subs d)
]

-- What evict does to a channel that is open.
pub record Evicted (closing : ℕ → Bool) (h h' : Hub) : Type 0 where
  pub channels : (j : ℕ) → lookup j h'.channels ≡ shut_if (closing j) (lookup j h.channels)
  pub subscribers :
      (j : ℕ) → is_member j h'.subscribers ≡ (not (closing j) && is_member j h.subscribers)
  pub distinct : AreDistinct h.subscribers → AreDistinct h'.subscribers

pub evict-open :
    (ch : ℕ) (h : Hub)
    → IsOpen h.channels ch
    → (h' : Hub) × (evict ch h ≡ some h') × Evicted (λ j. nat_eq ch j) h h'
unfolding evict
evict-open ch h o = (
  record h {
    channels = insert ch (shut o.channel) h.channels;
    subscribers = without ch h.subscribers;
  },
  rw (close_channel-open ch h.channels o, evict) refl,
  record {
    channels = λ j. rw lookup-insert (ground (arith, nat_eq_iff ch j, o.found));
    subscribers = λ j. is_member-without ch j h.subscribers;
    distinct = AreDistinct-without ch h.subscribers;
  },
)

pub evict_all-open :
    (chs : List ℕ) (h : Hub)
    → AllOpen h.channels chs
    → AreDistinct chs
    → (h' : Hub) × (evict_all chs h ≡ some h') × Evicted (λ j. is_member j chs) h h'
unfolding evict_all is_member
evict_all-open [] h o d =
    (h, refl, record { channels = λ j. refl; subscribers = λ j. refl; distinct = λ d. d })
evict_all-open (x ∷ chs) h (o, os) (n, d) =
    let (mid, gone, e) = evict-open x h o in
    let agree : Agree chs mid.channels h.channels =
      λ j m. e.channels j ∙ rw (not_member-ne x j chs n m) refl in
    let (h', gone_rest, e') =
      evict_all-open chs mid (AllOpen-Agree chs mid.channels h.channels agree os) d in
    (
      h',
      rw (gone, evict_all) gone_rest,
      record {
        channels = λ j.
            e'.channels j
            ∙ ap (shut_if (is_member j chs)) (e.channels j)
            ∙ shut_if-cons x j chs (lookup j h.channels) n;
        subscribers = λ j.
            e'.subscribers j
            ∙ ap (λ b. not (is_member j chs) && b) (e.subscribers j)
            ∙ ground (arith, nat_eq_iff x j);
        distinct = λ a. e'.distinct (e.distinct a);
      },
    )
