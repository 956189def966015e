-- ===== src/Events/Live/Moves.antt =====
-- Subscribing, cancelling, receiving and numbering keep what holds of a hub.
use atlas_c.Base.{
  ℕ, ◌≤◌, ◌≡◌, refl, sym, ap, ◌∙◌, Bool, true, false, ◌&&◌, not, Option, none, some, List, [], ◌∷◌,
  length, nat_eq, arith, Bool-cases, Option-cases, inl, inr,
}
use atlas_c.Base.Assoc.{lookup, insert, lookup-insert}
use atlas_c.Model.Records.{EventEnvelope, Time}
use atlas_c.Events.{
  Hub, Channel, channel_eq, capacity, is_member, subscribe, cancel, receive, evict, next_id,
  fresh_channel, nat_eq_iff,
}
use atlas_c.Events.Offer.{AreDistinct}
use atlas_c.Events.Evict.{shut_if, Evicted, evict-open, is_member-without, AreDistinct-without}
use atlas_c.Events.Live.Sound.{AllOpen-at, AllOpen-of, IsSound}

pub not_subscribed :
    (ch : ℕ) (h : Hub)
    → IsSound h
    → lookup ch h.channels ≡ none
    → is_member ch h.subscribers ≡ false
not_subscribed ch h s absent = elim (Bool-cases (is_member ch h.subscribers)) [
  | inl m ↦
      let o = AllOpen-at h.channels h.subscribers ch s.live.all_open m in
      let bad : none ≡ some o.channel = sym absent ∙ o.found in cc bad
  | inr n ↦ n
]

-- A hub is sound if its subscribers are distinct and have channels, and its channels are as they
-- should be.
pub IsSound-of :
    (h : Hub)
    → AreDistinct h.subscribers
    → ((j : ℕ) → is_member j h.subscribers ≡ true → (c : Channel) × (lookup j h.channels ≡ some c))
    → ((j : ℕ) (c : Channel)
        → lookup j h.channels ≡ some c
        → (c.closed ≡ not (is_member j h.subscribers)) × (length c.buffer ≤ capacity))
    → IsSound h
IsSound-of h distinct members channels = record {
  live = record {
    all_open = AllOpen-of h.channels h.subscribers (λ j m.
        let (c, found) = members j m in
        record { channel = c; found = found; open_still = (channels j c found).0 ∙ ap not m });
    distinct = distinct;
  };
  let_go = λ j c found. (channels j c found).0;
  bounded = λ j c found. (channels j c found).1;
}

pub member_channel :
    (h : Hub)
    → IsSound h
    → (j : ℕ) → is_member j h.subscribers ≡ true
    → (c : Channel) × (lookup j h.channels ≡ some c)
member_channel h s j m =
    let o = AllOpen-at h.channels h.subscribers j s.live.all_open m in (o.channel, o.found)

pub subscribe-IsSound :
    (ch : ℕ) (h : Hub) → IsSound h → lookup ch h.channels ≡ none → IsSound (subscribe ch h)
unfolding subscribe is_member
subscribe-IsSound ch h s absent =
    IsSound-of (subscribe ch h)
      (
        is_member-without ch ch h.subscribers ∙ ground arith,
        AreDistinct-without ch h.subscribers s.live.distinct,
      )
      (λ j m. elim (Bool-cases (nat_eq ch j)) [
        | inl same ↦ (fresh_channel, lookup-insert ch j fresh_channel h.channels ∙ rw same refl)
        | inr other ↦
            let (c, found) =
              member_channel h s j
                (ground (arith, is_member-without ch j h.subscribers, other, m)) in
            (c, lookup-insert ch j fresh_channel h.channels ∙ (rw other refl ∙ found))
      ])
      (λ j c found.
        let found' = sym (lookup-insert ch j fresh_channel h.channels) ∙ found in
        (
          ground (arith, found', is_member-without ch j h.subscribers, s.let_go j c),
          ground (arith, found', s.bounded j c),
        ))

pub cancel-IsSound : (ch : ℕ) (h h' : Hub) → IsSound h → cancel ch h ≡ some h' → IsSound h'
unfolding cancel
cancel-IsSound ch h h' s e = elim (Bool-cases (is_member ch h.subscribers)) [
  | inr gone ↦
      let it : some h ≡ some h' = rw gone at e in let same : h ≡ h' = cc it in rw (← same) s
  | inl there ↦
      let (left, evicted, v) =
        evict-open ch h (AllOpen-at h.channels h.subscribers ch s.live.all_open there) in
      let e' : evict ch h ≡ some h' = rw there at e in
      let it : some left ≡ some h' = sym evicted ∙ e' in
      let same : left ≡ h' = cc it in rw (← same) (evicted-IsSound left v)
]
  where
    shut_channel :
        (b m m' : Bool) (o : Option Channel) (c : Channel)
        → m' ≡ (not b && m)
        → shut_if b o ≡ some c
        → ((d : Channel) → o ≡ some d → d.closed ≡ not m)
        → ((d : Channel) → o ≡ some d → length d.buffer ≤ capacity)
        → (c.closed ≡ not m') × (length c.buffer ≤ capacity)
    shut_channel true m m' none c i e f g = cc
    shut_channel false m m' none c i e f g = cc
    shut_channel true m m' (some d) c i e f g = ground (arith, f d refl, g d refl)
    shut_channel false m m' (some d) c i e f g = ground (arith, f d refl, g d refl)

    evicted-IsSound : (left : Hub) → Evicted (λ j. nat_eq ch j) h left → IsSound left
    evicted-IsSound left v =
        IsSound-of left (v.distinct s.live.distinct)
          (λ j m.
            let (c, found) = member_channel h s j (ground (arith, v.subscribers j, m)) in
            (c, v.channels j ∙ ground (arith, v.subscribers j, m, found)))
          (λ j c found.
            let found' = sym (v.channels j) ∙ found in
            shut_channel (nat_eq ch j) (is_member j h.subscribers) (is_member j left.subscribers)
              (lookup j h.channels) c (v.subscribers j) found' (s.let_go j) (s.bounded j))

pub receive-IsSound : (ch : ℕ) (h : Hub) → IsSound h → IsSound (receive ch h).1
unfolding receive
receive-IsSound ch h s = elim (Option-cases (lookup ch h.channels)) [
  | inl absent ↦ rw (absent, receive) s
  | inr (c, found) ↦ rw (found, receive) (from c.buffer c found refl)
]
  where
    from :
        (buffer : List EventEnvelope) (c : Channel)
        → lookup ch h.channels ≡ some c
        → c.buffer ≡ buffer
        → IsSound
            (elim buffer as (λ b. Option EventEnvelope × Hub) [
              | [] ↦ (none, h)
              | event ∷ rest ↦ (
                some event,
                record h { channels = insert ch (record c { buffer = rest }) h.channels },
              )
            ]).1
    from [] c found e = s
    from (event ∷ rest) c found e =
        let c' = record c { buffer = rest } in
        IsSound-of (record h { channels = insert ch c' h.channels }) s.live.distinct
          (λ j m. elim (Bool-cases (nat_eq ch j)) [
            | inl same ↦ (c', lookup-insert ch j c' h.channels ∙ rw same refl)
            | inr other ↦
                let (d, there) = member_channel h s j m in
                (d, lookup-insert ch j c' h.channels ∙ (rw other refl ∙ there))
          ])
          (λ j d there.
            let there' = sym (lookup-insert ch j c' h.channels) ∙ there in
            elim (Bool-cases (nat_eq ch j)) [
              | inl same ↦
                  let it : some c' ≡ some d = rw same at there' in
                  let at_j =
                    ap (λ k. lookup k h.channels) (sym ((nat_eq_iff ch j).0 same)) ∙ found in
                  (
                    ground (arith, s.let_go j c at_j, it),
                    ground (arith, s.bounded j c at_j, ap length e, it),
                  )
              | inr other ↦
                  let before : lookup j h.channels ≡ some d = rw other at there' in
                  (s.let_go j d before, s.bounded j d before)
            ])

pub next_id-IsSound : (now : Time) (h : Hub) → IsSound h → IsSound (next_id now h).1
unfolding next_id
next_id-IsSound now h s = record {
  live = record { all_open = s.live.all_open; distinct = s.live.distinct };
  let_go = s.let_go;
  bounded = s.bounded;
}
