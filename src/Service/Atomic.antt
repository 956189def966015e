-- ===== src/Service/Atomic.antt =====
-- Operations that fail leave the stores as they were, where the hub is one that a run has led to: how
-- actions keep that, one statement at a time.
pub mod Entities
pub mod Observations
pub mod Tasks
pub mod Objects
pub mod Serve
use mathlib.Core.Path.{subst}
use atlas_c.Base.{
  suc, ◌≡◌, refl, sym, ap, ◌∙◌, String, Option, none, some, inl, inr, Option-cases, Result, ok, err,
  Result-cases, Error,
}
use atlas_c.Events
use atlas_c.Events.{Hub, next_id}
use atlas_c.Events.Live.{Reach, Step, Reach-no_panic}
use atlas_c.Model.Records.{Object, EventEnvelope, EventData}
use atlas_c.Store.{MemoryStore, Method}
use atlas_c.Service.State.{
  Env, Services, Action, continue, ◌>>=◌, ◌>>◌, pure, lift, reading, writing,
}
use atlas_c.Service.Publishing.{send, event_of, fresh_id, publish_to, publish, publish_object}

-- A nil hub, or one in a state that its operations lead to.
unfoldable pub IsLive : Option Hub → Type 0
IsLive none = Unit
IsLive (some h) = Reach h

-- What an action leaves: the stores as they were where it failed, and a live hub.
pub record IsSettled (before : MemoryStore) {A : Type 0} (after : Result A × Services)
    : Type 0 where
  pub failed : (e : Error) → after.0 ≡ err e → after.1.stores ≡ before
  pub live : IsLive after.1.publisher

-- An answer that is no error, and a live hub.
pub record Answers {A : Type 0} (after : Result A × Services) : Type 0 where
  pub value : A
  pub is_value : after.0 ≡ ok value
  pub live : IsLive after.1.publisher

send-Answers :
    (h : Hub) (event : EventEnvelope) (s : Services) → Reach h → Answers (send (some h) event s)
unfolding send IsLive
send-Answers h event s r =
    let ((h', sent), _) = Reach-no_panic event 0 r in
    rw (sent, send)
      (record { value = tt; is_value = refl; live = Reach.next r (Step.published event sent) })

publish_to-Answers :
    (env : Env) (hub : Option Hub) (resource_type mutation resource_id : String)
    (payload : EventData) (s : Services)
    → IsLive hub
    → IsLive s.publisher
    → Answers (publish_to env hub resource_type mutation resource_id payload s)
unfolding publish_to fresh_id IsLive
publish_to-Answers env none resource_type mutation resource_id payload s l r = record {
  value = tt;
  is_value = refl;
  live = r;
}
publish_to-Answers env (some h) resource_type mutation resource_id payload s l r =
    send-Answers (next_id (env.clock s.reads) h).1
      (event_of (next_id (env.clock s.reads) h).0 (env.clock (suc s.reads)) resource_type mutation
        resource_id payload)
      (record s { publisher = some (next_id (env.clock s.reads) h).1; reads = suc (suc s.reads) })
      (Reach.next l (Step.numbered (env.clock s.reads)))

pub publish-Answers :
    (env : Env) (resource_type mutation resource_id : String) (payload : EventData) (s : Services)
    → IsLive s.publisher
    → Answers (publish env resource_type mutation resource_id payload s)
unfolding publish
publish-Answers env resource_type mutation resource_id payload s l =
    publish_to-Answers env s.publisher resource_type mutation resource_id payload s l l

pub publish_object-Answers :
    (env : Env) (mutation object_id : String) (object : Object) (s : Services)
    → IsLive s.publisher
    → Answers (publish_object env mutation object_id object s)
unfolding publish_object
publish_object-Answers env mutation object_id object s l =
    publish-Answers env "object" mutation object_id _ s l

-- An answer, and a value returned after it.
pub Answers-pure :
    {B : Type 0} (m : Action (Unit {0})) (b : B) (s : Services)
    → Answers (m s)
    → Answers ((m >> pure b) s)
Answers-pure m b s a =
    subst (λ r. Answers (continue r (λ _. pure b) (m s).1)) (sym a.is_value)
      (record { value = b; is_value = refl; live = a.live })

pub publish-pure-Answers :
    {B : Type 0} (env : Env) (resource_type mutation resource_id : String) (payload : EventData)
    (b : B) (s : Services)
    → IsLive s.publisher
    → Answers ((publish env resource_type mutation resource_id payload >> pure b) s)
publish-pure-Answers env resource_type mutation resource_id payload b s l =
    Answers-pure (publish env resource_type mutation resource_id payload) b s
      (publish-Answers env resource_type mutation resource_id payload s l)

pub publish_object-pure-Answers :
    {B : Type 0} (env : Env) (mutation object_id : String) (object : Object) (b : B) (s : Services)
    → IsLive s.publisher
    → Answers ((publish_object env mutation object_id object >> pure b) s)
publish_object-pure-Answers env mutation object_id object b s l =
    Answers-pure (publish_object env mutation object_id object) b s
      (publish_object-Answers env mutation object_id object s l)

pub answered :
    {A : Type 0} (before : MemoryStore) (p : Result A × Services) → Answers p → IsSettled before p
answered before p a = record {
  failed = λ e h. let bad : ok a.value ≡ err e = sym a.is_value ∙ h in cc bad;
  live = a.live;
}

module _ (before : MemoryStore) where
  -- The rest of an action behind a result: an early return, or the rest.
  pub settles :
      {A B : Type 0} (r : Result A) (k : A → Action B) (s : Services)
      → s.stores ≡ before
      → IsLive s.publisher
      → ((a : A) → r ≡ ok a → IsSettled before (k a s))
      → IsSettled before (continue r k s)
  settles r k s same l step = elim (Result-cases r) [
    | inl (a, e) ↦ subst (λ x. IsSettled before (continue x k s)) (sym e) (step a e)
    | inr (e, eq) ↦
        subst (λ x. IsSettled before (continue x k s)) (sym eq)
          (record { failed = λ _ _. same; live = l })
  ]

  -- A write by a method that changes nothing where it fails, before statements that do not fail.
  pub settles_write :
      {A B : Type 0} (f : Method A) (k : A → Action B) (s : Services)
      → ((e : Error) → (f s.stores).0 ≡ err e → (f s.stores).1 ≡ s.stores)
      → s.stores ≡ before
      → IsLive s.publisher
      → ((a : A) (t : Services) → IsLive t.publisher → Answers (k a t))
      → IsSettled before ((writing f >>= k) s)
  settles_write f k s atomic same l rest =
      let t = record s { stores = (f s.stores).1 } in
      elim (Result-cases (f s.stores).0) [
        | inl (a, e) ↦
            subst (λ x. IsSettled before (continue x k t)) (sym e)
              (answered before (k a t) (rest a t l))
        | inr (e, eq) ↦
            subst (λ x. IsSettled before (continue x k t)) (sym eq)
              (record { failed = λ _ _. atomic e eq ∙ same; live = l })
      ]
