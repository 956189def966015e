-- ===== src/Service/Intact.antt =====
-- The operations of the service keep the references of the store: how actions keep a property of the
-- store, one statement at a time.
pub mod Entities
pub mod Observations
pub mod Tasks
pub mod Objects
use mathlib.Core.Path.{subst}
use atlas_c.Base.{
  suc, ◌≡◌, refl, sym, ap, ◌∙◌, String, Option, none, some, inl, inr, Option-cases, Result, ok, err,
  Result-cases, Error,
}
use atlas_c.Events
use atlas_c.Events.{Hub, next_id}
use atlas_c.Model.Records.{Object, EventEnvelope, EventData}
use atlas_c.Store.{MemoryStore, Method}
use atlas_c.Service.State.{
  Env, Services, Action, continue, ◌>>=◌, ◌>>◌, pure, reading, lift, writing,
}
use atlas_c.Service.Publishing.{send, event_of, fresh_id, publish_to, publish, publish_object}

send-stores :
    (hub : Option Hub) (event : EventEnvelope) (s : Services)
    → (send hub event s).1.stores ≡ s.stores
unfolding send
send-stores none event s = refl
send-stores (some h) event s = elim (Option-cases (Events.publish event h)) [
  | inl e ↦ rw (e, send) refl
  | inr (h', e) ↦ rw (e, send) refl
]

publish_to-stores :
    (env : Env) (hub : Option Hub) (resource_type mutation resource_id : String)
    (payload : EventData) (s : Services)
    → (publish_to env hub resource_type mutation resource_id payload s).1.stores ≡ s.stores
unfolding publish_to fresh_id
publish_to-stores env none resource_type mutation resource_id payload s = refl
publish_to-stores env (some h) resource_type mutation resource_id payload s =
    send-stores (some (next_id (env.clock s.reads) h).1)
      (event_of (next_id (env.clock s.reads) h).0 (env.clock (suc s.reads)) resource_type mutation
        resource_id payload)
      (record s { publisher = some (next_id (env.clock s.reads) h).1; reads = suc (suc s.reads) })

-- Publishing touches the hub and the clock, and no record.
pub publish-stores :
    (env : Env) (resource_type mutation resource_id : String) (payload : EventData) (s : Services)
    → (publish env resource_type mutation resource_id payload s).1.stores ≡ s.stores
unfolding publish
publish-stores env resource_type mutation resource_id payload s =
    publish_to-stores env s.publisher resource_type mutation resource_id payload s

pub publish_object-stores :
    (env : Env) (mutation object_id : String) (object : Object) (s : Services)
    → (publish_object env mutation object_id object s).1.stores ≡ s.stores
unfolding publish_object
publish_object-stores env mutation object_id object s =
    publish-stores env "object" mutation object_id _ s

pub returned :
    {B : Type 0} (m : Action (Unit {0})) (b : B) (s : Services)
    → (m s).1.stores ≡ s.stores
    → ((m >> pure b) s).1.stores ≡ s.stores
returned m b s quiet = elim (Result-cases (m s).0) [
  | inl (a, e) ↦ rw e quiet
  | inr (e, eq) ↦ rw eq quiet
]

-- A published event, before the action returns.
pub publish-pure :
    {B : Type 0} (env : Env) (resource_type mutation resource_id : String) (payload : EventData)
    (b : B) (s : Services)
    → ((publish env resource_type mutation resource_id payload >> pure b) s).1.stores ≡ s.stores
publish-pure env resource_type mutation resource_id payload b s =
    returned (publish env resource_type mutation resource_id payload) b s
      (publish-stores env resource_type mutation resource_id payload s)

pub publish_object-pure :
    {B : Type 0} (env : Env) (mutation object_id : String) (object : Object) (b : B) (s : Services)
    → ((publish_object env mutation object_id object >> pure b) s).1.stores ≡ s.stores
publish_object-pure env mutation object_id object b s =
    returned (publish_object env mutation object_id object) b s
      (publish_object-stores env mutation object_id object s)

module _ (P : MemoryStore → Type 0) where
  -- The rest of an action behind a result: an early return, or the rest.
  pub keeps :
      {A B : Type 0} (r : Result A) (k : A → Action B) (s : Services)
      → P s.stores
      → ((a : A) → r ≡ ok a → P (k a s).1.stores)
      → P (continue r k s).1.stores
  keeps r k s h step = elim (Result-cases r) [
    | inl (a, e) ↦ subst (λ x. P (continue x k s).1.stores) (sym e) (step a e)
    | inr (e, eq) ↦ subst (λ x. P (continue x k s).1.stores) (sym eq) h
  ]

  -- A write, before statements that leave the store as it is.
  pub keeps_write :
      {A B : Type 0} (f : Method A) (k : A → Action B) (s : Services)
      → P (f s.stores).1
      → ((a : A) (t : Services) → (k a t).1.stores ≡ t.stores)
      → P ((writing f >>= k) s).1.stores
  keeps_write f k s h rest =
      keeps (f s.stores).0 k (record s { stores = (f s.stores).1 }) h
        (λ a e. subst P (sym (rest a (record s { stores = (f s.stores).1 }))) h)
