-- ===== src/Service/Tasks/Raised.antt =====
-- What CreateTask of internal/service/service.go has made sure of where it answers a task.
use atlas_c.Base.{
  suc, ◌≡◌, sym, ap, ◌∙◌, String, none, some, inl, inr, Option-cases, Result, ok, err, Result-cases,
}
use atlas_c.Base.Assoc.{string_eq, lookup}
use atlas_c.Base.Assoc.Stored.{lookup-insert_same}
use atlas_c.Catalog.Commands.{Catalog, get_active}
use atlas_c.Model.Records.{Entity, Task, EventData}
use atlas_c.Store.{MemoryStore}
use atlas_c.Store.Entities.{get_entity}
use atlas_c.Store.Tasks.{create_task}
use atlas_c.Service.State.{Env, Services, Action, continue}
use atlas_c.Service.Validation.{require_valid_id}
use atlas_c.Service.Commands.{validate_task_command}
use atlas_c.Service.Commands.Accepted.{IsDefined, Supports, validate_task_command-ok}
use atlas_c.Service.Entities.{require_asset}
use atlas_c.Service.Tasks
use atlas_c.Service.Tasks.{TaskCreateInput, new_task, require_active}
use atlas_c.Service.Publishing.{publish}
use atlas_c.Service.Intact.{publish-pure}
use atlas_c.Service.Intact.Entities.{get_entity-found}
use atlas_c.Service.Change.Entities.{require_asset-asset}

-- A successful statement, and the action from there on.
pub continued :
    {A B : Type 0} (r : Result A) (k : A → Action B) (s : Services) {b : B}
    → (continue r k s).0 ≡ ok b
    → (a : A) × (r ≡ ok a) × (continue r k s ≡ k a s) × ((k a s).0 ≡ ok b)
continued r k s {b} h = elim (Result-cases r) [
  | inl (a, e) ↦
      let same : continue r k s ≡ k a s = ap (λ x. continue x k s) e in
      (a, e, same, sym (ap (λ p. p.0) same) ∙ h)
  | inr (e, failed) ↦
      let bad : err e ≡ ok b = sym (ap (λ x. (continue x k s).0) failed) ∙ h in cc bad
]

require_active-some : (o : _) (c : Catalog) → require_active o ≡ ok c → o ≡ some c
unfolding require_active
require_active-some none c h = cc h
require_active-some (some a) c h = let it : a ≡ c = cc h in ap some it

create_task-new :
    (v t : Task) (m : MemoryStore)
    → (create_task v m).0 ≡ ok t
    → (lookup v.task_id m.tasks ≡ none)
      × (v ≡ t)
      × (lookup v.task_id (create_task v m).1.tasks ≡ some t)
unfolding create_task
create_task-new v t m h = elim (Option-cases (lookup v.task_id m.tasks)) [
  | inl absent ↦
      let it : ok v ≡ ok t = rw (absent, create_task) at h in
      let it' : v ≡ t = cc it in
      (absent, it', rw (absent, create_task) (lookup-insert_same v.task_id v m.tasks ∙ ap some it'))
  | inr (old, found) ↦ let bad : err _ ≡ ok t = rw (found, create_task) at h in cc bad
]

-- What stands behind a task that was created.
pub record IsRaised (env : Env) (input : TaskCreateInput) (s : Services) (t : Task) : Type 0 where
  pub active : Catalog
  pub is_active : get_active s.commands ≡ some active
  pub asset : Entity
  pub stored : lookup input.asset_id s.stores.entities ≡ some asset
  pub is_asset : asset.type ≡ "asset"
  pub type : String
  pub defined : IsDefined env input.json active type
  pub supports : Supports asset type
  pub fresh : lookup input.task_id s.stores.tasks ≡ none
  pub task : new_task input active.object_id (env.clock s.reads) (env.clock (suc s.reads)) ≡ t
  pub kept : lookup input.task_id (Tasks.create_task env input s).1.stores.tasks ≡ some t

-- A task that CreateTask answers is new and stored, pending, with the given asset and document and
-- the object of the active catalog; its asset is a stored entity of type "asset" that lists the
-- task's command, which the active catalog defines and whose schema its parameters fit.
pub create_task-IsRaised :
    (env : Env) (input : TaskCreateInput) (s : Services) (t : Task)
    → (Tasks.create_task env input s).0 ≡ ok t
    → IsRaised env input s t
unfolding Tasks.create_task
create_task-IsRaised env input s t h =
    let (_, _, e₁, h₁) = continued (require_valid_id "task_id" input.task_id) _ s h in
    let (asset, found, e₂, h₂) = continued (get_entity input.asset_id s.stores) _ s h₁ in
    let (_, is, e₃, h₃) =
      continued (require_asset "asset_id" "asset_id must reference an asset" asset) _ s h₂ in
    let (active, ready, e₄, h₄) = continued (require_active (get_active s.commands)) _ s h₃ in
    let (_, accepted, e₅, h₅) =
      continued (validate_task_command env input.json active asset) _ s h₄ in
    let v = new_task input active.object_id (env.clock s.reads) (env.clock (suc s.reads)) in
    let s' = record s { reads = suc (suc s.reads); stores = (create_task v s.stores).1 } in
    let (created, stored, e₆, h₆) = continued (create_task v s.stores).0 _ s' h₅ in
    let (_, _, _, h₇) =
      continued (publish env "task" "created" created.task_id (EventData.task created) s').0 _
        (publish env "task" "created" created.task_id (EventData.task created) s').1 h₆ in
    let it : created ≡ t = cc h₇ in
    let (fresh, same, kept) = create_task-new v created s.stores stored in
    let (type, defined, supports) = validate_task_command-ok env input.json active asset accepted in
    record {
      active = active;
      is_active = require_active-some (get_active s.commands) active ready;
      asset = asset;
      stored = get_entity-found input.asset_id s.stores asset found;
      is_asset = require_asset-asset "asset_id" "asset_id must reference an asset" asset is;
      type = type;
      defined = defined;
      supports = supports;
      fresh = fresh;
      task = same ∙ it;
      kept =
          ap (λ p. lookup input.task_id p.1.stores.tasks) (e₁ ∙ e₂ ∙ e₃ ∙ e₄ ∙ e₅ ∙ e₆)
          ∙ ap (λ m. lookup input.task_id m.tasks)
              (publish-pure env "task" "created" created.task_id (EventData.task created) created
                s')
          ∙ kept
          ∙ ap some it;
    }
