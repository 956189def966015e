-- ===== src/Service/Lifecycle/Runs.antt =====
-- The life of a task over a run of requests during which it stays stored.
use mathlib.Core.Path.{subst}
use atlas_c.Base.{◌≡◌, refl, sym, ◌∙◌, String, some, List, [], ◌∷◌, ◌⊎◌, inl, inr}
use atlas_c.Base.Assoc.{string_eq, lookup}
use atlas_c.Base.Assoc.Evolves.{Evolves}
use atlas_c.Model.Records.{Task}
use atlas_c.Store.Integrity.{IsIntact}
use atlas_c.Service.State.{Env, Services}
use atlas_c.Service.Requests.{Request, serve, serve_all, serve-IsIntact}
use atlas_c.Service.Change.{SameTask}
use atlas_c.Service.Lifecycle.{serve-Evolves}
use atlas_c.Service.Lifecycle.Status.{Becomes, Becomes-step, IsFinished, finished-Becomes}

-- Every state from the first to the last of a run stores a task under the identifier.
unfoldable pub IsPresent : Env → String → List Request → Services → Type 0
IsPresent env id [] s = Unit
IsPresent env id (r ∷ rest) s =
    ((t : Task) × (lookup id (serve env r s).stores.tasks ≡ some t))
    × IsPresent env id rest (serve env r s)

-- What a run leaves of a task, and where its status can get to.
pub record Lives (before after : Task) : Type 0 where
  pub task_id : after.task_id ≡ before.task_id
  pub asset_id : after.asset_id ≡ before.asset_id
  pub command_catalog_object_id : after.command_catalog_object_id ≡ before.command_catalog_object_id
  pub created_at : after.created_at ≡ before.created_at
  pub status : Becomes before.status after.status

abbrev lives : (t : Task) → Lives t t
lives t = record {
  task_id = refl;
  asset_id = refl;
  command_catalog_object_id = refl;
  created_at = refl;
  status = Becomes.stays;
}

lives-step : (t u v : Task) → Lives t u → (v ≡ u) ⊎ SameTask u v → Lives t v
lives-step t u v l (inl same) = subst (Lives t) (sym same) l
lives-step t u v l (inr same) = record {
  task_id = same.task_id ∙ l.task_id;
  asset_id = same.asset_id ∙ l.asset_id;
  command_catalog_object_id = same.command_catalog_object_id ∙ l.command_catalog_object_id;
  created_at = same.created_at ∙ l.created_at;
  status = Becomes-step l.status same.status;
}

module _ (env : Env) (id : String) where
  run-Lives :
      (requests : List Request) (s : Services) (t u v : Task)
      → IsIntact s.stores
      → IsPresent env id requests s
      → Lives t u
      → lookup id s.stores.tasks ≡ some u
      → lookup id (serve_all env requests s).stores.tasks ≡ some v
      → Lives t v
  unfolding serve_all IsPresent Evolves
  run-Lives [] s t u v h p l now_there then_there =
      let it : some u ≡ some v = sym now_there ∙ then_there in
      let it' : u ≡ v = cc it in subst (Lives t) it' l
  run-Lives (r ∷ rest) s t u v h ((w, there), p) l now_there then_there =
      let (_, _, tasks, _) = serve-Evolves env r s h in
      run-Lives rest (serve env r s) t w v (serve-IsIntact env r s h) p
        (lives-step t u w l (tasks id u w now_there there)) there then_there

  -- On a store whose references hold, a task that stays stored over a run of requests keeps its
  -- identifier, asset, catalog and creation time, and its status gets from the first to the last by
  -- the moves of the status machine alone: pending to acknowledged, acknowledged to completed or
  -- failed.
  pub serve_all-Lives :
      (requests : List Request) (s : Services) (t v : Task)
      → IsIntact s.stores
      → IsPresent env id requests s
      → lookup id s.stores.tasks ≡ some t
      → lookup id (serve_all env requests s).stores.tasks ≡ some v
      → Lives t v
  serve_all-Lives requests s t v h p first last =
      run-Lives requests s t t v h p (lives t) first last

  -- On a store whose references hold, a task that is completed or failed keeps its status over every
  -- run of requests during which it stays stored.
  pub serve_all-finished :
      (requests : List Request) (s : Services) (t v : Task)
      → IsIntact s.stores
      → IsPresent env id requests s
      → lookup id s.stores.tasks ≡ some t
      → lookup id (serve_all env requests s).stores.tasks ≡ some v
      → IsFinished t.status
      → v.status ≡ t.status
  serve_all-finished requests s t v h p first last f =
      finished-Becomes (serve_all-Lives requests s t v h p first last).status f
