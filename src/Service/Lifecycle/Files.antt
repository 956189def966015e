-- ===== src/Service/Lifecycle/Files.antt =====
-- A change of the stores keeps what holds of the files.
use mathlib.Core.Path.{subst}
use atlas_c.Base.{sym, List, [], ◌∷◌}
use atlas_c.Catalog.Commands.{Active}
use atlas_c.Store.{MemoryStore}
use atlas_c.Store.Frame
use atlas_c.Store.Filed.{IsFiled, Filed}
use atlas_c.Store.Filed.Methods
use atlas_c.Service.State.{Env, Services}
use atlas_c.Service.Requests.{Request, serve, serve_all}
use atlas_c.Service.Change.{Change}
use atlas_c.Service.Change.Serve.{serve-Change}

Change-IsFiled :
    {commands : Active} {m m' : MemoryStore} → Change commands m m' → IsFiled m → IsFiled m'
Change-IsFiled Change.unchanged filed = filed
Change-IsFiled {m} (Change.entity_created v) filed =
    subst (λ l. Filed l.2 l.3.0 l.3.1) (sym (Frame.create_entity-frame v m)) filed
Change-IsFiled {m} (Change.entity_updated _ _ v _ _) filed =
    subst (λ l. Filed l.2 l.3.0 l.3.1) (sym (Frame.update_entity-frame v m)) filed
Change-IsFiled {m} (Change.entity_deleted v _) filed =
    subst (λ l. Filed l.2 l.3.0 l.3.1) (sym (Frame.delete_entity-frame v m)) filed
Change-IsFiled {m} (Change.observation_created v _ _ _) filed =
    subst (λ l. Filed l.2 l.3.0 l.3.1) (sym (Frame.create_observation-frame v m)) filed
Change-IsFiled {m} (Change.observation_updated _ _ v _ _) filed =
    subst (λ l. Filed l.2 l.3.0 l.3.1) (sym (Frame.update_observation-frame v m)) filed
Change-IsFiled {m} (Change.task_created v _ _ _ _) filed =
    subst (λ l. Filed l.2 l.3.0 l.3.1) (sym (Frame.create_task-frame v m)) filed
Change-IsFiled {m} (Change.task_updated _ _ v _ _) filed =
    subst (λ l. Filed l.2 l.3.0 l.3.1) (sym (Frame.update_task-frame v m)) filed
Change-IsFiled {m} (Change.task_deleted v _) filed =
    subst (λ l. Filed l.2 l.3.0 l.3.1) (sym (Frame.delete_task-frame v m)) filed
Change-IsFiled {m} (Change.observation_deleted id) filed =
    Methods.delete_observation-IsFiled id m filed
Change-IsFiled {m} (Change.object_created v) filed = Methods.create_object-IsFiled v m filed
Change-IsFiled {m} (Change.object_updated _ _ v _ _) filed = Methods.update_object-IsFiled v m filed
Change-IsFiled {m} (Change.object_deleted id _) filed = Methods.delete_object-IsFiled id m filed
Change-IsFiled {m} (Change.file_created mime fs now input) filed =
    Methods.create_object_file-IsFiled mime fs now input m filed
Change-IsFiled {m} (Change.file_appended now object_id file_id reader max_bytes) filed =
    Methods.append_object_file-IsFiled now object_id file_id reader max_bytes m filed
Change-IsFiled {m} (Change.file_deleted object_id file_id) filed =
    Methods.delete_object_file-IsFiled object_id file_id m filed

-- Every run of requests on a store whose files hold ends in a store whose files hold: each file
-- stands under its own identifiers, its object is stored, and its size is the number of its stored
-- bytes.
pub serve_all-IsFiled :
    (env : Env) (requests : List Request) (s : Services)
    → IsFiled s.stores
    → IsFiled (serve_all env requests s).stores
unfolding serve_all
serve_all-IsFiled env [] s filed = filed
serve_all-IsFiled env (r ∷ rest) s filed =
    serve_all-IsFiled env rest (serve env r s) (Change-IsFiled (serve-Change env r s) filed)
