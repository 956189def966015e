-- ===== src/Tests/Service.antt =====
-- Tests of the service.
use atlas_c.Model.Json.Entries.{set}
use atlas_c.Service.TaskJson.{merge_reported}
use atlas_c.Service.TaskJson.{deep_clone_string_any_map}
use atlas_c.Model.Json.Clone.{normalize_fields}
use atlas_c.Model.Json.Clone.{all_marshalable}
use atlas_c.Base.{
  ◌≡◌, ◌≢◌, refl, String, none, some, List, [], ◌∷◌, true, false, ok, err, other, ◌<>◌,
}
use atlas_c.Base.Int.{pos}
use atlas_c.Model.Float.{finite}
use atlas_c.Model.Json.{str, float64, arr, obj, cons, nil, Fields, end, field}
use atlas_c.Model.Json.Entries.{get}
use atlas_c.Model.Json.Clone.{clone_json_map}
use atlas_c.Catalog.Commands.{Command, Catalog, no_catalog}
use atlas_c.Events.{new_hub}
use atlas_c.Store.{new_memory_store}
use atlas_c.Store.Integrity.{IsIntact, new_memory_store-IsIntact}
use atlas_c.Service.State.{Env, Services}
use atlas_c.Service.Entities.{EntityCreateInput}
use atlas_c.Service.Tasks.{TaskCreateInput}
use atlas_c.Service.TaskJson.{is_reported, merge_task_components, task_command_and_parameters_equal}
use atlas_c.Service.TaskJson.Keeps.{components, overlay, merge_task_components-keeps}
use atlas_c.Service.TaskJson.Immutable.{task_command_and_parameters_equal-merge}
use atlas_c.Service.Requests.{Request, serve_all, serve_all-IsIntact}

-- An environment whose clock counts, and whose catalog bytes all hash to "00".
abbrev pub env : Env
env = record {
  compile = λ pattern. none;
  parse_time = λ text. some 0;
  json_size = λ v. 10;
  content_hash = λ bytes. "00";
  unmarshal_catalog = λ bytes. none;
  clock = λ n. n;
  mime = record { parse = λ text. some (text, []); format = λ type params. type };
  files = record {
    abs = λ path. some path;
    eval_symlinks = λ path. some path;
    dir = λ path. "/";
    base = λ path. path;
    join = λ a b. a <> b;
    rel = λ dir path. some path;
    lstat = λ path. err (other "no such file");
    open_file = λ path. err (other "no such file");
  };
}

abbrev pub move_to : Command
move_to = record {
  type = "move_to";
  display_name = "Move";
  description = "Moves.";
  parameters_schema = some (field "type" (str "object") end);
}

abbrev pub catalog : Catalog
catalog = record no_catalog {
  catalog_id = "c";
  version = "1";
  commands = move_to ∷ [];
  raw = 123 ∷ [];
  by_type = ("move_to", move_to) ∷ [];
  content_hash = "00";
  object_id = "command-catalog-00";
}

abbrev pub services : Services
services = record {
  stores = new_memory_store;
  commands = record { catalog = catalog; ready = true };
  sightings = record {
    catalog = record { catalog_id = ""; sighting_kinds = []; by_kind = [] };
    ready = false;
  };
  publisher = some new_hub;
  reads = 0;
}

abbrev pub asset_json : Fields
asset_json =
    field "components"
      (obj (
        field "supported_commands"
          (obj (
            field "observed_at" (str "2024-01-01T00:00:00Z")
              (field "commands" (arr (cons (str "move_to") nil)) end)))
          end))
      end

abbrev pub asset : EntityCreateInput
asset = record {
  entity_id = "a1";
  type = "asset";
  subtype = "";
  alias = "";
  json = some asset_json;
}

abbrev pub task_json : Fields
task_json =
    field "components" (obj (field "command" (obj (field "type" (str "move_to") end)) end)) end

abbrev pub task : TaskCreateInput
task = record { task_id = "t1"; asset_id = "a1"; json = some task_json }

abbrev requests : List Request
requests =
    Request.create_entity asset
    ∷ Request.create_task task
    ∷ Request.transition_task_status "t1" (record { status = "acknowledged"; json = none })
    ∷ Request.delete_entity "a1"
    ∷ []

serve_all-IsIntact_example : IsIntact (serve_all env requests services).stores
serve_all-IsIntact_example = serve_all-IsIntact env requests services new_memory_store-IsIntact

-- {"components": {"progress": 2}}
abbrev report : Fields
report = field "components" (obj (field "progress" (float64 (finite (pos 2) 0)) end)) end

abbrev reported : Fields
reported =
    field "components"
      (obj (
        field "command" (obj (field "type" (str "move_to") end))
          (field "progress" (float64 (finite (pos 2) 0)) end)))
      end

merged : merge_task_components (some task_json) (some report) ≡ ok reported
unfolding merge_task_components get clone_json_map all_marshalable normalize_fields
    deep_clone_string_any_map merge_reported set
merged = refl

merge_task_components-keeps_example :
    ((key : String)
      → key ≢ "components"
      → get key reported ≡ get key (clone_json_map (some task_json)))
    × ((key : String)
        → is_reported key ≡ false
        → get key (components reported) ≡ get key (components (clone_json_map (some task_json))))
    × ((key : String)
        → get key (components reported)
          ≡ overlay
              (get key (components (clone_json_map (some report))))
              (get key (components (clone_json_map (some task_json)))))
unfolding clone_json_map get all_marshalable normalize_fields
merge_task_components-keeps_example =
    merge_task_components-keeps (some task_json) (some report) reported (refl, tt) merged

task_command_and_parameters_equal-merge_example :
    task_command_and_parameters_equal (some task_json) (some reported) ≡ true
unfolding clone_json_map get all_marshalable normalize_fields
task_command_and_parameters_equal-merge_example =
    task_command_and_parameters_equal-merge (some task_json) (some report)
      (field "command" (obj (field "type" (str "move_to") end)) end) reported
      (refl, (refl, (refl, tt, tt), tt), tt) refl merged
