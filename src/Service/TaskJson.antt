-- ===== src/Service/TaskJson.antt =====
-- internal/service/task_json.go: what a patch may change in the document of a task.
pub mod Keeps
pub mod Immutable
use atlas_c.Base.{
  String, Bool, true, false, not, ◌&&◌, ◌||◌, Option, none, some, List, [], ◌∷◌, ◌==◌, ◌<>◌,
  if◌then◌else◌, Result, ok, err, ◌>>=◌, ◌>>◌, pass,
}
use atlas_c.Model.Errors.{invalid, immutable_field_error, internal_error}
use atlas_c.Model.Json.{Json, null, obj, Fields, end, field, JsonMap, entries, as_map}
use atlas_c.Model.Json.Entries.{get, set, at, or_null}
use atlas_c.Model.Json.Clone.{all_marshalable, normalize_fields, clone_json_map}
use atlas_c.Model.Json.Equal.{deep_equal}
use atlas_c.Model.Merge.{is_null, merge_named_sections}

-- The first loop: a patch after `pending` has no key but "components".
unfoldable pub only_components : Fields → Result (Unit {0})
only_components end = pass
only_components (field k v patch) =
    if k == "components" then only_components patch else err (immutable_field_error ("json." <> k))

-- deepCloneStringAnyMap; the outer `none` of the argument and of the result is the nil map.
unfoldable pub deep_clone_string_any_map : Option Fields → Result (Option Fields)
deep_clone_string_any_map none = ok none
deep_clone_string_any_map (some m) =
    if all_marshalable m
    then ok (some (normalize_fields m))
    else err (internal_error "task json clone failed")

abbrev pub is_reported : String → Bool
is_reported k = k == "progress" || k == "result" || k == "error"

-- The second loop, over the components of the patch.
unfoldable pub merge_reported : Fields → Fields → Result Fields
merge_reported merged end = ok merged
merge_reported merged (field k v patch) =
    if is_reported k
    then merge_reported (set k v merged) patch
    else err (immutable_field_error ("json.components." <> k))

abbrev not_an_object : Result Fields
not_an_object = err (invalid "json.components" "invalid_type" "components must be an object")

-- `v.(map[string]any)` on the patch's components.
unfoldable pub require_map : Option Json → Result Fields
require_map none = not_an_object
require_map (some v) = elim (as_map v) [ none ↦ not_an_object | some fs ↦ ok fs ]

-- The same on the current components, where nil stands for no components yet.
unfoldable pub current_map : Json → Result (Option Fields)
current_map v = elim (as_map v) [
  | some fs ↦ ok (some fs)
  | none ↦
      if is_null v
      then ok none
      else err (invalid "json.components" "invalid_type" "components must be an object")
]

-- mergeTaskComponentsOnlyProgressResultError
unfoldable pub merge_task_components : JsonMap → JsonMap → Result Fields
unfolding only_components require_map current_map
merge_task_components current patch = do
  only_components (entries patch)
  let out = clone_json_map current
  patch_components ← require_map (get "components" (clone_json_map patch))
  original ← current_map (at "components" out)
  copied ← deep_clone_string_any_map original
  merged ← merge_reported (entries copied) patch_components
  ok (set "components" (obj merged) out)

-- `len(patch) == 0`
abbrev pub is_empty_map : JsonMap → Bool
is_empty_map none = true
is_empty_map (some end) = true
is_empty_map (some (field k v fs)) = false

-- mergeTaskJSONForPatch
unfoldable pub merge_task_json_for_patch : JsonMap → JsonMap → Bool → Result Fields
merge_task_json_for_patch current patch pending =
    if is_empty_map patch
    then ok (clone_json_map current)
    else if pending
    then ok (entries (merge_named_sections current (some (clone_json_map patch))))
    else merge_task_components current patch

-- mergeTaskJSONForStatusTransition
unfoldable pub merge_task_json_for_status_transition : JsonMap → JsonMap → Result Fields
merge_task_json_for_status_transition current patch =
    if is_empty_map patch then ok (clone_json_map current) else merge_task_components current patch

-- A nil parameter document counts as an empty one.
abbrev pub or_empty : Json → Json
or_empty null = obj end
or_empty v = v

-- parametersEqual
unfoldable pub parameters_equal : Json → Json → Bool
parameters_equal p1 p2 = deep_equal (or_empty p1) (or_empty p2)

unfoldable pub components_agree : Option Fields → Option Fields → Bool
unfolding parameters_equal
components_agree none none = true
components_agree (some c1) (some c2) =
    deep_equal (at "command" c1) (at "command" c2)
    && parameters_equal (at "parameters" c1) (at "parameters" c2)
components_agree _ _ = false

-- taskCommandAndParametersEqual
unfoldable pub task_command_and_parameters_equal : JsonMap → JsonMap → Bool
unfolding components_agree
task_command_and_parameters_equal a b =
    components_agree (as_map (at "components" (clone_json_map a)))
      (as_map (at "components" (clone_json_map b)))
