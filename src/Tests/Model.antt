-- ===== src/Tests/Model.antt =====
-- Tests of the modules under Model, and of the paging of the store.
use atlas_c.Base.{ok, ◌≡◌, ◌↔◌, refl, none, some, [], ◌∷◌, true, List, ℕ, ◌≤◌, take, drop, All}
use atlas_c.Base.Int.{pos}
use atlas_c.Model.Float.{finite}
use atlas_c.Model.Json.{Json, null, str, float64, obj, int, end, field, JsonMap, entries}
use atlas_c.Model.Json.Entries.{get}
use atlas_c.Model.Json.Clone.{clone_json_map, is_marshalable}
use atlas_c.Model.Json.Equal.{deep_equal}
use atlas_c.Model.Json.Equal.Reflexive.{deep_equal_refl}
use atlas_c.Model.Merge.{
  merge_named_sections, get-merge_named_sections, patched, ensure_no_promoted_field_duplication,
  ensure_no_promoted_field_duplication-eq-none_iff,
}
use atlas_c.Model.Ids.{validate_id, snake_case_pattern}
use atlas_c.Model.Ids.Exact.{IsId, validate_id-eq-none_iff}
use atlas_c.Model.Ids.Snake.{SnakeCase, snake_case_pattern_iff}
use atlas_c.Base.{codes}
use atlas_c.Model.Pagination.{
  Pagination, parse_pagination, parse_pagination_bounds, max_limit, atoi,
}
use atlas_c.Store.Paging.{paginate, paginate-eq-take-drop}

abbrev one : Json
one = float64 (finite (pos 1) 0)

-- {"a": 1, "b": "x"}
abbrev base : JsonMap
base = some (field "a" one (field "b" (str "x") end))

-- {"b": null, "c": {"d": 1}}
abbrev patch : JsonMap
patch = some (field "b" null (field "c" (obj (field "d" (int (pos 1)) end)) end))

get-merge_named_sections_example :
    get "b" (entries (merge_named_sections base patch))
    ≡ patched (some null) (get "b" (clone_json_map base))
unfolding get
get-merge_named_sections_example = get-merge_named_sections "b" base patch (refl, (refl, tt))

deep_equal_refl_example :
    deep_equal (obj (field "a" one (field "b" null end))) (obj (field "a" one (field "b" null end)))
    ≡ true
unfolding get is_marshalable
deep_equal_refl_example =
    deep_equal_refl (obj (field "a" one (field "b" null end))) (refl, tt, (refl, tt, tt)) refl

ensure_no_promoted_field_duplication-eq-none_iff_example :
    (ensure_no_promoted_field_duplication (entries base) ("type" ∷ "a" ∷ []) ≡ none)
    ↔ All (λ name. get name (entries base) ≡ none) ("type" ∷ "a" ∷ [])
ensure_no_promoted_field_duplication-eq-none_iff_example =
    ensure_no_promoted_field_duplication-eq-none_iff (entries base) ("type" ∷ "a" ∷ [])

validate_id-eq-none_iff_example : (validate_id "task_id" "task-1.a" ≡ none) ↔ IsId "task-1.a"
validate_id-eq-none_iff_example = validate_id-eq-none_iff "task_id" "task-1.a"

snake_case_pattern_iff_example :
    (snake_case_pattern (codes "move_to_2") ≡ true) ↔ SnakeCase (codes "move_to_2")
snake_case_pattern_iff_example = snake_case_pattern_iff (codes "move_to_2")

abbrev second_page : Pagination
second_page = record { limit = 2; offset = 3 }

parse_pagination_bounds_example : (1 ≤ second_page.limit) × (second_page.limit ≤ max_limit)
unfolding parse_pagination atoi
parse_pagination_bounds_example = parse_pagination_bounds "2" "+3" second_page refl

abbrev numbers : List ℕ
numbers = 1 ∷ 2 ∷ 3 ∷ 4 ∷ []

paginate-eq-take-drop_example : paginate numbers second_page ≡ ok (take 2 (drop 3 numbers))
paginate-eq-take-drop_example = paginate-eq-take-drop numbers second_page
