-- ===== src/Model/Merge.antt =====
-- internal/model/types.go: MergeNamedSections and the checks on the top level of a JSON document.
use mathlib.Core.Path.{subst}
use atlas_c.Base.{
  String, Bool, true, false, ◌≡◌, refl, Option, none, some, List, [], ◌∷◌, arith, ◌==◌, eq_iff,
  ◌<>◌, if◌then◌else◌, All, ◌↔◌, FieldError, Bool-cases, inl, inr, ◌∙◌,
}
use atlas_c.Model.Errors.{field_error}
use atlas_c.Model.Json.{
  Json, null, str, arr, Items, nil, cons, Fields, end, field, JsonMap, entries,
}
use atlas_c.Model.Json.Entries.{get-set, get-remove, get, set, remove, HasDistinctKeys}
use atlas_c.Model.Json.Clone.{clone_json_map}

-- NormalizeJSONMap
unfoldable pub normalize_json_map : JsonMap → JsonMap
normalize_json_map none = some end
normalize_json_map (some fs) = some fs

abbrev pub is_null : Json → Bool
is_null null = true
is_null _ = false

-- One round of the loop of MergeNamedSections.
unfoldable pub merge_entry : String → Json → Fields → Fields
merge_entry key value out = if is_null value then remove key out else set key value out

unfoldable pub merge_entries : Fields → Fields → Fields
unfolding merge_entry
merge_entries out end = out
merge_entries out (field key value patch) = merge_entries (merge_entry key value out) patch

-- MergeNamedSections
unfoldable pub merge_named_sections : JsonMap → JsonMap → JsonMap
unfolding merge_entries
merge_named_sections base patch = some (merge_entries (clone_json_map base) (entries patch))

-- EnsureNoPromotedFieldDuplication
unfoldable pub ensure_no_promoted_field_duplication : Fields → List String → Option FieldError
ensure_no_promoted_field_duplication json [] = none
ensure_no_promoted_field_duplication json (name ∷ names) = elim (get name json) [
  | some _ ↦ some (
      field_error ("json." <> name) "invalid_value"
        ("promoted field " <> name <> " must not be duplicated in json"))
  | none ↦ ensure_no_promoted_field_duplication json names
]

abbrev cons? : String → Option (List String) → Option (List String)
cons? s none = none
cons? s (some l) = some (s ∷ l)

-- The loop of ReadStringSlice.
unfoldable pub read_strings : Items → Option (List String)
read_strings nil = some []
read_strings (cons (str s) xs) = cons? s (read_strings xs)
read_strings (cons _ xs) = none

-- ReadStringSlice
unfoldable pub read_string_slice : Json → Option (List String)
unfolding read_strings
read_string_slice (arr xs) = read_strings xs
read_string_slice _ = none

-- What a patch entry makes of the value under its key.
abbrev pub patched : Option Json → Option Json → Option Json
patched none old = old
patched (some v) old = if is_null v then none else some v

get-merge_entry :
    (k j : String) (v : Json) (out : Fields)
    → get j (merge_entry k v out)
      ≡ (if k == j then (if is_null v then none else some v) else get j out)
unfolding merge_entry
get-merge_entry k j v out = elim (Bool-cases (is_null v)) [
  | inl e ↦ rw (e, merge_entry) (rw get-remove refl)
  | inr e ↦ rw (e, merge_entry) (rw get-set refl)
]

get-merge_entries :
    (key : String) (out patch : Fields)
    → HasDistinctKeys patch
    → get key (merge_entries out patch) ≡ patched (get key patch) (get key out)
unfolding merge_entries get
get-merge_entries key out end d = refl
get-merge_entries key out (field k v patch) (fresh, d) =
    get-merge_entries key (merge_entry k v out) patch d
    ∙ rw get-merge_entry (elim (Bool-cases (k == key)) [
      | inl e ↦ rw (e, subst (λ x. get x patch ≡ none) ((eq_iff k key).0 e) fresh)
      | inr e ↦ rw e
    ])

-- Whatever the order of the patch's entries, and where no key stands twice in the patch: a top-level
-- key of the patch with null is gone, a key with another value has that value whole, also
-- "components", whose other members are not kept, and every other key has what a clone of the base
-- has there.
pub get-merge_named_sections :
    (key : String) (base patch : JsonMap)
    → HasDistinctKeys (entries patch)
    → get key (entries (merge_named_sections base patch))
      ≡ patched (get key (entries patch)) (get key (clone_json_map base))
unfolding merge_named_sections
get-merge_named_sections key base patch d =
    get-merge_entries key (clone_json_map base) (entries patch) d

-- No error is reported exactly where none of the names is a key of the document.
pub ensure_no_promoted_field_duplication-eq-none_iff :
    (json : Fields) (names : List String)
    → (ensure_no_promoted_field_duplication json names ≡ none)
      ↔ All (λ name. get name json ≡ none) names
unfolding ensure_no_promoted_field_duplication
ensure_no_promoted_field_duplication-eq-none_iff json [] = (λ _. tt, λ _. refl)
ensure_no_promoted_field_duplication-eq-none_iff json (name ∷ names) =
    ground (arith, ensure_no_promoted_field_duplication-eq-none_iff json names)
