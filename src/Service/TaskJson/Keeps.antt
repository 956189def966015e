-- ===== src/Service/TaskJson/Keeps.antt =====
-- What a patch of a task that has left `pending`, or the document of a status change, can change.
use atlas_c.Base.{
  String, true, false, ◌≡◌, ◌≢◌, refl, sym, ap, ◌∙◌, Option, none, some, ◌==◌, eq_iff, ◌<>◌,
  Bool-cases, Option-cases, inl, inr, ok, err, after-eq-ok,
}
use atlas_c.Model.Json.{Json, null, obj, Fields, end, field, JsonMap, entries, as_map}
use atlas_c.Model.Json.Entries.{get, set, at, or_null, get-set, HasDistinctKeys}
use atlas_c.Model.Json.Clone.{normalize_fields, clone_json_map}
use atlas_c.Model.Json.Clone.Idempotent.{IsPlain, IsPlain-get, clone_json_map-IsPlain}
use mathlib.Core.Bool.{true≢false}
use mathlib.Core.Path.{subst}
use atlas_c.Model.Errors.{immutable_field_error}
use atlas_c.Service.TaskJson.{
  only_components, deep_clone_string_any_map, is_reported, merge_reported, require_map, current_map,
  merge_task_components,
}

-- The components of a document that are an object; none where there are none.
abbrev pub components : Fields → Fields
components fs = entries (as_map (at "components" fs))

-- A new value wins over the old one.
abbrev pub overlay : Option Json → Option Json → Option Json
overlay none old = old
overlay (some v) old = some v

reported-ne : (k key : String) → is_reported k ≡ true → is_reported key ≡ false → (k == key) ≡ false
reported-ne k key r n = elim (Bool-cases (k == key)) [
  | inl same ↦ absurd (true≢false (sym r ∙ ap is_reported ((eq_iff k key).0 same) ∙ n))
  | inr other ↦ other
]

pub merge_reported-other :
    (key : String) (merged patch out : Fields)
    → is_reported key ≡ false
    → merge_reported merged patch ≡ ok out
    → get key out ≡ get key merged
unfolding merge_reported
merge_reported-other key merged end out r h = cc
merge_reported-other key merged (field k v patch) out r h = elim (Bool-cases (is_reported k)) [
  | inl e ↦
      merge_reported-other key (set k v merged) patch out r (rw e at h)
      ∙ rw get-set (rw (reported-ne k key e r) refl)
  | inr e ↦
      let bad : err (immutable_field_error ("json.components." <> k)) ≡ ok out = rw e at h in cc bad
]

merge_reported-patched :
    (key : String) (merged patch out : Fields)
    → HasDistinctKeys patch
    → merge_reported merged patch ≡ ok out
    → get key out ≡ overlay (get key patch) (get key merged)
unfolding merge_reported get
merge_reported-patched key merged end out d h = cc
merge_reported-patched key merged (field k v patch) out (fresh, d) h =
    elim (Bool-cases (is_reported k)) [
      | inl e ↦
          merge_reported-patched key (set k v merged) patch out d (rw e at h)
          ∙ rw get-set (elim (Bool-cases (k == key)) [
            | inl same ↦ rw (same, subst (λ x. get x patch ≡ none) ((eq_iff k key).0 same) fresh)
            | inr other ↦ rw other
          ])
      | inr e ↦
          let bad : err (immutable_field_error ("json.components." <> k)) ≡ ok out = rw e at h in
          cc bad
    ]

clone_value :
    (v : Json) (original copied : Option Fields)
    → ((m : Fields) → v ≡ obj m → IsPlain m)
    → current_map v ≡ ok original
    → deep_clone_string_any_map original ≡ ok copied
    → entries copied ≡ entries (as_map v)
unfolding current_map deep_clone_string_any_map
clone_value (obj m) none copied p c d = cc
clone_value (obj m) (some n) copied p c d =
    let same : m ≡ n = cc c in
    let q = p n (ap obj same) in
    let e : ok (some (normalize_fields n)) ≡ ok copied = rw q.marshalable at d in
    cc (q.normal, e, same)
clone_value null original copied p c d = cc
clone_value _ original copied p c d = cc

at-obj : (key : String) (fs m : Fields) → at key fs ≡ obj m → get key fs ≡ some (obj m)
at-obj key fs m e = elim (Option-cases (get key fs)) [
  | inl missing ↦ let bad : null ≡ obj m = rw missing at e in cc bad
  | inr (v, found) ↦ found ∙ ap some (rw found at e)
]

-- A successful merge and what it is made of.
pub record Merged (current patch : JsonMap) (out : Fields) : Type 0 where
  pub original : Option Fields
  pub reported : Fields
  pub merged : Fields
  pub source : get "components" (clone_json_map patch) ≡ some (obj reported)
  pub start : current_map (at "components" (clone_json_map current)) ≡ ok original
  pub merging : merge_reported (components (clone_json_map current)) reported ≡ ok merged
  pub result : out ≡ set "components" (obj merged) (clone_json_map current)

require_map-ok : (o : Option Json) (m : Fields) → require_map o ≡ ok m → o ≡ some (obj m)
unfolding require_map
require_map-ok none m h = cc
require_map-ok (some (obj fs)) m h = cc
require_map-ok (some _) m h = cc

pub merge_task_components-Merged :
    (current patch : JsonMap) (out : Fields)
    → merge_task_components current patch ≡ ok out
    → Merged current patch out
unfolding merge_task_components
merge_task_components-Merged current patch out h =
    let (_, _, h₁) = after-eq-ok (only_components (entries patch)) _ h in
    let (reported, p, h₂) =
      after-eq-ok (require_map (get "components" (clone_json_map patch))) _ h₁ in
    let (original, q, h₃) =
      after-eq-ok (current_map (at "components" (clone_json_map current))) _ h₂ in
    let (copied, r, h₄) = after-eq-ok (deep_clone_string_any_map original) _ h₃ in
    let (merged, m, h₅) = after-eq-ok (merge_reported (entries copied) reported) _ h₄ in
    let plain = clone_json_map-IsPlain current in
    let same =
      clone_value (at "components" (clone_json_map current)) original copied
        (λ n e. IsPlain-get "components" plain (at-obj "components" (clone_json_map current) n e)) q
        r in
    record {
      original = original;
      reported = reported;
      merged = merged;
      source = require_map-ok (get "components" (clone_json_map patch)) reported p;
      start = q;
      merging = subst (λ x. merge_reported x reported ≡ ok merged) same m;
      result = cc h₅;
    }

pub as_map-components :
    {current patch : JsonMap} {out : Fields}
    → (m : Merged current patch out) → components out ≡ m.merged
as_map-components m = rw m.result (rw get-set refl)

-- After a successful merge every top-level key but "components", and every component but "progress",
-- "result" and "error", is what it was in a clone of the current document; those three are what the
-- patch says where it names them, and else what they were.
pub merge_task_components-keeps :
    (current patch : JsonMap) (out : Fields)
    → HasDistinctKeys (components (clone_json_map patch))
    → merge_task_components current patch ≡ ok out
    → ((key : String) → key ≢ "components" → get key out ≡ get key (clone_json_map current))
      × ((key : String)
          → is_reported key ≡ false
          → get key (components out) ≡ get key (components (clone_json_map current)))
      × ((key : String)
          → get key (components out)
            ≡ overlay
                (get key (components (clone_json_map patch)))
                (get key (components (clone_json_map current))))
merge_task_components-keeps current patch out d h =
    let m = merge_task_components-Merged current patch out h in
    let from : components (clone_json_map patch) ≡ m.reported =
      ap (λ o. entries (as_map (or_null o))) m.source in
    (
      λ key ne. rw m.result (rw get-set (rw (not_components key ne) refl)),
      λ key r.
          rw (as_map-components m) (merge_reported-other key _ m.reported m.merged r m.merging),
      λ key. rw (as_map-components m) (
          rw from (
            merge_reported-patched key _ m.reported m.merged (subst HasDistinctKeys from d)
              m.merging)),
    )
  where
    not_components : (key : String) → key ≢ "components" → ("components" == key) ≡ false
    not_components key ne = elim (Bool-cases ("components" == key)) [
      | inl same ↦ absurd (ne (sym ((eq_iff "components" key).0 same)))
      | inr other ↦ other
    ]
