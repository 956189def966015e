-- ===== src/Service/TaskJson/Immutable.antt =====
-- The check of immutability after a merge: it passes on every document that the merge itself made.
use mathlib.Core.Bool.{and-eq-true_iff}
use mathlib.Core.Path.{subst}
use atlas_c.Base.{
  String, true, ◌≡◌, refl, sym, ap, none, some, ◌==◌, List, [], ◌∷◌, ◌<>◌, Bool-cases, Option-cases,
  inl, inr, ok, err,
}
use atlas_c.Model.Errors.{immutable_field_error}
use atlas_c.Model.Json.{
  Json, null, strings, arr, obj, json_map, Items, nil, cons, Fields, end, field, JsonMap, entries,
  as_map,
}
use atlas_c.Model.Json.Entries.{get, set, at, or_null, get-set}
use atlas_c.Model.Json.Clone.{
  is_marshalable, all_marshalable, normalize, normalize_items, normalize_fields, clone_json_map,
  clone_fields, get-normalize_fields, string_items,
}
use atlas_c.Model.Json.Clone.Idempotent.{
  IsPlain, IsPlain-get, clone_json_map-IsPlain, clone_json_map-IsPlain_eq, marshalable-get,
}
use atlas_c.Model.Json.Equal.{deep_equal}
use atlas_c.Model.Json.Equal.Reflexive.{IsWellFormed, AreWellFormed, HasUniqueKeys, deep_equal_refl}
use atlas_c.Service.TaskJson.{
  is_reported, merge_reported, merge_task_components, parameters_equal, components_agree,
  task_command_and_parameters_equal,
}
use atlas_c.Service.TaskJson.Keeps.{
  components, Merged, merge_task_components-Merged, merge_reported-other,
}

marshalable-set :
    (k : String) (v : Json) (fs : Fields)
    → is_marshalable v ≡ true
    → all_marshalable fs ≡ true
    → all_marshalable (set k v fs) ≡ true
unfolding is_marshalable set
marshalable-set k v end h a = rw h
marshalable-set k v (field j w fs) h a =
    let (here, later) = (and-eq-true_iff (is_marshalable w) (all_marshalable fs)).0 a in
    elim (Bool-cases (j == k)) [
      | inl e ↦ rw e ((and-eq-true_iff _ _).1 (h, later))
      | inr e ↦ rw e ((and-eq-true_iff _ _).1 (here, marshalable-set k v fs h later))
    ]

normalize_fields-set :
    (k : String) (v : Json) (fs : Fields)
    → normalize_fields (set k v fs) ≡ set k (normalize v) (normalize_fields fs)
unfolding normalize set
normalize_fields-set k v end = refl
normalize_fields-set k v (field j w fs) = elim (Bool-cases (j == k)) [
  | inl e ↦ rw e refl
  | inr e ↦ rw e (ap (field j (normalize w)) (normalize_fields-set k v fs))
]

-- A value that marshalling and back leaves as it is.
record IsPlainValue (v : Json) : Type 0 where
  marshalable : is_marshalable v ≡ true
  normal : normalize v ≡ v

IsPlain-set :
    (k : String) (v : Json) (fs : Fields) → IsPlainValue v → IsPlain fs → IsPlain (set k v fs)
IsPlain-set k v fs pv p = record {
  marshalable = marshalable-set k v fs pv.marshalable p.marshalable;
  normal = cc (normalize_fields-set k v fs, pv.normal, p.normal);
}

IsPlain-obj : (fs : Fields) → IsPlain fs → IsPlainValue (obj fs)
unfolding is_marshalable normalize
IsPlain-obj fs p = record { marshalable = p.marshalable; normal = ap obj p.normal }

merge_reported-IsPlain :
    (merged patch out : Fields)
    → IsPlain patch
    → IsPlain merged
    → merge_reported merged patch ≡ ok out
    → IsPlain out
unfolding merge_reported is_marshalable normalize
merge_reported-IsPlain merged end out q p h = let e : merged ≡ out = cc h in subst IsPlain e p
merge_reported-IsPlain merged (field k v patch) out q p h =
    let (here, later) =
      (and-eq-true_iff (is_marshalable v) (all_marshalable patch)).0 q.marshalable in
    let pv : IsPlainValue v = record { marshalable = here; normal = cc (q.normal) } in
    let rest : IsPlain patch = record { marshalable = later; normal = cc (q.normal) } in
    elim (Bool-cases (is_reported k)) [
      | inl e ↦
          merge_reported-IsPlain (set k v merged) patch out rest (IsPlain-set k v merged pv p)
            (rw e at h)
      | inr e ↦
          let bad : err (immutable_field_error ("json.components." <> k)) ≡ ok out = rw e at h in
          cc bad
    ]

Merged-IsPlain :
    {current patch : JsonMap} {out : Fields}
    → Merged current patch out
    → IsPlain (components (clone_json_map current))
    → IsPlain out
Merged-IsPlain {current} {patch} m p =
    let made =
      merge_reported-IsPlain _ m.reported m.merged
        (IsPlain-get "components" (clone_json_map-IsPlain patch) m.source) p m.merging in
    rw m.result (
      IsPlain-set "components" (obj m.merged) (clone_json_map current) (IsPlain-obj m.merged made)
        (clone_json_map-IsPlain current))

AreWellFormed-strings : (l : List String) → AreWellFormed (string_items l)
AreWellFormed-strings [] = tt
AreWellFormed-strings (s ∷ l) = (tt, AreWellFormed-strings l)

mutual
  unfolding normalize

  IsWellFormed-normalize : (v : Json) → IsWellFormed v → IsWellFormed (normalize v)
  IsWellFormed-normalize (strings l) u = AreWellFormed-strings l
  IsWellFormed-normalize (arr xs) u = AreWellFormed-normalize xs u
  IsWellFormed-normalize (obj fs) u = HasUniqueKeys-normalize fs u
  IsWellFormed-normalize (json_map fs) u = HasUniqueKeys-normalize fs u
  IsWellFormed-normalize _ u = tt

  AreWellFormed-normalize : (xs : Items) → AreWellFormed xs → AreWellFormed (normalize_items xs)
  AreWellFormed-normalize nil u = tt
  AreWellFormed-normalize (cons v xs) (u, us) =
      (IsWellFormed-normalize v u, AreWellFormed-normalize xs us)

  HasUniqueKeys-normalize : (fs : Fields) → HasUniqueKeys fs → HasUniqueKeys (normalize_fields fs)
  HasUniqueKeys-normalize end u = tt
  HasUniqueKeys-normalize (field k v fs) (fresh, u, us) = (
    rw get-normalize_fields (rw fresh refl),
    IsWellFormed-normalize v u,
    HasUniqueKeys-normalize fs us,
  )

clone_json_map-HasUniqueKeys :
    (m : JsonMap) → HasUniqueKeys (entries m) → HasUniqueKeys (clone_json_map m)
unfolding clone_json_map clone_fields
clone_json_map-HasUniqueKeys none u = tt
clone_json_map-HasUniqueKeys (some fs) u = elim (Bool-cases (all_marshalable fs)) [
  | inl e ↦ rw e (HasUniqueKeys-normalize fs u)
  | inr e ↦ rw e tt
]

get-IsWellFormed :
    (key : String) (fs : Fields) {v : Json}
    → HasUniqueKeys fs
    → get key fs ≡ some v
    → IsWellFormed v
unfolding get
get-IsWellFormed key end u e = cc
get-IsWellFormed key (field k w fs) {v} (_, u, us) e = elim (Bool-cases (k == key)) [
  | inl same ↦
      let f : some w ≡ some v = rw same at e in let g : w ≡ v = cc f in subst IsWellFormed g u
  | inr other ↦ get-IsWellFormed key fs us (rw other at e)
]

equal_self :
    (v : Json)
    → IsWellFormed v
    → is_marshalable v ≡ true
    → (deep_equal v v ≡ true) × (parameters_equal v v ≡ true)
unfolding parameters_equal
equal_self null u h = unfold deep_equal in (refl, refl)
equal_self (arr xs) u h = (deep_equal_refl (arr xs) u h, deep_equal_refl (arr xs) u h)
equal_self v u h = (deep_equal_refl v u h, deep_equal_refl v u h)

-- What `m[key]` gives is equal to itself, nil included.
at_equal :
    (key : String) (fs : Fields)
    → HasUniqueKeys fs
    → IsPlain fs
    → (deep_equal (at key fs) (at key fs) ≡ true)
      × (parameters_equal (at key fs) (at key fs) ≡ true)
at_equal key fs u p = elim (Option-cases (get key fs)) [
  | inl missing ↦ rw missing (unfold is_marshalable in equal_self null tt refl)
  | inr (v, found) ↦
      rw found (
        equal_self v (get-IsWellFormed key fs u found) (marshalable-get key fs p.marshalable found))
]

components_agree-reported :
    (c reported merged : Fields)
    → HasUniqueKeys c
    → IsPlain c
    → merge_reported c reported ≡ ok merged
    → components_agree (some c) (some merged) ≡ true
unfolding components_agree
components_agree-reported c reported merged u p m =
    let command = ap or_null (merge_reported-other "command" c reported merged refl m) in
    let parameters = ap or_null (merge_reported-other "parameters" c reported merged refl m) in
    rw command (rw parameters (rw (at_equal "command" c u p).0 (at_equal "parameters" c u p).1))

-- For a current document whose maps have no key twice and whose components are an object, the check
-- that command and parameters are unchanged passes on whatever the merge returns.
pub task_command_and_parameters_equal-merge :
    (current patch : JsonMap) (c out : Fields)
    → HasUniqueKeys (entries current)
    → get "components" (clone_json_map current) ≡ some (obj c)
    → merge_task_components current patch ≡ ok out
    → task_command_and_parameters_equal current (some out) ≡ true
unfolding task_command_and_parameters_equal
task_command_and_parameters_equal-merge current patch c out u e h =
    let m = merge_task_components-Merged current patch out h in
    let p = IsPlain-get "components" (clone_json_map-IsPlain current) e in
    let same : components (clone_json_map current) ≡ c = ap (λ o. entries (as_map (or_null o))) e in
    let wf : HasUniqueKeys c =
      get-IsWellFormed "components" (clone_json_map current)
        (clone_json_map-HasUniqueKeys current u) e in
    let plain = clone_json_map-IsPlain_eq (Merged-IsPlain m (subst IsPlain (sym same) p)) in
    rw plain (
      rw e (
        rw m.result (
          rw get-set (
            components_agree-reported c m.reported m.merged wf p
              (subst (λ x. merge_reported x m.reported ≡ ok m.merged) same m.merging)))))
