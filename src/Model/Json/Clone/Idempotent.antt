-- ===== src/Model/Json/Clone/Idempotent.antt =====
-- A clone is its own clone, and so is each value in it.
use mathlib.Core.Bool.{and-eq-true_iff}
use mathlib.Core.Path.{subst}
use atlas_c.Base.{
  String, true, ◌≡◌, refl, ap, none, some, List, [], ◌∷◌, inl, inr, ◌==◌, Bool-cases,
}
use atlas_c.Model.Float.{of_int64}
use atlas_c.Model.Json.Defs.{
  Json, float64, str, strings, arr, obj, json_map, Items, nil, cons, Fields, end, field, JsonMap,
}
use atlas_c.Model.Json.Entries.{get}
use atlas_c.Model.Json.Clone.{
  is_marshalable, all_items_marshalable, all_marshalable, string_items, normalize, normalize_items,
  normalize_fields, clone_fields, clone_json_map, get-normalize_fields,
}

normalize_items-string_items : (l : List String) → normalize_items (string_items l) ≡ string_items l
unfolding normalize
normalize_items-string_items [] = refl
normalize_items-string_items (s ∷ l) = ap (cons (str s)) (normalize_items-string_items l)

marshalable-string_items : (l : List String) → all_items_marshalable (string_items l) ≡ true
unfolding is_marshalable
marshalable-string_items [] = refl
marshalable-string_items (s ∷ l) = marshalable-string_items l

mutual
  unfolding normalize

  normalize-normalize : (v : Json) → normalize (normalize v) ≡ normalize v
  normalize-normalize (strings l) = ap arr (normalize_items-string_items l)
  normalize-normalize (arr xs) = ap arr (normalize_items-normalize xs)
  normalize-normalize (obj fs) = ap obj (normalize_fields-normalize fs)
  normalize-normalize (json_map fs) = ap obj (normalize_fields-normalize fs)
  normalize-normalize _ = refl

  normalize_items-normalize :
      (xs : Items) → normalize_items (normalize_items xs) ≡ normalize_items xs
  normalize_items-normalize nil = refl
  normalize_items-normalize (cons v xs) = cc (normalize-normalize v, normalize_items-normalize xs)

  normalize_fields-normalize :
      (fs : Fields) → normalize_fields (normalize_fields fs) ≡ normalize_fields fs
  normalize_fields-normalize end = refl
  normalize_fields-normalize (field k v fs) =
      cc (normalize-normalize v, normalize_fields-normalize fs)

mutual
  unfolding normalize is_marshalable of_int64

  marshalable-normalize : (v : Json) → is_marshalable v ≡ true → is_marshalable (normalize v) ≡ true
  marshalable-normalize (strings l) h = marshalable-string_items l
  marshalable-normalize (arr xs) h = items_marshalable-normalize xs h
  marshalable-normalize (obj fs) h = fields_marshalable-normalize fs h
  marshalable-normalize (json_map fs) h = fields_marshalable-normalize fs h
  marshalable-normalize (float64 x) h = h
  marshalable-normalize _ h = refl

  items_marshalable-normalize :
      (xs : Items)
      → all_items_marshalable xs ≡ true
      → all_items_marshalable (normalize_items xs) ≡ true
  items_marshalable-normalize nil h = refl
  items_marshalable-normalize (cons v xs) h =
      let (here, later) = (and-eq-true_iff _ _).0 h in
      (and-eq-true_iff _ _).1 (marshalable-normalize v here, items_marshalable-normalize xs later)

  fields_marshalable-normalize :
      (fs : Fields) → all_marshalable fs ≡ true → all_marshalable (normalize_fields fs) ≡ true
  fields_marshalable-normalize end h = refl
  fields_marshalable-normalize (field k v fs) h =
      let (here, later) = (and-eq-true_iff _ _).0 h in
      (and-eq-true_iff _ _).1 (marshalable-normalize v here, fields_marshalable-normalize fs later)

-- A map that marshalling and back leaves as it is.
pub record IsPlain (fs : Fields) : Type 0 where
  pub marshalable : all_marshalable fs ≡ true
  pub normal : normalize_fields fs ≡ fs

pub clone_fields-IsPlain : (fs : Fields) → IsPlain (clone_fields fs)
unfolding clone_fields
clone_fields-IsPlain fs = elim (Bool-cases (all_marshalable fs)) [
  | inl e ↦ rw e (record {
    marshalable = fields_marshalable-normalize fs e;
    normal = normalize_fields-normalize fs;
  })
  | inr e ↦ rw e (unfold is_marshalable normalize in record { marshalable = refl; normal = refl })
]

pub clone_json_map-IsPlain : (m : JsonMap) → IsPlain (clone_json_map m)
unfolding clone_json_map is_marshalable normalize
clone_json_map-IsPlain none = record { marshalable = refl; normal = refl }
clone_json_map-IsPlain (some fs) = clone_fields-IsPlain fs

pub clone_json_map-IsPlain_eq : {fs : Fields} → IsPlain fs → clone_json_map (some fs) ≡ fs
unfolding clone_json_map
clone_json_map-IsPlain_eq {fs} p = rw p.marshalable p.normal

pub marshalable-get :
    (key : String) (fs : Fields) {v : Json}
    → all_marshalable fs ≡ true
    → get key fs ≡ some v
    → is_marshalable v ≡ true
unfolding is_marshalable get
marshalable-get key end h e = cc
marshalable-get key (field k w fs) {v} h e =
    let (here, later) = (and-eq-true_iff (is_marshalable w) (all_marshalable fs)).0 h in
    elim (Bool-cases (k == key)) [
      | inl same ↦
          let f : some w ≡ some v = rw same at e in
          let g : w ≡ v = cc f in subst (λ x. is_marshalable x ≡ true) g here
      | inr other ↦ marshalable-get key fs later (rw other at e)
    ]

-- An object inside a plain map is plain.
pub IsPlain-get :
    {fs m : Fields} (key : String) → IsPlain fs → get key fs ≡ some (obj m) → IsPlain m
unfolding normalize
IsPlain-get {fs} {m} key p e = record {
  marshalable = unfold is_marshalable in marshalable-get key fs p.marshalable e;
  normal = cc (e, get-normalize_fields key fs, p.normal);
}
