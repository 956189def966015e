-- ===== src/Model/Json/Clone.antt =====
-- model.CloneJSONMap: json.Marshal followed by json.Unmarshal. Marshalling fails on NaN and on the
-- infinities. What comes back holds decoded values only: JSONMap becomes map[string]any, numbers
-- become float64 and []string becomes []any. (Nesting beyond the decoder's limit of 10000 is not
-- modelled.)
pub mod Idempotent
use atlas_c.Base.{
  String, Bool, true, false, ◌&&◌, ◌≡◌, refl, ap, Option, none, some, List, [], ◌∷◌, arith, ◌==◌,
  if◌then◌else◌,
}
use atlas_c.Model.Float.{Float64, nan, pos_inf, neg_inf, finite, of_int64}
use atlas_c.Model.Json.Defs.{
  Json, null, bool, float64, int, int64, str, strings, nil_strings, arr, obj, json_map, Items, nil,
  cons, Fields, end, field, JsonMap,
}
use atlas_c.Model.Json.Entries.{get}

-- json.Marshal returns no error.
unfoldable mutual
  pub is_marshalable : Json → Bool
  is_marshalable (float64 nan) = false
  is_marshalable (float64 pos_inf) = false
  is_marshalable (float64 neg_inf) = false
  is_marshalable (arr xs) = all_items_marshalable xs
  is_marshalable (obj fs) = all_marshalable fs
  is_marshalable (json_map fs) = all_marshalable fs
  is_marshalable _ = true

  pub all_items_marshalable : Items → Bool
  all_items_marshalable nil = true
  all_items_marshalable (cons v xs) = is_marshalable v && all_items_marshalable xs

  pub all_marshalable : Fields → Bool
  all_marshalable end = true
  all_marshalable (field k v fs) = is_marshalable v && all_marshalable fs

abbrev pub string_items : List String → Items
string_items [] = nil
string_items (s ∷ l) = cons (str s) (string_items l)

-- The decoded form of the encoded value.
unfoldable mutual
  pub normalize : Json → Json
  normalize null = null
  normalize (bool b) = bool b
  normalize (float64 x) = float64 x
  normalize (int i) = float64 (of_int64 i)
  normalize (int64 i) = float64 (of_int64 i)
  normalize (str s) = str s
  normalize (strings l) = arr (string_items l)
  normalize nil_strings = null
  normalize (arr xs) = arr (normalize_items xs)
  normalize (obj fs) = obj (normalize_fields fs)
  normalize (json_map fs) = obj (normalize_fields fs)

  pub normalize_items : Items → Items
  normalize_items nil = nil
  normalize_items (cons v xs) = cons (normalize v) (normalize_items xs)

  pub normalize_fields : Fields → Fields
  normalize_fields end = end
  normalize_fields (field k v fs) = field k (normalize v) (normalize_fields fs)

-- Both errors are dropped by the source: a map that cannot be marshalled gives an empty one.
unfoldable pub clone_fields : Fields → Fields
clone_fields fs = if all_marshalable fs then normalize_fields fs else end

unfoldable pub clone_json_map : JsonMap → Fields
unfolding clone_fields
clone_json_map none = end
clone_json_map (some fs) = clone_fields fs

abbrev pub normalize? : Option Json → Option Json
normalize? none = none
normalize? (some v) = some (normalize v)

pub get-normalize_fields :
    (key : String) (fs : Fields) → get key (normalize_fields fs) ≡ normalize? (get key fs)
unfolding get normalize
get-normalize_fields key end = refl
get-normalize_fields key (field k v fs) = ground (arith, get-normalize_fields key fs)
