-- ===== src/Model/Json/Equal.antt =====
-- reflect.DeepEqual on dynamic values: two maps are equal when they have as many keys and every key of
-- the first has a deeply equal value in the second.
pub mod Reflexive
use atlas_c.Base.{
  String, Bool, true, false, ◌&&◌, Option, none, some, List, [], ◌∷◌, ◌==◌, nat_eq, leb,
  if◌then◌else◌,
}
use atlas_c.Base.Int.{ℤ, leb_ℤ}
use atlas_c.Model.Float.{Float64, float_eq}
use atlas_c.Model.Json.Defs.{
  Json, null, bool, float64, int, int64, str, strings, nil_strings, arr, obj, json_map, Items, nil,
  cons, Fields, end, field,
}
use atlas_c.Model.Json.Entries.{get, len_fields}

abbrev pub bool_eq : Bool → Bool → Bool
bool_eq true b = b
bool_eq false true = false
bool_eq false false = true

abbrev pub int_eq : ℤ → ℤ → Bool
int_eq a b = leb_ℤ a b && leb_ℤ b a

unfoldable pub texts_eq : List String → List String → Bool
texts_eq [] [] = true
texts_eq (s ∷ l) (t ∷ m) = s == t && texts_eq l m
texts_eq _ _ = false

unfoldable mutual
  pub deep_equal : Json → Json → Bool
  deep_equal null null = true
  deep_equal (bool a) (bool b) = bool_eq a b
  deep_equal (float64 a) (float64 b) = float_eq a b
  deep_equal (int a) (int b) = int_eq a b
  deep_equal (int64 a) (int64 b) = int_eq a b
  deep_equal (str a) (str b) = a == b
  deep_equal (strings a) (strings b) = texts_eq a b
  deep_equal nil_strings nil_strings = true
  deep_equal (arr xs) (arr ys) = items_equal xs ys
  deep_equal (obj fs) (obj gs) = nat_eq (len_fields fs) (len_fields gs) && fields_equal fs gs
  deep_equal (json_map fs) (json_map gs) =
      nat_eq (len_fields fs) (len_fields gs) && fields_equal fs gs
  deep_equal _ _ = false

  pub items_equal : Items → Items → Bool
  items_equal nil nil = true
  items_equal (cons v xs) (cons w ys) = deep_equal v w && items_equal xs ys
  items_equal _ _ = false

  pub fields_equal : Fields → Fields → Bool
  fields_equal end gs = true
  fields_equal (field k v fs) gs =
      elim (get k gs) [ none ↦ false | some w ↦ deep_equal v w ] && fields_equal fs gs
