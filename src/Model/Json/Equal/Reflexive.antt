-- ===== src/Model/Json/Equal/Reflexive.antt =====
-- A well-formed value without NaN is deeply equal to itself.
use mathlib.Core.Bool.{and-eq-true_iff}
use atlas_c.Base.{
  ℕ, String, true, false, ◌≡◌, refl, none, some, List, [], ◌∷◌, ◌==◌, eq_refl, eq_iff, arith,
  nat_eq,
}
use atlas_c.Model.Float.{nan, pos_inf, neg_inf, finite, float_eq_refl}
use atlas_c.Model.Json.Defs.{
  Json, null, bool, float64, int, int64, str, strings, nil_strings, arr, obj, json_map, Items, nil,
  cons, Fields, end, field,
}
use atlas_c.Model.Json.Entries.{get, len_fields, IsFresh}
use atlas_c.Model.Json.Clone.{is_marshalable, all_items_marshalable, all_marshalable}
use atlas_c.Model.Json.Equal.{texts_eq, deep_equal, items_equal, fields_equal}

-- No map in the value has a key twice, as in Go.
abbrev mutual
  pub IsWellFormed : Json → Type 0
  IsWellFormed (arr xs) = AreWellFormed xs
  IsWellFormed (obj fs) = HasUniqueKeys fs
  IsWellFormed (json_map fs) = HasUniqueKeys fs
  IsWellFormed _ = Unit

  pub AreWellFormed : Items → Type 0
  AreWellFormed nil = Unit
  AreWellFormed (cons v xs) = IsWellFormed v × AreWellFormed xs

  pub HasUniqueKeys : Fields → Type 0
  HasUniqueKeys end = Unit
  HasUniqueKeys (field k v fs) = IsFresh k fs × IsWellFormed v × HasUniqueKeys fs

-- Every entry of the first map stands in the second.
Agrees : Fields → Fields → Type 0
Agrees end gs = Unit
Agrees (field k v fs) gs = (get k gs ≡ some v) × Agrees fs gs

-- Adding an entry under a key that the first map lacks keeps the agreement.
Agrees-cons :
    (k : String) (v : Json) (fs gs : Fields)
    → get k fs ≡ none
    → Agrees fs gs
    → Agrees fs (field k v gs)
unfolding Agrees get
Agrees-cons k v end gs fresh a = tt
Agrees-cons k v (field j w fs) gs fresh (here, a) =
    let other : (k == j) ≡ false = ground (arith, eq_iff k j, eq_iff j k) in
    (rw other here, Agrees-cons k v fs gs (ground (arith, eq_iff k j, eq_iff j k)) a)

Agrees-refl : (fs : Fields) → HasUniqueKeys fs → Agrees fs fs
unfolding Agrees get
Agrees-refl end u = tt
Agrees-refl (field k v fs) (fresh, _, u) =
    (rw eq_refl refl, Agrees-cons k v fs fs fresh (Agrees-refl fs u))

nat_eq_refl : (n : ℕ) → nat_eq n n ≡ true
nat_eq_refl n = ground arith

texts_eq_refl : (l : List String) → texts_eq l l ≡ true
unfolding texts_eq
texts_eq_refl [] = refl
texts_eq_refl (s ∷ l) = rw eq_refl (texts_eq_refl l)

mutual
  unfolding deep_equal is_marshalable Agrees

  deep_equal_self : (v : Json) → IsWellFormed v → is_marshalable v ≡ true → deep_equal v v ≡ true
  deep_equal_self null u h = refl
  deep_equal_self (bool true) u h = refl
  deep_equal_self (bool false) u h = refl
  deep_equal_self (float64 (finite a s)) u h = float_eq_refl a s
  deep_equal_self (float64 nan) u h = cc
  deep_equal_self (float64 pos_inf) u h = cc
  deep_equal_self (float64 neg_inf) u h = cc
  deep_equal_self (int i) u h = ground arith
  deep_equal_self (int64 i) u h = ground arith
  deep_equal_self (str s) u h = eq_refl s
  deep_equal_self (strings l) u h = texts_eq_refl l
  deep_equal_self nil_strings u h = refl
  deep_equal_self (arr xs) u h = items_equal_self xs u h
  deep_equal_self (obj fs) u h =
      rw (nat_eq_refl (len_fields fs)) (fields_equal-Agrees fs fs u h (Agrees-refl fs u))
  deep_equal_self (json_map fs) u h =
      rw (nat_eq_refl (len_fields fs)) (fields_equal-Agrees fs fs u h (Agrees-refl fs u))

  items_equal_self :
      (xs : Items) → AreWellFormed xs → all_items_marshalable xs ≡ true → items_equal xs xs ≡ true
  items_equal_self nil u h = refl
  items_equal_self (cons v xs) (u, us) h =
      let (here, later) = (and-eq-true_iff _ _).0 h in
      (and-eq-true_iff _ _).1 (deep_equal_self v u here, items_equal_self xs us later)

  fields_equal-Agrees :
      (fs gs : Fields)
      → HasUniqueKeys fs
      → all_marshalable fs ≡ true
      → Agrees fs gs
      → fields_equal fs gs ≡ true
  fields_equal-Agrees end gs u h a = refl
  fields_equal-Agrees (field k v fs) gs (_, u, us) h (found, a) =
      let (here, later) = (and-eq-true_iff _ _).0 h in
      rw found
        ((and-eq-true_iff _ _).1 (deep_equal_self v u here, fields_equal-Agrees fs gs us later a))

-- A value whose maps have no key twice, and that json.Marshal accepts, is deeply equal to itself.
pub deep_equal_refl : (v : Json) → IsWellFormed v → is_marshalable v ≡ true → deep_equal v v ≡ true
deep_equal_refl = deep_equal_self
