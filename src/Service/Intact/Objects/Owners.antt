-- ===== src/Service/Intact/Objects/Owners.antt =====
-- What validateObjectInput of internal/service/service.go lets through as an owner.
use atlas_c.Base.{
  ◌≡◌, sym, String, true, false, ◌||◌, [], ◌∷◌, ◌==◌, eq_iff, contains_string, inl, inr, Bool-cases,
  ok, err, after-eq-ok,
}
use atlas_c.Base.Trim.{trim_space}
use atlas_c.Model.Json.{JsonMap}
use atlas_c.Store.{MemoryStore}
use atlas_c.Store.Integrity.{IsKnownOwner}
use atlas_c.Service.Validation.{require_valid_id}
use atlas_c.Service.Owners.{
  require_type, check_owner_named, check_owner_found, validate_object_input,
}

check_owner_named-listed :
    (type id : String)
    → check_owner_named type id ≡ ok tt
    → contains_string ("entity" ∷ "observation" ∷ "task" ∷ "system" ∷ []) type ≡ true
unfolding check_owner_named
check_owner_named-listed type id h = elim (Bool-cases (type == "" || id == "")) [
  | inl blank ↦ let bad : err _ ≡ ok tt = rw (blank, check_owner_named) at h in cc bad
  | inr given ↦
      elim (Bool-cases (contains_string ("entity" ∷ "observation" ∷ "task" ∷ "system" ∷ []) type)) [
        | inl listed ↦ listed
        | inr not_listed ↦
            let bad : err _ ≡ ok tt = rw (given, not_listed, check_owner_named) at h in cc bad
      ]
]

-- The system's owner identifier is checked where the type is "system".
check_owner_found-system :
    (type id : String) (m : MemoryStore)
    → type ≡ "system"
    → check_owner_found type id m ≡ ok tt
    → id ≡ "active_command_catalog"
unfolding check_owner_found
check_owner_found-system type id m is h = elim (Bool-cases (id == "active_command_catalog")) [
  | inl same ↦ (eq_iff _ _).0 same
  | inr other ↦ let bad : err _ ≡ ok tt = rw (is, other, check_owner_found) at h in cc bad
]

listed-IsKnownOwner :
    (type id : String) (m : MemoryStore)
    → contains_string ("entity" ∷ "observation" ∷ "task" ∷ "system" ∷ []) type ≡ true
    → check_owner_found type id m ≡ ok tt
    → IsKnownOwner type id
unfolding IsKnownOwner contains_string
listed-IsKnownOwner type id m listed found = elim (Bool-cases ("entity" == type)) [
  | inl e ↦ inl (sym ((eq_iff _ _).0 e))
  | inr n₁ ↦ elim (Bool-cases ("observation" == type)) [
    | inl e ↦ inr (inl (sym ((eq_iff _ _).0 e)))
    | inr n₂ ↦ elim (Bool-cases ("task" == type)) [
      | inl e ↦ inr (inr (inl (sym ((eq_iff _ _).0 e))))
      | inr n₃ ↦ elim (Bool-cases ("system" == type)) [
        | inl e ↦
            let is = sym ((eq_iff _ _).0 e) in
            inr (inr (inr (is, check_owner_found-system type id m is found)))
        | inr n₄ ↦ let bad : false ≡ true = rw (n₁, n₂, n₃, n₄, contains_string) at listed in cc bad
      ]
    ]
  ]
]

pub validate_object_input-IsKnownOwner :
    (m : MemoryStore) (object_id raw_type owner_type owner_id : String) (json : JsonMap)
    → validate_object_input m object_id raw_type owner_type owner_id json ≡ ok tt
    → IsKnownOwner owner_type owner_id
unfolding validate_object_input
validate_object_input-IsKnownOwner m object_id raw_type owner_type owner_id json h =
    let (_, _, h₁) = after-eq-ok (require_valid_id "object_id" object_id) _ h in
    let (_, _, h₂) = after-eq-ok (require_type (trim_space raw_type)) _ h₁ in
    let (_, named, h₃) = after-eq-ok (check_owner_named owner_type owner_id) _ h₂ in
    let (_, found, _) = after-eq-ok (check_owner_found owner_type owner_id m) _ h₃ in
    listed-IsKnownOwner owner_type owner_id m (check_owner_named-listed owner_type owner_id named)
      found
