-- ===== src/Base/Assoc/Stored.antt =====
-- What is stored under a key, and how writes change it.
use mathlib.Core.Bool.{true≢false}
use atlas_c.Base.{
  ◌≡◌, ◌≢◌, refl, sym, ◌∙◌, String, none, some, ◌⊎◌, inl, inr, ◌==◌, eq_iff, eq_refl, Bool-cases,
}
use atlas_c.Base.Assoc.{Assoc, string_eq, lookup, insert, delete, lookup-insert, lookup-delete}

module _ {V : Type 0} where
  unfoldable pub Stored : String → Assoc String V → Type 0
  Stored k m = (v : V) × (lookup k m ≡ some v)

  pub insert-cases :
      (k j : String) (v w : V) (m : Assoc String V)
      → lookup j (insert k v m) ≡ some w
      → ((k ≡ j) × (v ≡ w)) ⊎ (lookup j m ≡ some w)
  insert-cases k j v w m h = elim (Bool-cases (k == j)) [
    | inl e ↦
        let same : some v ≡ some w = sym (lookup-insert k j v m ∙ rw e refl) ∙ h in
        inl ((eq_iff k j).0 e, cc same)
    | inr e ↦ inr (sym (lookup-insert k j v m ∙ rw e refl) ∙ h)
  ]

  pub delete-cases :
      (k j : String) (w : V) (m : Assoc String V)
      → lookup j (delete k m) ≡ some w
      → (k ≢ j) × (lookup j m ≡ some w)
  delete-cases k j w m h = elim (Bool-cases (k == j)) [
    | inl e ↦ let bad : none ≡ some w = sym (lookup-delete k j m ∙ rw e refl) ∙ h in cc bad
    | inr e ↦ (
      λ same. true≢false (sym ((eq_iff k j).1 same) ∙ e),
      sym (lookup-delete k j m ∙ rw e refl) ∙ h,
    )
  ]

  pub Stored-insert :
      (k j : String) (v : V) (m : Assoc String V) → Stored j m → Stored j (insert k v m)
  unfolding Stored
  Stored-insert k j v m (w, h) = elim (Bool-cases (k == j)) [
    | inl e ↦ (v, lookup-insert k j v m ∙ rw e refl)
    | inr e ↦ (w, lookup-insert k j v m ∙ (rw e refl ∙ h))
  ]

  pub lookup-insert_other :
      (k j : String) (v : V) (m : Assoc String V) → k ≢ j → lookup j (insert k v m) ≡ lookup j m
  lookup-insert_other k j v m n = elim (Bool-cases (k == j)) [
    | inl e ↦ elim (n ((eq_iff k j).0 e)) [ ]
    | inr e ↦ lookup-insert k j v m ∙ rw e refl
  ]

  pub lookup-delete_other :
      (k j : String) (m : Assoc String V) → k ≢ j → lookup j (delete k m) ≡ lookup j m
  lookup-delete_other k j m n = elim (Bool-cases (k == j)) [
    | inl e ↦ elim (n ((eq_iff k j).0 e)) [ ]
    | inr e ↦ lookup-delete k j m ∙ rw e refl
  ]

  pub lookup-insert_same :
      (k : String) (v : V) (m : Assoc String V) → lookup k (insert k v m) ≡ some v
  lookup-insert_same k v m = lookup-insert k k v m ∙ rw (eq_refl k) refl

  pub Stored-delete :
      (k j : String) (m : Assoc String V) → k ≢ j → Stored j m → Stored j (delete k m)
  unfolding Stored
  Stored-delete k j m n (w, h) = (w, lookup-delete_other k j m n ∙ h)
