-- ===== src/Base/Assoc/Evolves.antt =====
-- How what is stored under a key may differ after a write.
use mathlib.Core.Path.{subst}
use atlas_c.Base.{◌≡◌, sym, ap, ◌∙◌, String, none, some, ◌⊎◌, inl, inr}
use atlas_c.Base.Assoc.{Assoc, string_eq, lookup, insert, delete}
use atlas_c.Base.Assoc.Stored.{insert-cases, delete-cases}

module _ {V : Type 0} (Same : V → V → Type 0) where
  -- What stands under one key before and after is the same value, or an update of it.
  unfoldable pub Evolves : Assoc String V → Assoc String V → Type 0
  Evolves before after =
      (id : String) (v v' : V)
      → lookup id before ≡ some v
      → lookup id after ≡ some v'
      → (v' ≡ v) ⊎ Same v v'

  pub Evolves-kept : (m m' : Assoc String V) → m' ≡ m → Evolves m m'
  unfolding Evolves
  Evolves-kept m m' same id v v' h h' =
      let it : some v' ≡ some v = sym h' ∙ ap (lookup id) same ∙ h in inl (cc it)

  pub Evolves-add :
      (k : String) (v : V) (m : Assoc String V) → lookup k m ≡ none → Evolves m (insert k v m)
  unfolding Evolves
  Evolves-add k v m absent id w w' h h' = elim (insert-cases k id v w' m h') [
    | inl (key, _) ↦ let bad : none ≡ some w = sym absent ∙ ap (λ j. lookup j m) key ∙ h in cc bad
    | inr there ↦ let it : some w' ≡ some w = sym there ∙ h in inl (cc it)
  ]

  pub Evolves-update :
      (k id : String) (old v : V) (m : Assoc String V)
      → k ≡ id
      → lookup id m ≡ some old
      → Same old v
      → Evolves m (insert k v m)
  unfolding Evolves
  Evolves-update k id old v m key found same j w w' h h' = elim (insert-cases k j v w' m h') [
    | inl (e, it) ↦
        let at_j : some old ≡ some w = sym found ∙ ap (λ x. lookup x m) (sym key ∙ e) ∙ h in
        let old_w : old ≡ w = cc at_j in
        inr (subst (λ x. Same x w') old_w (subst (Same old) it same))
    | inr there ↦ let it : some w' ≡ some w = sym there ∙ h in inl (cc it)
  ]

  pub Evolves-delete : (k : String) (m : Assoc String V) → Evolves m (delete k m)
  unfolding Evolves
  Evolves-delete k m id w w' h h' =
      let (_, there) = delete-cases k id w' m h' in
      let it : some w' ≡ some w = sym there ∙ h in inl (cc it)
