-- ===== src/Store/Listing/Newest.antt =====
-- The order of the listings: newest first, and by identifier at equal times.
use Prim.Native.Nat.{Ordering}
use Prim.Native.String.{compare}
use atlas_c.Base.{
  ℕ, ◌<◌, ◌≡◌, ◌≢◌, String, true, false, List, [], ◌∷◌, ltb, nat_eq, ◌⊎◌, inl, inr, Bool-cases,
  arith,
}
use atlas_c.Store.Paging.{text_lt, newer}
use atlas_c.Store.Paging.Order.{IsOrdered}

-- A record with the first time and identifier may stand before one with the second.
abbrev pub Precedes : ℕ → String → ℕ → String → Type 0
Precedes time_a id_a time_b id_b =
    (time_b < time_a) ⊎ ((time_a ≡ time_b) × (compare id_b id_a ≢ Ordering.lt))

text_lt-lt : (a b : String) → text_lt a b ≡ false → compare a b ≢ Ordering.lt
text_lt-lt a b h e = let bad : true ≡ false = rw (e, text_lt) at h in cc bad

pub newer-Precedes : (x y : ℕ) (s t : String) → newer y t x s ≡ false → Precedes x s y t
newer-Precedes x y s t h = elim (Bool-cases (nat_eq y x)) [
  | inl e ↦ let h' : text_lt t s ≡ false = rw e at h in inr (ground (arith, e), text_lt-lt t s h')
  | inr e ↦ let h' : ltb x y ≡ false = rw e at h in inl (ground (arith, e, h'))
]

module _ {A : Type 0} (time : A → ℕ) (id : A → String) where
  -- Every record may stand before the next one.
  unfoldable pub NewestFirst : List A → Type 0
  NewestFirst [] = Unit
  NewestFirst (x ∷ []) = Unit
  NewestFirst (x ∷ y ∷ rest) = Precedes (time x) (id x) (time y) (id y) × NewestFirst (y ∷ rest)

  pub IsOrdered-NewestFirst :
      (l : List A) → IsOrdered (λ a b. newer (time a) (id a) (time b) (id b)) l → NewestFirst l
  unfolding IsOrdered NewestFirst
  IsOrdered-NewestFirst [] h = tt
  IsOrdered-NewestFirst (x ∷ []) h = tt
  IsOrdered-NewestFirst (x ∷ y ∷ rest) (first, h) =
      (newer-Precedes (time x) (time y) (id x) (id y) first, IsOrdered-NewestFirst (y ∷ rest) h)
