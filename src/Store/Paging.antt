-- ===== src/Store/Paging.antt =====
-- Sorting and slicing of the list methods. The order of sort.Slice is total on records with different
-- ids, so any sort gives this result.
pub mod Order
use Prim.Native.String.{compare}
use Prim.Native.Nat.{Ordering}
use atlas_c.Base.{
  ℕ, zero, suc, ◌+◌, ◌-◌, ◌≤◌, ◌≡◌, refl, String, Bool, true, false, List, [], ◌∷◌, arith, ltb, leb,
  nat_eq, if◌then◌else◌, length, take, drop, ap, ◌&&◌, other, Result, ok, err, ◌∙◌, Bool-cases, inl,
  inr, sym, leb→le, ltb→lt,
}
use atlas_c.Model.Pagination.{Pagination}

-- `a < b` on texts, byte by byte.
abbrev pub text_lt : String → String → Bool
text_lt a b = elim (compare a b) [ Ordering.lt ↦ true | _ ↦ false ]

-- Newest first, and by id where the times are equal.
abbrev pub newer : ℕ → String → ℕ → String → Bool
newer time_a id_a time_b id_b =
    if nat_eq time_a time_b then text_lt id_a id_b else ltb time_b time_a

module _ {ℓ} {A : Type ℓ} (less : A → A → Bool) where
  unfoldable pub insert_sorted : A → List A → List A
  insert_sorted x [] = x ∷ []
  insert_sorted x (y ∷ ys) =
      let later = insert_sorted x ys in if less y x then y ∷ later else x ∷ y ∷ ys

  -- sort.Slice
  unfoldable pub sort_slice : List A → List A
  unfolding insert_sorted
  sort_slice [] = []
  sort_slice (x ∷ xs) = insert_sorted x (sort_slice xs)

module _ {ℓ} {A : Type ℓ} where
  -- `items[low:high]`, which panics where the bounds do not fit. Go lets `high` go on to the capacity; here
  -- the length is the end.
  unfoldable pub slice_items : ℕ → ℕ → List A → Result (List A)
  slice_items low high items =
      if leb low high && leb high (length items)
      then ok (take (high - low) (drop low items))
      else err (other "panic: slice bounds out of range")

  -- paginate
  unfoldable pub paginate : List A → Pagination → Result (List A)
  unfolding slice_items
  paginate items page =
      if leb (length items) page.offset
      then ok []
      else let end = page.offset + page.limit in
        let end' = if ltb (length items) end then length items else end in
        slice_items page.offset end' items

  take-length_le : (n : ℕ) (xs : List A) → length xs ≤ n → take n xs ≡ xs
  take-length_le zero [] h = refl
  take-length_le zero (x ∷ xs) h = absurd (omega arith)
  take-length_le (suc n) [] h = refl
  take-length_le (suc n) (x ∷ xs) h = ap (λ l. x ∷ l) (take-length_le n xs (omega arith))

  drop-length_le : (n : ℕ) (xs : List A) → length xs ≤ n → drop n xs ≡ []
  drop-length_le zero [] h = refl
  drop-length_le zero (x ∷ xs) h = absurd (omega arith)
  drop-length_le (suc n) [] h = refl
  drop-length_le (suc n) (x ∷ xs) h = drop-length_le n xs (omega arith)

  length-drop : (n : ℕ) (xs : List A) → length (drop n xs) ≡ length xs - n
  length-drop zero xs = omega arith
  length-drop (suc n) [] = omega arith
  length-drop (suc n) (x ∷ xs) = omega (arith, length-drop n xs)

  take-nil : (n : ℕ) → ◌≡◌ {A = List A} (take n []) []
  take-nil zero = refl
  take-nil (suc n) = refl

  -- The page of every list is there: the slice that paginate takes has its bounds in order and inside
  -- the list, so it never panics, and it is what remains after `offset` items, cut off after `limit`.
  pub paginate-eq-take-drop :
      (items : List A) (page : Pagination)
      → paginate items page ≡ ok (take page.limit (drop page.offset items))
  unfolding paginate slice_items
  paginate-eq-take-drop items page = elim (Bool-cases (leb (length items) page.offset)) [
    | inl e ↦ rw e (
        ap ok (
          sym (
            ap (take page.limit) (drop-length_le page.offset items (leb→le _ _ e))
            ∙ take-nil page.limit)))
    | inr e ↦ rw e (elim (Bool-cases (ltb (length items) (page.offset + page.limit))) [
      | inl f ↦
          let fits : (leb page.offset (length items) && leb (length items) (length items)) ≡ true =
            ground (arith, e) in
          rw (f, fits)
            (ap ok (
              take-length_le (length items - page.offset) (drop page.offset items)
                (omega (arith, length-drop page.offset items))
              ∙ sym (
                  take-length_le page.limit (drop page.offset items)
                    (omega (arith, length-drop page.offset items, ltb→lt _ _ f)))))
      | inr f ↦
          let fits : (leb page.offset (page.offset + page.limit)
                && leb (page.offset + page.limit) (length items))
              ≡ true =
            ground (arith, f) in
          rw (f, fits) (ap (λ n. ok (take n (drop page.offset items))) (omega arith))
    ])
  ]
