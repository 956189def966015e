-- ===== src/Store/Paging/Order.antt =====
-- sort.Slice as the list methods of the in-memory store use it: the order of its result.
use Prim.Native.Nat.{Ordering, compare as compare_numbers}
use Prim.Native.Char.{code}
use Prim.Native.String.{compare, then as later}
use Prim.Native.String.compare as texts
use mathlib.Core.List.{Perm}
use mathlib.Core.List.Perm
use atlas_c.Base.{
  ℕ, suc, ◌≡◌, refl, sym, ap, ◌∙◌, String, Bool, true, false, List, [], ◌∷◌, ltb, nat_eq, length,
  arith, inl, inr, Bool-cases,
}
use atlas_c.Store.Paging.{text_lt, newer, insert_sorted, sort_slice}

abbrev flip : Ordering → Ordering
flip Ordering.lt = Ordering.gt
flip Ordering.eq = Ordering.eq
flip Ordering.gt = Ordering.lt

flip-later : (o r : Ordering) → flip (later o r) ≡ later (flip o) (flip r)
flip-later Ordering.lt r = refl
flip-later Ordering.eq r = refl
flip-later Ordering.gt r = refl

compare_numbers-flip : (m n : ℕ) → compare_numbers n m ≡ flip (compare_numbers m n)
compare_numbers-flip m n = ground arith

compare-flip : (s t : String) → compare t s ≡ flip (compare s t)
compare-flip String.[] String.[] = texts.nil-nil ∙ ap flip (sym texts.nil-nil)
compare-flip String.[] (String.◌∷◌ d t) = texts.cons-nil d t ∙ ap flip (sym (texts.nil-cons d t))
compare-flip (String.◌∷◌ c s) String.[] = texts.nil-cons c s ∙ ap flip (sym (texts.cons-nil c s))
compare-flip (String.◌∷◌ c s) (String.◌∷◌ d t) =
    texts.cons-cons d c t s
    ∙ ap (λ o. later o (compare t s)) (compare_numbers-flip (code c) (code d))
    ∙ ap (later (flip (compare_numbers (code c) (code d)))) (compare-flip s t)
    ∙ sym (flip-later (compare_numbers (code c) (code d)) (compare s t))
    ∙ ap flip (sym (texts.cons-cons c d s t))

is_lt : Ordering → Bool
is_lt Ordering.lt = true
is_lt _ = false

is_lt-flip : (o : Ordering) → is_lt o ≡ true → is_lt (flip o) ≡ false
unfolding is_lt
is_lt-flip Ordering.lt h = refl
is_lt-flip Ordering.eq h = refl
is_lt-flip Ordering.gt h = cc h

text_lt-is_lt : (s t : String) → text_lt s t ≡ is_lt (compare s t)
unfolding is_lt
text_lt-is_lt s t = go (compare s t)
  where
    go : (o : Ordering) → (elim o as (λ _. Bool) [ Ordering.lt ↦ true | _ ↦ false ]) ≡ is_lt o
    go Ordering.lt = refl
    go Ordering.eq = refl
    go Ordering.gt = refl

pub text_lt-asym : (s t : String) → text_lt s t ≡ true → text_lt t s ≡ false
text_lt-asym s t h =
    text_lt-is_lt t s
    ∙ ap is_lt (compare-flip s t)
    ∙ is_lt-flip (compare s t) (sym (text_lt-is_lt s t) ∙ h)

-- Of two records, at most one is the newer.
pub newer-asym : (x y : ℕ) (s t : String) → newer x s y t ≡ true → newer y t x s ≡ false
newer-asym x y s t h = elim (Bool-cases (nat_eq x y)) [
  | inl e ↦
      let back : nat_eq y x ≡ true = ground (arith, e) in
      let h' : text_lt s t ≡ true = rw e at h in rw back (text_lt-asym s t h')
  | inr e ↦
      let back : nat_eq y x ≡ false = ground (arith, e) in
      let h' : ltb y x ≡ true = rw e at h in rw back (ground (arith, h'))
]

module _ {A : Type 0} (less : A → A → Bool) where
  -- No element of the list goes before the one in front of it.
  unfoldable pub IsOrdered : List A → Type 0
  IsOrdered [] = Unit
  IsOrdered (x ∷ []) = Unit
  IsOrdered (x ∷ y ∷ rest) = (less y x ≡ false) × IsOrdered (y ∷ rest)

  insert_sorted-Perm : (x : A) (l : List A) → Perm (insert_sorted less x l) (x ∷ l)
  unfolding insert_sorted
  insert_sorted-Perm x [] = Perm.refl (x ∷ [])
  insert_sorted-Perm x (y ∷ ys) = elim (Bool-cases (less y x)) [
    | inl e ↦ rw e (Perm.trans (Perm.cons y (insert_sorted-Perm x ys)) (Perm.swap x y ys))
    | inr e ↦ rw e (Perm.refl (x ∷ y ∷ ys))
  ]

  -- Sorting loses nothing and adds nothing.
  pub sort_slice-Perm : (l : List A) → Perm (sort_slice less l) l
  unfolding sort_slice
  sort_slice-Perm [] = Perm.refl []
  sort_slice-Perm (x ∷ xs) =
      Perm.trans (insert_sorted-Perm x (sort_slice less xs)) (Perm.cons x (sort_slice-Perm xs))

  module _ (asym : (a b : A) → less a b ≡ true → less b a ≡ false) where
    behind :
        (x y : A) (ys : List A)
        → less x y ≡ false
        → IsOrdered (y ∷ ys)
        → IsOrdered (insert_sorted less x ys)
        → IsOrdered (y ∷ insert_sorted less x ys)
    unfolding IsOrdered insert_sorted
    behind x y [] first ordered rest = (first, tt)
    behind x y (z ∷ zs) first (next, ordered) rest = elim (Bool-cases (less z x)) [
      | inl e ↦ let rest' = rw e at rest in rw e (next, rest')
      | inr e ↦ let rest' = rw e at rest in rw e (first, rest')
    ]

    tail-IsOrdered : (x : A) (l : List A) → IsOrdered (x ∷ l) → IsOrdered l
    unfolding IsOrdered
    tail-IsOrdered x [] h = tt
    tail-IsOrdered x (y ∷ l) (_, h) = h

    insert_sorted-IsOrdered :
        (x : A) (l : List A) → IsOrdered l → IsOrdered (insert_sorted less x l)
    unfolding IsOrdered insert_sorted
    insert_sorted-IsOrdered x [] h = tt
    insert_sorted-IsOrdered x (y ∷ ys) h = elim (Bool-cases (less y x)) [
      | inl e ↦
          rw e (behind x y ys (asym y x e) h (insert_sorted-IsOrdered x ys (tail-IsOrdered y ys h)))
      | inr e ↦ rw e (e, h)
    ]

    pub sort_slice-IsOrdered : (l : List A) → IsOrdered (sort_slice less l)
    unfolding sort_slice IsOrdered
    sort_slice-IsOrdered [] = tt
    sort_slice-IsOrdered (x ∷ xs) =
        insert_sorted-IsOrdered x (sort_slice less xs) (sort_slice-IsOrdered xs)

  length-insert_sorted : (x : A) (l : List A) → length (insert_sorted less x l) ≡ suc (length l)
  unfolding insert_sorted
  length-insert_sorted x [] = refl
  length-insert_sorted x (y ∷ ys) = elim (Bool-cases (less y x)) [
    | inl e ↦ rw e (omega (arith, length-insert_sorted x ys))
    | inr e ↦ rw e refl
  ]

  pub length-sort_slice : (l : List A) → length (sort_slice less l) ≡ length l
  unfolding sort_slice
  length-sort_slice [] = refl
  length-sort_slice (x ∷ xs) =
      length-insert_sorted x (sort_slice less xs) ∙ ap suc (length-sort_slice xs)
