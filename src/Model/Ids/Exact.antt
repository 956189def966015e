-- ===== src/Model/Ids/Exact.antt =====
-- Which identifiers validate_id accepts.
use Prim.Native.String.{len}
use mathlib.Core.Bool.{and-eq-true_iff}
use mathlib.Core.List.{reverse-cons}
use atlas_c.Base.{
  ℕ, ◌≤◌, String, Bool, true, false, ◌≡◌, ◌≢◌, ◌↔◌, ◌⊎◌, inl, inr, refl, none, List, [], ◌∷◌, ◌++◌,
  All, arith, reverse, all, ◌==◌, eq_iff, codes, drop_while, Bool-cases, ◌&&◌, sym, ◌∙◌,
}
use atlas_c.Model.Ids.{is_id_char, id_pattern, is_dot, trim_dots, is_empty, validate_id}

-- A letter, a digit, or one of the four signs.
abbrev pub IdChar : ℕ → Type 0
IdChar c =
    ((b'a' ≤ c) × (c ≤ b'z'))
    ⊎ ((b'A' ≤ c) × (c ≤ b'Z'))
    ⊎ ((b'0' ≤ c) × (c ≤ b'9'))
    ⊎ (c ≡ b'.')
    ⊎ (c ≡ b'_')
    ⊎ (c ≡ b':')
    ⊎ (c ≡ b'-')

-- At most 50 bytes, at least one character, only identifier characters, and not dots alone.
pub record IsId (value : String) : Type 0 where
  pub nonempty : value ≢ ""
  pub short : len value ≤ 50
  pub chars : All IdChar (codes value)
  pub not_dots : ¬ All (λ c. c ≡ b'.') (codes value)

is_id_char_iff : (c : ℕ) → (is_id_char c ≡ true) ↔ IdChar c
unfolding is_id_char
is_id_char_iff c = (λ h. ground arith, λ h. ground arith)

module _ (p : ℕ → Bool) where
  all-append : (xs ys : List ℕ) → all p (xs ++ ys) ≡ (all p xs && all p ys)
  all-append [] ys = refl
  all-append (x ∷ xs) ys = ground (arith, all-append xs ys)

  all-reverse : (xs : List ℕ) → all p (reverse xs) ≡ all p xs
  all-reverse [] = refl
  all-reverse (x ∷ xs) = rw reverse-cons (rw all-append (ground (arith, all-reverse xs)))

  all-drop_while : (xs : List ℕ) → all p (drop_while p xs) ≡ all p xs
  all-drop_while [] = refl
  all-drop_while (x ∷ xs) = ground (arith, all-drop_while xs)

  is_empty-drop_while : (xs : List ℕ) → is_empty (drop_while p xs) ≡ all p xs
  is_empty-drop_while [] = refl
  is_empty-drop_while (x ∷ xs) = ground (arith, is_empty-drop_while xs)

is_empty-snoc : (xs : List ℕ) (x : ℕ) → is_empty (xs ++ x ∷ []) ≡ false
is_empty-snoc [] x = refl
is_empty-snoc (y ∷ xs) x = refl

is_empty-reverse : (xs : List ℕ) → is_empty (reverse xs) ≡ is_empty xs
is_empty-reverse [] = refl
is_empty-reverse (x ∷ xs) = rw reverse-cons (is_empty-snoc (reverse xs) x)

-- Trimming the dots leaves nothing exactly where all characters are dots.
pub is_empty-trim_dots : (cs : List ℕ) → is_empty (trim_dots cs) ≡ all is_dot cs
unfolding trim_dots
is_empty-trim_dots cs =
    rw is_empty-reverse (rw is_empty-drop_while (rw all-reverse (rw all-drop_while refl)))

all_iff {ℓ} :
    (p : ℕ → Bool) (P : ℕ → Type ℓ) (cs : List ℕ)
    → ((c : ℕ) → (p c ≡ true) ↔ P c)
    → (all p cs ≡ true) ↔ All P cs
all_iff p P [] e = (λ _. tt, λ _. refl)
all_iff p P (c ∷ cs) e = (
  λ h. let (here, later) = (and-eq-true_iff _ _).0 h in ((e c).0 here, (all_iff p P cs e).0 later),
  λ h. (and-eq-true_iff _ _).1 ((e c).1 h.0, (all_iff p P cs e).1 h.1),
)

codes_nonempty : (value : String) → value ≢ "" → is_empty (codes value) ≡ false
codes_nonempty String.[] h = absurd (h refl)
codes_nonempty (String.◌∷◌ c s) h = refl

id_pattern-eq-all : (cs : List ℕ) → is_empty cs ≡ false → id_pattern cs ≡ all is_id_char cs
unfolding id_pattern
id_pattern-eq-all [] h = cc
id_pattern-eq-all (c ∷ cs) h = refl

is_dot_iff : (c : ℕ) → (is_dot c ≡ true) ↔ (c ≡ b'.')
is_dot_iff c = (λ h. ground arith, λ h. ground arith)

-- What the chain of tests comes to.
validate_id_tests :
    (name value : String)
    → (validate_id name value ≡ none) ↔ (
        ((value == "") ≡ false)
        × (len value ≤ 50)
        × (id_pattern (codes value) ≡ true)
        × (is_empty (trim_dots (codes value)) ≡ false))
unfolding validate_id
validate_id_tests name value = (λ h. ground arith, λ h. ground arith)

-- validate_id reports no error exactly for the texts that are not empty, have at most 50 bytes and
-- only the characters a-z, A-Z, 0-9, '.', '_', ':' and '-', and are not dots alone.
pub validate_id-eq-none_iff : (name value : String) → (validate_id name value ≡ none) ↔ IsId value
validate_id-eq-none_iff name value = (
  λ h.
      let (some_text, short, chars, dots) = (validate_id_tests name value).0 h in
      let nonempty : value ≢ "" = λ e. cc (some_text, (eq_iff value "").1 e) in
      let filled = codes_nonempty value nonempty in
      record {
        nonempty = nonempty;
        short = short;
        chars =
            (all_iff is_id_char IdChar (codes value) is_id_char_iff).0
              (rw (id_pattern-eq-all _ filled) at chars);
        not_dots = λ a. cc (
          dots,
          is_empty-trim_dots (codes value),
          (all_iff is_dot (λ c. c ≡ b'.') (codes value) is_dot_iff).1 a,
        );
      },
  λ v. (validate_id_tests name value).1 (
    ground (arith, eq_iff value "", v.nonempty),
    v.short,
    id_pattern-eq-all _ (codes_nonempty value v.nonempty)
        ∙ (all_iff is_id_char IdChar (codes value) is_id_char_iff).1 v.chars,
    elim (Bool-cases (is_empty (trim_dots (codes value)))) [
      | inl e ↦ absurd (
          v.not_dots (
            (all_iff is_dot (λ c. c ≡ b'.') (codes value) is_dot_iff).0
              (sym (is_empty-trim_dots (codes value)) ∙ e)))
      | inr e ↦ e
    ],
  ),
)
