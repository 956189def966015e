-- ===== src/Model/Ids/Snake.antt =====
-- The texts that the matcher of snake_case accepts, against the regular expression read as words.
use mathlib.Core.Bool.{and-eq-true_iff}
use mathlib.Core.List.{append-nil}
use atlas_c.Base.{
  ℕ, true, ◌≡◌, refl, sym, ap, ◌∙◌, ◌↔◌, inl, inr, List, [], ◌∷◌, ◌++◌, arith, all, nat_eq,
  Bool-cases,
}
use atlas_c.Model.Ids.{
  Scan, opening, inside, failed, is_word_char, scan_step, scan, is_inside, snake_case_pattern,
}

-- [a-z0-9]+
abbrev pub Word : List ℕ → Type 0
Word [] = ⊥
Word (c ∷ cs) = all is_word_char (c ∷ cs) ≡ true

-- [a-z0-9]+(?:_[a-z0-9]+)*: a word, or a word, an underscore and such a text again.
pub data SnakeCase : List ℕ → Type 0 where
  word : {cs : List ℕ} → Word cs → SnakeCase cs
  joined :
      {cs : List ℕ} (w rest : List ℕ)
      → Word w
      → SnakeCase rest
      → cs ≡ w ++ b'_' ∷ rest
      → SnakeCase cs

scan-failed : (cs : List ℕ) → scan failed cs ≡ failed
unfolding scan scan_step
scan-failed [] = refl
scan-failed (c ∷ cs) = scan-failed cs

-- The rest of a text inside a word.
data Tail (cs : List ℕ) : Type 0 where
  ends : all is_word_char cs ≡ true → Tail cs
  goes_on :
      (w rest : List ℕ)
      → all is_word_char w ≡ true
      → SnakeCase rest
      → cs ≡ w ++ b'_' ∷ rest
      → Tail cs

SnakeCase-cons : (c : ℕ) (cs : List ℕ) → is_word_char c ≡ true → Tail cs → SnakeCase (c ∷ cs)
SnakeCase-cons c cs h (ends a) = word ((and-eq-true_iff _ _).1 (h, a))
SnakeCase-cons c cs h (goes_on w rest a s e) =
    joined (c ∷ w) rest ((and-eq-true_iff _ _).1 (h, a)) s (ap (λ l. c ∷ l) e)

Tail-cons : (c : ℕ) (cs : List ℕ) → is_word_char c ≡ true → Tail cs → Tail (c ∷ cs)
Tail-cons c cs h (ends a) = ends ((and-eq-true_iff _ _).1 (h, a))
Tail-cons c cs h (goes_on w rest a s e) =
    goes_on (c ∷ w) rest ((and-eq-true_iff _ _).1 (h, a)) s (ap (λ l. c ∷ l) e)

abbrev Meaning : Scan → List ℕ → Type 0
Meaning opening cs = SnakeCase cs
Meaning inside cs = Tail cs
Meaning failed cs = ⊥

scan_sound : (state : Scan) (cs : List ℕ) → is_inside (scan state cs) ≡ true → Meaning state cs
unfolding scan scan_step
scan_sound opening [] h = cc
scan_sound inside [] h = ends refl
scan_sound failed [] h = cc
scan_sound failed (c ∷ cs) h = cc (scan-failed cs)
scan_sound opening (c ∷ cs) h = elim (Bool-cases (is_word_char c)) [
  | inl e ↦ SnakeCase-cons c cs e (scan_sound inside cs (rw e at h))
  | inr e ↦ absurd (scan_sound failed cs (rw e at h))
]
scan_sound inside (c ∷ cs) h = elim (Bool-cases (is_word_char c)) [
  | inl e ↦ Tail-cons c cs e (scan_sound inside cs (rw e at h))
  | inr e ↦ elim (Bool-cases (nat_eq c b'_')) [
    | inl u ↦
        goes_on [] cs refl (scan_sound opening cs (rw (e, u) at h))
          (ap (λ d. d ∷ cs) (ground arith))
    | inr u ↦ absurd (scan_sound failed cs (rw (e, u) at h))
  ]
]

scan-inside_word :
    (w rest : List ℕ) → all is_word_char w ≡ true → scan inside (w ++ rest) ≡ scan inside rest
unfolding scan scan_step
scan-inside_word [] rest h = refl
scan-inside_word (c ∷ w) rest h =
    let (here, later) = (and-eq-true_iff (is_word_char c) (all is_word_char w)).0 h in
    rw (here, scan) (scan-inside_word w rest later)

scan-opening-Word : (w rest : List ℕ) → Word w → scan opening (w ++ rest) ≡ scan inside rest
unfolding scan scan_step
scan-opening-Word [] rest h = absurd h
scan-opening-Word (c ∷ w) rest h =
    let (here, later) = (and-eq-true_iff (is_word_char c) (all is_word_char w)).0 h in
    rw (here, scan) (scan-inside_word w rest later)

scan_complete : {cs : List ℕ} → SnakeCase cs → scan opening cs ≡ inside
unfolding scan scan_step
scan_complete (word {cs} w) = ap (scan opening) (sym (append-nil cs)) ∙ scan-opening-Word cs [] w
scan_complete (joined w rest h s e) =
    ap (scan opening) e ∙ scan-opening-Word w (b'_' ∷ rest) h ∙ scan_complete s

-- The matcher accepts exactly one or more words of a-z and 0-9, joined by single underscores.
pub snake_case_pattern_iff : (cs : List ℕ) → (snake_case_pattern cs ≡ true) ↔ SnakeCase cs
unfolding snake_case_pattern
snake_case_pattern_iff cs = (scan_sound opening cs, λ s. rw (scan_complete s))
