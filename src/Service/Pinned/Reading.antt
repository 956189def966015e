-- ===== src/Service/Pinned/Reading.antt =====
-- The capped read of a stored command catalog gives all bytes of its file.
use mathlib.Core.Path.{subst}
use atlas_c.Base.{
  ℕ, zero, suc, ◌≡◌, ◌≤◌, refl, sym, ap, ◌∙◌, leb, leb→le, ◌∷◌, take, List, [], length, ltb, ◌==◌,
  inl, inr, Bool-cases, Option-cases, Result-cases, ok, err, core, other, arith, ◌+◌,
}
use atlas_c.Store.Files.{Reader, read_limited}
use atlas_c.Service.Pinned.{max_pinned_catalog_bytes, read_all_capped, read_pinned}

take-cut : (n : ℕ) (xs : List ℕ) → n ≤ length xs → length (take n xs) ≡ n
take-cut zero xs h = refl
take-cut (suc n) [] h = absurd (omega arith)
take-cut (suc n) (x ∷ xs) h = ap suc (take-cut n xs (omega arith))

-- A read that stays below the cap has met the end of the file.
read_limited-whole :
    (max : ℕ) (r : Reader) (buf : List ℕ)
    → read_limited (max + 1) r ≡ ok buf
    → length buf ≤ max
    → buf ≡ r.bytes
unfolding read_limited
read_limited-whole max r buf h small = elim (Bool-cases (leb (max + 1) (length r.bytes))) [
  | inl cut ↦
      let it : ok (take (max + 1) r.bytes) ≡ ok buf = rw (cut, read_limited) at h in
      let it' : take (max + 1) r.bytes ≡ buf = cc it in
      let long : length buf ≡ max + 1 =
        ap length (sym it') ∙ take-cut (max + 1) r.bytes (leb→le _ _ cut) in
      absurd (omega arith)
  | inr rest ↦ elim (Option-cases r.failure) [
    | inl ends ↦
        let it : ok r.bytes ≡ ok buf = rw (rest, ends, read_limited) at h in
        let it' : r.bytes ≡ buf = cc it in sym it'
    | inr (e, fails) ↦ let bad : err e ≡ ok buf = rw (rest, fails, read_limited) at h in cc bad
  ]
]

read_all_capped-whole :
    (r : Reader) (max : ℕ) (raw : List ℕ)
    → read_all_capped r max ≡ ok raw
    → (raw ≡ r.bytes) × (length raw ≤ max)
unfolding read_all_capped
read_all_capped-whole r max raw h = elim (Result-cases (read_limited (max + 1) r)) [
  | inr (e, failed) ↦ let bad : err e ≡ ok raw = rw (failed, read_all_capped) at h in cc bad
  | inl (buf, read) ↦ elim (Bool-cases (ltb max (length buf))) [
    | inl over ↦ let bad : err _ ≡ ok raw = rw (read, over, read_all_capped) at h in cc bad
    | inr fits ↦
        let it : ok buf ≡ ok raw = rw (read, fits, read_all_capped) at h in
        let it' : buf ≡ raw = cc it in
        let small : length buf ≤ max = ground (arith, fits) in
        subst (λ l. (l ≡ r.bytes) × (length l ≤ max)) it'
          (read_limited-whole max r buf read small, small)
  ]
]

-- What is read from the stored file is all of it, and no more than the cap.
pub read_pinned-whole :
    (r : Reader) (raw : List ℕ)
    → read_pinned r ≡ ok raw
    → (raw ≡ r.bytes) × (length raw ≤ max_pinned_catalog_bytes)
unfolding read_pinned
read_pinned-whole r raw h = elim (Result-cases (read_all_capped r max_pinned_catalog_bytes)) [
  | inl (got, e) ↦
      let it : ok got ≡ ok raw = rw (e, read_pinned) at h in
      let it' : got ≡ raw = cc it in
      subst (λ l. (l ≡ r.bytes) × (length l ≤ max_pinned_catalog_bytes)) it'
        (read_all_capped-whole r max_pinned_catalog_bytes got e)
  | inr (core e, failed) ↦ elim (Bool-cases (e.error_code == "payload_too_large")) [
    | inl large ↦ let bad : err _ ≡ ok raw = rw (failed, large, read_pinned) at h in cc bad
    | inr small ↦ let bad : err _ ≡ ok raw = rw (failed, small, read_pinned) at h in cc bad
  ]
  | inr (other text, failed) ↦ let bad : err _ ≡ ok raw = rw (failed, read_pinned) at h in cc bad
]
