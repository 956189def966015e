-- ===== src/Base/Outcome.antt =====
-- `error` results. Go's `(T, error)` is `Result T`; a function that returns only an error gives
-- `Result Unit`. An error is a `CoreError` of the program or one of the libraries below it.
use Prim.Native.Nat.{ℕ}
use Prim.Native.String.{String}
use mathlib.Core.Path.{◌≡◌, refl}
use mathlib.Core.List.{List}
use mathlib.Core.Logic.{◌⊎◌, inl, inr}

pub record FieldError : Type 0 where
  pub field : String
  pub code : String
  pub message : String

-- The values that the program puts into the `Details` of an error.
pub data Detail : Type 0 where
  field_errors : List FieldError → Detail
  label : String → Detail
  number : ℕ → Detail
  counts : List (String × ℕ) → Detail

pub record CoreError : Type 0 where
  pub status_code : ℕ
  pub error_code : String
  pub message : String
  pub details : List (String × Detail)

pub data Error : Type 0 where
  core : CoreError → Error
  other : String → Error

pub data Result {ℓ} (T : Type ℓ) : Type ℓ where
  err : Error → Result T
  ok : T → Result T

-- `v, err := m; if err != nil { return err }`, and then the rest of the body with `v`. A module
-- whose own bind is another one calls it by this name.
abbrev pub after {ℓ κ} : {T : Type ℓ} {U : Type κ} → Result T → (T → Result U) → Result U
after (err failure) _ = err failure
after (ok v) rest = rest v

-- A `nil` error.
abbrev pub pass : Result (Unit {0})
pass = ok tt

-- The steps of a `do` block.
infixl 5 ◌>>=◌
abbrev pub ◌>>=◌ {ℓ κ} : {T : Type ℓ} {U : Type κ} → Result T → (T → Result U) → Result U
step >>= rest = after step rest

infixl 5 ◌>>◌
abbrev pub ◌>>◌ {ℓ} : {U : Type ℓ} → Result (Unit {0}) → Result U → Result U
check >> rest = after check (λ _. rest)

module _ {ℓ} {A : Type ℓ} where
  pub Result-cases : (r : Result A) → ((a : A) × (r ≡ ok a)) ⊎ ((e : Error) × (r ≡ err e))
  Result-cases (ok a) = inl (a, refl)
  Result-cases (err e) = inr (e, refl)

-- Where a body answers a value, its first statement gave one and the rest answered with it.
pub after-eq-ok {ℓ κ} :
    {T : Type ℓ} {U : Type κ} (first : Result T) (rest : T → Result U) {answer : U}
    → after first rest ≡ ok answer
    → (v : T) × (first ≡ ok v) × (rest v ≡ ok answer)
after-eq-ok (err failure) rest answered = cc answered
after-eq-ok (ok v) rest answered = (v, refl, answered)
