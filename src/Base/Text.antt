-- ===== src/Base/Text.antt =====
-- Text: concatenation, code points, decimal numerals.
use Prim.Native.Nat.{ℕ, zero, suc, ◌/◌, ◌%◌}
use Prim.Native.Char.{code}
use Prim.Native.String
use Prim.Native.String.{String}
use mathlib.Core.Path.{◌≡◌, refl}
use mathlib.Core.Bool.{Bool, false, ◌||◌}
use mathlib.Core.List.{List, [], ◌∷◌}
use text.Mathlib.Text.{◌==◌}
use atlas_c.Base.Tests.{ltb, if◌then◌else◌}

infixr 65 ◌<>◌
abbrev pub ◌<>◌ : String → String → String
s <> t = String.◌++◌ s t

-- The code points of a text.
abbrev pub codes : String → List ℕ
codes String.[] = []
codes (String.◌∷◌ c s) = code c ∷ codes s

abbrev digit : ℕ → String
digit zero = "0"
digit (suc zero) = "1"
digit (suc (suc zero)) = "2"
digit (suc (suc (suc zero))) = "3"
digit (suc (suc (suc (suc zero)))) = "4"
digit (suc (suc (suc (suc (suc zero))))) = "5"
digit (suc (suc (suc (suc (suc (suc zero)))))) = "6"
digit (suc (suc (suc (suc (suc (suc (suc zero))))))) = "7"
digit (suc (suc (suc (suc (suc (suc (suc (suc zero)))))))) = "8"
digit (suc (suc (suc (suc (suc (suc (suc (suc (suc n))))))))) = "9"

-- `%d` of a number that is not negative; the fuel bounds the number of digits.
decimal_from : ℕ → ℕ → String → String
decimal_from zero n rest = rest
decimal_from (suc fuel) n rest =
    let out = digit (n % 10) <> rest in
    let more = decimal_from fuel (n / 10) out in if ltb n 10 then out else more

-- Twenty digits hold every 64-bit number.
unfoldable pub decimal : ℕ → String
unfolding decimal_from
decimal n = decimal_from 20 n ""

-- model.ContainsString
unfoldable pub contains_string : List String → String → Bool
contains_string [] want = false
contains_string (value ∷ values) want = value == want || contains_string values want

decimal_example : decimal 1204 ≡ "1204"
unfolding decimal
decimal_example = refl
