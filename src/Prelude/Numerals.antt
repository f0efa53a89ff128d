-- ===== src/Prelude/Numerals.antt =====
-- Decimal numerals, and texts that are joined and repeated.
use Prim.Native.Nat.{ℕ, zero, suc, ◌/◌, ◌%◌}
use Prim.Native.String.{String, ◌++◌ as ◌⧺◌}
use mathlib.Core.List.{List, [], ◌∷◌}
use smart_build.Prelude.Tests.{ltb, if◌then◌else◌}

abbrev digits : List String
digits = "0" ∷ "1" ∷ "2" ∷ "3" ∷ "4" ∷ "5" ∷ "6" ∷ "7" ∷ "8" ∷ "9" ∷ []

nth : List String → ℕ → String
nth [] n = ""
nth (x ∷ xs) zero = x
nth (x ∷ xs) (suc n) = nth xs n

numeral : ℕ → ℕ → String
unfolding nth
numeral zero n = ""
numeral (suc fuel) n =
    let rest = numeral fuel (n / 10) in
    if ltb n 10 then nth digits n else rest ⧺ nth digits (n % 10)

-- `str(n)`
unfoldable pub show : ℕ → String
unfolding numeral
show n = numeral (suc n) n

-- `separator.join(xs)`
unfoldable pub join : String → List String → String
join separator [] = ""
join separator (x ∷ []) = x
join separator (x ∷ y ∷ ys) = x ⧺ separator ⧺ join separator (y ∷ ys)

-- `text * n`
unfoldable pub repeat : String → ℕ → String
repeat text zero = ""
repeat text (suc n) = text ⧺ repeat text n
