-- ===== src/Prelude/Codes.antt =====
-- Bytes, and texts that a program takes apart: lists of code points with the methods of `str` and
-- `bytes` that src/smart_build/domains/ipkg.py calls.
pub mod Trim
pub mod Lines
pub mod Decimal
pub mod Dict
use Prim.Native.Char.{code}
use Prim.Native.Nat.{ℕ, zero, suc, ◌-◌}
use Prim.Native.String.{String}
use mathlib.Core.Path.{◌≡◌, refl, ap}
use mathlib.Core.Logic.{◌↔◌}
use mathlib.Core.Bool.{Bool, true, false, ◌&&◌, ◌||◌}
use mathlib.Core.List.{List, [], ◌∷◌, ◌++◌}
use native.Mathlib.Omega.{arith}
use smart_build.Prelude.Tests.{beq, leb, if◌then◌else◌}
use smart_build.Prelude.Lists.{length, replicate}

abbrev pub Text : Type 0
Text = List ℕ

abbrev pub Bytes : Type 0
Bytes = List ℕ

-- a literal
abbrev pub codes : String → Text
codes String.[] = []
codes (String.◌∷◌ c s) = code c ∷ codes s

-- `s == t`
unfoldable pub same : Text → Text → Bool
same [] [] = true
same [] (d ∷ t) = false
same (c ∷ s) [] = false
same (c ∷ s) (d ∷ t) = beq c d && same s t

-- `c.isspace()`
abbrev pub is_space : ℕ → Bool
is_space c =
    (leb 9 c && leb c 13)
    || (leb 28 c && leb c 32)
    || beq c 0x85
    || beq c 0xA0
    || beq c 0x1680
    || (leb 0x2000 c && leb c 0x200A)
    || beq c 0x2028
    || beq c 0x2029
    || beq c 0x202F
    || beq c 0x205F
    || beq c 0x3000

-- `s.lstrip(…)` and `s.rstrip(…)`, by the characters that are dropped
unfoldable pub lstrip : (ℕ → Bool) → Text → Text
lstrip drops [] = []
lstrip drops (c ∷ s) = elim (drops c) [ true ↦ lstrip drops s | false ↦ c ∷ s ]

abbrev pub keep_unless : (ℕ → Bool) → ℕ → Text → Text
keep_unless drops c [] = if drops c then [] else c ∷ []
keep_unless drops c (d ∷ s) = c ∷ d ∷ s

unfoldable pub rstrip : (ℕ → Bool) → Text → Text
rstrip drops [] = []
rstrip drops (c ∷ s) = keep_unless drops c (rstrip drops s)

-- `s.ljust(width, b" ")`
abbrev pub ljust : ℕ → Text → Text
ljust width s = s ++ replicate (width - length s) b' '

pub same_refl : (s : Text) → same s s ≡ true
unfolding same
same_refl [] = refl
same_refl (c ∷ s) = ground (arith, same_refl s)

pub eq_of_same : (s t : Text) → same s t ≡ true → s ≡ t
unfolding same
eq_of_same [] [] h = refl
eq_of_same [] (d ∷ t) h = cc
eq_of_same (c ∷ s) [] h = cc
eq_of_same (c ∷ s) (d ∷ t) h = ground (arith, eq_of_same s t)

pub same_iff : (s t : Text) → (same s t ≡ true) ↔ (s ≡ t)
same_iff s t = (eq_of_same s t, λ e. rw e (same_refl t))

-- equality of lists of texts
unfoldable pub same_all : List Text → List Text → Bool
unfolding same
same_all [] [] = true
same_all [] (t ∷ ts) = false
same_all (s ∷ ss) [] = false
same_all (s ∷ ss) (t ∷ ts) = same s t && same_all ss ts

pub same_all_iff : (ss ts : List Text) → (same_all ss ts ≡ true) ↔ (ss ≡ ts)
unfolding same_all
same_all_iff [] [] = ground arith
same_all_iff [] (t ∷ ts) = ground arith
same_all_iff (s ∷ ss) [] = ground arith
same_all_iff (s ∷ ss) (t ∷ ts) = ground (arith, same_iff s t, same_all_iff ss ts)
