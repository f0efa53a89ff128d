-- ===== src/Prelude/Texts.antt =====
-- Lists of texts as sets and multisets, and dictionaries with text keys as functions.
use Prim.Native.Nat.{ℕ, suc, ◌+◌, ◌≤◌}
use Prim.Native.String.{String}
use mathlib.Core.Path.{◌≡◌, refl, subst}
use mathlib.Core.Logic.{inl, inr}
use mathlib.Core.Bool.{Bool, true, false, ◌||◌}
use mathlib.Core.List.{List, [], ◌∷◌, ◌++◌}
use native.Mathlib.Omega.{arith}
use smart_build.Prelude.Lists.{All}
use smart_build.Prelude.Tests.{Bool-cases, ltb, if◌then◌else◌}
pub use text.Mathlib.Text.{◌==◌}
pub use text.Mathlib.TextEquality.{eq_iff}
pub use text.Mathlib.TextPositions.{eq_refl}

-- `x in xs`
unfoldable pub elem : String → List String → Bool
elem x [] = false
elem x (y ∷ ys) = y == x || elem x ys

-- `xs.count(x)`
unfoldable pub count : String → List String → ℕ
count x [] = 0
count x (y ∷ ys) = let n = count x ys in if y == x then suc n else n

-- `d[k] = v`
unfoldable pub update {ℓ} : {V : Type ℓ} → (String → V) → String → V → String → V
update d k v j = if k == j then v else d j

pub elem-count : (x : String) (xs : List String) → elem x xs ≡ ltb 0 (count x xs)
unfolding elem count
elem-count x [] = refl
elem-count x (y ∷ ys) = ground (arith, elem-count x ys)

pub elem-append : (x : String) (xs ys : List String) → elem x (xs ++ ys) ≡ (elem x xs || elem x ys)
unfolding elem
elem-append x [] ys = refl
elem-append x (z ∷ xs) ys = ground (arith, elem-append x xs ys)

pub count-append : (x : String) (xs ys : List String) → count x (xs ++ ys) ≡ count x xs + count x ys
unfolding count
count-append x [] ys = omega arith
count-append x (z ∷ xs) ys = ground (arith, count-append x xs ys)

-- No text occurs twice.
abbrev pub Distinct : List String → Type 0
Distinct xs = (x : String) → count x xs ≤ 1

pub Distinct-tail : (x : String) (xs : List String) → Distinct (x ∷ xs) → Distinct xs
unfolding count
Distinct-tail x xs d = λ j. ground (arith, d j)

pub Distinct-head : (x : String) (xs : List String) → Distinct (x ∷ xs) → elem x xs ≡ false
unfolding count
Distinct-head x xs d = ground (arith, d x, eq_refl x, elem-count x xs)

pub All-of_elem {κ} :
    (P : String → Type κ) (xs : List String) → ((i : String) → elem i xs ≡ true → P i) → All P xs
unfolding elem
All-of_elem P [] h = tt
All-of_elem P (x ∷ xs) h = (h x (rw eq_refl), All-of_elem P xs (λ i m. h i (ground (arith, m))))

pub elem-All {κ} :
    (P : String → Type κ) (xs : List String) (i : String) → All P xs → elem i xs ≡ true → P i
unfolding elem
elem-All P [] i h m = cc
elem-All P (x ∷ xs) i (px, h) m = elim (Bool-cases (x == i)) [
  | inl same ↦ subst P ((eq_iff x i).0 same) px
  | inr differ ↦ elem-All P xs i h (rw differ at m)
]

pub Distinct-cons :
    (x : String) (xs : List String) → elem x xs ≡ false → Distinct xs → Distinct (x ∷ xs)
unfolding count
Distinct-cons x xs absent d = λ j. ground (arith, d j, elem-count x xs, eq_iff x j)

pub Distinct-nil : Distinct []
unfolding count
Distinct-nil = λ j. omega arith
