-- ===== src/Tasks/Graph/Greedy.antt =====
-- The order of a task graph, said without degrees and queues: place the first task of the list
-- that is not placed yet and whose dependencies are, as long as there is one.
use smart_build.Prelude.{
  ℕ, zero, suc, ◌+◌, String, Bool, false, not, ◌&&◌, List, [], ◌∷◌, ◌++◌, Option, none, some, ◌≡◌,
  refl, ap, arith, filter, all, length, if◌then◌else◌, beq,
}
use smart_build.Prelude.Remaining.{elem-snoc}
use smart_build.Prelude.Texts.{eq_iff, elem, count}

unfoldable pub first : (String → Bool) → List String → Option String
first p [] = none
first p (i ∷ is) = let rest = first p is in if p i then some i else rest

module _ (deps : String → List String) where
  abbrev pub free : List String → String → Bool
  free done i = not (elem i done) && all (λ d. elem d done) (deps i)

  unfoldable pub greedy : List String → ℕ → List String → List String
  greedy given zero done = done
  greedy given (suc n) done = elim (first (free done) given) [
    | none ↦ done
    | some i ↦ greedy given n (done ++ i ∷ [])
  ]

-- The number of dependencies that are not placed yet.
unfoldable pub open_deps : List String → List String → ℕ
open_deps done [] = 0
open_deps done (d ∷ ds) = let n = open_deps done ds in if elem d done then n else suc n

pub all-open_deps : (done ds : List String) → all (λ d. elem d done) ds ≡ beq (open_deps done ds) 0
unfolding open_deps
all-open_deps done [] = refl
all-open_deps done (d ∷ ds) = ground (arith, all-open_deps done ds)

pub open_deps-snoc :
    (x : String) (done ds : List String)
    → elem x done ≡ false
    → open_deps (done ++ x ∷ []) ds + count x ds ≡ open_deps done ds
unfolding open_deps count
open_deps-snoc x done [] h = omega arith
open_deps-snoc x done (d ∷ ds) h =
    ground (arith, eq_iff d x, eq_iff x d, elem-snoc d x done, open_deps-snoc x done ds h)

pub open_deps-nil : (ds : List String) → open_deps [] ds ≡ length ds
unfolding open_deps elem
open_deps-nil [] = refl
open_deps-nil (d ∷ ds) = ap suc (open_deps-nil ds)

pub first_of_nil : (p : String → Bool) (xs : List String) → filter p xs ≡ [] → first p xs ≡ none
unfolding first
first_of_nil p [] h = refl
first_of_nil p (x ∷ xs) h = ground (arith, first_of_nil p xs)

pub first_of_cons :
    (p : String → Bool) (xs : List String) {x : String} {rest : List String}
    → filter p xs ≡ x ∷ rest
    → first p xs ≡ some x
unfolding first
first_of_cons p [] h = cc
first_of_cons p (y ∷ xs) {x} {rest} h =
    ground (arith, λ (k : filter p xs ≡ x ∷ rest). first_of_cons p xs k)
